-- ===== src/Keystore/Payload/RoundTrip.antt =====
-- decode_cbor_payload of src/wp11_keystore.c on what encode_cbor_payload writes.
use wolf_p.Prelude.{
  ℕ, suc, ◌≤◌, ◌<◌, ◌^◌, ◌≡◌, refl, ap, ◌∙◌, true, Option, none, some, List, [], ◌∷◌, ◌++◌, length,
  drop, drop-length-append, arith, ok,
}
use mathlib.Core.List.{append_assoc}
use wolf_p.Keystore.{KeyEntry, Memory, label_max, der_max, cert_max, key_type_ec, max_entries}
use wolf_p.Keystore.Cbor.{major_uint, major_text, major_bytes, major_array, major_map}
use wolf_p.Keystore.Cbor.Heads.{
  head_bytes, string_bytes, NoZero, read_head-head_bytes, string_parts, read_text-string_bytes,
  read_bytes_fixed-string_bytes, read_bytes_alloc-string_bytes,
}
use wolf_p.Keystore.Payload.{
  name_id, name_label, name_key_type, name_der, name_cert, Partial, no_fields, read_key_type,
  read_cert, read_field, read_pair, read_pairs, finish, read_entry, read_entries, decode_payload,
  pair_count,
}
use wolf_p.Keystore.Payload.Written.{
  IsEntry, AreEntries, cert_bytes, entry_bytes, entries_bytes, payload_bytes, pair_count-lt,
}

-- Memory never runs out.
abbrev pub Enough : Memory → Type 0
Enough mem = (left n : ℕ) → (mem.malloc_ok left n ≡ true) × (mem.mlock_ok left n ≡ true)

-- Bytes behind those just read.
drop_read : (a b rest : List ℕ) → drop (length a) (a ++ (b ++ rest)) ≡ b ++ rest
drop_read a b rest = drop-length-append a (b ++ rest)

-- A pair whose name and value are read.
read_pair-append :
    (mem : Memory) (name value rest : List ℕ) (p p' : Partial)
    → NoZero name
    → length name < 32
    → read_field mem name (value ++ rest) p ≡ ok (p', length value)
    → read_pair mem (string_bytes major_text name ++ (value ++ rest)) p ≡ ok (p', rest)
unfolding read_pair
read_pair-append mem name value rest p p' clean short field =
    let text = read_text-string_bytes 32 name (value ++ rest) clean short (omega arith) in
    let after_name = drop-length-append (string_bytes major_text name) (value ++ rest) in
    let after_value = drop-length-append value rest in
    ground (arith, text, after_name, after_value, field)

read_pairs_step :
    (mem : Memory) (n : ℕ) (rest rest' : List ℕ) (p p' : Partial)
    → read_pair mem rest p ≡ ok (p', rest')
    → read_pairs mem (suc n) rest p ≡ read_pairs mem n rest' p'
unfolding read_pairs
read_pairs_step mem n rest rest' p p' e = ground (arith, e)

module _ (mem : Memory) (enough : Enough mem) where
  id_field :
      (v rest : List ℕ) (p : Partial)
      → length v ≡ 16
      → read_pair mem (string_bytes major_text name_id ++ (string_bytes major_bytes v ++ rest)) p
        ≡ ok (record p { id = some v }, rest)
  unfolding read_field
  id_field v rest p h =
      read_pair-append mem name_id (string_bytes major_bytes v) rest p (record p { id = some v })
        (ground arith) (omega arith)
        (ground (arith, read_bytes_fixed-string_bytes 16 v rest h (omega arith)))

  label_field :
      (v rest : List ℕ) (p : Partial)
      → NoZero v
      → length v ≤ label_max
      → read_pair mem (string_bytes major_text name_label ++ (string_bytes major_text v ++ rest)) p
        ≡ ok (record p { label = some v }, rest)
  unfolding read_field
  label_field v rest p clean h =
      read_pair-append mem name_label (string_bytes major_text v) rest p
        (record p { label = some v }) (ground arith) (omega arith)
        (ground (arith, read_text-string_bytes 65 v rest clean (omega arith) (omega arith)))

  key_type_field :
      (v : ℕ) (rest : List ℕ) (p : Partial)
      → v ≤ key_type_ec
      → read_pair mem (string_bytes major_text name_key_type ++ (head_bytes major_uint v ++ rest)) p
        ≡ ok (record p { key_type = some v }, rest)
  unfolding read_field read_key_type
  key_type_field v rest p h =
      read_pair-append mem name_key_type (head_bytes major_uint v) rest p
        (record p { key_type = some v }) (ground arith) (omega arith)
        (ground (arith, read_head-head_bytes major_uint v rest (omega arith) (omega arith)))

  der_field :
      (v rest : List ℕ) (p : Partial)
      → length v ≤ der_max
      → read_pair mem (string_bytes major_text name_der ++ (string_bytes major_bytes v ++ rest)) p
        ≡ ok (record p { der = some v }, rest)
  unfolding read_field
  der_field v rest p h =
      read_pair-append mem name_der (string_bytes major_bytes v) rest p (record p { der = some v })
        (ground arith) (omega arith)
        (ground (arith, read_bytes_alloc-string_bytes mem v rest h enough))

  cert_field :
      (v rest : List ℕ) (p : Partial)
      → length v ≤ cert_max
      → read_pair mem (string_bytes major_text name_cert ++ (string_bytes major_bytes v ++ rest)) p
        ≡ ok (record p { cert = some v }, rest)
  unfolding read_field read_cert
  cert_field v rest p h =
      let (head, part, inside, size) =
        string_parts major_bytes v rest (omega arith) (omega arith) in
      let (got, locked) = enough (length (string_bytes major_bytes v ++ rest)) (length v) in
      read_pair-append mem name_cert (string_bytes major_bytes v) rest p
        (record p { cert = some v }) (ground arith) (omega arith)
        (ground (arith, head, part, inside, size, got))

  -- The pairs of an entry's map, with what follows the entry.
  pairs : KeyEntry → List ℕ → List ℕ
  pairs e rest =
      string_bytes major_text name_id
      ++ (string_bytes major_bytes e.id
          ++ (string_bytes major_text name_label
              ++ (string_bytes major_text e.label
                  ++ (string_bytes major_text name_key_type
                      ++ (head_bytes major_uint e.key_type
                          ++ (string_bytes major_text name_der
                              ++ (string_bytes major_bytes e.der
                                  ++ (cert_bytes e.cert ++ rest))))))))

  entry_bytes-pairs :
      (e : KeyEntry) (rest : List ℕ)
      → entry_bytes e ++ rest ≡ head_bytes major_map (pair_count e.cert) ++ pairs e rest
  unfolding entry_bytes pairs
  entry_bytes-pairs e rest = simp append_assoc refl

  -- The entry with its four required fields read.
  required : KeyEntry → Partial
  required e = record {
    id = some e.id;
    label = some e.label;
    key_type = some e.key_type;
    der = some e.der;
    cert = none;
  }

  read_pairs-required :
      (e : KeyEntry) (n : ℕ) (rest : List ℕ)
      → IsEntry e
      → read_pairs mem (suc (suc (suc (suc n)))) (pairs e rest) no_fields
        ≡ read_pairs mem n (cert_bytes e.cert ++ rest) (required e)
  unfolding pairs required
  read_pairs-required e n rest h =
      read_pairs_step mem _ _ _ _ _ (id_field e.id _ no_fields h.id_size)
      ∙ read_pairs_step mem _ _ _ _ _ (label_field e.label _ _ h.label_text h.label_size)
      ∙ read_pairs_step mem _ _ _ _ _ (key_type_field e.key_type _ _ h.known_type)
      ∙ read_pairs_step mem _ _ _ _ _ (der_field e.der _ _ h.der_size)

  read_pairs-cert :
      (c : Option (List ℕ)) (rest : List ℕ) (p : Partial)
      → p.cert ≡ none
      → ((d : List ℕ) → c ≡ some d → length d ≤ cert_max)
      → (n : ℕ) × (pair_count c ≡ suc (suc (suc (suc n))))
        × (read_pairs mem n (cert_bytes c ++ rest) p ≡ ok (record p { cert = c }, rest))
  unfolding pair_count cert_bytes read_pairs
  read_pairs-cert none rest p e h = (0, refl, ground (arith, e))
  read_pairs-cert (some c) rest p e h =
      let whole : (string_bytes major_text name_cert ++ string_bytes major_bytes c) ++ rest
          ≡ string_bytes major_text name_cert ++ (string_bytes major_bytes c ++ rest) =
        append_assoc (string_bytes major_text name_cert) (string_bytes major_bytes c) rest in
      (1, refl, ground (arith, whole, cert_field c rest p (h c refl)))

  read_entry-entry_bytes :
      (e : KeyEntry) (rest : List ℕ)
      → IsEntry e
      → read_entry mem (entry_bytes e ++ rest) ≡ ok (e, rest)
  unfolding read_entry finish required
  read_entry-entry_bytes e rest h =
      let (n, count, last) = read_pairs-cert e.cert rest (required e) refl h.cert_size in
      let body = pairs e rest in
      let small : pair_count e.cert < 2 ^ 32 = pair_count-lt e.cert in
      let head = read_head-head_bytes major_map (pair_count e.cert) body (omega arith) small in
      let behind = drop-length-append (head_bytes major_map (pair_count e.cert)) body in
      let all : read_pairs mem (pair_count e.cert) body no_fields
          ≡ ok (record (required e) { cert = e.cert }, rest) =
        ap (λ k. read_pairs mem k body no_fields) count ∙ read_pairs-required e n rest h ∙ last in
      ap (read_entry mem) (entry_bytes-pairs e rest) ∙ ground (arith, head, behind, all)

  read_entries-entries_bytes :
      (es : List KeyEntry) (rest : List ℕ)
      → AreEntries es
      → read_entries mem (length es) (entries_bytes es ++ rest) ≡ ok es
  unfolding read_entries entries_bytes
  read_entries-entries_bytes [] rest h = refl
  read_entries-entries_bytes (e ∷ es) rest (h, hs) =
      let whole = append_assoc (entry_bytes e) (entries_bytes es) rest in
      let one = ap (read_entry mem) whole ∙ read_entry-entry_bytes e (entries_bytes es ++ rest) h in
      ground (arith, one, read_entries-entries_bytes es rest hs)

  -- If memory never runs out, the decoder reads back the at most 64 entries of a payload that the
  -- encoder writes, whatever follows it.
  pub decode_payload-payload_bytes :
      (keys : List KeyEntry) (rest : List ℕ)
      → AreEntries keys
      → length keys ≤ max_entries
      → decode_payload mem (payload_bytes keys ++ rest) ≡ ok keys
  unfolding decode_payload payload_bytes
  decode_payload-payload_bytes keys rest h few =
      let head = head_bytes major_array (length keys) in
      let whole = append_assoc head (entries_bytes keys) rest in
      let first =
        read_head-head_bytes major_array (length keys) (entries_bytes keys ++ rest) (omega arith)
          (omega arith) in
      let behind = drop-length-append head (entries_bytes keys ++ rest) in
      ap (decode_payload mem) whole
      ∙ ground (arith, first, behind, read_entries-entries_bytes keys rest h)
