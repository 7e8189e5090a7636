-- ===== src/Keystore/Payload.antt =====
-- decode_cbor_payload and encode_cbor_payload of src/wp11_keystore.c: the key entries as a CBOR array
-- of maps.
pub mod Written
pub mod RoundTrip
pub mod Bounds
pub mod Fields
pub mod Accepted
use wolf_p.Prelude.{
  ℕ, zero, suc, ◌+◌, ◌-◌, Bool, true, false, not, ◌&&◌, ◌||◌, Option, none, some, List, [], ◌∷◌,
  ◌++◌, ltb, ◌==◌, if◌then◌else◌, length, take, drop, same_bytes, Result, ok, err, bind,
}
use wolf_p.Keystore.{
  KsErr, nomem, cbor, label_max, cert_max, max_entries, key_type_rsa, key_type_ec, KeyEntry, Memory,
}
use wolf_p.Keystore.Cbor.{
  read_head, read_text, read_bytes_alloc, read_bytes_fixed, skip, max_depth, write_head, write_text,
  write_bytes, major_uint, major_bytes, major_array, major_map,
}

-- "id", "label", "key_type", "der_bytes" and "cert_bytes".
abbrev pub name_id : List ℕ
name_id = 105 ∷ 100 ∷ []

abbrev pub name_label : List ℕ
name_label = 108 ∷ 97 ∷ 98 ∷ 101 ∷ 108 ∷ []

abbrev pub name_key_type : List ℕ
name_key_type = 107 ∷ 101 ∷ 121 ∷ 95 ∷ 116 ∷ 121 ∷ 112 ∷ 101 ∷ []

abbrev pub name_der : List ℕ
name_der = 100 ∷ 101 ∷ 114 ∷ 95 ∷ 98 ∷ 121 ∷ 116 ∷ 101 ∷ 115 ∷ []

abbrev pub name_cert : List ℕ
name_cert = 99 ∷ 101 ∷ 114 ∷ 116 ∷ 95 ∷ 98 ∷ 121 ∷ 116 ∷ 101 ∷ 115 ∷ []

-- An entry while its map is read: `none` is a field without its `has_` flag.
pub record Partial : Type 0 where
  pub id : Option (List ℕ)
  pub label : Option (List ℕ)
  pub key_type : Option ℕ
  pub der : Option (List ℕ)
  pub cert : Option (List ℕ)

-- The entry after `memset`.
abbrev pub no_fields : Partial
no_fields = record { id = none; label = none; key_type = none; der = none; cert = none }

-- The value of "key_type".
unfoldable pub read_key_type : List ℕ → Result KsErr (ℕ × ℕ)
read_key_type rest = bind (read_head rest) λ (major, val, n).
    if not (major == major_uint)
    then err cbor
    else if not (val == key_type_rsa) && not (val == key_type_ec)
    then err cbor
    else ok (val, n)

-- The value of "cert_bytes".
unfoldable pub read_cert : Memory → List ℕ → Result KsErr (List ℕ × ℕ)
read_cert mem rest = bind (read_head rest) λ (major, blen, head).
    if not (major == major_bytes) || ltb cert_max blen
    then err cbor
    else if ltb (length rest) (head + blen)
    then err cbor
    else if not (mem.malloc_ok (length rest) blen)
    then err nomem
    else ok (take blen (drop head rest), head + blen)

-- The dispatch on the key's name, with the number of bytes that the value takes.
unfoldable pub read_field : Memory → List ℕ → List ℕ → Partial → Result KsErr (Partial × ℕ)
read_field mem name rest p =
    if same_bytes name name_id
    then bind (read_bytes_fixed 16 rest) (λ (v, n). ok (record p { id = some v }, n))
    else if same_bytes name name_label
    then bind (read_text (label_max + 1) rest) (λ (v, n). ok (record p { label = some v }, n))
    else if same_bytes name name_key_type
    then bind (read_key_type rest) (λ (v, n). ok (record p { key_type = some v }, n))
    else if same_bytes name name_der
    then bind (read_bytes_alloc mem rest) (λ (v, n). ok (record p { der = some v }, n))
    else if same_bytes name name_cert
    then bind (read_cert mem rest) (λ (v, n). ok (record p { cert = some v }, n))
    else bind (skip (max_depth + 1) rest) (λ n. ok (p, n))

-- One pair of the map, with the bytes behind it.
unfoldable pub read_pair : Memory → List ℕ → Partial → Result KsErr (Partial × List ℕ)
read_pair mem rest p =
    bind (read_text 32 rest) λ (name, n).
      bind (read_field mem name (drop n rest) p) λ (p', m). ok (p', drop m (drop n rest))

unfoldable pub read_pairs : Memory → ℕ → List ℕ → Partial → Result KsErr (Partial × List ℕ)
read_pairs mem zero rest p = ok (p, rest)
read_pairs mem (suc n) rest p = bind (read_pair mem rest p) λ (p', rest'). read_pairs mem n rest' p'

-- The four required fields.
unfoldable pub finish : Partial → Result KsErr KeyEntry
finish p = elim p.id [
  | none ↦ err cbor
  | some id ↦ elim p.label [
    | none ↦ err cbor
    | some label ↦ elim p.key_type [
      | none ↦ err cbor
      | some key_type ↦ elim p.der [
        | none ↦ err cbor
        | some der ↦
            ok (record { id = id; label = label; key_type = key_type; der = der; cert = p.cert })
      ]
    ]
  ]
]

unfoldable pub read_entry : Memory → List ℕ → Result KsErr (KeyEntry × List ℕ)
read_entry mem rest = bind (read_head rest) λ (major, npairs, n).
    if not (major == major_map)
    then err cbor
    else bind (read_pairs mem npairs (drop n rest) no_fields)
        (λ (p, rest'). bind (finish p) λ e. ok (e, rest'))

unfoldable pub read_entries : Memory → ℕ → List ℕ → Result KsErr (List KeyEntry)
read_entries mem zero rest = ok []
read_entries mem (suc n) rest =
    bind (read_entry mem rest) λ (e, rest'). bind (read_entries mem n rest') λ es. ok (e ∷ es)

-- `decode_cbor_payload`. Bytes behind the array are not looked at.
unfoldable pub decode_payload : Memory → List ℕ → Result KsErr (List KeyEntry)
decode_payload mem plain = bind (read_head plain) λ (major, nentries, n).
    if not (major == major_array)
    then err cbor
    else if ltb max_entries nentries
    then err cbor
    else read_entries mem nentries (drop n plain)

-- One write after another: `pos += n`.
infixr 4 ◌then_write◌
abbrev pub ◌then_write◌ : (ℕ → Option (List ℕ)) → (ℕ → Option (List ℕ)) → ℕ → Option (List ℕ)
(v then_write w) room = elim (v room) [
  | none ↦ none
  | some a ↦ elim (w (room - length a)) [ none ↦ none | some b ↦ some (a ++ b) ]
]

unfoldable pub write_cert : Option (List ℕ) → ℕ → Option (List ℕ)
write_cert none = λ room. some []
write_cert (some c) = write_text name_cert then_write write_bytes c

unfoldable pub pair_count : Option (List ℕ) → ℕ
pair_count none = 4
pair_count (some c) = 5

unfoldable pub write_entry : KeyEntry → ℕ → Option (List ℕ)
write_entry e =
    write_head major_map (pair_count e.cert)
    then_write write_text name_id
    then_write write_bytes e.id
    then_write write_text name_label
    then_write write_text e.label
    then_write write_text name_key_type
    then_write write_head major_uint e.key_type
    then_write write_text name_der
    then_write write_bytes e.der
    then_write write_cert e.cert

unfoldable pub write_entries : List KeyEntry → ℕ → Option (List ℕ)
write_entries [] = λ room. some []
write_entries (e ∷ es) = write_entry e then_write write_entries es

-- `encode_cbor_payload` into a buffer of `buflen` bytes.
unfoldable pub encode_payload : ℕ → List KeyEntry → Result KsErr (List ℕ)
encode_payload buflen keys =
    elim ((write_head major_array (length keys) then_write write_entries keys) buflen) [
      | none ↦ err cbor
      | some bytes ↦ ok bytes
    ]
