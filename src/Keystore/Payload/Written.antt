-- ===== src/Keystore/Payload/Written.antt =====
-- The bytes that encode_cbor_payload of src/wp11_keystore.c writes.
use wolf_p.Prelude.{
  ℕ, ◌-◌, ◌≤◌, ◌<◌, ◌^◌, ◌≡◌, refl, ap, Option, none, some, List, [], ◌∷◌, ◌++◌, length,
  length-append, arith, Result, ok, err,
}
use wolf_p.Keystore.{KsErr, cbor, KeyEntry, label_max, der_max, cert_max, key_type_ec, max_entries}
use wolf_p.Keystore.Cbor.{
  put, write_head, write_text, write_bytes, major_uint, major_text, major_bytes, major_array,
  major_map,
}
use wolf_p.Keystore.Cbor.Heads.{head_bytes, string_bytes, write_head-put, write_string-put, NoZero}
use wolf_p.Keystore.Payload.{
  name_id, name_label, name_key_type, name_der, name_cert, ◌then_write◌, write_cert, pair_count,
  write_entry, write_entries, encode_payload,
}

-- What the format holds of an entry: the sizes of its fields, and a label that is a C string.
pub record IsEntry (e : KeyEntry) : Type 0 where
  pub id_size : length e.id ≡ 16
  pub label_size : length e.label ≤ label_max
  pub label_text : NoZero e.label
  pub known_type : e.key_type ≤ key_type_ec
  pub der_size : length e.der ≤ der_max
  pub cert_size : (c : List ℕ) → e.cert ≡ some c → length c ≤ cert_max

abbrev pub AreEntries : List KeyEntry → Type 0
AreEntries [] = Unit {0}
AreEntries (e ∷ es) = IsEntry e × AreEntries es

-- The bytes of a certificate's pair, of an entry and of a list of entries.
unfoldable pub cert_bytes : Option (List ℕ) → List ℕ
cert_bytes none = []
cert_bytes (some c) = string_bytes major_text name_cert ++ string_bytes major_bytes c

unfoldable pub entry_bytes : KeyEntry → List ℕ
entry_bytes e =
    head_bytes major_map (pair_count e.cert)
    ++ (string_bytes major_text name_id
        ++ (string_bytes major_bytes e.id
            ++ (string_bytes major_text name_label
                ++ (string_bytes major_text e.label
                    ++ (string_bytes major_text name_key_type
                        ++ (head_bytes major_uint e.key_type
                            ++ (string_bytes major_text name_der
                                ++ (string_bytes major_bytes e.der ++ cert_bytes e.cert))))))))

unfoldable pub entries_bytes : List KeyEntry → List ℕ
entries_bytes [] = []
entries_bytes (e ∷ es) = entry_bytes e ++ entries_bytes es

unfoldable pub payload_bytes : List KeyEntry → List ℕ
payload_bytes keys = head_bytes major_array (length keys) ++ entries_bytes keys

-- A writer writes the bytes `b` if they fit the room, and else fails.
abbrev Writes : (ℕ → Option (List ℕ)) → List ℕ → Type 0
Writes w b = (room : ℕ) → w room ≡ put b room

then-Writes :
    (v w : ℕ → Option (List ℕ)) (a b : List ℕ)
    → Writes v a
    → Writes w b
    → Writes (v then_write w) (a ++ b)
then-Writes v w a b first second room =
    ground (arith, first room, second (room - length a), length-append a b)

write_nothing : Writes (λ room. some []) []
write_nothing room = ground arith

text-Writes : (b : List ℕ) → length b < 2 ^ 32 → Writes (write_text b) (string_bytes major_text b)
text-Writes b h room = write_string-put major_text b room (omega arith) h

bytes-Writes :
    (b : List ℕ) → length b < 2 ^ 32 → Writes (write_bytes b) (string_bytes major_bytes b)
bytes-Writes b h room = write_string-put major_bytes b room (omega arith) h

cert-Writes :
    (c : Option (List ℕ))
    → ((d : List ℕ) → c ≡ some d → length d ≤ cert_max)
    → Writes (write_cert c) (cert_bytes c)
unfolding write_cert cert_bytes
cert-Writes none h = write_nothing
cert-Writes (some c) h =
    then-Writes (write_text name_cert) (write_bytes c) _ _ (text-Writes name_cert (omega arith))
      (bytes-Writes c (omega (arith, h c refl)))

pub pair_count-lt : (c : Option (List ℕ)) → pair_count c < 2 ^ 32
unfolding pair_count
pair_count-lt none = omega arith
pair_count-lt (some c) = omega arith

entry-Writes : (e : KeyEntry) → IsEntry e → Writes (write_entry e) (entry_bytes e)
unfolding write_entry entry_bytes pair_count
entry-Writes e h =
    let pairs : pair_count e.cert < 2 ^ 32 = pair_count-lt e.cert in
    then-Writes (write_head major_map (pair_count e.cert)) _ _ _
      (λ room. write_head-put major_map (pair_count e.cert) room (omega arith) pairs)
      (then-Writes (write_text name_id) _ _ _ (text-Writes name_id (omega arith)) (
        then-Writes (write_bytes e.id) _ _ _ (bytes-Writes e.id (omega (arith, h.id_size))) (
          then-Writes (write_text name_label) _ _ _ (text-Writes name_label (omega arith)) (
            then-Writes (write_text e.label) _ _ _
              (text-Writes e.label (omega (arith, h.label_size)))
              (then-Writes (write_text name_key_type) _ _ _
                (text-Writes name_key_type (omega arith))
                (then-Writes (write_head major_uint e.key_type) _ _ _
                  (λ room.
                    write_head-put major_uint e.key_type room (omega arith)
                      (omega (arith, h.known_type)))
                  (then-Writes (write_text name_der) _ _ _ (text-Writes name_der (omega arith)) (
                    then-Writes (write_bytes e.der) _ _ _
                      (bytes-Writes e.der (omega (arith, h.der_size)))
                      (cert-Writes e.cert h.cert_size)))))))))

entries-Writes : (es : List KeyEntry) → AreEntries es → Writes (write_entries es) (entries_bytes es)
unfolding write_entries entries_bytes
entries-Writes [] h = write_nothing
entries-Writes (e ∷ es) (h, hs) =
    then-Writes (write_entry e) (write_entries es) _ _ (entry-Writes e h) (entries-Writes es hs)

-- The encoder writes exactly the payload's bytes if they fit the buffer, and else fails.
pub encode_payload-put :
    (buflen : ℕ) (keys : List KeyEntry)
    → AreEntries keys
    → length keys ≤ max_entries
    → encode_payload buflen keys
      ≡ (elim (put (payload_bytes keys) buflen) [ none ↦ err cbor | some b ↦ ok b ])
unfolding encode_payload payload_bytes
encode_payload-put buflen keys h few =
    let written =
      then-Writes (write_head major_array (length keys)) (write_entries keys) _ _
        (λ room. write_head-put major_array (length keys) room (omega arith) (omega arith))
        (entries-Writes keys h) buflen in
    ap
      (λ (o : Option (List ℕ)). elim o as (λ x. Result KsErr (List ℕ)) [
        | none ↦ err cbor
        | some b ↦ ok b
      ])
      written
