-- ===== src/Keystore/Payload/Bounds.antt =====
-- Sizes in the payload of a keystore, src/wp11_keystore.c.
use wolf_p.Prelude.{
  ℕ, ◌+◌, ◌*◌, ◌≤◌, ◌≡◌, refl, ◌∙◌, Option, none, some, List, [], ◌∷◌, length, length-append, arith,
  ok,
}
use wolf_p.Keystore.{KeyEntry, cert_max, max_entries}
use wolf_p.Keystore.Cbor.{major_uint, major_text, major_bytes, major_array, major_map}
use wolf_p.Keystore.Cbor.Heads.{head_bytes, string_bytes, length-head_bytes}
use wolf_p.Keystore.Payload.{
  name_id, name_label, name_key_type, name_der, name_cert, encode_payload, pair_count,
}
use wolf_p.Keystore.Payload.Written.{
  IsEntry, AreEntries, cert_bytes, entry_bytes, entries_bytes, payload_bytes, encode_payload-put,
}

-- The room that wp11_keystore_create reserves for an entry.
abbrev pub per_entry : ℕ
per_entry = 4300 + 4096 + 16

length-string_bytes : (major : ℕ) (b : List ℕ) → length (string_bytes major b) ≤ 5 + length b
unfolding string_bytes
length-string_bytes major b =
    omega (arith, length-append (head_bytes major (length b)) b, length-head_bytes major (length b))

length-cert_bytes :
    (c : Option (List ℕ))
    → ((d : List ℕ) → c ≡ some d → length d ≤ cert_max)
    → length (cert_bytes c) ≤ 4120
unfolding cert_bytes
length-cert_bytes none h = omega arith
length-cert_bytes (some c) h = omega (
  arith,
  h c refl,
  length-string_bytes major_text name_cert,
  length-string_bytes major_bytes c,
  length-append (string_bytes major_text name_cert) (string_bytes major_bytes c),
)

length-entry_bytes : (e : KeyEntry) → IsEntry e → length (entry_bytes e) ≤ per_entry
unfolding entry_bytes
length-entry_bytes e h = simp length-append (
    omega (
      arith,
      h.id_size,
      h.label_size,
      h.der_size,
      length-head_bytes major_map (pair_count e.cert),
      length-string_bytes major_text name_id,
      length-string_bytes major_bytes e.id,
      length-string_bytes major_text name_label,
      length-string_bytes major_text e.label,
      length-string_bytes major_text name_key_type,
      length-head_bytes major_uint e.key_type,
      length-string_bytes major_text name_der,
      length-string_bytes major_bytes e.der,
      length-cert_bytes e.cert h.cert_size,
    ))

length-entries_bytes :
    (es : List KeyEntry) → AreEntries es → length (entries_bytes es) ≤ length es * per_entry
unfolding entries_bytes
length-entries_bytes [] h = omega arith
length-entries_bytes (e ∷ es) (h, hs) = omega (
  arith,
  length-append (entry_bytes e) (entries_bytes es),
  length-entry_bytes e h,
  length-entries_bytes es hs,
)

pub length-payload_bytes :
    (keys : List KeyEntry)
    → AreEntries keys
    → length (payload_bytes keys) ≤ 5 + length keys * per_entry
unfolding payload_bytes
length-payload_bytes keys h = omega (
  arith,
  length-append (head_bytes major_array (length keys)) (entries_bytes keys),
  length-head_bytes major_array (length keys),
  length-entries_bytes keys h,
)

-- The buffer of wp11_keystore_create is enough: up to 64 well-formed entries are always encoded,
-- to at most as many bytes as it has.
pub encode_payload_fits :
    (keys : List KeyEntry)
    → AreEntries keys
    → length keys ≤ max_entries
    → (encode_payload (5 + length keys * per_entry) keys ≡ ok (payload_bytes keys))
      × (length (payload_bytes keys) ≤ 5 + length keys * per_entry)
encode_payload_fits keys h few =
    let fits = length-payload_bytes keys h in
    (encode_payload-put (5 + length keys * per_entry) keys h few ∙ ground (arith, fits), fits)
