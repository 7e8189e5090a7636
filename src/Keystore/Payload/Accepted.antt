-- ===== src/Keystore/Payload/Accepted.antt =====
-- What decode_cbor_payload of src/wp11_keystore.c accepts.
use wolf_p.Prelude.{
  ℕ, zero, suc, ◌≤◌, ◌≡◌, refl, ap, Option-cases, List, [], ◌∷◌, length, drop, arith, Result,
  Result-cases, ok, inl, inr, subst,
}
use wolf_p.Keystore.{KeyEntry, Memory, max_entries}
use wolf_p.Keystore.Cbor.{read_head, read_text}
use wolf_p.Keystore.Payload.{
  Partial, no_fields, read_field, read_pair, read_pairs, finish, read_entry, read_entries,
  decode_payload,
}
use wolf_p.Keystore.Payload.Written.{IsEntry, AreEntries}
use wolf_p.Keystore.Payload.Fields.{IsPartial, no_fields-IsPartial, read_field-IsPartial}

read_pair-IsPartial :
    (mem : Memory) (rest rest' : List ℕ) (p p' : Partial)
    → IsPartial p
    → read_pair mem rest p ≡ ok (p', rest')
    → IsPartial p'
unfolding read_pair
read_pair-IsPartial mem rest rest' p p' h e = elim (Result-cases (read_text 32 rest)) [
  | inr (bad, fails) ↦ absurd (ground arith)
  | inl ((name, n), got) ↦ elim (Result-cases (read_field mem name (drop n rest) p)) [
    | inr (bad, fails) ↦ absurd (ground arith)
    | inl ((q, m), field) ↦
        let same : q ≡ p' = ground arith in
        subst IsPartial same (read_field-IsPartial mem name (drop n rest) p q m h field)
  ]
]

read_pairs-IsPartial :
    (mem : Memory) (n : ℕ) (rest rest' : List ℕ) (p p' : Partial)
    → IsPartial p
    → read_pairs mem n rest p ≡ ok (p', rest')
    → IsPartial p'
unfolding read_pairs
read_pairs-IsPartial mem zero rest rest' p p' h e =
    let same : p ≡ p' = ground arith in subst IsPartial same h
read_pairs-IsPartial mem (suc n) rest rest' p p' h e = elim (Result-cases (read_pair mem rest p)) [
  | inr (bad, fails) ↦ absurd (ground arith)
  | inl ((q, more), got) ↦
      read_pairs-IsPartial mem n more rest' q p' (read_pair-IsPartial mem rest more p q h got)
        (ground arith)
]

pub ok_injective : {E A : Type 0} {r : Result E A} {x y : A} → r ≡ ok x → r ≡ ok y → x ≡ y
ok_injective e h = cc

-- What the required fields leave of an entry.
finish-IsEntry : (p : Partial) (k : KeyEntry) → IsPartial p → finish p ≡ ok k → IsEntry k
unfolding finish
finish-IsEntry p k h e = elim (Option-cases p.id) [
  | inl no_id ↦ absurd (ground arith)
  | inr (id, is_id) ↦ elim (Option-cases p.label) [
    | inl no_label ↦ absurd (ground arith)
    | inr (label, is_label) ↦ elim (Option-cases p.key_type) [
      | inl no_type ↦ absurd (ground arith)
      | inr (key_type, is_type) ↦ elim (Option-cases p.der) [
        | inl no_der ↦ absurd (ground arith)
        | inr (der, is_der) ↦
            let made : KeyEntry = record {
              id = id;
              label = label;
              key_type = key_type;
              der = der;
              cert = p.cert;
            } in
            let shape : finish p ≡ ok made = ground (arith, is_id, is_label, is_type, is_der) in
            let same : made ≡ k = ok_injective shape e in
            subst IsEntry same (record {
              id_size = h.id_size id is_id;
              label_size = h.label_size label is_label;
              label_text = h.label_text label is_label;
              known_type = h.known_type key_type is_type;
              der_size = h.der_size der is_der;
              cert_size = h.cert_size;
            })
      ]
    ]
  ]
]

read_entry-IsEntry :
    (mem : Memory) (rest rest' : List ℕ) (k : KeyEntry)
    → read_entry mem rest ≡ ok (k, rest')
    → IsEntry k
unfolding read_entry
read_entry-IsEntry mem rest rest' k e = elim (Result-cases (read_head rest)) [
  | inr (bad, fails) ↦ absurd (ground arith)
  | inl ((major, npairs, n), got) ↦
      elim (Result-cases (read_pairs mem npairs (drop n rest) no_fields)) [
        | inr (bad, fails) ↦ absurd (ground arith)
        | inl ((p, more), pairs) ↦ elim (Result-cases (finish p)) [
          | inr (bad, fails) ↦ absurd (ground arith)
          | inl (made, done) ↦
              let same : made ≡ k = ground arith in
              subst IsEntry same (
                finish-IsEntry p made
                  (read_pairs-IsPartial mem npairs (drop n rest) more no_fields p
                    no_fields-IsPartial pairs)
                  done)
        ]
      ]
]

read_entries-AreEntries :
    (mem : Memory) (n : ℕ) (rest : List ℕ) (keys : List KeyEntry)
    → read_entries mem n rest ≡ ok keys
    → (length keys ≡ n) × AreEntries keys
unfolding read_entries
read_entries-AreEntries mem zero rest keys e =
    let same : [] ≡ keys = ground arith in
    subst (λ ks. (length ks ≡ 0) × AreEntries ks) same (refl, tt)
read_entries-AreEntries mem (suc n) rest keys e = elim (Result-cases (read_entry mem rest)) [
  | inr (bad, fails) ↦ absurd (ground arith)
  | inl ((k, more), got) ↦ elim (Result-cases (read_entries mem n more)) [
    | inr (bad, fails) ↦ absurd (ground arith)
    | inl (ks, others) ↦
        let same : k ∷ ks ≡ keys = ground arith in
        let (count, all) = read_entries-AreEntries mem n more ks others in
        subst (λ ks'. (length ks' ≡ suc n) × AreEntries ks') same
          (omega arith, (read_entry-IsEntry mem rest more k got, all))
  ]
]

-- Whatever bytes decode_cbor_payload accepts, it gives at most 64 entries, and each has an
-- identifier of 16 bytes, a label of at most 64 bytes without a terminator, a key type that is RSA
-- or EC, and a key and a certificate of at most 4096 bytes.
pub decode_payload_accepted :
    (mem : Memory) (plain : List ℕ) (keys : List KeyEntry)
    → decode_payload mem plain ≡ ok keys
    → (length keys ≤ max_entries) × AreEntries keys
unfolding decode_payload
decode_payload_accepted mem plain keys e = elim (Result-cases (read_head plain)) [
  | inr (bad, fails) ↦ absurd (ground arith)
  | inl ((major, nentries, n), got) ↦
      elim (Result-cases (read_entries mem nentries (drop n plain))) [
        | inr (bad, fails) ↦ absurd (ground arith)
        | inl (ks, all) ↦
            let same : ks ≡ keys = ground arith in
            let (count, good) = read_entries-AreEntries mem nentries (drop n plain) ks all in
            (ground (arith, count, ap length same), subst AreEntries same good)
      ]
]
