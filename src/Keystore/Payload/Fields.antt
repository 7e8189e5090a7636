-- ===== src/Keystore/Payload/Fields.antt =====
-- What decode_cbor_payload of src/wp11_keystore.c lets into an entry's fields.
use wolf_p.Prelude.{
  c_string, ℕ, ◌+◌, ◌≤◌, ◌<◌, ◌≡◌, refl, ap, Bool-cases, some, List, [], ◌∷◌, length, length-take,
  length-drop, take, drop, arith, Result, Result-cases, ok, err, bind, inl, inr, same_bytes, subst,
}
use wolf_p.Keystore.{KsErr, Memory, label_max, der_max, cert_max, key_type_ec}
use wolf_p.Keystore.Cbor.{read_head, read_text, read_bytes_fixed, read_bytes_alloc, skip, max_depth}
use wolf_p.Keystore.Cbor.Heads.{NoZero}
use wolf_p.Keystore.Payload.{
  name_id, name_label, name_key_type, name_der, name_cert, Partial, no_fields, read_key_type,
  read_cert, read_field,
}

-- What a decoded field can be.
length-c_string : (bs : List ℕ) → (length (c_string bs) ≤ length bs) × NoZero (c_string bs)
unfolding c_string
length-c_string [] = (omega arith, tt)
length-c_string (b ∷ bs) = ground (arith, length-c_string bs)

read_text_bounds :
    (cap n : ℕ) (rest v : List ℕ) → read_text cap rest ≡ ok (v, n) → (length v < cap) × NoZero v
unfolding read_text
read_text_bounds cap n rest v e = elim (Result-cases (read_head rest)) [
  | inr (bad, fails) ↦ absurd (ground arith)
  | inl ((major, slen, head), got) ↦
      let text = take slen (drop head rest) in
      let (short, clean) = length-c_string text in
      let same : c_string text ≡ v = ground arith in
      (
        ground (arith, short, length-take slen (drop head rest), ap length same),
        subst NoZero same clean,
      )
]

-- What is known of an entry while its map is read.
pub record IsPartial (p : Partial) : Type 0 where
  pub id_size : (v : List ℕ) → p.id ≡ some v → length v ≡ 16
  pub label_size : (v : List ℕ) → p.label ≡ some v → length v ≤ label_max
  pub label_text : (v : List ℕ) → p.label ≡ some v → NoZero v
  pub known_type : (v : ℕ) → p.key_type ≡ some v → v ≤ key_type_ec
  pub der_size : (v : List ℕ) → p.der ≡ some v → length v ≤ der_max
  pub cert_size : (v : List ℕ) → p.cert ≡ some v → length v ≤ cert_max

pub no_fields-IsPartial : IsPartial no_fields
no_fields-IsPartial = record {
  id_size = λ v e. absurd (ground arith);
  label_size = λ v e. absurd (ground arith);
  label_text = λ v e. absurd (ground arith);
  known_type = λ v e. absurd (ground arith);
  der_size = λ v e. absurd (ground arith);
  cert_size = λ v e. absurd (ground arith);
}

pub some_injective {ℓ} : {A : Type ℓ} {x y : A} → some x ≡ some y → x ≡ y
some_injective e = cc

some_same {ℓ} : {A : Type ℓ} {x y : A} (P : A → Type 0) → some x ≡ some y → P x → P y
some_same P e h = subst P (some_injective e) h

read_bytes_fixed_bounds :
    (size n : ℕ) (rest v : List ℕ) → read_bytes_fixed size rest ≡ ok (v, n) → length v ≡ size
unfolding read_bytes_fixed
read_bytes_fixed_bounds size n rest v e = elim (Result-cases (read_head rest)) [
  | inr (bad, fails) ↦ absurd (ground arith)
  | inl ((major, blen, head), got) ↦
      let same : take size (drop head rest) ≡ v = ground arith in
      ground (arith, ap length same, length-take size (drop head rest), length-drop head rest)
]

read_bytes_alloc_bounds :
    (mem : Memory) (n : ℕ) (rest v : List ℕ)
    → read_bytes_alloc mem rest ≡ ok (v, n)
    → length v ≤ der_max
unfolding read_bytes_alloc
read_bytes_alloc_bounds mem n rest v e = elim (Result-cases (read_head rest)) [
  | inr (bad, fails) ↦ absurd (ground arith)
  | inl ((major, blen, head), got) ↦
      let same : take blen (drop head rest) ≡ v = ground arith in
      ground (arith, ap length same, length-take blen (drop head rest))
]

read_cert_bounds :
    (mem : Memory) (n : ℕ) (rest v : List ℕ) → read_cert mem rest ≡ ok (v, n) → length v ≤ cert_max
unfolding read_cert
read_cert_bounds mem n rest v e = elim (Result-cases (read_head rest)) [
  | inr (bad, fails) ↦ absurd (ground arith)
  | inl ((major, blen, head), got) ↦
      let same : take blen (drop head rest) ≡ v = ground arith in
      ground (arith, ap length same, length-take blen (drop head rest))
]

read_key_type_bounds : (n v : ℕ) (rest : List ℕ) → read_key_type rest ≡ ok (v, n) → v ≤ key_type_ec
unfolding read_key_type
read_key_type_bounds n v rest e = elim (Result-cases (read_head rest)) [
  | inr (bad, fails) ↦ absurd (ground arith)
  | inl ((major, val, head), got) ↦ ground arith
]

-- One lemma for each field that is set.
id-IsPartial :
    (p : Partial) (v : List ℕ) → length v ≡ 16 → IsPartial p → IsPartial (record p { id = some v })
id-IsPartial p v h k = record {
  id_size = λ w e. some_same (λ x. length x ≡ 16) e h;
  label_size = k.label_size;
  label_text = k.label_text;
  known_type = k.known_type;
  der_size = k.der_size;
  cert_size = k.cert_size;
}

label-IsPartial :
    (p : Partial) (v : List ℕ)
    → length v < label_max + 1
    → NoZero v
    → IsPartial p
    → IsPartial (record p { label = some v })
label-IsPartial p v h clean k = record {
  id_size = k.id_size;
  label_size = λ w e. some_same (λ x. length x ≤ label_max) e (omega arith);
  label_text = λ w e. some_same NoZero e clean;
  known_type = k.known_type;
  der_size = k.der_size;
  cert_size = k.cert_size;
}

key_type-IsPartial :
    (p : Partial) (v : ℕ)
    → v ≤ key_type_ec
    → IsPartial p
    → IsPartial (record p { key_type = some v })
key_type-IsPartial p v h k = record {
  id_size = k.id_size;
  label_size = k.label_size;
  label_text = k.label_text;
  known_type = λ w e. some_same (λ x. x ≤ key_type_ec) e h;
  der_size = k.der_size;
  cert_size = k.cert_size;
}

der-IsPartial :
    (p : Partial) (v : List ℕ)
    → length v ≤ der_max
    → IsPartial p
    → IsPartial (record p { der = some v })
der-IsPartial p v h k = record {
  id_size = k.id_size;
  label_size = k.label_size;
  label_text = k.label_text;
  known_type = k.known_type;
  der_size = λ w e. some_same (λ x. length x ≤ der_max) e h;
  cert_size = k.cert_size;
}

cert-IsPartial :
    (p : Partial) (v : List ℕ)
    → length v ≤ cert_max
    → IsPartial p
    → IsPartial (record p { cert = some v })
cert-IsPartial p v h k = record {
  id_size = k.id_size;
  label_size = k.label_size;
  label_text = k.label_text;
  known_type = k.known_type;
  der_size = k.der_size;
  cert_size = λ w e. some_same (λ x. length x ≤ cert_max) e h;
}

-- A field that is read and then set.
set_field :
    {A : Type 0} (r : Result KsErr (A × ℕ)) (put_in : A → Partial) (p' : Partial) (n : ℕ)
    → ((v : A) (m : ℕ) → r ≡ ok (v, m) → IsPartial (put_in v))
    → bind {B = Partial × ℕ} r (λ (v, m). ok (put_in v, m)) ≡ ok (p', n)
    → IsPartial p'
set_field (err bad) put_in p' n h e = absurd (ground arith)
set_field (ok (v, m)) put_in p' n h e =
    let same : put_in v ≡ p' = ground arith in subst IsPartial same (h v m refl)

pub read_field-IsPartial :
    (mem : Memory) (name rest : List ℕ) (p p' : Partial) (n : ℕ)
    → IsPartial p
    → read_field mem name rest p ≡ ok (p', n)
    → IsPartial p'
unfolding read_field
read_field-IsPartial mem name rest p p' n h e = elim (Bool-cases (same_bytes name name_id)) [
  | inl t ↦
      set_field (read_bytes_fixed 16 rest) (λ v. record p { id = some v }) p' n
        (λ v m got. id-IsPartial p v (read_bytes_fixed_bounds 16 m rest v got) h) (ground arith)
  | inr f1 ↦ elim (Bool-cases (same_bytes name name_label)) [
    | inl t ↦
        set_field (read_text (label_max + 1) rest) (λ v. record p { label = some v }) p' n
          (λ v m got.
            let (short, clean) = read_text_bounds (label_max + 1) m rest v got in
            label-IsPartial p v short clean h)
          (ground arith)
    | inr f2 ↦ elim (Bool-cases (same_bytes name name_key_type)) [
      | inl t ↦
          set_field (read_key_type rest) (λ v. record p { key_type = some v }) p' n
            (λ v m got. key_type-IsPartial p v (read_key_type_bounds m v rest got) h) (ground arith)
      | inr f3 ↦ elim (Bool-cases (same_bytes name name_der)) [
        | inl t ↦
            set_field (read_bytes_alloc mem rest) (λ v. record p { der = some v }) p' n
              (λ v m got. der-IsPartial p v (read_bytes_alloc_bounds mem m rest v got) h)
              (ground arith)
        | inr f4 ↦ elim (Bool-cases (same_bytes name name_cert)) [
          | inl t ↦
              set_field (read_cert mem rest) (λ v. record p { cert = some v }) p' n
                (λ v m got. cert-IsPartial p v (read_cert_bounds mem m rest v got) h) (ground arith)
          | inr f5 ↦ elim (Result-cases (skip (max_depth + 1) rest)) [
            | inr (bad, fails) ↦ absurd (ground arith)
            | inl (m, got) ↦ let same : p ≡ p' = ground arith in subst IsPartial same h
          ]
        ]
      ]
    ]
  ]
]
