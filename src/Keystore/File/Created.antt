-- ===== src/Keystore/File/Created.antt =====
-- What wp11_keystore_create of src/wp11_keystore.c has done when it succeeds.
use wolf_p.Prelude.{
  ℕ, ◌≤◌, ◌<◌, ◌≡◌, ◌≢◌, ap, ap₂, ◌∙◌, Bool, true, none, some, Option-cases, List, ◌∷◌, ◌++◌,
  length, arith, Result-cases, ok, inl, inr,
}
use wolf_p.Keystore.{max_entries, KeyEntry}
use wolf_p.Keystore.Payload.{encode_payload}
use wolf_p.Keystore.Payload.Written.{AreEntries, payload_bytes}
use wolf_p.Keystore.Payload.Bounds.{encode_payload_fits}
use wolf_p.Keystore.Io.{SysRet, value, Disk}
use wolf_p.Keystore.Io.Laws.{Takes, save-Takes}
use wolf_p.Keystore.File.{
  Crypto, kdf_iterations, int_max, check_pin, Creation, payload_room, encode_keys, draw, seal,
  header, file_parts, create,
}

-- The steps that made the three parts of a file.
pub record Made (how : Creation) (c : Crypto) (pin : List ℕ) (keys : List KeyEntry)
    (hdr ct tag : List ℕ) : Type 0 where
  pub pin_size : length pin ≤ int_max
  pub pin_given : length pin ≢ 0
  pub few : length keys ≤ max_entries
  pub salt : List ℕ
  pub drawn_salt : how.salt ≡ some salt
  pub nonce : List ℕ
  pub drawn_nonce : how.nonce ≡ some nonce
  pub key : List ℕ
  pub derived : c.derive pin salt kdf_iterations ≡ some key
  pub key_set : c.set_key key ≡ true
  pub plain : List ℕ
  pub encoded : encode_payload (payload_room (length keys)) keys ≡ ok plain
  pub sealed : c.encrypt key nonce plain ≡ some (ct, tag)
  pub headed : hdr ≡ header salt nonce (length plain)

pub check_pin-ok :
    (pin p : List ℕ)
    → check_pin (some pin) ≡ ok p
    → (pin ≡ p) × (length pin ≢ 0) × (length pin ≤ int_max)
unfolding check_pin
check_pin-ok pin p e = (ground arith, ground arith, ground arith)

draw-ok :
    (how : Creation) (s n : List ℕ)
    → draw how ≡ ok (s, n)
    → (how.salt ≡ some s) × (how.nonce ≡ some n)
unfolding draw
draw-ok how s n e = elim (Option-cases how.salt) [
  | inl no_salt ↦ absurd (ground arith)
  | inr (salt, has_salt) ↦ elim (Option-cases how.nonce) [
    | inl no_nonce ↦ absurd (ground arith)
    | inr (nonce, has_nonce) ↦ (ground arith, ground arith)
  ]
]

seal-ok :
    (c : Crypto) (pin salt nonce plain ct tag : List ℕ)
    → seal c pin salt nonce plain ≡ ok (ct, tag)
    → (key : List ℕ) × (c.derive pin salt kdf_iterations ≡ some key)
      × (c.set_key key ≡ true)
      × (c.encrypt key nonce plain ≡ some (ct, tag))
unfolding seal
seal-ok c pin salt nonce plain ct tag e = elim (Option-cases (c.derive pin salt kdf_iterations)) [
  | inl no_key ↦ absurd (ground arith)
  | inr (key, has_key) ↦ elim (Option-cases (c.encrypt key nonce plain)) [
    | inl fails ↦ absurd (ground arith)
    | inr ((ct', tag'), is_sealed) ↦ (key, has_key, ground arith, ground arith)
  ]
]

encode_keys-ok :
    (how : Creation) (keys : List KeyEntry) (plain : List ℕ)
    → encode_keys how keys ≡ ok plain
    → encode_payload (payload_room (length keys)) keys ≡ ok plain
unfolding encode_keys
encode_keys-ok how keys plain e =
    elim (Result-cases (encode_payload (payload_room (length keys)) keys)) [
      | inr (bad, fails) ↦ absurd (ground arith)
      | inl (bytes, got) ↦ ground arith
    ]

pub file_parts-ok :
    (how : Creation) (c : Crypto) (path pin : List ℕ) (has_keys : Bool) (keys : List KeyEntry)
    (hdr ct tag : List ℕ)
    → file_parts how c (some path) (some pin) has_keys keys ≡ ok (hdr, ct, tag)
    → Made how c pin keys hdr ct tag
unfolding file_parts
file_parts-ok how c path pin has_keys keys hdr ct tag e =
    elim (Result-cases (check_pin (some pin))) [
      | inr (bad, fails) ↦ absurd (ground arith)
      | inl (p, checked) ↦ elim (Result-cases (encode_keys how keys)) [
        | inr (bad, fails) ↦ absurd (ground arith)
        | inl (plain, coded) ↦ elim (Result-cases (draw how)) [
          | inr (bad, fails) ↦ absurd (ground arith)
          | inl ((salt, nonce), drawn) ↦ elim (Result-cases (seal c p salt nonce plain)) [
            | inr (bad, fails) ↦ absurd (ground arith)
            | inl ((ct', tag'), is_sealed) ↦
                let (same_pin, given, size) = check_pin-ok pin p checked in
                let (has_salt, has_nonce) = draw-ok how salt nonce drawn in
                let (key, has_key, set, is_encrypted) =
                  seal-ok c p salt nonce plain ct' tag' is_sealed in
                let same_ct : ct' ≡ ct = ground arith in
                let same_tag : tag' ≡ tag = ground arith in
                record {
                  pin_size = size;
                  pin_given = given;
                  few = ground arith;
                  salt = salt;
                  drawn_salt = has_salt;
                  nonce = nonce;
                  drawn_nonce = has_nonce;
                  key = key;
                  derived = ap (λ x. c.derive x salt kdf_iterations) same_pin ∙ has_key;
                  key_set = set;
                  plain = plain;
                  encoded = encode_keys-ok how keys plain coded;
                  sealed = is_encrypted ∙ ap₂ (λ x y. some (x, y)) same_ct same_tag;
                  headed = ground arith;
                }
          ]
        ]
      ]
    ]

-- What a creation needs: the entries are as the format holds them, and neither memory nor wolfCrypt
-- fails.
pub record Ready (how : Creation) (c : Crypto) (path pin : List ℕ) (keys : List KeyEntry)
    (salt nonce key ct tag : List ℕ) : Type 0 where
  pub path_size : length path < how.path_max
  pub pin_size : length pin ≤ int_max
  pub pin_given : length pin ≢ 0
  pub good : AreEntries keys
  pub few : length keys ≤ max_entries
  pub plain_ok : how.plain_ok ≡ true
  pub ct_ok : how.ct_ok ≡ true
  pub rng_ok : how.rng_ok ≡ true
  pub drawn_salt : how.salt ≡ some salt
  pub drawn_nonce : how.nonce ≡ some nonce
  pub derived : c.derive pin salt kdf_iterations ≡ some key
  pub key_set : c.set_key key ≡ true
  pub sealed : c.encrypt key nonce (payload_bytes keys) ≡ some (ct, tag)

pub check_pin_given :
    (pin : List ℕ) → length pin ≢ 0 → length pin ≤ int_max → check_pin (some pin) ≡ ok pin
unfolding check_pin
check_pin_given pin given size = ground arith

module _ (how : Creation) (c : Crypto) (path pin : List ℕ) (keys : List KeyEntry)
    (salt nonce key ct tag : List ℕ) (r : Ready how c path pin keys salt nonce key ct tag) where
  encode_keys-Ready : encode_keys how keys ≡ ok (payload_bytes keys)
  unfolding encode_keys
  encode_keys-Ready = ground (arith, r.plain_ok, r.ct_ok, (encode_payload_fits keys r.good r.few).0)

  draw-Ready : draw how ≡ ok (salt, nonce)
  unfolding draw
  draw-Ready = ground (arith, r.rng_ok, r.drawn_salt, r.drawn_nonce)

  seal-Ready : seal c pin salt nonce (payload_bytes keys) ≡ ok (ct, tag)
  unfolding seal
  seal-Ready = ground (arith, r.derived, r.key_set, r.sealed)

  file_parts-Ready :
      file_parts how c (some path) (some pin) true keys
      ≡ ok (header salt nonce (length (payload_bytes keys)), ct, tag)
  unfolding file_parts
  file_parts-Ready = ground (
    arith,
    check_pin_given pin r.pin_given r.pin_size,
    encode_keys-Ready,
    draw-Ready,
    seal-Ready,
    r.few,
    r.path_size,
  )

  -- A creation ends: if the entries are well-formed, neither memory nor wolfCrypt fails, and the system
  -- opens the temporary file, takes the three parts in whatever pieces and with whatever
  -- interruptions, syncs and renames, then wp11_keystore_create succeeds, the path holds the header
  -- with the ciphertext and the tag, and the temporary file is gone.
  pub create_succeeds :
      {a b d behind : List SysRet} (disk : Disk) (opened synced renamed : ℕ) (closed : SysRet)
      → Takes a (header salt nonce (length (payload_bytes keys))) b
      → Takes b ct d
      → Takes d tag (value synced ∷ closed ∷ value renamed ∷ behind)
      → create how c
          (some path)
          (some pin)
          true
          keys
          (record { answers = value opened ∷ a; disk = disk })
        ≡ (
          ok tt,
          record {
            answers = behind;
            disk = record {
              target = some (header salt nonce (length (payload_bytes keys)) ++ (ct ++ tag));
              temp = none;
            };
          },
        )
  unfolding create
  create_succeeds disk opened synced renamed closed ha hb hd = ground (
    arith,
    file_parts-Ready,
    save-Takes (header salt nonce (length (payload_bytes keys))) ct tag disk opened synced renamed
        closed ha hb hd,
  )
