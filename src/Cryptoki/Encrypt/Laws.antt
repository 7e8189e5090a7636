-- ===== src/Cryptoki/Encrypt/Laws.antt =====
-- The buffer of C_Encrypt and C_EncryptUpdate, size queries, and the two modes, in
-- src/wp11_pkcs11.c.
use wolf_p.Prelude.{
  ℕ, ◌/◌, ◌%◌, ◌^◌, ◌≤◌, ◌≡◌, refl, Bool, Option, none, some, Option-cases, List, length,
  length-append, length-take, arith, Result, ok, ◌⊎◌, inl, inr,
}
use wolf_p.Cryptoki.State.{
  word32_cut, Ckr, Gcm, Oaep, CipherCtx, Session, KeyObj, Library, session_get, key_get,
}
use wolf_p.Cryptoki.EncryptInit.{Cipher}
use wolf_p.Cryptoki.Encrypt.{
  EncOut, encrypted, size_query, rsa_result, encrypt_rsa, encrypt_oaep, encrypt_gcm, encrypt_block,
  encrypt_with, encrypt, encrypt_part, encrypt_update,
}

-- What is relied on: the block ciphers give as many bytes as they are given, AES-GCM these and the
-- tag, and the RSA functions no more than the room that they are told of.
pub record Measured (cipher : Cipher) : Type 0 where
  pub of_process :
      (mech : ℕ) (ctx : CipherCtx) (bytes out : List ℕ)
      → cipher.process mech ctx bytes ≡ some out
      → length out ≡ length bytes
  pub of_gcm :
      (ctx : CipherCtx) (gcm : Gcm) (bytes : List ℕ) (out : List ℕ × List ℕ)
      → cipher.gcm_encrypt ctx gcm bytes ≡ some out
      → (length out.0 ≡ length bytes) × (length out.1 ≡ gcm.tag_bits / 8)
  pub of_rsa :
      (obj : KeyObj) (bytes out : List ℕ) (room : ℕ)
      → cipher.rsa_encrypt obj bytes room ≡ some out
      → length out ≤ room
  pub of_oaep :
      (obj : KeyObj) (oaep : Option Oaep) (bytes out : List ℕ) (room : ℕ)
      → cipher.oaep_encrypt obj oaep bytes room ≡ some out
      → length out ≤ room

length-word32_cut : (bytes : List ℕ) → length (word32_cut bytes) ≤ length bytes
length-word32_cut bytes = let cut = length-take (length bytes % 2 ^ 32) bytes in omega arith

-- The bytes written and the length told are within the buffer.
abbrev pub InRoom : ℕ → Result Ckr EncOut → Type 0
InRoom room r = (out : List ℕ) (n : ℕ) → r ≡ ok (encrypted out n) → (length out ≤ n) × (n ≤ room)

size_query-InRoom :
    (g : Library) (h : ℕ) (s : Session) (room : ℕ) (n : Option ℕ)
    → InRoom room (size_query g h s n).0
unfolding size_query
size_query-InRoom g h s room none out n e = absurd (ground arith)
size_query-InRoom g h s room (some m) out n e = absurd (ground arith)

rsa_result-InRoom :
    (g : Library) (h : ℕ) (s : Session) (room : ℕ) (r : Option (List ℕ))
    → ((out : List ℕ) → r ≡ some out → length out ≤ room)
    → InRoom room (rsa_result g h s r).0
unfolding rsa_result
rsa_result-InRoom g h s room none fits out n e = absurd (ground arith)
rsa_result-InRoom g h s room (some v) fits out n e =
    let low = fits v refl in (ground arith, ground (arith, low))

module _ (cipher : Cipher) (measured : Measured cipher) (g : Library) (h : ℕ) (s : Session)
    (data_in : List ℕ) (room : ℕ) where
  encrypt_block-InRoom :
      (has_out : Bool) → InRoom room (encrypt_block cipher g h s data_in has_out room).0
  unfolding encrypt_block
  encrypt_block-InRoom has_out out n e =
      let short = length-word32_cut data_in in
      elim (Option-cases (cipher.process s.encrypt_mech s.enc_ctx (word32_cut data_in))) [
        | inl failed ↦ absurd (ground arith)
        | inr (v, made) ↦
            let size = measured.of_process s.encrypt_mech s.enc_ctx (word32_cut data_in) v made in
            (ground (arith, size, short), ground arith)
      ]

  encrypt_gcm-InRoom :
      (has_out : Bool) → InRoom room (encrypt_gcm cipher g h s data_in has_out room).0
  unfolding encrypt_gcm
  encrypt_gcm-InRoom has_out out n e =
      elim (Option-cases (cipher.gcm_encrypt s.enc_ctx s.gcm_enc data_in)) [
        | inl failed ↦ absurd (ground arith)
        | inr (v, made) ↦
            let (text, tag) = measured.of_gcm s.enc_ctx s.gcm_enc data_in v made in
            (ground (arith, text, tag, length-append v.0 v.1), ground arith)
      ]

  encrypt_rsa-InRoom :
      (has_out : Bool) → InRoom room (encrypt_rsa cipher g h s data_in has_out room).0
  unfolding encrypt_rsa
  encrypt_rsa-InRoom has_out out n e = elim (Option-cases (key_get g.keys s.encrypt_key)) [
    | inl lost ↦ absurd (ground arith)
    | inr (obj, found) ↦
        let answer = cipher.rsa_encrypt obj (word32_cut data_in) (room % 2 ^ 32) in
        ground (
          arith,
          size_query-InRoom g h s room (cipher.rsa_size obj) out n,
          rsa_result-InRoom g h s room answer
              (λ v made. within (measured.of_rsa obj (word32_cut data_in) v (room % 2 ^ 32) made))
              out n,
        )
  ]
    where
      within : {m : ℕ} → m ≤ room % 2 ^ 32 → m ≤ room
      within low = omega arith

  encrypt_oaep-InRoom :
      (has_out : Bool) → InRoom room (encrypt_oaep cipher g h s data_in has_out room).0
  unfolding encrypt_oaep
  encrypt_oaep-InRoom has_out out n e = elim (Option-cases (key_get g.keys s.encrypt_key)) [
    | inl lost ↦ absurd (ground arith)
    | inr (obj, found) ↦
        let answer = cipher.oaep_encrypt obj s.oaep_enc (word32_cut data_in) (room % 2 ^ 32) in
        ground (
          arith,
          size_query-InRoom g h s room (cipher.oaep_size obj s.oaep_enc) out n,
          rsa_result-InRoom g h s room answer
              (λ v made.
                within
                  (measured.of_oaep obj s.oaep_enc (word32_cut data_in) v (room % 2 ^ 32) made))
              out n,
        )
  ]
    where
      within : {m : ℕ} → m ≤ room % 2 ^ 32 → m ≤ room
      within low = omega arith

  encrypt_part-InRoom :
      (has_out : Bool) → InRoom room (encrypt_part cipher g h s data_in has_out room).0
  unfolding encrypt_part
  encrypt_part-InRoom has_out out n e =
      let short = length-word32_cut data_in in
      elim (Option-cases (cipher.process s.encrypt_mech s.enc_ctx (word32_cut data_in))) [
        | inl failed ↦ absurd (ground arith)
        | inr (v, made) ↦
            let size = measured.of_process s.encrypt_mech s.enc_ctx (word32_cut data_in) v made in
            (ground (arith, size, short), ground arith)
      ]

  encrypt_with-InRoom :
      (has_out : Bool) → InRoom room (encrypt_with cipher g h s data_in has_out room).0
  unfolding encrypt_with
  encrypt_with-InRoom has_out out n e = ground (
    arith,
    encrypt_rsa-InRoom has_out out n,
    encrypt_oaep-InRoom has_out out n,
    encrypt_gcm-InRoom has_out out n,
    encrypt_block-InRoom has_out out n,
  )

encrypt-InRoom :
    (cipher : Cipher) (g : Library) (h room : ℕ) (data_given : Option (List ℕ)) (has_out : Bool)
    → Measured cipher
    → InRoom room (encrypt cipher h data_given has_out (some room) g).0
      × InRoom room (encrypt_update cipher h data_given has_out (some room) g).0
unfolding encrypt encrypt_update
encrypt-InRoom cipher g h room none has_out measured =
    ((λ out n e. absurd (ground arith)), (λ out n e. absurd (ground arith)))
encrypt-InRoom cipher g h room (some data_in) has_out measured =
    elim (Option-cases (session_get g.sessions h)) [
      | inl unknown ↦ ((λ out n e. absurd (ground arith)), (λ out n e. absurd (ground arith)))
      | inr (s, known) ↦ (
        (λ out n e.
            ground (arith, encrypt_with-InRoom cipher measured g h s data_in room has_out out n)),
        (λ out n e.
            ground (arith, encrypt_part-InRoom cipher measured g h s data_in room has_out out n)),
      )
    ]

-- C_Encrypt and C_EncryptUpdate, with any mechanism and any arguments, write no byte behind the
-- length that they tell, and tell no length beyond the caller's buffer, if wolfCrypt and the
-- software backend keep to their sizes: the block ciphers give as many bytes as they are given,
-- AES-GCM these and a tag of the size asked for, and the RSA functions no more than their room.
pub encrypt_bounded :
    (cipher : Cipher) (g : Library) (h room n : ℕ) (data_given : Option (List ℕ)) (has_out : Bool)
    (out : List ℕ)
    → Measured cipher
    → ((encrypt cipher h data_given has_out (some room) g).0 ≡ ok (encrypted out n))
      ⊎ ((encrypt_update cipher h data_given has_out (some room) g).0 ≡ ok (encrypted out n))
    → (length out ≤ n) × (n ≤ room)
encrypt_bounded cipher g h room n data_given has_out out measured (inl whole) =
    (encrypt-InRoom cipher g h room data_given has_out measured).0 out n whole
encrypt_bounded cipher g h room n data_given has_out out measured (inr part) =
    (encrypt-InRoom cipher g h room data_given has_out measured).1 out n part
