-- ===== src/Cryptoki/Machine/Ciphers.antt =====
-- The calls of src/wp11_pkcs11.c that encrypt write back at most their session.
use wolf_p.Prelude.{
  ℕ, ◌%◌, ◌^◌, ◌==◌, ◌&&◌, ◌≡◌, refl, Bool, Bool-cases, true, false, Option, none, some,
  Option-cases, List, arith, Result-cases, ok, ◌⊎◌, inl, inr,
}
use wolf_p.Cryptoki.State.{word32_cut, Session, KeyObj, Library, session_get, key_get}
use wolf_p.Cryptoki.Find.{put_session}
use wolf_p.Cryptoki.SignInit.{validate_mechanism_params}
use wolf_p.Cryptoki.EncryptInit.{
  Cipher, CipherParam, mech_required_key_type, check_oaep, check_gcm_params, gcm_setup, block_setup,
  encrypt_setup, check_encrypt, encrypt_init,
}
use wolf_p.Cryptoki.Encrypt.{
  end_encrypt, encrypt_over, size_query, rsa_result, encrypt_rsa, encrypt_oaep, encrypt_gcm,
  encrypt_block, encrypt_with, ctx_after,
}
use wolf_p.Cryptoki.Machine.Touches.{SameLogin, Touches, Touches_or}

module _ (cipher : Cipher) (s s' : Session) (obj : KeyObj) (p : CipherParam) where
  gcm_setup-SameLogin : gcm_setup cipher s obj p ≡ ok s' → SameLogin s s'
  unfolding gcm_setup
  gcm_setup-SameLogin e = elim (Result-cases (check_gcm_params p)) [
    | inr (code, fails) ↦ absurd (ground arith)
    | inl (gcm, fine) ↦ (ground arith, ground arith, ground arith, ground arith, ground arith)
  ]

  block_setup-SameLogin : (mech : ℕ) → block_setup cipher s obj mech p ≡ ok s' → SameLogin s s'
  unfolding block_setup
  block_setup-SameLogin mech e = elim (Option-cases (mech_required_key_type mech)) [
    | inl unknown ↦ absurd (ground arith)
    | inr (req, is) ↦ (ground arith, ground arith, ground arith, ground arith, ground arith)
  ]

  encrypt_setup-SameLogin : (mech : ℕ) → encrypt_setup cipher s obj mech p ≡ ok s' → SameLogin s s'
  unfolding encrypt_setup
  encrypt_setup-SameLogin mech e = elim (Result-cases (check_oaep obj p)) [
    | inr (code, fails) ↦ elim (Result-cases (validate_mechanism_params p.base)) [
      | inr (code', invalid) ↦ ground (arith, gcm_setup-SameLogin, block_setup-SameLogin mech)
      | inl (u, valid) ↦ ground (arith, gcm_setup-SameLogin, block_setup-SameLogin mech)
    ]
    | inl (oaep, fine) ↦ elim (Result-cases (validate_mechanism_params p.base)) [
      | inr (code', invalid) ↦ ground (arith, gcm_setup-SameLogin, block_setup-SameLogin mech)
      | inl (u, valid) ↦ ground (arith, gcm_setup-SameLogin, block_setup-SameLogin mech)
    ]
  ]

pub encrypt_init-Touches :
    (cipher : Cipher) (h key : ℕ) (mechanism : Option (ℕ × CipherParam)) (g : Library)
    → Touches g h (encrypt_init cipher h mechanism key g).1
unfolding encrypt_init check_encrypt
encrypt_init-Touches cipher h key none g = inl (ground arith)
encrypt_init-Touches cipher h key (some (mech, p)) g =
    elim (Option-cases (session_get g.sessions h)) [
      | inl unknown ↦ inl (ground arith)
      | inr (s, known) ↦ elim (Option-cases (key_get g.keys key)) [
        | inl lost ↦
            Touches_or g _ h s (record s { encrypt_active = false }) known
              (refl, refl, refl, refl, refl) (ground arith)
        | inr (obj, found) ↦ elim (Result-cases (encrypt_setup cipher s obj mech p)) [
          | inr (code, fails) ↦
              Touches_or g _ h s (record s { encrypt_active = false }) known
                (refl, refl, refl, refl, refl) (ground arith)
          | inl (s0, fine) ↦ elim (Bool-cases (s.logged_in == 0 && obj.is_private)) [
            | inl barred ↦
                Touches_or g _ h s (record s { encrypt_active = false }) known
                  (refl, refl, refl, refl, refl) (ground arith)
            | inr free ↦
                let started = record s0 {
                  encrypt_active = true;
                  encrypt_oneshot = false;
                  encrypt_multipart = false;
                  encrypt_mech = mech;
                  encrypt_key = key;
                } in
                Touches_or g _ h s started known
                  (encrypt_setup-SameLogin cipher s s0 obj p mech fine) (ground arith)
          ]
        ]
      ]
    ]

-- What a call may leave of the session: as it was, or with other encryption flags and context.
abbrev pub Encrypts : Library → ℕ → Session → Library → Type 0
Encrypts g h s g' =
    (g' ≡ g)
    ⊎ ((g' ≡ end_encrypt g h s)
        ⊎ ((g' ≡ put_session g h (record s { encrypt_oneshot = true }))
            ⊎ (g' ≡ put_session g h (encrypt_over s))))

size_query-Encrypts :
    (g : Library) (h : ℕ) (s : Session) (n : Option ℕ) → Encrypts g h s (size_query g h s n).1
unfolding size_query end_encrypt
size_query-Encrypts g h s none = inr (inl refl)
size_query-Encrypts g h s (some n) = inr (inr (inl refl))

rsa_result-Encrypts :
    (g : Library) (h : ℕ) (s : Session) (r : Option (List ℕ))
    → Encrypts g h s (rsa_result g h s r).1
unfolding rsa_result end_encrypt
rsa_result-Encrypts g h s none = inr (inl refl)
rsa_result-Encrypts g h s (some v) = inr (inr (inr refl))

module _ (cipher : Cipher) (g : Library) (h : ℕ) (s : Session) (data_in : List ℕ) (has_out : Bool)
    (room : ℕ) where
  encrypt_rsa-Encrypts : Encrypts g h s (encrypt_rsa cipher g h s data_in has_out room).1
  unfolding encrypt_rsa
  encrypt_rsa-Encrypts = elim (Option-cases (key_get g.keys s.encrypt_key)) [
    | inl lost ↦ ground arith
    | inr (obj, found) ↦ ground (
      arith,
      size_query-Encrypts g h s (cipher.rsa_size obj),
      rsa_result-Encrypts g h s (cipher.rsa_encrypt obj (word32_cut data_in) (room % 2 ^ 32)),
    )
  ]

  encrypt_oaep-Encrypts : Encrypts g h s (encrypt_oaep cipher g h s data_in has_out room).1
  unfolding encrypt_oaep
  encrypt_oaep-Encrypts = elim (Option-cases (key_get g.keys s.encrypt_key)) [
    | inl lost ↦ ground arith
    | inr (obj, found) ↦ ground (
      arith,
      size_query-Encrypts g h s (cipher.oaep_size obj s.oaep_enc),
      rsa_result-Encrypts g h s
          (cipher.oaep_encrypt obj s.oaep_enc (word32_cut data_in) (room % 2 ^ 32)),
    )
  ]

  encrypt_gcm-Encrypts : Encrypts g h s (encrypt_gcm cipher g h s data_in has_out room).1
  unfolding encrypt_gcm
  encrypt_gcm-Encrypts = elim (Option-cases (cipher.gcm_encrypt s.enc_ctx s.gcm_enc data_in)) [
    | inl failed ↦ ground arith
    | inr (v, made) ↦ ground arith
  ]

-- The answers of the block ciphers, which also move the context on.
abbrev pub moved : Session → List ℕ → Session
moved s bytes = record (encrypt_over s) { enc_ctx = ctx_after s.enc_ctx (word32_cut bytes) }

module _ (cipher : Cipher) (g : Library) (h : ℕ) (s : Session) (data_in : List ℕ) (has_out : Bool)
    (room : ℕ) where
  encrypt_block-Encrypts :
      Encrypts g h s (encrypt_block cipher g h s data_in has_out room).1
      ⊎ ((encrypt_block cipher g h s data_in has_out room).1 ≡ put_session g h (moved s data_in))
  unfolding encrypt_block
  encrypt_block-Encrypts =
      elim (Option-cases (cipher.process s.encrypt_mech s.enc_ctx (word32_cut data_in))) [
        | inl failed ↦ ground arith
        | inr (v, made) ↦ ground arith
      ]

  pub encrypt_with-Encrypts :
      Encrypts g h s (encrypt_with cipher g h s data_in has_out room).1
      ⊎ ((encrypt_with cipher g h s data_in has_out room).1 ≡ put_session g h (moved s data_in))
  unfolding encrypt_with
  encrypt_with-Encrypts = ground (
    arith,
    encrypt_rsa-Encrypts cipher g h s data_in has_out room,
    encrypt_oaep-Encrypts cipher g h s data_in has_out room,
    encrypt_gcm-Encrypts cipher g h s data_in has_out room,
    encrypt_block-Encrypts,
  )
