-- ===== src/Cryptoki/Machine/Calls.antt =====
-- C_Encrypt, C_EncryptUpdate, C_EncryptFinal and the digest calls of src/wp11_pkcs11.c write back at
-- most their session.
use wolf_p.Prelude.{
  ℕ, ◌≡◌, refl, Bool, Bool-cases, true, false, Option, none, some, Option-cases, List, arith,
  Result-cases, ◌⊎◌, inl, inr,
}
use wolf_p.Cryptoki.State.{word32_cut, Session, Library, session_get}
use wolf_p.Cryptoki.Find.{put_session}
use wolf_p.Cryptoki.EncryptInit.{Cipher}
use wolf_p.Cryptoki.Encrypt.{
  end_encrypt, encrypt_over, encrypt, encrypt_part, encrypt_update, encrypt_final, ctx_after,
}
use wolf_p.Cryptoki.Machine.Ciphers.{Encrypts, moved, encrypt_with-Encrypts}
use wolf_p.Cryptoki.Machine.Touches.{Touches, Touches_or}

wrote :
    (g g' : Library) (h : ℕ) (s s' : Session)
    → session_get g.sessions h ≡ some s
    → (s'.in_use ≡ s.in_use)
      × (s'.slot_id ≡ s.slot_id)
      × (s'.logged_in ≡ s.logged_in)
      × (s'.state ≡ s.state)
      × (s'.flags ≡ s.flags)
    → g' ≡ put_session g h s'
    → Touches g h g'
wrote g g' h s s' known login e = Touches_or g g' h s s' known login (inr e)

Encrypts-Touches :
    (g g' : Library) (h : ℕ) (s : Session) (bytes : List ℕ)
    → session_get g.sessions h ≡ some s
    → Encrypts g h s g' ⊎ (g' ≡ put_session g h (moved s bytes))
    → Touches g h g'
unfolding end_encrypt
Encrypts-Touches g g' h s bytes known (inl (inl same)) = inl same
Encrypts-Touches g g' h s bytes known (inl (inr (inl over))) =
    wrote g g' h s (record s { encrypt_active = false }) known (refl, refl, refl, refl, refl) over
Encrypts-Touches g g' h s bytes known (inl (inr (inr (inl asked)))) =
    wrote g g' h s (record s { encrypt_oneshot = true }) known (refl, refl, refl, refl, refl) asked
Encrypts-Touches g g' h s bytes known (inl (inr (inr (inr over)))) =
    wrote g g' h s (encrypt_over s) known (refl, refl, refl, refl, refl) over
Encrypts-Touches g g' h s bytes known (inr on) =
    wrote g g' h s (moved s bytes) known (refl, refl, refl, refl, refl) on

module _ (cipher : Cipher) (h : ℕ) (has_out : Bool) (g : Library) where
  pub encrypt-Touches :
      (data_given : Option (List ℕ)) (len : Option ℕ)
      → Touches g h (encrypt cipher h data_given has_out len g).1
  unfolding encrypt end_encrypt
  encrypt-Touches data_given len = elim (Option-cases (session_get g.sessions h)) [
    | inl unknown ↦ inl (ground arith)
    | inr (s, known) ↦ go data_given len s known
  ]
    where
      go :
          (data_given : Option (List ℕ)) (len : Option ℕ) (s : Session)
          → session_get g.sessions h ≡ some s
          → Touches g h (encrypt cipher h data_given has_out len g).1
      go none len s known =
          Touches_or g _ h s (record s { encrypt_active = false }) known
            (refl, refl, refl, refl, refl) (ground arith)
      go (some data_in) none s known =
          Touches_or g _ h s (record s { encrypt_active = false }) known
            (refl, refl, refl, refl, refl) (ground arith)
      go (some data_in) (some room) s known =
          Encrypts-Touches g _ h s data_in known
            (ground (arith, encrypt_with-Encrypts cipher g h s data_in has_out room))

  pub encrypt_update-Touches :
      (part_given : Option (List ℕ)) (len : Option ℕ)
      → Touches g h (encrypt_update cipher h part_given has_out len g).1
  unfolding encrypt_update encrypt_part end_encrypt
  encrypt_update-Touches part_given len = elim (Option-cases (session_get g.sessions h)) [
    | inl unknown ↦ inl (ground arith)
    | inr (s, known) ↦ go part_given len s known
  ]
    where
      go :
          (part_given : Option (List ℕ)) (len : Option ℕ) (s : Session)
          → session_get g.sessions h ≡ some s
          → Touches g h (encrypt_update cipher h part_given has_out len g).1
      go none len s known =
          Touches_or g _ h s (record s { encrypt_active = false }) known
            (refl, refl, refl, refl, refl) (ground arith)
      go (some part) none s known =
          Touches_or g _ h s (record s { encrypt_active = false }) known
            (refl, refl, refl, refl, refl) (ground arith)
      go (some part) (some room) s known =
          elim (Result-cases (encrypt_update cipher h (some part) has_out (some room) g).0) [
            | inr (e, fails) ↦
                elim (Option-cases (cipher.process s.encrypt_mech s.enc_ctx (word32_cut part))) [
                  | inl failed ↦
                      Touches_or g _ h s (record s { encrypt_active = false }) known
                        (refl, refl, refl, refl, refl) (ground arith)
                  | inr (v, made) ↦
                      Touches_or g _ h s (record s { encrypt_active = false }) known
                        (refl, refl, refl, refl, refl) (ground arith)
                ]
            | inl (r, done) ↦
                let on = record s {
                  encrypt_multipart = true;
                  enc_ctx = ctx_after s.enc_ctx (word32_cut part);
                } in
                elim (Option-cases (cipher.process s.encrypt_mech s.enc_ctx (word32_cut part))) [
                  | inl failed ↦
                      Touches_or g _ h s on known (refl, refl, refl, refl, refl) (ground arith)
                  | inr (v, made) ↦
                      Touches_or g _ h s on known (refl, refl, refl, refl, refl) (ground arith)
                ]
          ]

pub encrypt_final-Touches :
    (h : ℕ) (has_out : Bool) (g : Library) → Touches g h (encrypt_final h has_out g).1
unfolding encrypt_final end_encrypt
encrypt_final-Touches h has_out g = elim (Option-cases (session_get g.sessions h)) [
  | inl unknown ↦ inl (ground arith)
  | inr (s, known) ↦ elim (Bool-cases s.encrypt_active) [
    | inl active ↦
        Touches_or g _ h s (encrypt_over s) known (refl, refl, refl, refl, refl) (ground arith)
    | inr idle ↦
        Touches_or g _ h s (record s { encrypt_active = false }) known
          (refl, refl, refl, refl, refl) (ground arith)
  ]
]
