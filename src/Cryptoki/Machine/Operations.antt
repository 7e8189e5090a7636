-- ===== src/Cryptoki/Machine/Operations.antt =====
-- The calls of src/wp11_pkcs11.c that verify, encrypt and digest write back at most their session.
use wolf_p.Prelude.{
  ℕ, ◌≡◌, refl, true, false, Option, none, some, Option-cases, List, arith, Result-cases, ◌⊎◌, inl,
  inr,
}
use wolf_p.Cryptoki.State.{Session, KeyObj, Library, session_get, key_get}
use wolf_p.Cryptoki.SignInit.{MechParam, mech_hmac_type}
use wolf_p.Cryptoki.Verify.{
  Verifier, check_verify, verify_init, end_verify, verify_key_op, verify_with, verify,
}
use wolf_p.Cryptoki.Machine.Touches.{Touches, Touches_or}

module _ (verifier : Verifier) (g : Library) (h : ℕ) (s : Session) (obj : KeyObj)
    (data_in sig : List ℕ) where
  verify_key_op_ends :
      ((verify_key_op verifier g h s obj data_in sig).1 ≡ g)
      ⊎ ((verify_key_op verifier g h s obj data_in sig).1 ≡ end_verify g h s)
  unfolding verify_key_op
  verify_key_op_ends = ground arith

  verify_with_ends :
      ((verify_with verifier g h s obj data_in sig).1 ≡ g)
      ⊎ ((verify_with verifier g h s obj data_in sig).1 ≡ end_verify g h s)
  unfolding verify_with
  verify_with_ends = elim (Option-cases (mech_hmac_type s.verify_mech)) [
    | inl not_hmac ↦ ground (arith, verify_key_op_ends)
    | inr (hash, is_hmac) ↦ ground arith
  ]

pub verify-Touches :
    (verifier : Verifier) (h : ℕ) (data_given sig_given : Option (List ℕ)) (g : Library)
    → Touches g h (verify verifier h data_given sig_given g).1
unfolding verify end_verify
verify-Touches verifier h none sig_given g = inl (ground arith)
verify-Touches verifier h (some data_in) none g = inl (ground arith)
verify-Touches verifier h (some data_in) (some sig) g =
    elim (Option-cases (session_get g.sessions h)) [
      | inl unknown ↦ inl (ground arith)
      | inr (s, known) ↦ elim (Option-cases (key_get g.keys s.verify_key)) [
        | inl lost ↦
            Touches_or g _ h s (record s { verify_active = false }) known
              (refl, refl, refl, refl, refl) (ground arith)
        | inr (obj, found) ↦
            Touches_or g _ h s (record s { verify_active = false }) known
              (refl, refl, refl, refl, refl)
              (ground (arith, verify_with_ends verifier g h s obj data_in sig))
      ]
    ]

pub verify_init-Touches :
    (h key : ℕ) (mechanism : Option (ℕ × MechParam)) (g : Library)
    → Touches g h (verify_init h mechanism key g).1
unfolding verify_init
verify_init-Touches h key none g = inl (ground arith)
verify_init-Touches h key (some (mech, p)) g = elim (Option-cases (session_get g.sessions h)) [
  | inl unknown ↦ inl (ground arith)
  | inr (s, known) ↦ elim (Result-cases (check_verify g s mech p key)) [
    | inr (e, fails) ↦
        Touches_or g _ h s (record s { verify_active = false }) known (refl, refl, refl, refl, refl)
          (ground arith)
    | inl (pss, fine) ↦
        let started = record s {
          verify_active = true;
          verify_mech = mech;
          verify_key = key;
          pss_verify = pss;
        } in
        Touches_or g _ h s started known (refl, refl, refl, refl, refl) (ground arith)
  ]
]
