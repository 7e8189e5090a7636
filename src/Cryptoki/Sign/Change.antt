-- ===== src/Cryptoki/Sign/Change.antt =====
-- What C_SignInit and C_Sign of src/wp11_pkcs11.c change.
use wolf_p.Prelude.{
  ℕ, ◌-◌, ◌≡◌, refl, ap, Bool, Bool-cases, true, false, Option, none, some, Option-cases, List, set,
  arith, Result, Result-cases, ok, err, ◌⊎◌, inl, inr,
}
use wolf_p.Cryptoki.State.{
  word32_cut, Ckr, Hash, Pss, Session, KeyObj, Library, session_get, key_get,
}
use wolf_p.Cryptoki.Find.{put_session}
use wolf_p.Cryptoki.SignInit.{MechParam, mech_hmac_type, check_sign, sign_init}
use wolf_p.Cryptoki.Sign.{
  Signer, end_sign, sign_answer, or_failed, backend_answer, sign_hmac, sign_pss, sign_key_op, sign,
}

-- The signing calls change at most the signing fields of their session.
abbrev pub Signs : Library → Library → ℕ → Type 0
Signs g g' h =
    (g'.sessions ≡ g.sessions)
    ⊎ ((s : Session) × (active : Bool) × (mech : ℕ) × (key : ℕ) × (pss : Option Pss) × (session_get
            g.sessions h
          ≡ some s)
        × (g'.sessions
            ≡ set g.sessions (h - 1) (record s {
              sign_active = active;
              sign_mech = mech;
              sign_key = key;
              pss_sign = pss;
            })))

pub sign_init-Signs :
    (g : Library) (h key : ℕ) (mechanism : Option (ℕ × MechParam))
    → Signs g (sign_init h mechanism key g).1 h
unfolding sign_init put_session
sign_init-Signs g h key none = inl (ground arith)
sign_init-Signs g h key (some (mech, p)) = elim (Option-cases (session_get g.sessions h)) [
  | inl unknown ↦ inl (ground arith)
  | inr (s, known) ↦ elim (Bool-cases s.sign_active) [
    | inl active ↦ inl (ground arith)
    | inr idle ↦ elim (Bool-cases g.lock_ok) [
      | inr unlocked ↦ inl (ground arith)
      | inl locked ↦ elim (Bool-cases g.initialized) [
        | inr early ↦ inl (ground arith)
        | inl running ↦ elim (Result-cases (check_sign g s mech p key)) [
          | inl (pss, fine) ↦ inr (s, true, mech, key, pss, known, ground arith)
          | inr (e, fails) ↦
              inr (s, false, s.sign_mech, s.sign_key, s.pss_sign, known, ground arith)
        ]
      ]
    ]
  ]
]

-- A call that leaves the library alone or ends the operation.
abbrev Ends : Library → ℕ → Session → Library → Type 0
Ends g h s g' = (g' ≡ g) ⊎ (g' ≡ end_sign g h s)

sign_answer-Ends :
    (g : Library) (h : ℕ) (s : Session) (r : Result Ckr (List ℕ))
    → Ends g h s (sign_answer g h s r).1
unfolding sign_answer
sign_answer-Ends g h s (ok v) = inr refl
sign_answer-Ends g h s (err e) = inr refl

module _ (signer : Signer) (g : Library) (h : ℕ) (s : Session) (obj : KeyObj) (data_in : List ℕ)
    (room : ℕ) where
  sign_hmac-Ends :
      (hash : Hash) (has_sig : Bool)
      → Ends g h s (sign_hmac signer g h s obj hash data_in has_sig room).1
  unfolding sign_hmac
  sign_hmac-Ends hash has_sig = ground (
    arith,
    sign_answer-Ends g h s
        (or_failed (signer.hmac hash (word32_cut obj.secret) (word32_cut data_in))),
  )

  sign_pss-Ends : Ends g h s (sign_pss signer g h s obj data_in room).1
  unfolding sign_pss
  sign_pss-Ends =
      ground
        (arith, sign_answer-Ends g h s (or_failed (signer.pss_sign obj data_in room s.pss_sign)))

  sign_key_op-Ends :
      (has_sig : Bool) → Ends g h s (sign_key_op signer g h s obj data_in has_sig room).1
  unfolding sign_key_op
  sign_key_op-Ends has_sig = ground (
    arith,
    sign_pss-Ends,
    sign_answer-Ends g h s (backend_answer (signer.sign obj s.sign_mech data_in room)),
  )

Ends-Signs :
    (g g' : Library) (h : ℕ) (s : Session)
    → session_get g.sessions h ≡ some s
    → Ends g h s g'
    → Signs g g' h
unfolding end_sign put_session
Ends-Signs g g' h s known (inl same) = inl (ap (λ x. x.sessions) same)
Ends-Signs g g' h s known (inr over) =
    inr (s, false, s.sign_mech, s.sign_key, s.pss_sign, known, ap (λ x. x.sessions) over)

pub sign-Signs :
    (signer : Signer) (g : Library) (h : ℕ) (data_given : Option (List ℕ)) (has_sig : Bool)
    (len : Option ℕ)
    → Signs g (sign signer h data_given has_sig len g).1 h
unfolding sign
sign-Signs signer g h none has_sig len = inl (ground arith)
sign-Signs signer g h (some data_in) has_sig none = inl (ground arith)
sign-Signs signer g h (some data_in) has_sig (some room) =
    elim (Option-cases (session_get g.sessions h)) [
      | inl unknown ↦ inl (ground arith)
      | inr (s, known) ↦ elim (Option-cases (key_get g.keys s.sign_key)) [
        | inl no_key ↦
            Ends-Signs g (sign signer h (some data_in) has_sig (some room) g).1 h s known
              (ground arith)
        | inr (obj, has_key) ↦ elim (Option-cases (mech_hmac_type s.sign_mech)) [
          | inl not_hmac ↦
              Ends-Signs g (sign signer h (some data_in) has_sig (some room) g).1 h s known
                (ground (arith, sign_key_op-Ends signer g h s obj data_in room has_sig))
          | inr (hash, is_hmac) ↦
              Ends-Signs g (sign signer h (some data_in) has_sig (some room) g).1 h s known
                (ground (arith, sign_hmac-Ends signer g h s obj data_in room hash has_sig))
        ]
      ]
    ]
