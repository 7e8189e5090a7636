-- ===== src/Cryptoki/Sign/Signed.antt =====
-- Where the signatures of src/wp11_pkcs11.c come from.
use wolf_p.Prelude.{
  ℕ, ◌≡◌, ◌≢◌, refl, sym, ap, ◌∙◌, true, Option, none, some, Option-cases, List, arith, Result,
  Result-cases, ok, err, ◌⊎◌, inl, inr,
}
use wolf_p.Cryptoki.State.{
  word32_cut, Ckr, Hash, Pss, Session, KeyObj, Library, session_get, key_get,
}
use wolf_p.Cryptoki.Find.{put_session}
use wolf_p.Cryptoki.SignInit.{
  MechParam, ckm_rsa_pkcs_pss, cko_certificate, mech_hmac_type, check_sign_mech, check_sign,
  sign_init,
}
use wolf_p.Cryptoki.Sign.{Signer, signature, end_sign, sign_answer, or_failed, sign_hmac, sign}

-- How a signature comes from a key: as an HMAC of the data under its secret, both behind a cast of
-- their lengths to word32, by RSA-PSS with the session's parameters, or from its backend.
abbrev pub IsSigned : Signer → KeyObj → ℕ → Option Pss → List ℕ → ℕ → List ℕ → Type 0
IsSigned signer obj mech pss data_in room v =
    ((hash : Hash) × (mech_hmac_type mech ≡ some hash)
      × (signer.hmac hash (word32_cut obj.secret) (word32_cut data_in) ≡ some v))
    ⊎ (((mech ≡ ckm_rsa_pkcs_pss) × (signer.pss_sign obj data_in room pss ≡ some v))
        ⊎ (signer.sign obj mech data_in room ≡ ok v))

or_failed-ok : (r : Option (List ℕ)) (v : List ℕ) → or_failed r ≡ ok v → r ≡ some v
unfolding or_failed
or_failed-ok none v e = absurd (ground arith)
or_failed-ok (some w) v e = ground arith

sign_answer-signature :
    (g : Library) (h : ℕ) (s : Session) (r : Result Ckr (List ℕ)) (v : List ℕ)
    → (sign_answer g h s r).0 ≡ ok (signature v)
    → (r ≡ ok v) × ((sign_answer g h s r).1 ≡ end_sign g h s)
unfolding sign_answer
sign_answer-signature g h s (ok w) v e = (ground arith, refl)
sign_answer-signature g h s (err x) v e = absurd (ground arith)

module _ (signer : Signer) (g : Library) (h : ℕ) (s : Session) (obj : KeyObj) (data_in v : List ℕ)
    (room : ℕ) where
  hmac_signature :
      (hash : Hash)
      → (sign_hmac signer g h s obj hash data_in true room).0 ≡ ok (signature v)
      → (signer.hmac hash (word32_cut obj.secret) (word32_cut data_in) ≡ some v)
        × ((sign_hmac signer g h s obj hash data_in true room).1 ≡ end_sign g h s)
  unfolding sign_hmac
  hmac_signature hash e =
      let mac = or_failed (signer.hmac hash (word32_cut obj.secret) (word32_cut data_in)) in
      let answered : sign_hmac signer g h s obj hash data_in true room ≡ sign_answer g h s mac =
        ground arith in
      let (same, over) = sign_answer-signature g h s mac v (ap (λ r. r.0) (sym answered) ∙ e) in
      (or_failed-ok _ v same, ap (λ r. r.1) answered ∙ over)

-- What C_SignInit has checked when it succeeds, and the session it leaves.
pub record Started (g : Library) (h mech key : ℕ) (g' : Library) : Type 0 where
  pub before : Session
  pub known : session_get g.sessions h ≡ some before
  pub obj : KeyObj
  pub has_key : key_get g.keys key ≡ some obj
  pub not_certificate : obj.obj_class ≢ cko_certificate
  pub may_use : obj.is_private ≡ true → before.logged_in ≢ 0
  pub pss : Option Pss
  pub left :
      g'
      ≡ put_session g h
          (record before { sign_active = true; sign_mech = mech; sign_key = key; pss_sign = pss })

pub sign_init-Started :
    (g : Library) (h mech key : ℕ) (p : MechParam)
    → (sign_init h (some (mech, p)) key g).0 ≡ ok tt
    → Started g h mech key (sign_init h (some (mech, p)) key g).1
unfolding sign_init check_sign
sign_init-Started g h mech key p e = elim (Option-cases (session_get g.sessions h)) [
  | inl no_session ↦ absurd (ground arith)
  | inr (s, known) ↦ elim (Option-cases (key_get g.keys key)) [
    | inl no_key ↦ absurd (ground arith)
    | inr (obj, has_key) ↦ elim (Result-cases (check_sign_mech s obj mech p)) [
      | inr (bad, fails) ↦ absurd (ground arith)
      | inl (pss, fine) ↦ record {
        before = s;
        known = known;
        obj = obj;
        has_key = has_key;
        not_certificate = ground arith;
        may_use = ground arith;
        pss = pss;
        left = ground arith;
      }
    ]
  ]
]

-- With an HMAC mechanism it is the HMAC.
pub sign_mac :
    (signer : Signer) (h : ℕ) (data_in v : List ℕ) (room : ℕ) (g : Library) (s : Session)
    (obj : KeyObj) (hash : Hash)
    → session_get g.sessions h ≡ some s
    → key_get g.keys s.sign_key ≡ some obj
    → mech_hmac_type s.sign_mech ≡ some hash
    → (sign signer h (some data_in) true (some room) g).0 ≡ ok (signature v)
    → (signer.hmac hash (word32_cut obj.secret) (word32_cut data_in) ≡ some v)
      × ((sign signer h (some data_in) true (some room) g).1 ≡ end_sign g h s)
unfolding sign
sign_mac signer h data_in v room g s obj hash known has_key is_hmac e =
    let run : sign signer h (some data_in) true (some room) g
        ≡ sign_hmac signer g h s obj hash data_in true room =
      ground arith in
    let (from, over) =
      hmac_signature signer g h s obj data_in v room hash (ap (λ r. r.0) (sym run) ∙ e) in
    (from, ap (λ r. r.1) run ∙ over)
