-- ===== src/Cryptoki/Verify.antt =====
-- C_VerifyInit and C_Verify of src/wp11_pkcs11.c. The key's backend and wolfCrypt's HMAC are the
-- parameter `Verifier`.
pub mod Compare
pub mod RoundTrip
mod Examples
use wolf_p.Prelude.{
  ℕ, ◌%◌, ◌^◌, Bool, true, false, not, ◌&&◌, ◌||◌, Option, none, some, List, [], leb, ltb, ◌==◌,
  if◌then◌else◌, length, take, Result, ok, err, Call,
}
use wolf_p.Cryptoki.State.{
  word32_cut, Ckr, arguments_bad, session_handle_invalid, user_not_logged_in, operation_active,
  operation_not_initialized, key_handle_invalid, key_type_inconsistent, mechanism_invalid,
  function_failed, data_len_range, signature_len_range, signature_invalid, Hash, Pss, Session,
  KeyObj, Library, entered, session_get, key_get,
}
use wolf_p.Cryptoki.Find.{put_session}
use wolf_p.Cryptoki.SignInit.{
  MechParam, check_pss, ckk_generic_secret, ckk_rsa, ckm_ecdsa, ckm_ecdsa_sha256, ckm_eddsa,
  ckm_rsa_pkcs, ckm_rsa_pkcs_pss, cko_certificate, cko_secret_key, mech_hmac_output_size,
  mech_hmac_type, validate_mechanism_params,
}
use wolf_p.Cryptoki.Sign.{BackendErr, general, sig_invalid, backend_err_to_rv}
use wolf_p.Cryptoki.Verify.Compare.{differing}

-- The checks of the mechanism, with the parameters that the session then holds; those of RSA-PSS are
-- read as in C_SignInit.
unfoldable pub check_verify_mech : Session → KeyObj → ℕ → MechParam → Result Ckr (Option Pss)
check_verify_mech s obj mech p =
    if mech == ckm_rsa_pkcs
      || (mech == ckm_ecdsa || (mech == ckm_ecdsa_sha256 || mech == ckm_eddsa))
    then elim (validate_mechanism_params p) [ err e ↦ err e | ok u ↦ ok s.pss_verify ]
    else if mech == ckm_rsa_pkcs_pss
    then elim (check_pss obj p) [ err e ↦ err e | ok pss ↦ ok (some pss) ]
    else elim (mech_hmac_type mech) [
      | none ↦ err mechanism_invalid
      | some hash ↦
          if not (obj.key_type == ckk_generic_secret) && not (obj.obj_class == cko_secret_key)
          then err key_type_inconsistent
          else if not obj.has_secret || length obj.secret == 0
          then err key_handle_invalid
          else ok s.pss_verify
    ]

unfoldable pub check_verify : Library → Session → ℕ → MechParam → ℕ → Result Ckr (Option Pss)
check_verify g s mech p key = elim (key_get g.keys key) [
  | none ↦ err key_handle_invalid
  | some obj ↦
      if obj.obj_class == cko_certificate
      then err key_handle_invalid
      else if s.logged_in == 0 && obj.is_private
      then err user_not_logged_in
      else check_verify_mech s obj mech p
]

-- C_VerifyInit; `none` is a NULL mechanism.
unfoldable pub verify_init : ℕ → Option (ℕ × MechParam) → ℕ → Call Library Ckr (Unit {0})
verify_init h mechanism key = entered λ g. elim mechanism [
  | none ↦ (err arguments_bad, g)
  | some (mech, p) ↦ elim (session_get g.sessions h) [
    | none ↦ (err session_handle_invalid, g)
    | some s ↦
        if s.verify_active then (err operation_active, g) else elim (check_verify g s mech p key) [
          | err e ↦ (err e, put_session g h (record s { verify_active = false }))
          | ok pss ↦ (
            ok tt,
            put_session g h (record s {
              verify_active = true;
              verify_mech = mech;
              verify_key = key;
              pss_verify = pss;
            }),
          )
        ]
  ]
]

-- What checks signatures: the HMAC of wolfCrypt with its hash, the key's bytes and the data;
-- wp11_soft_key_rsa_pss_verify with the key, the signature, the data and the parameters, true for
-- code 0; and the backend's `verify` with the key, the mechanism, the data and the signature.
pub record Verifier : Type 0 where
  pub hmac : Hash → List ℕ → List ℕ → Option (List ℕ)
  pub pss_verify : KeyObj → List ℕ → List ℕ → Option Pss → Bool
  pub verify : KeyObj → ℕ → List ℕ → List ℕ → Result BackendErr (Unit {0})

-- `s->verify_active = 0`.
unfoldable pub end_verify : Library → ℕ → Session → Library
end_verify g h s = put_session g h (record s { verify_active = false })

-- The HMAC mechanisms, behind the check of the signature's length.
unfoldable pub mac_answer : Option (List ℕ) → List ℕ → Result Ckr (Unit {0})
mac_answer none sig = err function_failed
mac_answer (some computed) sig =
    if not (differing 0 computed sig == 0) then err signature_invalid else ok tt

-- The backend's codes. General errors count as an invalid signature.
unfoldable pub verify_answer : Result BackendErr (Unit {0}) → Result Ckr (Unit {0})
verify_answer (ok u) = ok tt
verify_answer (err general) = err signature_invalid
verify_answer (err sig_invalid) = err signature_invalid
verify_answer (err e) = err (backend_err_to_rv e)

-- The mechanisms of a key pair.
unfoldable pub verify_key_op :
    Verifier → Library → ℕ → Session → KeyObj → List ℕ → List ℕ → Result Ckr (Unit {0}) × Library
verify_key_op verifier g h s obj data_in sig =
    if s.verify_mech == ckm_rsa_pkcs
      && (ltb 0 obj.sig_len_max && not (length sig == obj.sig_len_max))
    then (err signature_len_range, end_verify g h s)
    else if s.verify_mech == ckm_rsa_pkcs_pss
    then if not (obj.key_type == ckk_rsa) || not obj.has_priv
      then (err key_type_inconsistent, end_verify g h s)
      else if leb (2 ^ 32) (length sig) || leb (2 ^ 32) (length data_in)
      then (err data_len_range, end_verify g h s)
      else (
        (if verifier.pss_verify obj sig data_in s.pss_verify then ok tt else err signature_invalid),
        end_verify g h s,
      )
    else if not obj.can_verify
    then (err function_failed, g)
    else (verify_answer (verifier.verify obj s.verify_mech data_in sig), end_verify g h s)

-- The casts of the lengths to word32 cut the secret and the data of an HMAC.
unfoldable pub verify_with :
    Verifier → Library → ℕ → Session → KeyObj → List ℕ → List ℕ → Result Ckr (Unit {0}) × Library
verify_with verifier g h s obj data_in sig = elim (mech_hmac_type s.verify_mech) [
  | none ↦ verify_key_op verifier g h s obj data_in sig
  | some hash ↦
      if not (length sig == mech_hmac_output_size s.verify_mech)
      then (err signature_len_range, end_verify g h s)
      else (
        mac_answer (verifier.hmac hash (word32_cut obj.secret) (word32_cut data_in)) sig,
        end_verify g h s,
      )
]

-- C_Verify; `none` is a NULL `pData` or `pSignature`.
unfoldable pub verify :
    Verifier → ℕ → Option (List ℕ) → Option (List ℕ) → Call Library Ckr (Unit {0})
verify verifier h data_given sig_given = entered λ g. elim data_given [
  | none ↦ (err arguments_bad, g)
  | some data_in ↦ elim sig_given [
    | none ↦ (err arguments_bad, g)
    | some sig ↦ elim (session_get g.sessions h) [
      | none ↦ (err session_handle_invalid, g)
      | some s ↦
          if not s.verify_active
          then (err operation_not_initialized, g)
          else if length sig == 0
          then (err signature_len_range, end_verify g h s)
          else elim (key_get g.keys s.verify_key) [
            | none ↦ (err key_handle_invalid, end_verify g h s)
            | some obj ↦ verify_with verifier g h s obj data_in sig
          ]
    ]
  ]
]
