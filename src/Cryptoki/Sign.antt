-- ===== src/Cryptoki/Sign.antt =====
-- C_Sign of src/wp11_pkcs11.c. The key's backend and wolfCrypt's HMAC are the parameter `Signer`.
pub mod Laws
pub mod Signed
pub mod Change
mod Examples
use wolf_p.Prelude.{
  ℕ, ◌-◌, ◌%◌, ◌^◌, Bool, true, false, not, ◌&&◌, ◌||◌, Option, none, some, List, [], leb, ltb,
  ◌==◌, if◌then◌else◌, length, take, Result, ok, err, Call,
}
use wolf_p.Cryptoki.State.{
  word32_cut, Ckr, arguments_bad, session_handle_invalid, user_not_logged_in, operation_active,
  operation_not_initialized, key_handle_invalid, key_type_inconsistent, mechanism_invalid,
  mechanism_param_invalid, function_failed, data_len_range, device_error, action_prohibited,
  signature_invalid, Hash, md5, sha_1, sha224, sha256, sha384, sha512, Pss, Session, KeyObj,
  Library, entered, session_get, key_get,
}
use wolf_p.Cryptoki.Find.{put_session}
use wolf_p.Cryptoki.SignInit.{
  MechParam, check_pss, check_sign, check_sign_mech, ck_hash_to_wc, ck_mgf_to_wc,
  ckk_generic_secret, ckk_rsa, ckm_ecdsa, ckm_ecdsa_sha256, ckm_eddsa, ckm_rsa_pkcs,
  ckm_rsa_pkcs_pss, cko_certificate, cko_secret_key, mech_hmac_output_size, mech_hmac_type,
  pss_params_size, sign_init, validate_mechanism_params,
}

-- The codes WP11_BACKEND_ERR_*, and `backend_err_to_rv`.
pub data BackendErr : Type 0 where
  general not_ready timeout key_not_found usage not_impl sig_invalid : BackendErr

unfoldable pub backend_err_to_rv : BackendErr → Ckr
backend_err_to_rv general = function_failed
backend_err_to_rv not_ready = device_error
backend_err_to_rv timeout = device_error
backend_err_to_rv key_not_found = key_handle_invalid
backend_err_to_rv usage = action_prohibited
backend_err_to_rv not_impl = mechanism_invalid
backend_err_to_rv sig_invalid = signature_invalid

-- What computes signatures: the HMAC of wolfCrypt with its hash, the key's bytes and the data;
-- wp11_soft_key_rsa_pss_sign with the key, the data, the buffer's size and the parameters; and the
-- backend's `sign` with the key, the mechanism, the data and the buffer's size.
pub record Signer : Type 0 where
  pub hmac : Hash → List ℕ → List ℕ → Option (List ℕ)
  pub pss_sign : KeyObj → List ℕ → ℕ → Option Pss → Option (List ℕ)
  pub sign : KeyObj → ℕ → List ℕ → ℕ → Result BackendErr (List ℕ)

-- What C_Sign writes: with CKR_OK a length alone or a signature with its length, and a length with
-- CKR_BUFFER_TOO_SMALL.
pub data SignOut : Type 0 where
  size_is : ℕ → SignOut
  signature : List ℕ → SignOut
  too_small : ℕ → SignOut

-- `s->sign_active = 0`.
unfoldable pub end_sign : Library → ℕ → Session → Library
end_sign g h s = put_session g h (record s { sign_active = false })

-- The answer of a signing function, behind which the operation is over.
unfoldable pub sign_answer :
    Library → ℕ → Session → Result Ckr (List ℕ) → Result Ckr SignOut × Library
sign_answer g h s (ok v) = (ok (signature v), end_sign g h s)
sign_answer g h s (err e) = (err e, end_sign g h s)

unfoldable pub or_failed : Option (List ℕ) → Result Ckr (List ℕ)
or_failed none = err function_failed
or_failed (some v) = ok v

unfoldable pub backend_answer : Result BackendErr (List ℕ) → Result Ckr (List ℕ)
backend_answer (ok v) = ok v
backend_answer (err e) = err (backend_err_to_rv e)

-- The HMAC mechanisms. The casts of the lengths to word32 cut the secret and the data.
unfoldable pub sign_hmac :
    Signer
    → Library
    → ℕ
    → Session
    → KeyObj
    → Hash
    → List ℕ
    → Bool
    → ℕ
    → Result Ckr SignOut × Library
sign_hmac signer g h s obj hash data_in has_sig room =
    let out_size = mech_hmac_output_size s.sign_mech in
    if out_size == 0
    then (err mechanism_invalid, end_sign g h s)
    else if not has_sig
    then (ok (size_is out_size), g)
    else if ltb room out_size
    then (ok (too_small out_size), g)
    else sign_answer g h s
        (or_failed (signer.hmac hash (word32_cut obj.secret) (word32_cut data_in)))

unfoldable pub sign_pss :
    Signer → Library → ℕ → Session → KeyObj → List ℕ → ℕ → Result Ckr SignOut × Library
sign_pss signer g h s obj data_in room =
    if not (obj.key_type == ckk_rsa) || not obj.has_priv
    then (err key_type_inconsistent, end_sign g h s)
    else if leb (2 ^ 32) (length data_in) || leb (2 ^ 32) room
    then (err data_len_range, end_sign g h s)
    else sign_answer g h s (or_failed (signer.pss_sign obj data_in room s.pss_sign))

-- The other mechanisms; a `sig_len_max` of 0 is WP11_SIG_LEN_UNKNOWN.
unfoldable pub sign_key_op :
    Signer → Library → ℕ → Session → KeyObj → List ℕ → Bool → ℕ → Result Ckr SignOut × Library
sign_key_op signer g h s obj data_in has_sig room =
    if not has_sig
    then (ok (size_is (if obj.sig_len_max == 0 then 512 else obj.sig_len_max)), g)
    else if not (obj.sig_len_max == 0) && ltb room obj.sig_len_max
    then (ok (too_small obj.sig_len_max), g)
    else if s.sign_mech == ckm_rsa_pkcs_pss
    then sign_pss signer g h s obj data_in room
    else if not obj.can_sign
    then (err function_failed, g)
    else sign_answer g h s (backend_answer (signer.sign obj s.sign_mech data_in room))

-- C_Sign: `has_sig` is for `pSignature`, and `none` for a NULL `pData` or `pulSignatureLen`.
unfoldable pub sign : Signer → ℕ → Option (List ℕ) → Bool → Option ℕ → Call Library Ckr SignOut
sign signer h data_given has_sig len = entered λ g. elim data_given [
  | none ↦ (err arguments_bad, g)
  | some data_in ↦ elim len [
    | none ↦ (err arguments_bad, g)
    | some room ↦ elim (session_get g.sessions h) [
      | none ↦ (err session_handle_invalid, g)
      | some s ↦
          if not s.sign_active
          then (err operation_not_initialized, g)
          else elim (key_get g.keys s.sign_key) [
            | none ↦ (err key_handle_invalid, end_sign g h s)
            | some obj ↦ elim (mech_hmac_type s.sign_mech) [
              | some hash ↦ sign_hmac signer g h s obj hash data_in has_sig room
              | none ↦ sign_key_op signer g h s obj data_in has_sig room
            ]
          ]
    ]
  ]
]
