-- ===== src/Cryptoki/SignInit.antt =====
-- C_SignInit of src/wp11_pkcs11.c. Mechanisms, classes and key types have their numbers from PKCS#11.
use wolf_p.Prelude.{
  ℕ, ◌%◌, ◌^◌, Bool, true, false, not, ◌&&◌, ◌||◌, Option, none, some, ltb, ◌==◌, if◌then◌else◌,
  length, Result, ok, err, Call,
}
use wolf_p.Cryptoki.State.{
  Ckr, arguments_bad, session_handle_invalid, user_not_logged_in, operation_active,
  key_handle_invalid, key_type_inconsistent, mechanism_invalid, mechanism_param_invalid, Hash, md5,
  sha_1, sha224, sha256, sha384, sha512, Pss, Session, KeyObj, Library, entered, session_get,
  key_get,
}
use wolf_p.Cryptoki.Find.{put_session}

-- CKM_RSA_PKCS, CKM_RSA_PKCS_PSS, CKM_ECDSA, CKM_ECDSA_SHA256 and CKM_EDDSA.
abbrev pub ckm_rsa_pkcs : ℕ
ckm_rsa_pkcs = 1

abbrev pub ckm_rsa_pkcs_pss : ℕ
ckm_rsa_pkcs_pss = 0xD

abbrev pub ckm_ecdsa : ℕ
ckm_ecdsa = 0x1041

abbrev pub ckm_ecdsa_sha256 : ℕ
ckm_ecdsa_sha256 = 0x1044

abbrev pub ckm_eddsa : ℕ
ckm_eddsa = 0x1057

-- CKO_CERTIFICATE, CKO_SECRET_KEY, CKK_RSA and CKK_GENERIC_SECRET.
abbrev pub cko_certificate : ℕ
cko_certificate = 1

abbrev pub cko_secret_key : ℕ
cko_secret_key = 4

abbrev pub ckk_rsa : ℕ
ckk_rsa = 0

abbrev pub ckk_generic_secret : ℕ
ckk_generic_secret = 0x10

-- `ck_hash_to_wc`: CKM_SHA_1, CKM_SHA224, CKM_SHA256, CKM_SHA384 and CKM_SHA512.
unfoldable pub ck_hash_to_wc : ℕ → Option Hash
ck_hash_to_wc alg =
    if alg == 0x220
    then some sha_1
    else if alg == 0x255
    then some sha224
    else if alg == 0x250
    then some sha256
    else if alg == 0x260
    then some sha384
    else if alg == 0x270
    then some sha512
    else none

-- `ck_mgf_to_wc`: CKG_MGF1_SHA1, CKG_MGF1_SHA224, CKG_MGF1_SHA256, CKG_MGF1_SHA384 and CKG_MGF1_SHA512.
unfoldable pub ck_mgf_to_wc : ℕ → Option Hash
ck_mgf_to_wc mgf =
    if mgf == 1
    then some sha_1
    else if mgf == 5
    then some sha224
    else if mgf == 2
    then some sha256
    else if mgf == 3
    then some sha384
    else if mgf == 4
    then some sha512
    else none

-- `mech_hmac_type`: CKM_MD5_HMAC, CKM_SHA_1_HMAC, CKM_SHA256_HMAC, CKM_SHA384_HMAC and
-- CKM_SHA512_HMAC.
unfoldable pub mech_hmac_type : ℕ → Option Hash
mech_hmac_type mech =
    if mech == 0x211
    then some md5
    else if mech == 0x221
    then some sha_1
    else if mech == 0x251
    then some sha256
    else if mech == 0x261
    then some sha384
    else if mech == 0x271
    then some sha512
    else none

unfoldable pub mech_hmac_output_size : ℕ → ℕ
mech_hmac_output_size mech =
    if mech == 0x211
    then 16
    else if mech == 0x221
    then 20
    else if mech == 0x251
    then 32
    else if mech == 0x261
    then 48
    else if mech == 0x271
    then 64
    else 0

-- A mechanism's parameter: whether the pointer is given, its length, and the fields of a
-- CK_RSA_PKCS_PSS_PARAMS that it points to.
pub record MechParam : Type 0 where
  pub given : Bool
  pub len : ℕ
  pub hash_alg : ℕ
  pub mgf : ℕ
  pub s_len : ℕ

-- sizeof(CK_RSA_PKCS_PSS_PARAMS).
abbrev pub pss_params_size : ℕ
pss_params_size = 24

unfoldable pub validate_mechanism_params : MechParam → Result Ckr (Unit {0})
validate_mechanism_params p =
    if not p.given && not (p.len == 0)
    then err mechanism_param_invalid
    else if p.given && p.len == 0
    then err mechanism_param_invalid
    else if not (p.len == 0)
    then err mechanism_param_invalid
    else ok tt

-- The parameters of RSA-PSS. The cast of `sLen` to int is its value modulo 2 ^ 32.
unfoldable pub check_pss : KeyObj → MechParam → Result Ckr Pss
check_pss obj p =
    if not (obj.key_type == ckk_rsa)
    then err key_type_inconsistent
    else if not p.given || ltb p.len pss_params_size
    then err mechanism_param_invalid
    else elim (ck_hash_to_wc p.hash_alg) [
      | none ↦ err mechanism_param_invalid
      | some hash ↦ elim (ck_mgf_to_wc p.mgf) [
        | none ↦ err mechanism_param_invalid
        | some mgf ↦ ok (record {
          hash_type = hash;
          mgf = mgf;
          salt_len = (if p.s_len == 0 then none else some (p.s_len % 2 ^ 32));
        })
      ]
    ]

-- The checks of the mechanism, with the parameters that the session then holds.
unfoldable pub check_sign_mech : Session → KeyObj → ℕ → MechParam → Result Ckr (Option Pss)
check_sign_mech s obj mech p =
    if mech == ckm_rsa_pkcs
      || (mech == ckm_ecdsa || (mech == ckm_ecdsa_sha256 || mech == ckm_eddsa))
    then elim (validate_mechanism_params p) [ err e ↦ err e | ok u ↦ ok s.pss_sign ]
    else if mech == ckm_rsa_pkcs_pss
    then elim (check_pss obj p) [ err e ↦ err e | ok pss ↦ ok (some pss) ]
    else elim (mech_hmac_type mech) [
      | none ↦ err mechanism_invalid
      | some hash ↦
          if not (obj.key_type == ckk_generic_secret) && not (obj.obj_class == cko_secret_key)
          then err key_type_inconsistent
          else if length obj.secret == 0
          then err key_handle_invalid
          else ok s.pss_sign
    ]

-- The checks of the key.
unfoldable pub check_sign : Library → Session → ℕ → MechParam → ℕ → Result Ckr (Option Pss)
check_sign g s mech p key = elim (key_get g.keys key) [
  | none ↦ err key_handle_invalid
  | some obj ↦
      if obj.obj_class == cko_certificate
      then err key_handle_invalid
      else if s.logged_in == 0 && obj.is_private
      then err user_not_logged_in
      else check_sign_mech s obj mech p
]

-- C_SignInit; `none` is a NULL mechanism.
unfoldable pub sign_init : ℕ → Option (ℕ × MechParam) → ℕ → Call Library Ckr (Unit {0})
sign_init h mechanism key = entered λ g. elim mechanism [
  | none ↦ (err arguments_bad, g)
  | some (mech, p) ↦ elim (session_get g.sessions h) [
    | none ↦ (err session_handle_invalid, g)
    | some s ↦
        if s.sign_active then (err operation_active, g) else elim (check_sign g s mech p key) [
          | err e ↦ (err e, put_session g h (record s { sign_active = false }))
          | ok pss ↦ (
            ok tt,
            put_session g h
                (record s { sign_active = true; sign_mech = mech; sign_key = key; pss_sign = pss }),
          )
        ]
  ]
]
