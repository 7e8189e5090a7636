-- ===== src/Cryptoki/EncryptInit.antt =====
-- C_EncryptInit of src/wp11_pkcs11.c. What wolfCrypt and the software backend compute is the parameter
-- `Cipher`. A context that could not be set up is not used, and is not modelled.
use wolf_p.Prelude.{
  ℕ, ◌%◌, Bool, true, false, not, ◌&&◌, ◌||◌, Option, none, some, List, [], ltb, ◌==◌,
  if◌then◌else◌, length, Result, ok, err, Call,
}
use wolf_p.Cryptoki.State.{
  word32_cut, Ckr, arguments_bad, session_handle_invalid, user_not_logged_in, operation_active,
  key_handle_invalid, key_type_inconsistent, key_size_range, mechanism_invalid,
  mechanism_param_invalid, Gcm, Oaep, CipherCtx, Session, KeyObj, Library, entered, session_get,
  key_get,
}
use wolf_p.Cryptoki.Find.{put_session}
use wolf_p.Cryptoki.SignInit.{
  MechParam, validate_mechanism_params, ck_hash_to_wc, ck_mgf_to_wc, ckm_rsa_pkcs, ckm_ecdsa,
  ckm_ecdsa_sha256, ckk_rsa,
}

-- CKM_RSA_PKCS_OAEP and CKM_AES_GCM, and CKM_DES_ECB to CKM_AES_CBC.
abbrev pub ckm_rsa_pkcs_oaep : ℕ
ckm_rsa_pkcs_oaep = 9

abbrev pub ckm_aes_gcm : ℕ
ckm_aes_gcm = 0x1087

abbrev pub ckm_des_ecb : ℕ
ckm_des_ecb = 0x121

abbrev pub ckm_des_cbc : ℕ
ckm_des_cbc = 0x122

abbrev pub ckm_des3_ecb : ℕ
ckm_des3_ecb = 0x132

abbrev pub ckm_des3_cbc : ℕ
ckm_des3_cbc = 0x133

abbrev pub ckm_aes_ecb : ℕ
ckm_aes_ecb = 0x1081

abbrev pub ckm_aes_cbc : ℕ
ckm_aes_cbc = 0x1082

-- CKK_DES, CKK_DES3 and CKK_AES.
abbrev pub ckk_des : ℕ
ckk_des = 0x13

abbrev pub ckk_des3 : ℕ
ckk_des3 = 0x15

abbrev pub ckk_aes : ℕ
ckk_aes = 0x1F

-- sizeof(CK_GCM_PARAMS) and sizeof(CK_RSA_PKCS_OAEP_PARAMS).
abbrev pub gcm_params_size : ℕ
gcm_params_size = 48

abbrev pub oaep_params_size : ℕ
oaep_params_size = 40

unfoldable pub mech_block_size : ℕ → ℕ
mech_block_size mech =
    if mech == ckm_des_ecb || mech == ckm_des_cbc || mech == ckm_des3_ecb || mech == ckm_des3_cbc
    then 8
    else if mech == ckm_aes_ecb || mech == ckm_aes_cbc
    then 16
    else 0

unfoldable pub mech_has_iv : ℕ → Bool
mech_has_iv mech = mech == ckm_des_cbc || mech == ckm_des3_cbc || mech == ckm_aes_cbc

-- `none` is `(CK_KEY_TYPE)-1`.
unfoldable pub mech_required_key_type : ℕ → Option ℕ
mech_required_key_type mech =
    if mech == ckm_des_ecb || mech == ckm_des_cbc
    then some ckk_des
    else if mech == ckm_des3_ecb || mech == ckm_des3_cbc
    then some ckk_des3
    else if mech == ckm_aes_ecb || mech == ckm_aes_cbc || mech == ckm_aes_gcm
    then some ckk_aes
    else none

-- A mechanism's parameter: with the pointer, its length and the hash and mask of a
-- CK_RSA_PKCS_OAEP_PARAMS (`base`); the bytes that it points to, for an IV; the fields of a
-- CK_GCM_PARAMS, where a NULL `pIv` is `none`; and the label of a CK_RSA_PKCS_OAEP_PARAMS. A pointer
-- with a length has the bytes of that length, which count only if the pointer is given.
pub record CipherParam : Type 0 where
  pub base : MechParam
  pub iv_bytes : List ℕ
  pub p_iv : Option (List ℕ)
  pub aad_given : Bool
  pub p_aad : List ℕ
  pub tag_bits : ℕ
  pub source_given : Bool
  pub source : List ℕ

-- What encrypts: whether wc_AesSetKey and wc_AesGcmSetKey take a key; the block cipher of a mechanism
-- with the next data, `none` for a code other than 0; wc_AesGcmEncrypt with the key, the parameters
-- and the data, which gives the ciphertext and the tag; wp11_soft_key_rsa_encrypt and
-- wp11_soft_key_rsa_oaep_encrypt with the key, the data and the buffer's size, and without data.
pub record Cipher : Type 0 where
  pub aes_set_key : List ℕ → Bool
  pub gcm_set_key : List ℕ → Bool
  pub process : ℕ → CipherCtx → List ℕ → Option (List ℕ)
  pub gcm_encrypt : CipherCtx → Gcm → List ℕ → Option (List ℕ × List ℕ)
  pub rsa_size : KeyObj → Option ℕ
  pub rsa_encrypt : KeyObj → List ℕ → ℕ → Option (List ℕ)
  pub oaep_size : KeyObj → Option Oaep → Option ℕ
  pub oaep_encrypt : KeyObj → Option Oaep → List ℕ → ℕ → Option (List ℕ)

-- RSA-OAEP; a NULL label is the empty one.
unfoldable pub check_oaep : KeyObj → CipherParam → Result Ckr Oaep
check_oaep obj p =
    if not (obj.key_type == ckk_rsa)
    then err key_type_inconsistent
    else if not p.base.given || ltb p.base.len oaep_params_size
    then err mechanism_param_invalid
    else elim (ck_hash_to_wc p.base.hash_alg) [
      | none ↦ err mechanism_param_invalid
      | some hash ↦ elim (ck_mgf_to_wc p.base.mgf) [
        | none ↦ err mechanism_param_invalid
        | some wc_mgf ↦
            if ltb 64 (length p.source)
            then err mechanism_param_invalid
            else ok (record {
              hash_type = hash;
              mgf = wc_mgf;
              label = (if p.source_given then p.source else []);
            })
      ]
    ]

-- A CK_GCM_PARAMS.
unfoldable pub check_gcm_params : CipherParam → Result Ckr Gcm
check_gcm_params p =
    if not p.base.given || ltb p.base.len gcm_params_size
    then err mechanism_param_invalid
    else elim p.p_iv [
      | none ↦ err mechanism_param_invalid
      | some iv ↦
          if length iv == 0 || ltb 16 (length iv)
          then err mechanism_param_invalid
          else if p.tag_bits == 0
              || ltb 128 p.tag_bits
              || not (p.tag_bits % 8 == 0)
              || ltb p.tag_bits 32
          then err mechanism_param_invalid
          else if ltb 64 (length p.p_aad)
          then err mechanism_param_invalid
          else if ltb 0 (length p.p_aad) && not p.aad_given
          then err mechanism_param_invalid
          else ok (record { iv = iv; aad = p.p_aad; tag_bits = p.tag_bits })
    ]

abbrev pub no_secret : KeyObj → Bool
no_secret obj = not obj.has_secret || length obj.secret == 0

-- A context that is set up with the object's key, whose length is cast to word32.
abbrev pub fresh_ctx : KeyObj → Option (List ℕ) → CipherCtx
fresh_ctx obj iv = record { set_key = word32_cut obj.secret; set_iv = iv; given = [] }

unfoldable pub gcm_setup : Cipher → Session → KeyObj → CipherParam → Result Ckr Session
gcm_setup cipher s obj p =
    if not (obj.key_type == ckk_aes)
    then err key_type_inconsistent
    else if no_secret obj
    then err key_handle_invalid
    else elim (check_gcm_params p) [
      | err e ↦ err e
      | ok gcm ↦
          if not (cipher.gcm_set_key (word32_cut obj.secret))
          then err key_size_range
          else ok (record s { enc_ctx = fresh_ctx obj none; gcm_enc = gcm })
    ]

-- The block ciphers. The codes of the DES functions are not looked at.
unfoldable pub block_setup : Cipher → Session → KeyObj → ℕ → CipherParam → Result Ckr Session
block_setup cipher s obj mech p = elim (mech_required_key_type mech) [
  | none ↦
      if mech == ckm_ecdsa || mech == ckm_ecdsa_sha256
      then err key_type_inconsistent
      else err mechanism_invalid
  | some req ↦
      if not (obj.key_type == req)
      then err key_type_inconsistent
      else if mech_has_iv mech && (not p.base.given || not (p.base.len == mech_block_size mech))
      then err mechanism_param_invalid
      else if no_secret obj
      then err key_handle_invalid
      else if (mech == ckm_aes_ecb || mech == ckm_aes_cbc)
          && not (cipher.aes_set_key (word32_cut obj.secret))
      then err key_size_range
      else ok (record s {
        enc_ctx = fresh_ctx obj (if mech_has_iv mech then some p.iv_bytes else none);
      })
]

-- The part that depends on the mechanism.
unfoldable pub encrypt_setup : Cipher → Session → KeyObj → ℕ → CipherParam → Result Ckr Session
unfolding check_oaep gcm_setup block_setup
encrypt_setup cipher s obj mech p =
    if mech == ckm_rsa_pkcs
    then if not (obj.key_type == ckk_rsa)
      then err key_type_inconsistent
      else elim (validate_mechanism_params p.base) [ err e ↦ err e | ok u ↦ ok s ]
    else if mech == ckm_rsa_pkcs_oaep
    then elim (check_oaep obj p) [
      | err e ↦ err e
      | ok oaep ↦ ok (record s { oaep_enc = some oaep })
    ]
    else if mech == ckm_aes_gcm
    then gcm_setup cipher s obj p
    else block_setup cipher s obj mech p

unfoldable pub check_encrypt : Cipher → Library → Session → ℕ → CipherParam → ℕ → Result Ckr Session
check_encrypt cipher g s mech p key = elim (key_get g.keys key) [
  | none ↦ err key_handle_invalid
  | some obj ↦
      if s.logged_in == 0 && obj.is_private
      then err user_not_logged_in
      else encrypt_setup cipher s obj mech p
]

-- C_EncryptInit; `none` is a NULL mechanism.
unfoldable pub encrypt_init :
    Cipher → ℕ → Option (ℕ × CipherParam) → ℕ → Call Library Ckr (Unit {0})
encrypt_init cipher h mechanism key = entered λ g. elim mechanism [
  | none ↦ (err arguments_bad, g)
  | some (mech, p) ↦ elim (session_get g.sessions h) [
    | none ↦ (err session_handle_invalid, g)
    | some s ↦
        if s.encrypt_active
        then (err operation_active, g)
        else elim (check_encrypt cipher g s mech p key) [
          | err e ↦ (err e, put_session g h (record s { encrypt_active = false }))
          | ok s' ↦ (
            ok tt,
            put_session g h (record s' {
              encrypt_active = true;
              encrypt_oneshot = false;
              encrypt_multipart = false;
              encrypt_mech = mech;
              encrypt_key = key;
            }),
          )
        ]
  ]
]
