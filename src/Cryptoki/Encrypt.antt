-- ===== src/Cryptoki/Encrypt.antt =====
-- C_Encrypt, C_EncryptUpdate and C_EncryptFinal of src/wp11_pkcs11.c.
pub mod Pieces
mod Examples
pub mod Modes
pub mod Laws
use wolf_p.Prelude.{
  ℕ, ◌+◌, ◌/◌, ◌%◌, ◌^◌, Bool, true, false, not, ◌&&◌, ◌||◌, Option, none, some, List, [], ◌∷◌,
  ◌++◌, ltb, leb, ◌==◌, if◌then◌else◌, length, Result, ok, err, Call,
}
use wolf_p.Cryptoki.State.{
  word32_cut, Ckr, arguments_bad, session_handle_invalid, operation_active,
  operation_not_initialized, key_handle_invalid, mechanism_invalid, function_failed, data_len_range,
  Gcm, CipherCtx, Session, KeyObj, Library, entered, session_get, key_get,
}
use wolf_p.Cryptoki.Find.{put_session}
use wolf_p.Cryptoki.SignInit.{ckm_rsa_pkcs}
use wolf_p.Cryptoki.EncryptInit.{
  Cipher, ckm_rsa_pkcs_oaep, ckm_aes_gcm, ckm_des_ecb, ckm_des_cbc, ckm_des3_ecb, ckm_des3_cbc,
  ckm_aes_ecb, ckm_aes_cbc, mech_block_size,
}

-- What the calls write with CKR_OK: a length alone, or bytes and a length; and a length with
-- CKR_BUFFER_TOO_SMALL.
pub data EncOut : Type 0 where
  enc_size : ℕ → EncOut
  encrypted : List ℕ → ℕ → EncOut
  enc_too_small : ℕ → EncOut

-- `s->encrypt_active = 0`, and all three flags reset.
unfoldable pub end_encrypt : Library → ℕ → Session → Library
end_encrypt g h s = put_session g h (record s { encrypt_active = false })

abbrev pub encrypt_over : Session → Session
encrypt_over s = record s {
  encrypt_active = false;
  encrypt_oneshot = false;
  encrypt_multipart = false;
}

-- A size query, behind which the operation goes on.
unfoldable pub size_query : Library → ℕ → Session → Option ℕ → Result Ckr EncOut × Library
size_query g h s none = (err function_failed, put_session g h (record s { encrypt_active = false }))
size_query g h s (some n) = (ok (enc_size n), put_session g h (record s { encrypt_oneshot = true }))

-- The answer of the software backend.
unfoldable pub rsa_result : Library → ℕ → Session → Option (List ℕ) → Result Ckr EncOut × Library
rsa_result g h s none = (err function_failed, put_session g h (record s { encrypt_active = false }))
rsa_result g h s (some out) = (ok (encrypted out (length out)), put_session g h (encrypt_over s))

-- The casts of the lengths to word32 cut the data and the room.
unfoldable pub encrypt_rsa :
    Cipher → Library → ℕ → Session → List ℕ → Bool → ℕ → Result Ckr EncOut × Library
unfolding size_query rsa_result end_encrypt
encrypt_rsa cipher g h s data_in has_out room = elim (key_get g.keys s.encrypt_key) [
  | none ↦ (err key_handle_invalid, end_encrypt g h s)
  | some obj ↦
      if not obj.has_priv
      then (err key_handle_invalid, end_encrypt g h s)
      else if not has_out
      then size_query g h s (cipher.rsa_size obj)
      else rsa_result g h s (cipher.rsa_encrypt obj (word32_cut data_in) (room % 2 ^ 32))
]

-- Without keystore backends only the software backend's keys are taken.
unfoldable pub encrypt_oaep :
    Cipher → Library → ℕ → Session → List ℕ → Bool → ℕ → Result Ckr EncOut × Library
unfolding size_query rsa_result end_encrypt
encrypt_oaep cipher g h s data_in has_out room = elim (key_get g.keys s.encrypt_key) [
  | none ↦ (err key_handle_invalid, end_encrypt g h s)
  | some obj ↦
      if not obj.has_priv
      then (err key_handle_invalid, end_encrypt g h s)
      else if not obj.soft_ops
      then (err mechanism_invalid, end_encrypt g h s)
      else if not has_out
      then size_query g h s (cipher.oaep_size obj s.oaep_enc)
      else rsa_result g h s
          (cipher.oaep_encrypt obj s.oaep_enc (word32_cut data_in) (room % 2 ^ 32))
]

-- The ciphertext and behind it the tag.
unfoldable pub encrypt_gcm :
    Cipher → Library → ℕ → Session → List ℕ → Bool → ℕ → Result Ckr EncOut × Library
unfolding end_encrypt
encrypt_gcm cipher g h s data_in has_out room =
    let taglen = s.gcm_enc.tag_bits / 8 in
    let needed = length data_in + taglen in
    if not has_out
    then (ok (enc_size needed), put_session g h (record s { encrypt_oneshot = true }))
    else if ltb room needed
    then (ok (enc_too_small needed), g)
    else if leb (2 ^ 32) (length data_in) || leb (2 ^ 32) taglen || ltb 16 (length s.gcm_enc.iv)
    then (err data_len_range, end_encrypt g h s)
    else elim (cipher.gcm_encrypt s.enc_ctx s.gcm_enc data_in) [
      | none ↦ (err function_failed, end_encrypt g h s)
      | some out ↦ (ok (encrypted (out.0 ++ out.1) needed), put_session g h (encrypt_over s))
    ]

-- The mechanisms of the two switch statements.
unfoldable pub knows_block : ℕ → Bool
knows_block mech =
    mech == ckm_aes_ecb
    || mech == ckm_aes_cbc
    || mech == ckm_des_ecb
    || mech == ckm_des_cbc
    || mech == ckm_des3_ecb
    || mech == ckm_des3_cbc

-- A length that is not a multiple of the block size.
unfoldable pub ragged : ℕ → List ℕ → Bool
ragged mech bytes = ltb 0 (mech_block_size mech) && not (length bytes % mech_block_size mech == 0)

-- The context behind a call with data, whose length is cast to word32.
abbrev pub ctx_after : CipherCtx → List ℕ → CipherCtx
ctx_after ctx bytes = record ctx { given = ctx.given ++ (bytes ∷ []) }

unfoldable pub encrypt_block :
    Cipher → Library → ℕ → Session → List ℕ → Bool → ℕ → Result Ckr EncOut × Library
unfolding end_encrypt
encrypt_block cipher g h s data_in has_out room =
    let n = length data_in in
    if ragged s.encrypt_mech data_in
    then (err data_len_range, end_encrypt g h s)
    else if not has_out
    then (ok (enc_size n), put_session g h (record s { encrypt_oneshot = true }))
    else if ltb room n
    then (ok (enc_too_small n), g)
    else if not (knows_block s.encrypt_mech)
    then (err mechanism_invalid, end_encrypt g h s)
    else elim (cipher.process s.encrypt_mech s.enc_ctx (word32_cut data_in)) [
      | none ↦ (err function_failed, end_encrypt g h s)
      | some out ↦ (
        ok (encrypted out n),
        put_session g h
            (record (encrypt_over s) { enc_ctx = ctx_after s.enc_ctx (word32_cut data_in) }),
      )
    ]

-- The path of the mechanism.
unfoldable pub encrypt_with :
    Cipher → Library → ℕ → Session → List ℕ → Bool → ℕ → Result Ckr EncOut × Library
encrypt_with cipher g h s data_in has_out room =
    if s.encrypt_mech == ckm_rsa_pkcs
    then encrypt_rsa cipher g h s data_in has_out room
    else if s.encrypt_mech == ckm_rsa_pkcs_oaep
    then encrypt_oaep cipher g h s data_in has_out room
    else if s.encrypt_mech == ckm_aes_gcm
    then encrypt_gcm cipher g h s data_in has_out room
    else encrypt_block cipher g h s data_in has_out room

-- C_Encrypt; `none` is a NULL `pData` or `pulEncryptedDataLen`, and `has_out` is for
-- `pEncryptedData`.
unfoldable pub encrypt : Cipher → ℕ → Option (List ℕ) → Bool → Option ℕ → Call Library Ckr EncOut
encrypt cipher h data_given has_out len = entered λ g. elim (session_get g.sessions h) [
  | none ↦ (err session_handle_invalid, g)
  | some s ↦
      if not s.encrypt_active
      then (err operation_not_initialized, g)
      else if s.encrypt_multipart
      then (err operation_active, end_encrypt g h s)
      else elim data_given [
        | none ↦ (err arguments_bad, end_encrypt g h s)
        | some data_in ↦ elim len [
          | none ↦ (err arguments_bad, end_encrypt g h s)
          | some room ↦ encrypt_with cipher g h s data_in has_out room
        ]
      ]
]

-- The part of C_EncryptUpdate behind the checks of the arguments.
unfoldable pub encrypt_part :
    Cipher → Library → ℕ → Session → List ℕ → Bool → ℕ → Result Ckr EncOut × Library
unfolding end_encrypt
encrypt_part cipher g h s part has_out room =
    let n = length part in
    if ragged s.encrypt_mech part
    then (err data_len_range, end_encrypt g h s)
    else if not has_out
    then (err arguments_bad, end_encrypt g h s)
    else if ltb room n
    then (ok (enc_too_small n), g)
    else if not (knows_block s.encrypt_mech)
    then (err mechanism_invalid, end_encrypt g h s)
    else elim (cipher.process s.encrypt_mech s.enc_ctx (word32_cut part)) [
      | none ↦ (err function_failed, end_encrypt g h s)
      | some out ↦ (
        ok (encrypted out n),
        put_session g h (record s {
          encrypt_multipart = true;
          enc_ctx = ctx_after s.enc_ctx (word32_cut part);
        }),
      )
    ]

-- C_EncryptUpdate.
unfoldable pub encrypt_update :
    Cipher → ℕ → Option (List ℕ) → Bool → Option ℕ → Call Library Ckr EncOut
encrypt_update cipher h part_given has_out len = entered λ g. elim (session_get g.sessions h) [
  | none ↦ (err session_handle_invalid, g)
  | some s ↦
      if not s.encrypt_active
      then (err operation_not_initialized, g)
      else if s.encrypt_oneshot
      then (err operation_active, end_encrypt g h s)
      else elim part_given [
        | none ↦ (err arguments_bad, end_encrypt g h s)
        | some part ↦ elim len [
          | none ↦ (err arguments_bad, end_encrypt g h s)
          | some room ↦ encrypt_part cipher g h s part has_out room
        ]
      ]
]

-- C_EncryptFinal, which writes a length of 0: `has_out` is for both output pointers.
unfoldable pub encrypt_final : ℕ → Bool → Call Library Ckr (Unit {0})
encrypt_final h has_out = entered λ g.
    if not has_out then (err arguments_bad, g) else elim (session_get g.sessions h) [
      | none ↦ (err session_handle_invalid, g)
      | some s ↦
          if not s.encrypt_active
          then (err operation_not_initialized, end_encrypt g h s)
          else (ok tt, put_session g h (encrypt_over s))
    ]
