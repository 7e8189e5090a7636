-- ===== src/Cryptoki/Digest.antt =====
-- C_DigestInit, C_Digest, C_DigestUpdate, C_DigestKey and C_DigestFinal of src/wp11_pkcs11.c. What
-- wolfCrypt computes of a mechanism and of the data given to its context is the parameter `finish`.
pub mod Pieces
mod Examples
use wolf_p.Prelude.{
  ℕ, ◌%◌, ◌^◌, Bool, true, false, not, ◌||◌, Option, none, some, List, [], ◌∷◌, ◌++◌, ltb, ◌==◌,
  if◌then◌else◌, length, take, ok, err, Call, Result,
}
use wolf_p.Cryptoki.State.{
  word32_cut, Ckr, arguments_bad, session_handle_invalid, operation_active,
  operation_not_initialized, key_handle_invalid, mechanism_invalid, key_indigestible, Session,
  Library, entered, session_get, key_get,
}
use wolf_p.Cryptoki.Find.{put_session}
use wolf_p.Cryptoki.Sign.{SignOut, size_is, signature, too_small}

-- CKM_MD5, CKM_SHA_1, CKM_SHA256, CKM_SHA384 and CKM_SHA512.
unfoldable pub mech_digest_output_size : ℕ → ℕ
mech_digest_output_size mech =
    if mech == 0x210
    then 16
    else if mech == 0x220
    then 20
    else if mech == 0x250
    then 32
    else if mech == 0x260
    then 48
    else if mech == 0x270
    then 64
    else 0

-- The mechanisms that the switch statements know.
unfoldable pub knows_digest : ℕ → Bool
knows_digest mech =
    mech == 0x210 || (mech == 0x220 || (mech == 0x250 || (mech == 0x260 || mech == 0x270)))

-- A session without a digest operation.
abbrev pub digest_over : Session → Session
digest_over s = record s { digest_active = false; digest_oneshot = false; digest_multipart = false }

-- C_DigestInit; `none` is a NULL mechanism.
unfoldable pub digest_init : ℕ → Option ℕ → Call Library Ckr (Unit {0})
digest_init h mechanism = entered λ g. elim mechanism [
  | none ↦ (err arguments_bad, g)
  | some mech ↦ elim (session_get g.sessions h) [
    | none ↦ (err session_handle_invalid, g)
    | some s ↦
        if s.digest_active
        then (err operation_active, g)
        else if not (knows_digest mech)
        then (err mechanism_invalid, put_session g h (record s { digest_active = false }))
        else (
          ok tt,
          put_session g h (record s {
            digest_active = true;
            digest_oneshot = false;
            digest_multipart = false;
            digest_mech = mech;
            dig_ctx = [];
          }),
        )
  ]
]

-- The end of C_Digest and of C_DigestFinal on the data given so far, with the room for the digest;
-- `too_small` comes with CKR_BUFFER_TOO_SMALL. wolfCrypt starts the context anew behind its digest.
unfoldable pub give_digest :
    (ℕ → List (List ℕ) → List ℕ)
    → Library
    → ℕ
    → Session
    → List (List ℕ)
    → ℕ
    → Result Ckr SignOut × Library
give_digest finish g h s given room =
    if ltb room (mech_digest_output_size s.digest_mech)
    then (ok (too_small (mech_digest_output_size s.digest_mech)), g)
    else if not (knows_digest s.digest_mech)
    then (err mechanism_invalid, put_session g h (record s { digest_active = false }))
    else (
      ok (signature (finish s.digest_mech given)),
      put_session g h (record (digest_over s) { dig_ctx = [] }),
    )

-- C_Digest; `none` is a NULL `pData` or `pulDigestLen`, and `has_out` is for `pDigest`.
unfoldable pub digest :
    (ℕ → List (List ℕ) → List ℕ) → ℕ → Option (List ℕ) → Bool → Option ℕ → Call Library Ckr SignOut
digest finish h data_given has_out len = entered λ g. elim (session_get g.sessions h) [
  | none ↦ (err session_handle_invalid, g)
  | some s ↦
      if not s.digest_active
      then (err operation_not_initialized, g)
      else if s.digest_multipart
      then (err operation_active, put_session g h (digest_over s))
      else elim data_given [
        | none ↦ (err arguments_bad, put_session g h (record s { digest_active = false }))
        | some data_in ↦ elim len [
          | none ↦ (err arguments_bad, put_session g h (record s { digest_active = false }))
          | some room ↦
              if not has_out
              then (
                ok (size_is (mech_digest_output_size s.digest_mech)),
                put_session g h (record s { digest_oneshot = true }),
              )
              else give_digest finish g h s (s.dig_ctx ++ (word32_cut data_in ∷ [])) room
        ]
      ]
]

-- A further piece of data.
unfoldable pub feed : Library → ℕ → Session → List ℕ → Result Ckr (Unit {0}) × Library
feed g h s bytes =
    if not (knows_digest s.digest_mech)
    then (err mechanism_invalid, put_session g h (record s { digest_active = false }))
    else (
      ok tt,
      put_session g h
          (record s { digest_multipart = true; dig_ctx = s.dig_ctx ++ (word32_cut bytes ∷ []) }),
    )

-- C_DigestUpdate; `none` is a NULL `pPart`.
unfoldable pub digest_update : ℕ → Option (List ℕ) → Call Library Ckr (Unit {0})
digest_update h piece = entered λ g. elim piece [
  | none ↦ (err arguments_bad, g)
  | some bytes ↦ elim (session_get g.sessions h) [
    | none ↦ (err session_handle_invalid, g)
    | some s ↦ if not s.digest_active then (err operation_not_initialized, g) else feed g h s bytes
  ]
]

-- C_DigestKey.
unfoldable pub digest_key : ℕ → ℕ → Call Library Ckr (Unit {0})
digest_key h key = entered λ g. elim (session_get g.sessions h) [
  | none ↦ (err session_handle_invalid, g)
  | some s ↦
      if not s.digest_active
      then (err operation_not_initialized, g)
      else elim (key_get g.keys key) [
        | none ↦ (err key_handle_invalid, g)
        | some obj ↦
            if length obj.secret == 0 then (err key_indigestible, g) else feed g h s obj.secret
      ]
]

-- C_DigestFinal.
unfoldable pub digest_final :
    (ℕ → List (List ℕ) → List ℕ) → ℕ → Bool → Option ℕ → Call Library Ckr SignOut
digest_final finish h has_out len = entered λ g. elim (session_get g.sessions h) [
  | none ↦ (err session_handle_invalid, g)
  | some s ↦
      if not s.digest_active
      then (err operation_not_initialized, g)
      else if s.digest_oneshot
      then (err operation_active, put_session g h (digest_over s))
      else elim len [
        | none ↦ (err arguments_bad, put_session g h (record s { digest_active = false }))
        | some room ↦
            if not has_out
            then (ok (size_is (mech_digest_output_size s.digest_mech)), g)
            else give_digest finish g h s s.dig_ctx room
      ]
]
