-- ===== src/Cryptoki/Encrypt/Modes.antt =====
-- The one-part and the multi-part mode of an encryption, in src/wp11_pkcs11.c.
use wolf_p.Prelude.{
  ℕ, ◌%◌, ◌^◌, ◌≡◌, refl, ap, ◌∙◌, Bool, true, false, Option, none, some, Option-cases, List,
  length, arith, Result, ok, err, inl, inr,
}
use wolf_p.Cryptoki.State.{
  word32_cut, Ckr, operation_active, operation_not_initialized, Session, Library, max_sessions,
  session_get, key_get,
}
use wolf_p.Cryptoki.Find.{put_session}
use wolf_p.Cryptoki.Find.Batches.{session_get_put, session_get-in_use}
use wolf_p.Cryptoki.Digest.Pieces.{put-size, put-globals}
use wolf_p.Cryptoki.EncryptInit.{Cipher}
use wolf_p.Cryptoki.Encrypt.{
  EncOut, enc_size, encrypted, end_encrypt, size_query, rsa_result, encrypt_rsa, encrypt_oaep,
  encrypt_gcm, encrypt_block, encrypt_with, encrypt, encrypt_part, encrypt_update, ctx_after,
}

-- A call that goes on with an operation and leaves `s'` of its session `s`.
record GoesOn (g g' : Library) (h : ℕ) (s s' : Session) : Type 0 where
  locked : g.lock_ok ≡ true
  running : g.initialized ≡ true
  known : session_get g.sessions h ≡ some s
  size : length g.sessions ≡ max_sessions
  written : g' ≡ put_session g h s'
  used : s'.in_use ≡ s.in_use
  active : s'.encrypt_active ≡ true

GoesOn-after :
    (g g' : Library) (h : ℕ) (s s' : Session)
    → GoesOn g g' h s s'
    → (g'.lock_ok ≡ true)
      × (g'.initialized ≡ true)
      × (session_get g'.sessions h ≡ some s')
      × (length g'.sessions ≡ max_sessions)
GoesOn-after g g' h s s' d = (
  ap (λ x. x.lock_ok) d.written ∙ (put-globals g h s').0 ∙ d.locked,
  ap (λ x. x.initialized) d.written ∙ (put-globals g h s').1 ∙ d.running,
  ap (λ x. session_get x.sessions h) d.written
      ∙ session_get_put g h s s' d.known d.size
          (d.used ∙ session_get-in_use g.sessions h s d.known),
  ap (λ x. length x.sessions) d.written ∙ put-size g h s' d.size,
)

-- An operation that has been ended.
ended :
    (g : Library) (h : ℕ) (s : Session)
    → g.lock_ok ≡ true
    → g.initialized ≡ true
    → session_get g.sessions h ≡ some s
    → length g.sessions ≡ max_sessions
    → ((end_encrypt g h s).lock_ok ≡ true)
      × ((end_encrypt g h s).initialized ≡ true)
      × (session_get (end_encrypt g h s).sessions h ≡ some (record s { encrypt_active = false }))
unfolding end_encrypt
ended g h s locked running known size =
    let s' = record s { encrypt_active = false } in
    (
      (put-globals g h s').0 ∙ locked,
      (put-globals g h s').1 ∙ running,
      session_get_put g h s s' known size (session_get-in_use g.sessions h s known),
    )

module _ (cipher : Cipher) (h : ℕ) (data_given : Option (List ℕ)) (has_out : Bool)
    (len : Option ℕ) where
  encrypt_refused :
      (g : Library) (s : Session)
      → g.lock_ok ≡ true
      → g.initialized ≡ true
      → session_get g.sessions h ≡ some s
      → s.encrypt_active ≡ true
      → s.encrypt_multipart ≡ true
      → encrypt cipher h data_given has_out len g ≡ (err operation_active, end_encrypt g h s)
  unfolding encrypt
  encrypt_refused g s locked running known active multipart = ground arith

  encrypt_update_refused :
      (g : Library) (s : Session)
      → g.lock_ok ≡ true
      → g.initialized ≡ true
      → session_get g.sessions h ≡ some s
      → s.encrypt_active ≡ true
      → s.encrypt_oneshot ≡ true
      → encrypt_update cipher h data_given has_out len g ≡ (err operation_active, end_encrypt g h s)
  unfolding encrypt_update
  encrypt_update_refused g s locked running known active oneshot = ground arith

  not_running :
      (g : Library) (s : Session)
      → g.lock_ok ≡ true
      → g.initialized ≡ true
      → session_get g.sessions h ≡ some s
      → s.encrypt_active ≡ false
      → ((encrypt cipher h data_given has_out len g).0 ≡ err operation_not_initialized)
        × ((encrypt_update cipher h data_given has_out len g).0 ≡ err operation_not_initialized)
  unfolding encrypt encrypt_update
  not_running g s locked running known idle = (ground arith, ground arith)

encrypt_update-GoesOn :
    (cipher : Cipher) (g : Library) (h room n : ℕ) (part : List ℕ) (has_out : Bool) (out : List ℕ)
    → length g.sessions ≡ max_sessions
    → (encrypt_update cipher h (some part) has_out (some room) g).0 ≡ ok (encrypted out n)
    → (s : Session) × (s' : Session) × GoesOn g
        (encrypt_update cipher h (some part) has_out (some room) g).1
        h
        s
        s'
      × (s'.encrypt_multipart ≡ true)
unfolding encrypt_update encrypt_part
encrypt_update-GoesOn cipher g h room n part has_out out size e =
    elim (Option-cases (session_get g.sessions h)) [
      | inl unknown ↦ absurd (ground arith)
      | inr (s, known) ↦
          elim (Option-cases (cipher.process s.encrypt_mech s.enc_ctx (word32_cut part))) [
            | inl failed ↦ absurd (ground arith)
            | inr (v, made) ↦ (
              s,
              record s {
                encrypt_multipart = true;
                enc_ctx = ctx_after s.enc_ctx (word32_cut part);
              },
              record {
                locked = ground arith;
                running = ground arith;
                known = known;
                size = size;
                written = ground arith;
                used = refl;
                active = ground arith;
              },
              refl,
            )
          ]
    ]

-- What a size query leaves.
abbrev Asked : Library → ℕ → Session → Result Ckr EncOut × Library → Type 0
Asked g h s r =
    (n : ℕ) → r.0 ≡ ok (enc_size n) → r.1 ≡ put_session g h (record s { encrypt_oneshot = true })

size_query-Asked :
    (g : Library) (h : ℕ) (s : Session) (m : Option ℕ) → Asked g h s (size_query g h s m)
unfolding size_query
size_query-Asked g h s none n e = absurd (ground arith)
size_query-Asked g h s (some m) n e = refl

rsa_result-Asked :
    (g : Library) (h : ℕ) (s : Session) (r : Option (List ℕ)) → Asked g h s (rsa_result g h s r)
unfolding rsa_result
rsa_result-Asked g h s none n e = absurd (ground arith)
rsa_result-Asked g h s (some v) n e = absurd (ground arith)

module _ (cipher : Cipher) (g : Library) (h : ℕ) (s : Session) (data_in : List ℕ) (has_out : Bool)
    (room : ℕ) where
  encrypt_rsa-Asked : Asked g h s (encrypt_rsa cipher g h s data_in has_out room)
  unfolding encrypt_rsa
  encrypt_rsa-Asked n e = elim (Option-cases (key_get g.keys s.encrypt_key)) [
    | inl lost ↦ absurd (ground arith)
    | inr (obj, found) ↦ ground (
      arith,
      size_query-Asked g h s (cipher.rsa_size obj) n,
      rsa_result-Asked g h s (cipher.rsa_encrypt obj (word32_cut data_in) (room % 2 ^ 32)) n,
    )
  ]

  encrypt_oaep-Asked : Asked g h s (encrypt_oaep cipher g h s data_in has_out room)
  unfolding encrypt_oaep
  encrypt_oaep-Asked n e = elim (Option-cases (key_get g.keys s.encrypt_key)) [
    | inl lost ↦ absurd (ground arith)
    | inr (obj, found) ↦ ground (
      arith,
      size_query-Asked g h s (cipher.oaep_size obj s.oaep_enc) n,
      rsa_result-Asked g h s
          (cipher.oaep_encrypt obj s.oaep_enc (word32_cut data_in) (room % 2 ^ 32)) n,
    )
  ]

  encrypt_gcm-Asked : Asked g h s (encrypt_gcm cipher g h s data_in has_out room)
  unfolding encrypt_gcm
  encrypt_gcm-Asked n e = elim (Option-cases (cipher.gcm_encrypt s.enc_ctx s.gcm_enc data_in)) [
    | inl failed ↦ ground arith
    | inr (v, made) ↦ ground arith
  ]

  encrypt_block-Asked : Asked g h s (encrypt_block cipher g h s data_in has_out room)
  unfolding encrypt_block
  encrypt_block-Asked n e =
      elim (Option-cases (cipher.process s.encrypt_mech s.enc_ctx (word32_cut data_in))) [
        | inl failed ↦ ground arith
        | inr (v, made) ↦ ground arith
      ]

  encrypt_with-Asked : Asked g h s (encrypt_with cipher g h s data_in has_out room)
  unfolding encrypt_with
  encrypt_with-Asked n e =
      ground (
        arith,
        encrypt_rsa-Asked n,
        encrypt_oaep-Asked n,
        encrypt_gcm-Asked n,
        encrypt_block-Asked n,
      )

encrypt-GoesOn :
    (cipher : Cipher) (g : Library) (h room n : ℕ) (data_in : List ℕ) (has_out : Bool)
    → length g.sessions ≡ max_sessions
    → (encrypt cipher h (some data_in) has_out (some room) g).0 ≡ ok (enc_size n)
    → (s : Session) × GoesOn g
        (encrypt cipher h (some data_in) has_out (some room) g).1
        h
        s
        (record s { encrypt_oneshot = true })
unfolding encrypt
encrypt-GoesOn cipher g h room n data_in has_out size e =
    elim (Option-cases (session_get g.sessions h)) [
      | inl unknown ↦ absurd (ground arith)
      | inr (s, known) ↦ (
        s,
        record {
          locked = ground arith;
          running = ground arith;
          known = known;
          size = size;
          written = ground (arith, encrypt_with-Asked cipher g h s data_in has_out room n);
          used = refl;
          active = ground arith;
        },
      )
    ]

-- The two modes are kept apart. In a session table of full size, when C_EncryptUpdate has
-- encrypted a part, the next C_Encrypt in the session, whatever its arguments, fails with
-- CKR_OPERATION_ACTIVE and ends the operation: a further C_Encrypt or C_EncryptUpdate in the
-- session, again whatever its arguments, fails with CKR_OPERATION_NOT_INITIALIZED.
pub encrypt_update-encrypt :
    (cipher : Cipher) (g : Library) (h room n : ℕ) (bytes : List ℕ) (has_out : Bool) (out : List ℕ)
    (cipher_now : Cipher) (data_given : Option (List ℕ)) (out_given : Bool) (len : Option ℕ)
    (cipher_next : Cipher) (data_next : Option (List ℕ)) (out_next : Bool) (len_next : Option ℕ)
    → length g.sessions ≡ max_sessions
    → (encrypt_update cipher h (some bytes) has_out (some room) g).0 ≡ ok (encrypted out n)
    → let g' = (encrypt_update cipher h (some bytes) has_out (some room) g).1 in
      let (r, g'') = encrypt cipher_now h data_given out_given len g' in
      (r ≡ err operation_active)
      × ((encrypt cipher_next h data_next out_next len_next g'').0 ≡ err operation_not_initialized)
      × ((encrypt_update cipher_next h data_next out_next len_next g'').0
          ≡ err operation_not_initialized)
encrypt_update-encrypt cipher g h room n bytes has_out out cipher_now data_given out_given len
      cipher_next data_next out_next len_next size e =
    let g' = (encrypt_update cipher h (some bytes) has_out (some room) g).1 in
    let (s, s', d, multipart) = encrypt_update-GoesOn cipher g h room n bytes has_out out size e in
    let (locked, running, known, full) = GoesOn-after g g' h s s' d in
    let refused =
      encrypt_refused cipher_now h data_given out_given len g' s' locked running known d.active
        multipart in
    let (locked', running', known') = ended g' h s' locked running known full in
    let (first, second) =
      not_running cipher_next h data_next out_next len_next (end_encrypt g' h s')
        (record s' { encrypt_active = false }) locked' running' known' refl in
    (
      ap (λ r. r.0) refused,
      ap (λ r. (encrypt cipher_next h data_next out_next len_next r.1).0) refused ∙ first,
      ap (λ r. (encrypt_update cipher_next h data_next out_next len_next r.1).0) refused ∙ second,
    )

-- When a size query of C_Encrypt has succeeded, in a session table of full size, the next
-- C_EncryptUpdate in the session, whatever its arguments, fails with CKR_OPERATION_ACTIVE and
-- ends the operation: a further C_Encrypt or C_EncryptUpdate in the session, again whatever its
-- arguments, fails with CKR_OPERATION_NOT_INITIALIZED.
pub encrypt-encrypt_update :
    (cipher : Cipher) (g : Library) (h room n : ℕ) (bytes : List ℕ) (has_out : Bool)
    (cipher_now : Cipher) (data_given : Option (List ℕ)) (out_given : Bool) (len : Option ℕ)
    (cipher_next : Cipher) (data_next : Option (List ℕ)) (out_next : Bool) (len_next : Option ℕ)
    → length g.sessions ≡ max_sessions
    → (encrypt cipher h (some bytes) has_out (some room) g).0 ≡ ok (enc_size n)
    → let g' = (encrypt cipher h (some bytes) has_out (some room) g).1 in
      let (r, g'') = encrypt_update cipher_now h data_given out_given len g' in
      (r ≡ err operation_active)
      × ((encrypt cipher_next h data_next out_next len_next g'').0 ≡ err operation_not_initialized)
      × ((encrypt_update cipher_next h data_next out_next len_next g'').0
          ≡ err operation_not_initialized)
encrypt-encrypt_update cipher g h room n bytes has_out cipher_now data_given out_given len
      cipher_next data_next out_next len_next size e =
    let g' = (encrypt cipher h (some bytes) has_out (some room) g).1 in
    let (s, d) = encrypt-GoesOn cipher g h room n bytes has_out size e in
    let s' = record s { encrypt_oneshot = true } in
    let (locked, running, known, full) = GoesOn-after g g' h s s' d in
    let refused =
      encrypt_update_refused cipher_now h data_given out_given len g' s' locked running known
        d.active refl in
    let (locked', running', known') = ended g' h s' locked running known full in
    let (first, second) =
      not_running cipher_next h data_next out_next len_next (end_encrypt g' h s')
        (record s' { encrypt_active = false }) locked' running' known' refl in
    (
      ap (λ r. r.0) refused,
      ap (λ r. (encrypt cipher_next h data_next out_next len_next r.1).0) refused ∙ first,
      ap (λ r. (encrypt_update cipher_next h data_next out_next len_next r.1).0) refused ∙ second,
    )
