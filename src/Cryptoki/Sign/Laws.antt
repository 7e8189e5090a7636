-- ===== src/Cryptoki/Sign/Laws.antt =====
-- What C_SignInit and C_Sign of src/wp11_pkcs11.c do together.
use wolf_p.Prelude.{
  ℕ, ◌≤◌, ◌≡◌, ◌≢◌, true, false, some, Option-cases, List, arith, Result, ok, err, inl, inr,
}
use wolf_p.Cryptoki.State.{word32_cut, Ckr, Hash, Session, KeyObj, Library, session_get, key_get}
use wolf_p.Cryptoki.SignInit.{mech_hmac_type}
use wolf_p.Cryptoki.Sign.{
  Signer, size_is, too_small, sign_answer, or_failed, backend_answer, sign_hmac, sign_pss,
  sign_key_op, sign,
}

-- The answer of a signing function is never a length.
sign_answer-ne :
    (g : Library) (h : ℕ) (s : Session) (r : Result Ckr (List ℕ)) (k : ℕ)
    → ((sign_answer g h s r).0 ≢ ok (too_small k)) × ((sign_answer g h s r).0 ≢ ok (size_is k))
unfolding sign_answer
sign_answer-ne g h s (ok v) k = (λ e. ground arith, λ e. ground arith)
sign_answer-ne g h s (err x) k = (λ e. ground arith, λ e. ground arith)

module _ (signer : Signer) (g : Library) (h : ℕ) (s : Session) (obj : KeyObj) where
  hmac_query :
      (hash : Hash) (data_in : List ℕ) (n before : ℕ)
      → (sign_hmac signer g h s obj hash data_in false before).0 ≡ ok (size_is n)
      → ((sign_hmac signer g h s obj hash data_in false before).1 ≡ g)
        × ((room k : ℕ) (data_now : List ℕ)
            → n ≤ room
            → (sign_hmac signer g h s obj hash data_now true room).0 ≢ ok (too_small k))
  unfolding sign_hmac
  hmac_query hash data_in n before e = (
    ground arith,
    λ room k data_now fits f.
        (sign_answer-ne g h s
            (or_failed (signer.hmac hash (word32_cut obj.secret) (word32_cut data_now))) k).0
          (ground arith),
  )

  pss_ne :
      (data_in : List ℕ) (room k : ℕ)
      → (sign_pss signer g h s obj data_in room).0 ≢ ok (too_small k)
  unfolding sign_pss
  pss_ne data_in room k f =
      (sign_answer-ne g h s (or_failed (signer.pss_sign obj data_in room s.pss_sign)) k).0
        (ground arith)

  key_op_query :
      (data_in : List ℕ) (n before : ℕ)
      → (sign_key_op signer g h s obj data_in false before).0 ≡ ok (size_is n)
      → ((sign_key_op signer g h s obj data_in false before).1 ≡ g)
        × ((room k : ℕ) (data_now : List ℕ)
            → n ≤ room
            → (sign_key_op signer g h s obj data_now true room).0 ≢ ok (too_small k))
  unfolding sign_key_op
  key_op_query data_in n before e = (
    ground arith,
    λ room k data_now fits f. ground (
      arith,
      pss_ne data_now room k,
      (sign_answer-ne g h s (backend_answer (signer.sign obj s.sign_mech data_now room)) k).0,
    ),
  )

-- A size query is honoured: if C_Sign without a buffer gives a length, it changes nothing, and C_Sign
-- with a buffer of at least that length, for whatever data, does not say that it is too small.
pub sign_query-sign :
    (signer : Signer) (h : ℕ) (data_in : List ℕ) (before n : ℕ) (g : Library)
    → (sign signer h (some data_in) false (some before) g).0 ≡ ok (size_is n)
    → ((sign signer h (some data_in) false (some before) g).1 ≡ g)
      × ((room k : ℕ) (data_now : List ℕ)
          → n ≤ room
          → (sign signer h (some data_now) true (some room) g).0 ≢ ok (too_small k))
unfolding sign
sign_query-sign signer h data_in before n g e = elim (Option-cases (session_get g.sessions h)) [
  | inl no_session ↦ absurd (ground arith)
  | inr (s, known) ↦ elim (Option-cases (key_get g.keys s.sign_key)) [
    | inl no_key ↦ absurd (ground arith)
    | inr (obj, has_key) ↦ elim (Option-cases (mech_hmac_type s.sign_mech)) [
      | inl not_hmac ↦
          let (kept, large) = key_op_query signer g h s obj data_in n before (ground arith) in
          (ground arith, λ room k data_now fits f. large room k data_now fits (ground arith))
      | inr (hash, is_hmac) ↦
          let (kept, large) = hmac_query signer g h s obj hash data_in n before (ground arith) in
          (ground arith, λ room k data_now fits f. large room k data_now fits (ground arith))
    ]
  ]
]
