-- ===== src/Piv/Auth/Reply.antt =====
-- The reply of GENERAL AUTHENTICATE in src/wp11_proto_piv.c, and the whole of the two calls.
use wolf_p.Prelude.{
  ℕ, ◌+◌, ◌-◌, ◌≤◌, ◌≡◌, some, List, [], ◌∷◌, ◌++◌, Bool-cases, drop, take, length, length-append,
  arith, ok, inl, inr, Result-cases, length-take, length-drop, ltb,
}
use wolf_p.Ccid.{Transport, Ctx}
use wolf_p.Card.{send_retry}
use wolf_p.Piv.Tlv.{tlv_expect}
use wolf_p.Piv.Tlv.Laws.{tlv, tlv_expect_bounds}
use wolf_p.Piv.Tlv.Nested.{length-tlv, tlv_expect-nested}
use wolf_p.Piv.Apdu.{PivErr, encoding, sw, piv_card, piv_get_sw}
use wolf_p.Piv.Apdu.Laws.{piv_get_sw-append}
use wolf_p.Piv.Auth.{
  parse_dat, authenticate, sign, ecdh, tag_dat, tag_response, tag_challenge, tag_exponent,
}
use wolf_p.Piv.Auth.Laws.{template, auth_cmd_shape}

-- What is copied out lies in the reply before the status word, and fits the caller's buffer.
pub parse_dat_bounds :
    (wrong_tag : PivErr) (cap : ℕ) (resp v : List ℕ)
    → parse_dat wrong_tag cap resp ≡ ok v
    → (j : ℕ) × (v ≡ take (length v) (drop j resp))
      × (j + length v ≤ length resp - 2)
      × (length v ≤ cap)
unfolding parse_dat
parse_dat_bounds wrong_tag cap resp v e =
    elim (Result-cases (tlv_expect resp 0 (length resp - 2) tag_dat)) [
      | inr (bad, fails) ↦ absurd (ground arith)
      | inl ((i, dat_len), outer) ↦
          elim (Result-cases (tlv_expect resp i (i + dat_len) tag_response)) [
            | inr (bad, fails) ↦ absurd (ground arith)
            | inl ((j, l), inner) ↦
                let ends : i + dat_len ≤ length resp - 2 =
                  (tlv_expect_bounds resp 0 (length resp - 2) tag_dat i dat_len outer).2 in
                let inside : j + l ≤ i + dat_len =
                  (tlv_expect_bounds resp i (i + dat_len) tag_response j l inner).2 in
                let size : length (take l (drop j resp)) ≡ l =
                  omega (arith, length-take l (drop j resp), length-drop j resp) in
                (j, ground (arith, size), ground (arith, size), ground (arith, size))
          ]
    ]

-- The reply 7C { 82 { v } more } with status word 90 00.
unfoldable pub dat_reply : List ℕ → List ℕ → List ℕ
dat_reply v more = tlv tag_dat (tlv tag_response v ++ more) ++ (0x90 ∷ 0x00 ∷ [])

-- Every value that fits the caller's buffer, in a template of at most 65535 bytes, is read back
-- from such a reply.
pub parse_dat-dat_reply :
    (wrong_tag : PivErr) (cap : ℕ) (v more : List ℕ)
    → length v ≤ cap
    → length (tlv tag_response v ++ more) ≤ 0xFFFF
    → parse_dat wrong_tag cap (dat_reply v more) ≡ ok v
unfolding parse_dat dat_reply
parse_dat-dat_reply wrong_tag cap v more h k =
    let inner = tlv tag_response v ++ more in
    let end = length (dat_reply v more) - 2 in
    let whole : end ≡ length (tlv tag_dat inner) =
      omega (arith, length-append (tlv tag_dat inner) (0x90 ∷ 0x00 ∷ [])) in
    let (i, n, j, outer, nested, bytes) =
      tlv_expect-nested tag_dat tag_response end v more (0x90 ∷ 0x00 ∷ []) k (omega arith) in
    ground (arith, outer, nested, bytes, whole, length-tlv tag_dat inner)

dat_reply_sw : (v more : List ℕ) → piv_get_sw (dat_reply v more) ≡ (0x90, 0x00)
unfolding dat_reply
dat_reply_sw v more = (piv_get_sw-append (tlv tag_dat (tlv tag_response v ++ more)) 0x90 0x00).0

-- The command for an input, as Auth/Laws gives it.
abbrev pub auth_bytes : ℕ → ℕ → ℕ → List ℕ → List ℕ
auth_bytes tag slot alg input =
    0x00 ∷ 0x87 ∷ alg ∷ slot ∷ length (template tag input) ∷ (template tag input ++ (0x00 ∷ []))

module _ {W : Type 0} (t : Transport W) where
  authenticate_answered :
      (tag : ℕ) (wrong_tag : PivErr) (slot alg cap : ℕ) (input v more : List ℕ) (c c' : Ctx W)
      → length input ≤ 247
      → length v ≤ cap
      → length (tlv tag_response v ++ more) ≤ 0xFFFF
      → send_retry t piv_card (auth_bytes tag slot alg input) c ≡ (ok (dat_reply v more), c')
      → authenticate t tag wrong_tag slot alg input cap c ≡ (ok v, c')
  unfolding authenticate
  authenticate_answered tag wrong_tag slot alg cap input v more c c' h k l e =
      let reply_sw : piv_get_sw (dat_reply v more) ≡ (0x90, 0x00) = dat_reply_sw v more in
      rw (auth_cmd_shape tag slot alg input h).0
        (rw e (ground (arith, parse_dat-dat_reply wrong_tag cap v more k l, reply_sw)))

  -- Signing gives the card's value back: for a challenge of up to 247 bytes, if the card
  -- answers the one command with 7C { 82 { v } ... } 90 00 (at once or after a 6C xx), the
  -- template has at most 65535 bytes and `v` fits the caller's buffer, then the call succeeds
  -- with `v`.
  pub sign_answered :
      (slot alg cap : ℕ) (input v more : List ℕ) (c c' : Ctx W)
      → length input ≤ 247
      → length v ≤ cap
      → length (tlv tag_response v ++ more) ≤ 0xFFFF
      → send_retry t piv_card (auth_bytes tag_challenge slot alg input) c
        ≡ (ok (dat_reply v more), c')
      → sign t (some c) slot alg (some input) (some cap) ≡ (ok v, some c')
  unfolding sign
  sign_answered slot alg cap input v more c c' h k l e =
      ground
        (arith, authenticate_answered tag_challenge encoding slot alg cap input v more c c' h k l e)

  -- Key agreement gives the card's value back: for a peer's point of up to 247 bytes, if the
  -- card answers the one command, with the point under tag 85, by 7C { 82 { v } ... } 90 00 (at
  -- once or after a 6C xx), the template has at most 65535 bytes and `v` fits the caller's
  -- buffer, then the call succeeds with `v`.
  pub ecdh_answered :
      (slot alg cap : ℕ) (input v more : List ℕ) (c c' : Ctx W)
      → length input ≤ 247
      → length v ≤ cap
      → length (tlv tag_response v ++ more) ≤ 0xFFFF
      → send_retry t piv_card (auth_bytes tag_exponent slot alg input) c
        ≡ (ok (dat_reply v more), c')
      → ecdh t (some c) slot alg (some input) (some cap) ≡ (ok v, some c')
  unfolding ecdh
  ecdh_answered slot alg cap input v more c c' h k l e =
      ground (arith, authenticate_answered tag_exponent sw slot alg cap input v more c c' h k l e)

  -- A signature that is handed on is a stretch of a reply of the card to the one command for
  -- the challenge, before its status word 90 00, and fits the caller's buffer.
  pub sign_sound :
      (slot alg cap : ℕ) (input v : List ℕ) (c : Ctx W)
      → (sign t (some c) slot alg (some input) (some cap)).0 ≡ ok v
      → (resp : List ℕ) × (j : ℕ) × ((send_retry t piv_card
            (auth_bytes tag_challenge slot alg input)
            c).0
          ≡ ok resp)
        × (piv_get_sw resp ≡ (0x90, 0x00))
        × (v ≡ take (length v) (drop j resp))
        × (j + length v ≤ length resp - 2)
        × (length v ≤ cap)
  unfolding sign authenticate
  sign_sound slot alg cap input v c e = elim (Bool-cases (ltb 247 (length input))) [
    | inl long ↦ absurd (ground arith)
    | inr short ↦
        let shape = (auth_cmd_shape tag_challenge slot alg input (ground arith)).0 in
        elim (Result-cases (send_retry t piv_card (auth_bytes tag_challenge slot alg input) c).0) [
          | inr (bad, fails) ↦ absurd (ground (arith, shape))
          | inl (resp, got) ↦
              let parsed : parse_dat encoding cap resp ≡ ok v = ground (arith, shape, got) in
              let (j, part, inside, fits) = parse_dat_bounds encoding cap resp v parsed in
              (resp, j, got, ground (arith, shape, got), part, inside, fits)
        ]
  ]
