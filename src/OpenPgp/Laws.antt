-- ===== src/OpenPgp/Laws.antt =====
-- The calls of src/wp11_proto_openpgp.c against what the card answers.
use wolf_p.Prelude.{
  ℕ, ◌≤◌, ◌<◌, ◌≡◌, ◌≢◌, ◌↔◌, refl, ap₂, ◌∙◌, ◌⊎◌, inl, inr, some, List, [], ◌∷◌, ◌++◌, length,
  tail_two, length_two, split_two, arith, Result-cases, ok, err,
}
use wolf_p.Ccid.{Transport, Ctx}
use wolf_p.Card.{send_retry}
use wolf_p.OpenPgp.{
  param, pw_bad, pw_locked, extract_sw, pgp_card, copy_body, fetch, sign, authenticate, get_ard,
  sign_cmd, auth_cmd, ard_cmd, data_cmd, pw_result, verify_pw1, mode_sign, mode_other,
}

extract_sw-append : (xs : List ℕ) (a b : ℕ) → extract_sw (xs ++ (a ∷ b ∷ [])) ≡ (a, b)
unfolding extract_sw
extract_sw-append xs a b =
    let (first, second, rest) = tail_two xs a b in ground (arith, length_two xs a b)

copy_body_long : (cap : ℕ) (resp v : List ℕ) → copy_body cap resp ≡ ok v → 2 ≤ length resp
unfolding copy_body extract_sw
copy_body_long cap resp v e = ground arith

copy_body-append :
    (cap : ℕ) (xs v : List ℕ) (a b : ℕ)
    → (copy_body cap (xs ++ (a ∷ b ∷ [])) ≡ ok v)
      ↔ ((xs ≡ v) × (a ≡ 0x90) × (b ≡ 0x00) × (length xs ≤ cap))
unfolding copy_body
copy_body-append cap xs v a b =
    let (first, second, rest) = tail_two xs a b in
    let words = extract_sw-append xs a b in
    let size = length_two xs a b in
    (λ e. (ground arith, ground arith, ground arith, ground arith), λ h. ground arith)

-- The copy succeeds exactly on the data followed by 90 00, if it fits.
copy_body_iff :
    (cap : ℕ) (resp v : List ℕ)
    → (copy_body cap resp ≡ ok v) ↔ ((resp ≡ v ++ (0x90 ∷ 0x00 ∷ [])) × (length v ≤ cap))
copy_body_iff cap resp v = (
  λ e.
      let (xs, a, b, same) = split_two resp (copy_body_long cap resp v e) in
      let split : copy_body cap (xs ++ (a ∷ b ∷ [])) ≡ ok v = rw same at e in
      let (all, first, second, fits) = (copy_body-append cap xs v a b).0 split in
      (same ∙ ap₂ (λ l w. l ++ w) all (cc), ground arith),
  λ (same, fits). rw same ((copy_body-append cap v v 0x90 0x00).1 (refl, refl, refl, fits)),
)

-- What a reply to VERIFY means: the password is accepted exactly for 90 00, wrong exactly for any
-- word 63 xx, and locked exactly for 69 83.
pub pw_result_iff :
    (sw1 sw2 : ℕ)
    → ((pw_result (sw1, sw2) ≡ ok tt) ↔ ((sw1 ≡ 0x90) × (sw2 ≡ 0)))
      × ((pw_result (sw1, sw2) ≡ err pw_bad) ↔ (sw1 ≡ 0x63))
      × ((pw_result (sw1, sw2) ≡ err pw_locked) ↔ ((sw1 ≡ 0x69) × (sw2 ≡ 0x83)))
unfolding pw_result
pw_result_iff sw1 sw2 = (ground arith, ground arith, ground arith)

-- The bytes of a signing command: Lc is the true length, and the last byte is Le.
pub data_cmd_shape :
    (ins p1 p2 : ℕ) (input : List ℕ)
    → length input ≤ 255
    → data_cmd ins p1 p2 input ≡ 0x00 ∷ ins ∷ p1 ∷ p2 ∷ length input ∷ (input ++ (0x00 ∷ []))
data_cmd_shape ins p1 p2 input h = ground arith

module _ {W : Type 0} (t : Transport W) where
  fetch_iff :
      (cmd : List ℕ) (cap : ℕ) (c c' : Ctx W) (v : List ℕ)
      → (fetch t cmd cap c ≡ (ok v, c'))
        ↔ ((send_retry t pgp_card cmd c ≡ (ok (v ++ (0x90 ∷ 0x00 ∷ [])), c')) × (length v ≤ cap))
  unfolding fetch
  fetch_iff cmd cap c c' v = elim (Result-cases (send_retry t pgp_card cmd c).0) [
    | inr (bad, fails) ↦ (λ e. absurd (ground arith), λ h. absurd (ground arith))
    | inl (resp, got) ↦
        let copied = copy_body_iff cap resp v in
        (
          λ e. let (same, fits) = copied.0 (ground arith) in (ground arith, fits),
          λ (e, fits).
              let done : copy_body cap resp ≡ ok v = copied.1 (ground arith, fits) in ground arith,
        )
  ]

  -- A hash of 1 to 255 bytes is signed with `v` exactly if the card's reply to the one command for it
  -- (at once or after a 6C xx) is `v` followed by 90 00 and `v` fits the caller's buffer.
  pub pgp_sign_iff :
      (c c' : Ctx W) (hash v : List ℕ) (cap : ℕ)
      → 0 < length hash
      → length hash ≤ 255
      → (sign t (some c) (some hash) (some cap) ≡ (ok v, some c')) ↔ (
          (send_retry t pgp_card (sign_cmd hash) c ≡ (ok (v ++ (0x90 ∷ 0x00 ∷ [])), c'))
          × (length v ≤ cap))
  unfolding sign
  pgp_sign_iff c c' hash v cap h k =
      let done = fetch_iff (sign_cmd hash) cap c c' v in
      (λ e. done.0 (ground arith), λ e. let got = done.1 e in ground arith)

  -- The same of internal authentication.
  pub pgp_authenticate_iff :
      (c c' : Ctx W) (input v : List ℕ) (cap : ℕ)
      → 0 < length input
      → length input ≤ 255
      → (authenticate t (some c) (some input) (some cap) ≡ (ok v, some c')) ↔ (
          (send_retry t pgp_card (auth_cmd input) c ≡ (ok (v ++ (0x90 ∷ 0x00 ∷ [])), c'))
          × (length v ≤ cap))
  unfolding authenticate
  pgp_authenticate_iff c c' input v cap h k =
      let done = fetch_iff (auth_cmd input) cap c c' v in
      (λ e. done.0 (ground arith), λ e. let got = done.1 e in ground arith)

  -- The application data are read as `v` exactly if the card's reply (at once or after a 6C xx)
  -- is `v` followed by 90 00 and `v` fits the caller's buffer.
  pub get_ard_iff :
      (c c' : Ctx W) (v : List ℕ) (cap : ℕ)
      → (get_ard t (some c) (some cap) ≡ (ok v, some c')) ↔ (
          (send_retry t pgp_card ard_cmd c ≡ (ok (v ++ (0x90 ∷ 0x00 ∷ [])), c')) × (length v ≤ cap))
  unfolding get_ard
  get_ard_iff c c' v cap =
      let done = fetch_iff ard_cmd cap c c' v in
      (λ e. done.0 (ground arith), λ e. let got = done.1 e in ground arith)

  -- A password of no or more than 255 bytes, or a mode other than 81 and 82, never reaches the card.
  pub verify_pw1_refused :
      (c : Ctx W) (pw : List ℕ) (mode : ℕ)
      → (length pw ≡ 0) ⊎ ((255 < length pw) ⊎ ((mode ≢ mode_sign) × (mode ≢ mode_other)))
      → verify_pw1 t (some c) (some pw) mode ≡ (err param, some c)
  unfolding verify_pw1
  verify_pw1_refused c pw mode h = ground arith
