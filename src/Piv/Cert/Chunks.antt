-- ===== src/Piv/Cert/Chunks.antt =====
-- Objects that the card serves in pieces to src/wp11_proto_piv.c.
use wolf_p.Prelude.{
  ℕ, zero, suc, ◌+◌, ◌≤◌, ◌<◌, ◌≡◌, refl, ap, sym, ◌∙◌, true, some, List, [], ◌∷◌, ◌++◌, length,
  length-append, arith, ◌⊎◌, inl, inr, ok,
}
use mathlib.Core.List.{append_assoc, append-nil}
use wolf_p.Ccid.{Transport, Ctx}
use wolf_p.Card.{send}
use wolf_p.Piv.Apdu.{piv_card}
use wolf_p.Piv.Apdu.Laws.{piv_get_sw-append}
use wolf_p.Piv.Tlv.Laws.{tlv}
use wolf_p.Piv.Tlv.Nested.{length-tlv, tlv_expect-nested}
use wolf_p.Piv.Cert.{
  cert_max_len, first_chunk, next_chunk, chain, read_object, get_cert, attest, get_response_cmd,
  parse_cert, copy_out, cert_tag, get_data_cmd, attest_cmd,
}

abbrev pub join : List (List ℕ) → List ℕ
join [] = []
join (d ∷ ds) = d ++ join ds

-- From one context the card answers GET RESPONSE by these pieces: each but the last is not empty
-- and ends in 61 xx, the last ends in 90 00.
pub data Serves {W : Type 0} (t : Transport W) : Ctx W → List (List ℕ) → Ctx W → Type 0 where
  last_piece :
      {c c' : Ctx W} (d : List ℕ)
      → send t piv_card get_response_cmd c ≡ (ok (d ++ (0x90 ∷ 0x00 ∷ [])), c')
      → Serves t c (d ∷ []) c'
  piece :
      {c c₁ c' : Ctx W} (d : List ℕ) (n : ℕ) {ds : List (List ℕ)}
      → 0 < length d
      → send t piv_card get_response_cmd c ≡ (ok (d ++ (0x61 ∷ n ∷ [])), c₁)
      → Serves t c₁ ds c'
      → Serves t c (d ∷ ds) c'

next_chunk-append :
    (accum d : List ℕ) (sw1 sw2 : ℕ)
    → (sw1 ≡ 0x90) ⊎ ((sw1 ≡ 0x61) × (0 < length d))
    → length accum + length d ≤ cert_max_len
    → next_chunk accum (d ++ (sw1 ∷ sw2 ∷ [])) ≡ ok (accum ++ d)
unfolding next_chunk
next_chunk-append accum d sw1 sw2 good fits =
    let (words, data_part) = piv_get_sw-append d sw1 sw2 in
    ground (arith, words, data_part, length-append d (sw1 ∷ sw2 ∷ []))

first_chunk-append :
    (d : List ℕ) (n : ℕ) → length d ≤ cert_max_len → first_chunk (d ++ (0x61 ∷ n ∷ [])) ≡ ok d
unfolding first_chunk
first_chunk-append d n h =
    let (words, data_part) = piv_get_sw-append d 0x61 n in
    ground (arith, words, data_part, length-append d (0x61 ∷ n ∷ []))

module _ {W : Type 0} (t : Transport W) where
  chain_done :
      (fuel : ℕ) (accum : List ℕ) (c : Ctx W)
      → 0 < fuel
      → chain t fuel accum (0x90, 0x00) c ≡ (some (ok accum), c)
  unfolding chain
  chain_done zero accum c h = absurd (omega arith)
  chain_done (suc fuel) accum c h = refl

  chain_step :
      (fuel : ℕ) (accum d : List ℕ) (n sw1 sw2 : ℕ) (c c₁ : Ctx W)
      → send t piv_card get_response_cmd c ≡ (ok (d ++ (sw1 ∷ sw2 ∷ [])), c₁)
      → (sw1 ≡ 0x90) ⊎ ((sw1 ≡ 0x61) × (0 < length d))
      → length accum + length d ≤ cert_max_len
      → chain t (suc fuel) accum (0x61, n) c ≡ chain t fuel (accum ++ d) (sw1, sw2) c₁
  unfolding chain
  chain_step fuel accum d n sw1 sw2 c c₁ e good fits =
      let taken = next_chunk-append accum d sw1 sw2 good fits in
      let words = (piv_get_sw-append d sw1 sw2).0 in ground arith

  chain-Serves :
      (fuel : ℕ) (accum : List ℕ) (n : ℕ) {c c' : Ctx W} {ds : List (List ℕ)}
      → Serves t c ds c'
      → length accum + length (join ds) ≤ cert_max_len
      → length ds < fuel
      → chain t fuel accum (0x61, n) c ≡ (some (ok (accum ++ join ds)), c')
  chain-Serves zero accum n s h k = absurd (omega arith)
  chain-Serves (suc fuel) accum n {c} {c'} (last_piece d e) h k =
      chain_step fuel accum d n 0x90 0x00 c c' e (inl refl)
        (omega (arith, length-append d (join [])))
      ∙ chain_done fuel (accum ++ d) c' (omega arith)
      ∙ ap (λ l. (some (ok (accum ++ l)), c')) (sym (append-nil d))
  chain-Serves (suc fuel) accum n {c} {c'} (piece {c₁ = c₁} d m {ds = ds} full e s) h k =
      chain_step fuel accum d n 0x61 m c c₁ e (inr (refl, full))
        (omega (arith, length-append d (join ds)))
      ∙ chain-Serves fuel (accum ++ d) m s
          (omega (arith, length-append d (join ds), length-append accum d)) (omega arith)
      ∙ ap (λ l. (some (ok l), c')) (append_assoc accum d (join ds))

  -- Not more pieces than bytes, and one.
  length-Serves :
      {c c' : Ctx W} {ds : List (List ℕ)} → Serves t c ds c' → length ds ≤ length (join ds) + 1
  length-Serves (last_piece d e) = omega arith
  length-Serves (piece d m {ds = ds} full e s) =
      omega (arith, length-Serves s, length-append d (join ds))

  -- An object of at most 4096 bytes that the card serves as one first piece with 61 xx and any
  -- number of further pieces is read whole, in order.
  pub read_object-Serves :
      (cmd first : List ℕ) (n : ℕ) (c c₁ c' : Ctx W) (ds : List (List ℕ))
      → send t piv_card cmd c ≡ (ok (first ++ (0x61 ∷ n ∷ [])), c₁)
      → Serves t c₁ ds c'
      → length first + length (join ds) ≤ cert_max_len
      → read_object t cmd c ≡ (some (ok (first ++ join ds)), c')
  unfolding read_object
  read_object-Serves cmd first n c c₁ c' ds e s h =
      let taken = first_chunk-append first n (omega arith) in
      let words = (piv_get_sw-append first 0x61 n).0 in
      let rest = chain-Serves (cert_max_len + 2) first n s h (omega (arith, length-Serves s)) in
      ground arith

-- The container 53 { 70 { certificate } more }.
unfoldable pub container : List ℕ → List ℕ → List ℕ
container cert more = tlv 0x53 (tlv 0x70 cert ++ more)

-- A certificate that fits the caller's buffer is read back from its container.
pub parse_cert-container :
    (cap : ℕ) (cert more : List ℕ)
    → length cert ≤ cap
    → length (container cert more) ≤ cert_max_len
    → parse_cert cap (container cert more) ≡ ok cert
unfolding parse_cert container
parse_cert-container cap cert more h k =
    let whole = container cert more in
    let inner = length-tlv 0x53 (tlv 0x70 cert ++ more) in
    let (i, n, j, outer, nested, bytes) =
      tlv_expect-nested 0x53 0x70 (length whole) cert more [] (omega arith) (omega arith) in
    let same : container cert more ++ [] ≡ container cert more = append-nil (container cert more) in
    ground arith

module _ {W : Type 0} (t : Transport W) where
  -- A certificate served in pieces is handed on whole: if the slot has a data object, there is
  -- memory, the card's first reply ends in 61 xx, it and the further pieces make up the
  -- container of the certificate, the container has at most 4096 bytes, and the certificate
  -- fits the caller's buffer.
  pub get_cert-Serves :
      (slot cap n : ℕ) (tag first cert more : List ℕ) (c c₁ c' : Ctx W) (ds : List (List ℕ))
      → cert_tag slot ≡ some tag
      → send t piv_card (get_data_cmd tag) c ≡ (ok (first ++ (0x61 ∷ n ∷ [])), c₁)
      → Serves t c₁ ds c'
      → first ++ join ds ≡ container cert more
      → length (container cert more) ≤ cert_max_len
      → length cert ≤ cap
      → get_cert t true (some c) slot (some cap) ≡ (some (ok cert), some c')
  unfolding get_cert
  get_cert-Serves slot cap n tag first cert more c c₁ c' ds known e s same short fits =
      let size : length first + length (join ds) ≤ cert_max_len =
        omega (arith, length-append first (join ds), ap length same) in
      let whole = read_object-Serves t (get_data_cmd tag) first n c c₁ c' ds e s size in
      let parsed = parse_cert-container cap cert more fits short in ground arith

  -- If there is memory, the card's first reply ends in 61 xx, and it and the further pieces fit
  -- the buffer of 4096 bytes and the caller's, the attestation read is the pieces joined.
  pub attest-Serves :
      (slot cap n : ℕ) (first : List ℕ) (c c₁ c' : Ctx W) (ds : List (List ℕ))
      → send t piv_card (attest_cmd slot) c ≡ (ok (first ++ (0x61 ∷ n ∷ [])), c₁)
      → Serves t c₁ ds c'
      → length (first ++ join ds) ≤ cert_max_len
      → length (first ++ join ds) ≤ cap
      → attest t true (some c) slot (some cap) ≡ (some (ok (first ++ join ds)), some c')
  unfolding attest copy_out
  attest-Serves slot cap n first c c₁ c' ds e s short fits =
      let size : length first + length (join ds) ≤ cert_max_len =
        omega (arith, length-append first (join ds)) in
      let whole = read_object-Serves t (attest_cmd slot) first n c c₁ c' ds e s size in ground arith
