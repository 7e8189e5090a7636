-- ===== src/Piv/Cert.antt =====
-- wp11_piv_get_cert and wp11_piv_attest of src/wp11_proto_piv.c: objects read by GET RESPONSE
-- chaining. malloc is an argument: whether it gives the buffer.
pub mod Laws
pub mod Chunks
mod Examples
use wolf_p.Prelude.{
  ℕ, zero, suc, ◌+◌, ◌-◌, Bool, ◌&&◌, not, Option, none, some, List, [], ◌∷◌, ◌++◌, length, take,
  drop, ltb, ◌==◌, if◌then◌else◌, Result, ok, err, Call, Loop, loop_after, ◌>=>◌, ◌>->◌,
}
use wolf_p.Ccid.{Transport, Ctx}
use wolf_p.Card.{with_handle_loop, send}
use wolf_p.Piv.Tlv.{tlv_expect}
use wolf_p.Piv.Apdu.{
  PivErr, param, sw, bufsize, encoding, not_found, nomem, piv_get_sw, piv_card, is_success, body,
}

-- `WP11_PIV_CERT_MAX_LEN`.
abbrev pub cert_max_len : ℕ
cert_max_len = 4096

-- `tag_map`.
unfoldable pub cert_tag : ℕ → Option (List ℕ)
cert_tag slot =
    if slot == 0x9A
    then some (0x5F ∷ 0xC1 ∷ 0x05 ∷ [])
    else if slot == 0x9C
    then some (0x5F ∷ 0xC1 ∷ 0x0A ∷ [])
    else if slot == 0x9D
    then some (0x5F ∷ 0xC1 ∷ 0x0B ∷ [])
    else if slot == 0x9E
    then some (0x5F ∷ 0xC1 ∷ 0x01 ∷ [])
    else none

abbrev pub get_data_cmd : List ℕ → List ℕ
get_data_cmd tag = 0x00 ∷ 0xCB ∷ 0x3F ∷ 0xFF ∷ 0x05 ∷ 0x5C ∷ 0x03 ∷ (tag ++ (0x00 ∷ []))

abbrev pub get_response_cmd : List ℕ
get_response_cmd = 0x00 ∷ 0xC0 ∷ 0x00 ∷ 0x00 ∷ 0x00 ∷ []

abbrev pub attest_cmd : ℕ → List ℕ
attest_cmd slot = 0x00 ∷ 0xF9 ∷ 0x00 ∷ slot ∷ 0x00 ∷ []

-- The first reply: 6A 82 is "not found"; otherwise its data starts the buffer.
unfoldable pub first_chunk : List ℕ → Result PivErr (List ℕ)
first_chunk chunk =
    let (sw1, sw2) = piv_get_sw chunk in
    if sw1 == 0x6A && sw2 == 0x82
    then err not_found
    else if ltb cert_max_len (length chunk - 2)
    then err bufsize
    else ok (body chunk)

-- A later reply is checked and appended to the buffer.
unfoldable pub next_chunk : List ℕ → List ℕ → Result PivErr (List ℕ)
next_chunk accum chunk =
    let (sw1, sw2) = piv_get_sw chunk in
    if not (sw1 == 0x90) && not (sw1 == 0x61)
    then err sw
    else if length chunk - 2 == 0 && sw1 == 0x61
    then err sw
    else if ltb cert_max_len (length accum + (length chunk - 2))
    then err bufsize
    else ok (accum ++ body chunk)

-- The bytes behind tags 53 and 70, copied out if they fit.
unfoldable pub parse_cert : ℕ → List ℕ → Result PivErr (List ℕ)
parse_cert cap accum = elim (tlv_expect accum 0 (length accum) 0x53) [
  | err _ ↦ err encoding
  | ok (i, outer_len) ↦ elim (tlv_expect accum i (i + outer_len) 0x70) [
    | err _ ↦ err encoding
    | ok (j, inner_len) ↦
        if ltb cap inner_len then err bufsize else ok (take inner_len (drop j accum))
  ]
]

unfoldable pub copy_out : ℕ → List ℕ → Result PivErr (List ℕ)
copy_out cap accum = if ltb cap (length accum) then err bufsize else ok accum

module _ {W : Type 0} (t : Transport W) where
  -- `while (sw1 == SW1_MORE_DATA)` with the check of the status word behind it.
  unfoldable pub chain : ℕ → List ℕ → ℕ × ℕ → Loop (Ctx W) PivErr (List ℕ)
  chain zero accum last c = (none, c)
  chain (suc fuel) accum last c =
      let more = loop_after (send t piv_card get_response_cmd c) (λ chunk c'.
        elim (next_chunk accum chunk) [
          | err e ↦ (some (err e), c')
          | ok accum' ↦ chain fuel accum' (piv_get_sw chunk) c'
        ]) in
      if last.0 == 0x61
      then more
      else ((if is_success last then some (ok accum) else some (err sw)), c)

  -- The first command, its reply and the chain. Each round but the last adds a byte or more to a
  -- buffer of 4096 bytes, so the fuel suffices (Cert/Laws).
  unfoldable pub read_object : List ℕ → Loop (Ctx W) PivErr (List ℕ)
  read_object cmd = send t piv_card cmd >=> λ chunk c. elim (first_chunk chunk) [
    | err e ↦ (some (err e), c)
    | ok accum ↦ chain (cert_max_len + 2) accum (piv_get_sw chunk) c
  ]

  -- wp11_piv_get_cert; `room` is whether malloc succeeds.
  unfoldable pub get_cert :
      Bool → Option (Ctx W) → ℕ → Option ℕ → Option (Result PivErr (List ℕ)) × Option (Ctx W)
  unfolding read_object
  get_cert room ccid slot none = (some (err param), ccid)
  get_cert room ccid slot (some certlen) = with_handle_loop param ccid λ c. elim (cert_tag slot) [
    | none ↦ (some (err param), c)
    | some tag ↦
        if room
        then (read_object (get_data_cmd tag) >-> parse_cert certlen) c
        else (some (err nomem), c)
  ]

  -- wp11_piv_attest.
  unfoldable pub attest :
      Bool → Option (Ctx W) → ℕ → Option ℕ → Option (Result PivErr (List ℕ)) × Option (Ctx W)
  unfolding read_object
  attest room ccid slot none = (some (err param), ccid)
  attest room ccid slot (some derlen) = with_handle_loop param ccid λ c.
      if room then (read_object (attest_cmd slot) >-> copy_out derlen) c else (some (err nomem), c)
