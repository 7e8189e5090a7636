-- ===== src/Piv/Auth.antt =====
-- GENERAL AUTHENTICATE: wp11_piv_sign and wp11_piv_ecdh of src/wp11_proto_piv.c. The two differ in the
-- tag of the input and in the code for a reply that does not begin with tag 7C.
pub mod Laws
pub mod Reply
use wolf_p.Prelude.{
  ℕ, ◌+◌, ◌-◌, ◌%◌, Bool, ◌||◌, Option, none, some, List, [], ◌∷◌, ◌++◌, length, take, drop, ltb,
  leb, ◌==◌, if◌then◌else◌, Result, ok, err, bind, Call, ◌>>=◌, lift,
}
use wolf_p.Ccid.{Transport, Ctx}
use wolf_p.Card.{with_handle, send_retry}
use wolf_p.Piv.Tlv.{ber_len_encode, tlv_expect, TlvErr}
use wolf_p.Piv.Apdu.{
  PivErr, param, sw, bufsize, encoding, max_cmd, piv_get_sw, piv_sw_to_err, piv_card, is_success,
}

abbrev pub tag_dat : ℕ
tag_dat = 0x7C

abbrev pub tag_response : ℕ
tag_response = 0x82

abbrev pub tag_challenge : ℕ
tag_challenge = 0x81

abbrev pub tag_exponent : ℕ
tag_exponent = 0x85

-- `val <= 0x7F ? 1 : 2`.
abbrev pub len_width : ℕ → ℕ
len_width val = if leb val 0x7F then 1 else 2

abbrev pub dat_content_len : ℕ → ℕ
dat_content_len inputlen = 2 + 1 + len_width inputlen + inputlen

abbrev pub apdu_data_size : ℕ → ℕ
apdu_data_size inputlen = 1 + len_width (dat_content_len inputlen) + dat_content_len inputlen

-- `if (len_bytes == 0u) return WP11_PIV_ERR_BUFSIZE`.
abbrev pub encoded_len : ℕ → Result PivErr (List ℕ)
encoded_len val = elim (ber_len_encode val) [ [] ↦ err bufsize | b ∷ bs ↦ ok (b ∷ bs) ]

-- The command, with the input under `tag`.
unfoldable pub auth_cmd : ℕ → ℕ → ℕ → List ℕ → Result PivErr (List ℕ)
auth_cmd tag slot alg input =
    let n = length input in
    if ltb 0xFF (apdu_data_size n) || ltb max_cmd (5 + apdu_data_size n + 1)
    then err bufsize
    else bind (encoded_len (dat_content_len n)) λ dat_len. bind (encoded_len n) λ input_len. ok (
        0x00
        ∷ 0x87
        ∷ alg
        ∷ slot
        ∷ (apdu_data_size n % 256)
        ∷ tag_dat
        ∷ (dat_len ++ (tag_response ∷ 0x00 ∷ tag ∷ (input_len ++ (input ++ (0x00 ∷ []))))))

-- The value of tag 82 in the template, copied out if it fits; `wrong_tag` is the code for an outer
-- tag other than 7C.
unfoldable pub parse_dat : PivErr → ℕ → List ℕ → Result PivErr (List ℕ)
parse_dat wrong_tag cap resp =
    let data_end = length resp - 2 in
    if data_end == 0 then err encoding else elim (tlv_expect resp 0 data_end tag_dat) [
      | err TlvErr.tag ↦ err wrong_tag
      | err TlvErr.enc ↦ err encoding
      | ok (i, dat_len) ↦ elim (tlv_expect resp i (i + dat_len) tag_response) [
        | err TlvErr.tag ↦ err sw
        | err TlvErr.enc ↦ err encoding
        | ok (j, value_len) ↦
            if ltb cap value_len then err bufsize else ok (take value_len (drop j resp))
      ]
    ]

module _ {W : Type 0} (t : Transport W) where
  -- The exchange past the guards.
  unfoldable pub authenticate : ℕ → PivErr → ℕ → ℕ → List ℕ → ℕ → Call (Ctx W) PivErr (List ℕ)
  unfolding auth_cmd parse_dat
  authenticate tag wrong_tag slot alg input cap = do
    cmd ← lift (auth_cmd tag slot alg input)
    resp ← send_retry t piv_card cmd
    lift (
        if is_success (piv_get_sw resp)
        then parse_dat wrong_tag cap resp
        else let (sw1, sw2) = piv_get_sw resp in err (piv_sw_to_err sw1 sw2))

  -- wp11_piv_sign. The challenge and the output's capacity are `none` where a pointer is NULL.
  unfoldable pub sign :
      Option (Ctx W) → ℕ → ℕ → Option (List ℕ) → Option ℕ → Result PivErr (List ℕ) × Option (Ctx W)
  unfolding authenticate
  sign ccid slot alg (some challenge) (some siglen) =
      if ltb 247 (length challenge)
      then (err param, ccid)
      else with_handle param ccid (authenticate tag_challenge encoding slot alg challenge siglen)
  sign ccid slot alg _ _ = (err param, ccid)

  -- wp11_piv_ecdh.
  unfoldable pub ecdh :
      Option (Ctx W) → ℕ → ℕ → Option (List ℕ) → Option ℕ → Result PivErr (List ℕ) × Option (Ctx W)
  unfolding authenticate
  ecdh ccid slot alg (some peer_pub) (some sharedlen) =
      if ltb 247 (length peer_pub)
      then (err param, ccid)
      else with_handle param ccid (authenticate tag_exponent sw slot alg peer_pub sharedlen)
  ecdh ccid slot alg _ _ = (err param, ccid)
