-- ===== src/Piv/Pin.antt =====
-- wp11_piv_verify_pin of src/wp11_proto_piv.c.
pub mod Laws
use wolf_p.Prelude.{
  ℕ, ◌+◌, ◌-◌, ◌*◌, ◌/◌, ◌^◌, Bool, ◌||◌, ◌&&◌, Option, none, some, List, [], ◌∷◌, ◌++◌, length,
  replicate, ltb, ◌==◌, if◌then◌else◌, Result, ok, err, Call, ◌>>=◌, lift,
}
use wolf_p.Ccid.{Transport, Ctx}
use wolf_p.Card.{with_handle, send}
use wolf_p.Piv.Apdu.{PivErr, param, sw, pin_bad, pin_locked, piv_get_sw, piv_card, is_success}

-- `PIV_PIN_PADDED_LEN`.
abbrev pub padded_len : ℕ
padded_len = 8

-- The PIN padded with FF to eight bytes.
unfoldable pub pad_pin : List ℕ → List ℕ
pad_pin pin = pin ++ replicate (padded_len - length pin) 0xFF

unfoldable pub verify_cmd : List ℕ → List ℕ
unfolding pad_pin
verify_cmd pin = 0x00 ∷ 0x20 ∷ 0x00 ∷ 0x80 ∷ padded_len ∷ pad_pin pin

-- The status word's meaning; `(sw2 & 0xF0) == 0xC0` compares the high nibble.
unfoldable pub pin_result : ℕ × ℕ → Result PivErr (Unit {0})
pin_result (sw1, sw2) =
    if is_success (sw1, sw2)
    then ok tt
    else if sw1 == 0x63 && sw2 / 2 ^ 4 * 2 ^ 4 == 0xC0
    then err pin_bad
    else if sw1 == 0x69 && sw2 == 0x83
    then err pin_locked
    else err sw

module _ {W : Type 0} (t : Transport W) where
  -- The call past the guards.
  unfoldable pub verify_call : List ℕ → Call (Ctx W) PivErr (Unit {0})
  unfolding verify_cmd pin_result
  verify_call pin = do resp ← send t piv_card (verify_cmd pin); lift (pin_result (piv_get_sw resp))

  -- wp11_piv_verify_pin; the PIN is `none` for a NULL pointer.
  unfoldable pub verify_pin :
      Option (Ctx W) → Option (List ℕ) → Result PivErr (Unit {0}) × Option (Ctx W)
  unfolding verify_call
  verify_pin ccid none = (err param, ccid)
  verify_pin ccid (some pin) =
      if ltb (length pin) 4 || ltb 8 (length pin)
      then (err param, ccid)
      else with_handle param ccid (verify_call pin)
