-- ===== src/Piv/Pin/Laws.antt =====
-- The VERIFY command of src/wp11_proto_piv.c.
use wolf_p.Prelude.{
  ℕ, zero, suc, ◌-◌, ◌≤◌, ◌<◌, ◌≡◌, ◌≢◌, refl, sym, ap, some, List, [], ◌∷◌, ◌++◌,
  take-length-append, ◌↔◌, get_or, drop, take, length, replicate, length-append, length-replicate,
  arith, ok, err, ◌⊎◌,
}
use wolf_p.Ccid.{Transport, Ctx}
use wolf_p.Card.{send}
use wolf_p.Piv.Apdu.{param, piv_card, piv_get_sw, pin_bad, pin_locked}
use wolf_p.Piv.Pin.{pad_pin, verify_cmd, pin_result, verify_call, verify_pin}

-- No byte of the PIN is the padding byte.
abbrev pub NoPadding : List ℕ → Type 0
NoPadding [] = Unit {0}
NoPadding (x ∷ xs) = (x ≢ 0xFF) × NoPadding xs

length-pad_pin : (pin : List ℕ) → length pin ≤ 8 → length (pad_pin pin) ≡ 8
unfolding pad_pin
length-pad_pin pin h = omega (
  arith,
  length-append pin (replicate (8 - length pin) 0xFF),
  length-replicate {A = ℕ} (8 - length pin) 0xFF,
)

-- Every PIN of at most eight bytes makes a command of thirteen bytes whose Lc counts its data,
-- and whose data begins with the PIN.
pub verify_cmd_shape :
    (pin : List ℕ)
    → length pin ≤ 8
    → (length (verify_cmd pin) ≡ 13)
      × (get_or (verify_cmd pin) 4 0 ≡ length (drop 5 (verify_cmd pin)))
      × (take (length pin) (drop 5 (verify_cmd pin)) ≡ pin)
unfolding verify_cmd
verify_cmd_shape pin h = (
  omega (arith, length-pad_pin pin h),
  sym (length-pad_pin pin h),
  take-length-append pin (replicate (8 - length pin) 0xFF),
)

padded-injective :
    (p q : List ℕ) (m n : ℕ)
    → NoPadding p
    → NoPadding q
    → p ++ replicate m 0xFF ≡ q ++ replicate n 0xFF
    → p ≡ q
padded-injective [] [] m n np nq e = refl
padded-injective [] (y ∷ q) zero n np nq e = cc
padded-injective [] (y ∷ q) (suc m) n np nq e = absurd (nq.0 (cc))
padded-injective (x ∷ p) [] m zero np nq e = cc
padded-injective (x ∷ p) [] m (suc n) np nq e = absurd (np.0 (cc))
padded-injective (x ∷ p) (y ∷ q) m n np nq e =
    let same : p ≡ q = padded-injective p q m n np.1 nq.1 (cc) in cc

-- PINs without the byte FF make different commands when they differ.
pub verify_cmd-injective :
    (p q : List ℕ) → NoPadding p → NoPadding q → verify_cmd p ≡ verify_cmd q → p ≡ q
unfolding verify_cmd
verify_cmd-injective p q np nq e =
    padded-injective p q (8 - length p) (8 - length q) np nq (ap (drop 5) e)

-- What a reply's status word means: the PIN is accepted exactly for 90 00, wrong exactly for a word
-- 63 C0 to 63 CF, and locked exactly for 69 83.
pub pin_result_iff :
    (sw1 sw2 : ℕ)
    → ((pin_result (sw1, sw2) ≡ ok tt) ↔ ((sw1 ≡ 0x90) × (sw2 ≡ 0)))
      × ((pin_result (sw1, sw2) ≡ err pin_bad) ↔ ((sw1 ≡ 0x63) × (0xC0 ≤ sw2) × (sw2 ≤ 0xCF)))
      × ((pin_result (sw1, sw2) ≡ err pin_locked) ↔ ((sw1 ≡ 0x69) × (sw2 ≡ 0x83)))
unfolding pin_result
pin_result_iff sw1 sw2 = (ground arith, ground arith, ground arith)

module _ {W : Type 0} (t : Transport W) where
  -- A PIN of a length that PIV does not allow never reaches the card: the context is untouched.
  pub verify_pin_refused :
      (c : Ctx W) (pin : List ℕ)
      → (length pin < 4) ⊎ (8 < length pin)
      → verify_pin t (some c) (some pin) ≡ (err param, some c)
  unfolding verify_pin
  verify_pin_refused c pin h = ground arith

  -- If a PIN has four to eight bytes and the card answers its command, the status word of that
  -- one reply gives the result, and the context is the one that the exchange leaves.
  pub verify_pin_sent :
      (c : Ctx W) (pin resp : List ℕ)
      → 4 ≤ length pin
      → length pin ≤ 8
      → (send t piv_card (verify_cmd pin) c).0 ≡ ok resp
      → verify_pin t (some c) (some pin)
        ≡ (pin_result (piv_get_sw resp), some (send t piv_card (verify_cmd pin) c).1)
  unfolding verify_pin verify_call
  verify_pin_sent c pin resp h k e = ground arith
