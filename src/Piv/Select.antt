-- ===== src/Piv/Select.antt =====
-- wp11_piv_select of src/wp11_proto_piv.c.
pub mod Laws
use wolf_p.Prelude.{
  same_bytes, ℕ, zero, suc, ◌+◌, ◌-◌, Bool, true, false, not, ◌&&◌, ◌||◌, Option, none, some, List,
  [], ◌∷◌, ◌++◌, length, get_or, take, drop, ltb, leb, ◌==◌, if◌then◌else◌, Result, ok, err, Call,
  ◌>=>◌,
}
use wolf_p.Ccid.{Transport, Ctx}
use wolf_p.Card.{with_handle_loop, send}
use wolf_p.Piv.Tlv.{ber_len_decode}
use wolf_p.Piv.Apdu.{PivErr, param, sw, encoding, piv_get_sw, piv_card, is_success}

-- WP11_PIV_AID.
abbrev pub aid : List ℕ
aid = 0xA0 ∷ 0x00 ∷ 0x00 ∷ 0x03 ∷ 0x08 ∷ 0x00 ∷ 0x00 ∷ 0x10 ∷ 0x00 ∷ 0x01 ∷ 0x00 ∷ []

abbrev pub aid_len : ℕ
aid_len = 11

abbrev pub select_cmd : List ℕ
select_cmd = 0x00 ∷ 0xA4 ∷ 0x04 ∷ 0x00 ∷ aid_len ∷ aid

-- How the scan for tag 84 ends.
pub data Scan : Type 0 where
  found absent wrong_aid : Scan

-- One round of the scan at `pos < body_len`: the end of the scan, or the next position.
unfoldable pub scan_step : List ℕ → ℕ → ℕ → Result Scan ℕ
scan_step resp body_len pos =
    let tag = get_or resp pos 0 in
    if leb body_len (pos + 1)
    then err absent
    else elim (ber_len_decode (drop (pos + 1) resp) (body_len - (pos + 1))) [
      | none ↦ err absent
      | some (tlen, consumed) ↦
          let start = pos + 1 + consumed in
          if ltb body_len (start + tlen)
          then err absent
          else if tag == 0x84
          then if not (tlen == aid_len) || not (same_bytes (take aid_len (drop start resp)) aid)
            then err wrong_aid
            else err found
          else ok (start + tlen)
    ]

-- The `while` loop, on fuel; each round moves on by two bytes or more, so that `body_len` rounds
-- are enough. `none` means that the fuel ran out.
unfoldable pub scan : ℕ → List ℕ → ℕ → ℕ → Option Scan
scan zero resp body_len pos = none
scan (suc fuel) resp body_len pos =
    let next : Option Scan = elim (scan_step resp body_len pos) [
      | err s ↦ some s
      | ok pos' ↦ scan fuel resp body_len pos'
    ] in
    if leb (pos + 1) body_len then next else some absent

-- Where the scan starts, behind the template's tag and length if it has one.
unfoldable pub scan_start : List ℕ → ℕ → Bool × ℕ
scan_start resp body_len =
    if get_or resp 0 0 == 0x6F || get_or resp 0 0 == 0x61
    then (
      true,
      (if ltb 1 body_len
          then elim (ber_len_decode (drop 1 resp) (body_len - 1)) [
            | none ↦ 1
            | some (skip_len, consumed) ↦
                if ltb body_len (1 + consumed) then body_len else 1 + consumed
          ]
          else 1),
    )
    else (false, 0)

-- What the end of the scan means, with `fci_present`.
unfoldable pub scan_result : Bool → Option Scan → Option (Result PivErr (Unit {0}))
scan_result fci none = none
scan_result fci (some wrong_aid) = some (err sw)
scan_result fci (some found) = some (ok tt)
scan_result fci (some absent) = if fci then some (err encoding) else some (ok tt)

-- The check of a reply's body; `none` never comes back, see Select/Laws.
unfoldable pub check_fci : List ℕ → Option (Result PivErr (Unit {0}))
unfolding scan_result
check_fci resp =
    if ltb 2 (length resp)
    then (let body_len = length resp - 2 in
        let (fci, pos) = scan_start resp body_len in
        scan_result fci (scan (suc body_len) resp body_len pos))
    else some (ok tt)

module _ {W : Type 0} (t : Transport W) where
  -- wp11_piv_select.
  unfoldable pub select : Option (Ctx W) → Option (Result PivErr (Unit {0})) × Option (Ctx W)
  unfolding check_fci
  select ccid = with_handle_loop param ccid (
      send t piv_card select_cmd >=> λ resp c.
      ((if is_success (piv_get_sw resp) then check_fci resp else some (err sw)), c))
