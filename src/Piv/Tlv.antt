-- ===== src/Piv/Tlv.antt =====
-- The BER-TLV routines of src/wp11_proto_piv.c.
pub mod Laws
pub mod Nested
use wolf_p.Prelude.{
  ℕ, ◌+◌, ◌-◌, ◌*◌, ◌/◌, ◌%◌, ◌^◌, Option, none, some, List, [], ◌∷◌, ltb, leb, ◌==◌, not,
  if◌then◌else◌, get_or, drop, Result, ok, err,
}

-- `ber_len_decode`: the value and the bytes used, of a buffer with `buflen` bytes to read; `none`
-- is -1. The two bytes of the long form share no bits, so `|` is the sum.
unfoldable pub ber_len_decode : List ℕ → ℕ → Option (ℕ × ℕ)
ber_len_decode buf buflen =
    if buflen == 0
    then none
    else if leb (get_or buf 0 0) 0x7F
    then some (get_or buf 0 0, 1)
    else if get_or buf 0 0 == 0x81
    then if ltb buflen 2 then none else some (get_or buf 1 0, 2)
    else if get_or buf 0 0 == 0x82
    then if ltb buflen 3 then none else some (get_or buf 1 0 * 2 ^ 8 + get_or buf 2 0, 3)
    else none

-- WP11_TLV_ERR_TAG and WP11_TLV_ERR_ENC.
pub data TlvErr : Type 0 where
  tag enc : TlvErr

-- `tlv_expect`: the position of the value and its length.
unfoldable pub tlv_expect : List ℕ → ℕ → ℕ → ℕ → Result TlvErr (ℕ × ℕ)
tlv_expect buf pos end expected_tag =
    if leb end pos
    then err enc
    else if not (get_or buf pos 0 == expected_tag)
    then err tag
    else elim (ber_len_decode (drop (pos + 1) buf) (end - (pos + 1))) [
      | none ↦ err enc
      | some (vlen, consumed) ↦
          if ltb (end - (pos + 1 + consumed)) vlen then err enc else ok (pos + 1 + consumed, vlen)
    ]

-- `ber_len_encode`: the bytes written; `[]` is the error 0.
unfoldable pub ber_len_encode : ℕ → List ℕ
ber_len_encode val =
    if ltb 0xFFFF val
    then []
    else if leb val 0x7F
    then val % 256 ∷ []
    else if leb val 0xFF
    then 0x81 ∷ val % 256 ∷ []
    else 0x82 ∷ val / 2 ^ 8 % 256 ∷ val % 256 ∷ []
