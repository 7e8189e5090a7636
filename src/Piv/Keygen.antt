-- ===== src/Piv/Keygen.antt =====
-- wp11_piv_generate_key of src/wp11_proto_piv.c.
pub mod Laws
use wolf_p.Prelude.{
  ℕ, ◌+◌, ◌-◌, Bool, ◌&&◌, ◌||◌, not, Option, none, some, List, [], ◌∷◌, length, get_or, take, drop,
  ltb, leb, ◌==◌, if◌then◌else◌, Result, ok, err, bind, Call, ◌>>=◌, lift,
}
use wolf_p.Ccid.{Transport, Ctx}
use wolf_p.Card.{with_handle, send_retry}
use wolf_p.Piv.Tlv.{ber_len_decode}
use wolf_p.Piv.Apdu.{
  PivErr, param, bufsize, encoding, piv_get_sw, piv_sw_to_err, piv_card, is_success,
}

abbrev pub generate_cmd : ℕ → ℕ → List ℕ
generate_cmd slot alg =
    0x00 ∷ 0x47 ∷ 0x00 ∷ slot ∷ 0x05 ∷ 0xAC ∷ 0x03 ∷ 0x80 ∷ 0x01 ∷ alg ∷ 0x00 ∷ []

-- A length field at `pos` whose value ends by `data_end`: the value's position and length.
unfoldable pub sized_at : List ℕ → ℕ → ℕ → Result PivErr (ℕ × ℕ)
sized_at resp pos data_end = elim (ber_len_decode (drop pos resp) (data_end - pos)) [
  | none ↦ err encoding
  | some (len, len_bytes) ↦
      if ltb (data_end - (pos + len_bytes)) len then err encoding else ok (pos + len_bytes, len)
]

-- Tag 7F 49, its length, any one-byte tag, its length: where the public key stands.
unfoldable pub find_pubkey : List ℕ → Result PivErr (ℕ × ℕ)
unfolding sized_at
find_pubkey resp =
    let data_end = length resp - 2 in
    if ltb data_end 2 || not (get_or resp 0 0 == 0x7F) || not (get_or resp 1 0 == 0x49)
    then err encoding
    else bind (sized_at resp 2 data_end)
        λ (i, outer_len). if leb data_end i then err encoding else sized_at resp (i + 1) data_end

-- The output: no buffer at all, a buffer without its length, or a buffer with its capacity.
pub data PubkeyOut : Type 0 where
  discard no_length : PubkeyOut
  room : ℕ → PubkeyOut

unfoldable pub copy_pubkey : PubkeyOut → List ℕ → ℕ × ℕ → Result PivErr (List ℕ)
copy_pubkey discard resp (i, inner_len) = ok []
copy_pubkey no_length resp (i, inner_len) = err bufsize
copy_pubkey (room cap) resp (i, inner_len) =
    if ltb cap inner_len then err bufsize else ok (take inner_len (drop i resp))

module _ {W : Type 0} (t : Transport W) where
  -- wp11_piv_generate_key.
  unfoldable pub generate_key :
      Option (Ctx W) → ℕ → ℕ → PubkeyOut → Result PivErr (List ℕ) × Option (Ctx W)
  unfolding find_pubkey copy_pubkey
  generate_key ccid slot alg out = with_handle param ccid do
    resp ← send_retry t piv_card (generate_cmd slot alg)
    lift (
        if is_success (piv_get_sw resp)
        then bind (find_pubkey resp) (copy_pubkey out resp)
        else let (sw1, sw2) = piv_get_sw resp in err (piv_sw_to_err sw1 sw2))
