-- ===== src/Piv/Tlv/Laws.antt =====
-- Lengths and elements of BER-TLV, read and written.
use wolf_p.Prelude.{
  ℕ, suc, zero, ◌+◌, ◌-◌, ◌≤◌, ◌<◌, ◌≡◌, refl, some, List, [], ◌∷◌, ◌++◌, Option-cases, inl, inr,
  get_or-append, drop-append_cons, get_or, drop, take, length, length-append, arith, ok,
}
use mathlib.Core.List.{append_assoc}
use wolf_p.Piv.Tlv.{ber_len_decode, tlv_expect, ber_len_encode}

-- Every length that two bytes can hold is read back as written, with the number of bytes it took,
-- if these lie before the bound, whatever follows them in the buffer.
pub ber_len_decode-encode :
    (v n : ℕ) (rest : List ℕ)
    → v ≤ 0xFFFF
    → length (ber_len_encode v) ≤ n
    → ber_len_decode (ber_len_encode v ++ rest) n ≡ some (v, length (ber_len_encode v))
unfolding ber_len_decode ber_len_encode
ber_len_decode-encode v n rest h k = ground arith

-- A longer length is refused, not truncated.
pub ber_len_encode-eq-nil : (v : ℕ) → 0xFFFF < v → ber_len_encode v ≡ []
unfolding ber_len_encode
ber_len_encode-eq-nil v h = ground arith

pub length-ber_len_encode :
    (v : ℕ) → v ≤ 0xFFFF → (1 ≤ length (ber_len_encode v)) × (length (ber_len_encode v) ≤ 3)
unfolding ber_len_encode
length-ber_len_encode v h = ground arith

-- A decoded length used at least one byte and no byte past the given bound.
pub ber_len_decode_bounds :
    (buf : List ℕ) (n v k : ℕ) → ber_len_decode buf n ≡ some (v, k) → (1 ≤ k) × (k ≤ n) × (k ≤ 3)
unfolding ber_len_decode
ber_len_decode_bounds buf n v k e = ground arith

get_or-take : (buf : List ℕ) (n i : ℕ) → i < n → get_or (take n buf) i 0 ≡ get_or buf i 0
get_or-take buf zero i h = absurd (omega arith)
get_or-take [] (suc n) i h = refl
get_or-take (x ∷ xs) (suc n) zero h = refl
get_or-take (x ∷ xs) (suc n) (suc i) h = get_or-take xs n i (omega arith)

-- No byte at or past the bound is read: cutting the buffer there changes no result.
pub ber_len_decode-take :
    (buf : List ℕ) (n : ℕ) → ber_len_decode (take n buf) n ≡ ber_len_decode buf n
unfolding ber_len_decode
ber_len_decode-take buf n =
    ground (arith, get_or-take buf n 0, get_or-take buf n 1, get_or-take buf n 2)

-- The value of an accepted element lies behind its header and inside the bound.
pub tlv_expect_bounds :
    (buf : List ℕ) (pos end t p l : ℕ)
    → tlv_expect buf pos end t ≡ ok (p, l)
    → (pos + 2 ≤ p) × (p ≤ pos + 4) × (p + l ≤ end)
unfolding tlv_expect
tlv_expect_bounds buf pos end t p l e =
    elim (Option-cases (ber_len_decode (drop (pos + 1) buf) (end - (pos + 1)))) [
      | inl fails ↦ absurd (ground arith)
      | inr ((v, k), reads) ↦
          ground (arith, ber_len_decode_bounds (drop (pos + 1) buf) (end - (pos + 1)) v k reads)
    ]

tlv_expect_step :
    (before body : List ℕ) (t end l k : ℕ)
    → ber_len_decode body (end - (length before + 1)) ≡ some (l, k)
    → length before + 1 + k + l ≤ end
    → tlv_expect (before ++ (t ∷ body)) (length before) end t ≡ ok (length before + 1 + k, l)
unfolding tlv_expect
tlv_expect_step before body t end l k reads fits =
    ground (arith, get_or-append before body t 0, drop-append_cons before body t)

-- An element: tag, length, value.
unfoldable pub tlv : ℕ → List ℕ → List ℕ
tlv t v = t ∷ (ber_len_encode (length v) ++ v)

-- An element of at most 65535 bytes is found wherever it stands in the buffer, if it ends at or
-- before the bound.
pub tlv_expect-tlv :
    (before v rest : List ℕ) (t end : ℕ)
    → length v ≤ 0xFFFF
    → length before + length (tlv t v) ≤ end
    → tlv_expect (before ++ (tlv t v ++ rest)) (length before) end t
      ≡ ok (length before + 1 + length (ber_len_encode (length v)), length v)
unfolding tlv
tlv_expect-tlv before v rest t end h k =
    let room : length before + 1 + length (ber_len_encode (length v)) + length v ≤ end =
      omega (arith, length-append (ber_len_encode (length v)) v) in
    tlv_expect_step before (ber_len_encode (length v) ++ v ++ rest) t end _ _
      (rw append_assoc
        (ber_len_decode-encode (length v) (end - (length before + 1)) (v ++ rest) h (omega arith)))
      room
