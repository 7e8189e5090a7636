-- ===== src/Piv/Tlv/Nested.antt =====
-- One element inside another, as the replies that src/wp11_proto_piv.c takes apart.
use wolf_p.Prelude.{
  ℕ, ◌+◌, ◌≤◌, ◌≡◌, sym, ap, ◌∙◌, List, [], ◌∷◌, ◌++◌, drop, take, length, length-append,
  take-length-append, drop-length-append, arith, ok,
}
use mathlib.Core.List.{append_assoc}
use wolf_p.Piv.Tlv.{ber_len_encode, tlv_expect}
use wolf_p.Piv.Tlv.Laws.{tlv, tlv_expect-tlv}

pub length-tlv :
    (t : ℕ) (v : List ℕ) → length (tlv t v) ≡ 1 + length (ber_len_encode (length v)) + length v
unfolding tlv
length-tlv t v = omega (arith, length-append (ber_len_encode (length v)) v)

header : ℕ → List ℕ → List ℕ
header t v = t ∷ ber_len_encode (length v)

tlv-header : (t : ℕ) (v rest : List ℕ) → tlv t v ++ rest ≡ header t v ++ (v ++ rest)
unfolding tlv header
tlv-header t v rest = ap (λ l. t ∷ l) (append_assoc (ber_len_encode (length v)) v rest)

length-header : (t : ℕ) (v : List ℕ) → length (header t v) ≡ 1 + length (ber_len_encode (length v))
unfolding header
length-header t v = omega arith

take-drop_middle :
    (xs v rest : List ℕ) (buf : List ℕ) (j : ℕ)
    → buf ≡ xs ++ (v ++ rest)
    → j ≡ length xs
    → take (length v) (drop j buf) ≡ v
take-drop_middle xs v rest buf j e f =
    rw (e, f) (rw (drop-length-append xs (v ++ rest)) (take-length-append v rest))

-- The outer element of `buf` is found, then the inner one, whose bytes are `v`.
abbrev pub ReadsInner : List ℕ → ℕ → ℕ → ℕ → List ℕ → Type 0
ReadsInner buf end t u v =
    (i n j : ℕ) × (tlv_expect buf 0 end t ≡ ok (i, n))
    × (tlv_expect buf i (i + n) u ≡ ok (j, length v))
    × (take (length v) (drop j buf) ≡ v)

-- Two nested elements, with more elements behind the inner one and more bytes behind the outer one.
pub tlv_expect-nested :
    (t u end : ℕ) (v more rest : List ℕ)
    → length (tlv u v ++ more) ≤ 0xFFFF
    → length (tlv t (tlv u v ++ more)) ≤ end
    → ReadsInner (tlv t (tlv u v ++ more) ++ rest) end t u v
tlv_expect-nested t u end v more rest h k =
    (i, length inner, j, outer_read, inner_read, take-drop_middle before_v v after _ j split_v j_eq)
  where
    inner : List ℕ
    inner = tlv u v ++ more

    after : List ℕ
    after = more ++ rest

    before_v : List ℕ
    before_v = header t inner ++ header u v

    i : ℕ
    i = 0 + 1 + length (ber_len_encode (length inner))

    j : ℕ
    j = length (header t inner) + 1 + length (ber_len_encode (length v))

    outer_read : tlv_expect (tlv t inner ++ rest) 0 end t ≡ ok (i, length inner)
    outer_read = tlv_expect-tlv [] inner rest t end h (omega arith)

    split : tlv t inner ++ rest ≡ header t inner ++ (tlv u v ++ after)
    split =
        tlv-header t inner rest ∙ ap (λ l. header t inner ++ l) (append_assoc (tlv u v) more rest)

    i_eq : i ≡ length (header t inner)
    i_eq = omega (arith, length-header t inner)

    inner_read : tlv_expect (tlv t inner ++ rest) i (i + length inner) u ≡ ok (j, length v)
    inner_read =
        ap (λ b. tlv_expect b i (i + length inner) u) split
        ∙ ap (λ k. tlv_expect (header t inner ++ (tlv u v ++ after)) k (i + length inner) u) i_eq
        ∙ tlv_expect-tlv (header t inner) v after u (i + length inner)
            (omega (arith, length-append (tlv u v) more, length-tlv u v))
            (omega (arith, i_eq, length-append (tlv u v) more))

    split_v : tlv t inner ++ rest ≡ before_v ++ (v ++ after)
    split_v =
        split
        ∙ ap (λ l. header t inner ++ l) (tlv-header u v after)
        ∙ sym (append_assoc (header t inner) (header u v) (v ++ after))

    j_eq : j ≡ length before_v
    j_eq = omega (arith, length-append (header t inner) (header u v), length-header u v)
