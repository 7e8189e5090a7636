-- ===== src/Piv/Apdu/Laws.antt =====
-- The status word of src/wp11_proto_piv.c.
use wolf_p.Prelude.{ℕ, ◌≡◌, List, [], ◌∷◌, ◌++◌, tail_two, length_two, arith}
use wolf_p.Piv.Apdu.{piv_get_sw, body}

-- The status word of a reply is its last two bytes, and the rest is its body.
pub piv_get_sw-append :
    (xs : List ℕ) (a b : ℕ)
    → (piv_get_sw (xs ++ (a ∷ b ∷ [])) ≡ (a, b)) × (body (xs ++ (a ∷ b ∷ [])) ≡ xs)
unfolding piv_get_sw
piv_get_sw-append xs a b =
    let (first, second, rest) = tail_two xs a b in (ground (arith, length_two xs a b), rest)
