-- ===== src/Ccid/Codec.antt =====
-- The little-endian length field of src/wp11_ccid.c.
use wolf_p.Prelude.{ℕ, ◌^◌, ◌<◌, ◌≡◌, List, [], ◌∷◌, ◌++◌, arith}
use wolf_p.Ccid.{put_u32le, get_u32le}

-- Reading back a written length gives the length, whatever follows it in the buffer, for every
-- 32-bit value.
pub get_u32le-put_u32le : (v : ℕ) (rest : List ℕ) → v < 2 ^ 32 → get_u32le (put_u32le v ++ rest) ≡ v
unfolding get_u32le put_u32le
get_u32le-put_u32le v rest h = omega arith

pub put_u32le-get_u32le :
    (a b c d : ℕ) (rest : List ℕ)
    → a < 256
    → b < 256
    → c < 256
    → d < 256
    → put_u32le (get_u32le (a ∷ b ∷ c ∷ d ∷ rest)) ≡ a ∷ b ∷ c ∷ d ∷ []
unfolding get_u32le put_u32le
put_u32le-get_u32le a b c d rest ha hb hc hd = ground arith
