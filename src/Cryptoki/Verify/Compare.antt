-- ===== src/Cryptoki/Verify/Compare.antt =====
-- The comparison of a computed MAC with a signature in C_Verify of src/wp11_pkcs11.c, which ends no
-- sooner for the bytes that differ, and that it tells equal bytes.
use wolf_p.Prelude.{
  ℕ, zero, suc, ◌+◌, ◌*◌, ◌/◌, ◌%◌, ◌^◌, ◌<◌, ◌≡◌, refl, sym, ap, ap₂, subst, ◌∙◌, ◌&&◌, List, [],
  ◌∷◌, ◌==◌, if◌then◌else◌, get_or, drop, length, arith, ◌↔◌,
}

-- `^` and `|` on unsigned numbers of `w` bits.
unfoldable pub bit_xor : ℕ → ℕ → ℕ → ℕ
bit_xor zero a b = 0
bit_xor (suc w) a b = (a % 2 + b % 2) % 2 + 2 * bit_xor w (a / 2) (b / 2)

unfoldable pub bit_or : ℕ → ℕ → ℕ → ℕ
bit_or zero a b = 0
bit_or (suc w) a b = (if a % 2 == 0 && b % 2 == 0 then 0 else 1) + 2 * bit_or w (a / 2) (b / 2)

-- The loop over the bytes of the signature.
unfoldable pub differing : ℕ → List ℕ → List ℕ → ℕ
differing neq computed [] = neq
differing neq computed (b ∷ sig) =
    differing (bit_or 8 neq (bit_xor 8 (get_or computed 0 0) b)) (drop 1 computed) sig

pow-suc : (w : ℕ) → 2 ^ suc w ≡ 2 * 2 ^ w
pow-suc w = omega arith

bit_xor-zero : (w a b : ℕ) → a < 2 ^ w → b < 2 ^ w → bit_xor w a b ≡ 0 → a ≡ b
unfolding bit_xor
bit_xor-zero zero a b la lb e = omega arith
bit_xor-zero (suc w) a b la lb e =
    let p = pow-suc w in
    let rest = bit_xor-zero w (a / 2) (b / 2) (omega (arith, p)) (omega (arith, p)) (omega arith) in
    omega (arith, p, rest)

bit_xor-same : (w a : ℕ) → bit_xor w a a ≡ 0
unfolding bit_xor
bit_xor-same zero a = refl
bit_xor-same (suc w) a = let rest = bit_xor-same w (a / 2) in omega (arith, rest)

bit_or-zero : (w a b : ℕ) → a < 2 ^ w → b < 2 ^ w → bit_or w a b ≡ 0 → (a ≡ 0) × (b ≡ 0)
unfolding bit_or
bit_or-zero zero a b la lb e = (omega arith, omega arith)
bit_or-zero (suc w) a b la lb e =
    let p = pow-suc w in
    let even : (a % 2 ≡ 0) × (b % 2 ≡ 0) = (ground arith, ground arith) in
    let rest = bit_or-zero w (a / 2) (b / 2) (omega (arith, p)) (omega (arith, p)) (ground arith) in
    (omega (arith, even.0, rest.0), omega (arith, even.1, rest.1))

bit_or-nothing : (w : ℕ) → bit_or w 0 0 ≡ 0
unfolding bit_or
bit_or-nothing zero = refl
bit_or-nothing (suc w) = let rest = bit_or-nothing w in ground (arith, rest)

bit_or-small : (w a b : ℕ) → bit_or w a b < 2 ^ w
unfolding bit_or
bit_or-small zero a b = omega arith
bit_or-small (suc w) a b =
    let p = pow-suc w in let rest = bit_or-small w (a / 2) (b / 2) in ground (arith, p, rest)

bit_xor-small : (w a b : ℕ) → bit_xor w a b < 2 ^ w
unfolding bit_xor
bit_xor-small zero a b = omega arith
bit_xor-small (suc w) a b =
    let p = pow-suc w in let rest = bit_xor-small w (a / 2) (b / 2) in omega (arith, p, rest)

-- Bytes.
abbrev pub AllBytes : List ℕ → Type 0
AllBytes [] = Unit {0}
AllBytes (b ∷ bs) = (b < 256) × AllBytes bs

differing-zero :
    (neq : ℕ) (computed sig : List ℕ)
    → neq < 256
    → AllBytes computed
    → AllBytes sig
    → length computed ≡ length sig
    → differing neq computed sig ≡ 0
    → (neq ≡ 0) × (computed ≡ sig)
unfolding differing
differing-zero neq [] [] small c s same e = (e, refl)
differing-zero neq [] (b ∷ sig) small c s same e = absurd (omega arith)
differing-zero neq (a ∷ computed) [] small c s same e = absurd (omega arith)
differing-zero neq (a ∷ computed) (b ∷ sig) small (la, c) (lb, s) same e =
    let (none_yet, rest) =
      differing-zero (bit_or 8 neq (bit_xor 8 a b)) computed sig
        (bit_or-small 8 neq (bit_xor 8 a b)) c s (omega arith) e in
    let (before, here) = bit_or-zero 8 neq (bit_xor 8 a b) small (bit_xor-small 8 a b) none_yet in
    (before, ap₂ (λ x xs. x ∷ xs) (bit_xor-zero 8 a b la lb here) rest)

pub differing-same : (sig : List ℕ) → differing 0 sig sig ≡ 0
unfolding differing
differing-same [] = refl
differing-same (b ∷ sig) =
    ap (λ n. differing n sig sig) (ap (bit_or 8 0) (bit_xor-same 8 b) ∙ bit_or-nothing 8)
    ∙ differing-same sig

-- The comparison tells equal byte strings of one length.
pub differing_iff :
    (computed sig : List ℕ)
    → AllBytes computed
    → AllBytes sig
    → length computed ≡ length sig
    → (differing 0 computed sig ≡ 0) ↔ (computed ≡ sig)
differing_iff computed sig c s same = (
  (λ e. (differing-zero 0 computed sig (omega arith) c s same e).1),
  (λ e. subst (λ x. differing 0 x sig ≡ 0) (sym e) (differing-same sig)),
)
