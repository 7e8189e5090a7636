-- ===== src/Prelude/Tail.antt =====
-- The last two bytes of a buffer, where a card puts its status word.
use Prim.Native.Nat.{ℕ, suc, ◌-◌, ◌≤◌}
use mathlib.Core.Path.{◌≡◌, refl, ap}
use mathlib.Core.List.{List, [], ◌∷◌, ◌++◌}
use native.Mathlib.Omega.{arith}
use wolf_p.Prelude.Lists.{length, get_or, take, length-append, take-length-append}

pub last_two :
    (xs : List ℕ) (a b : ℕ)
    → (get_or (xs ++ (a ∷ b ∷ [])) (length xs) 0 ≡ a)
      × (get_or (xs ++ (a ∷ b ∷ [])) (suc (length xs)) 0 ≡ b)
last_two [] a b = (refl, refl)
last_two (x ∷ xs) a b = last_two xs a b

pub length_two : (xs : List ℕ) (a b : ℕ) → length (xs ++ (a ∷ b ∷ [])) ≡ suc (suc (length xs))
length_two xs a b = omega (arith, length-append xs (a ∷ b ∷ []))

-- The same as the C code indexes them.
pub tail_two :
    (xs : List ℕ) (a b : ℕ)
    → let buf = xs ++ (a ∷ b ∷ []) in
      (get_or buf (length buf - 2) 0 ≡ a)
      × (get_or buf (length buf - 1) 0 ≡ b)
      × (take (length buf - 2) buf ≡ xs)
tail_two xs a b =
    let buf = xs ++ (a ∷ b ∷ []) in
    let two : length buf - 2 ≡ length xs = omega (arith, length_two xs a b) in
    let one : length buf - 1 ≡ suc (length xs) = omega (arith, length_two xs a b) in
    (
      rw two (last_two xs a b).0,
      rw one (last_two xs a b).1,
      rw two (take-length-append xs (a ∷ b ∷ [])),
    )

pub split_two :
    (buf : List ℕ) → 2 ≤ length buf → (xs : List ℕ) × (a : ℕ) × (b : ℕ) × (buf ≡ xs ++ (a ∷ b ∷ []))
split_two [] h = absurd (omega arith)
split_two (x ∷ []) h = absurd (omega arith)
split_two (x ∷ y ∷ []) h = ([], x, y, refl)
split_two (x ∷ y ∷ z ∷ rest) h =
    let (xs, a, b, e) = split_two (y ∷ z ∷ rest) (omega arith) in (x ∷ xs, a, b, ap (λ l. x ∷ l) e)
