-- ===== src/Cryptoki/Find/Laws.antt =====
-- The search loop of C_FindObjects against the list of all matching handles.
use wolf_p.Prelude.{
  ℕ, zero, suc, ◌+◌, ◌-◌, ◌≤◌, ◌<◌, ◌≡◌, refl, ap, Bool, Bool-cases, List, [], ◌∷◌, ◌++◌,
  if◌then◌else◌, length, arith, inl, inr,
}
use wolf_p.Cryptoki.Find.{find_loop}

-- The handles of the entries from `pos` on, of `n` entries, that pass a test.
unfoldable pub matching : (ℕ → Bool) → ℕ → ℕ → List ℕ
matching found zero pos = []
matching found (suc n) pos =
    let rest = matching found n (pos + 1) in if found pos then (pos + 1) ∷ rest else rest

pub length-matching : (found : ℕ → Bool) (n pos : ℕ) → length (matching found n pos) ≤ n
unfolding matching
length-matching found zero pos = omega arith
length-matching found (suc n) pos = ground (arith, length-matching found n (pos + 1))

-- The loop stops within the table; what it found goes before what is left; and it stops early only
-- with all the room used.
pub find_loop-matching :
    (found : ℕ → Bool) (n pos room : ℕ)
    → let r = find_loop found n pos room in
      (pos ≤ r.1)
      × (r.1 ≤ pos + n)
      × (length r.0 ≤ room)
      × (length r.0 < room → r.1 ≡ pos + n)
      × (matching found n pos ≡ r.0 ++ matching found (pos + n - r.1) r.1)
unfolding find_loop matching
find_loop-matching found zero pos room =
    (omega arith, omega arith, omega arith, λ h. omega arith, ground arith)
find_loop-matching found (suc n) pos zero =
    let left : pos + suc n - pos ≡ suc n = omega arith in
    (omega arith, omega arith, omega arith, λ h. absurd (omega arith), rw left refl)
find_loop-matching found (suc n) pos (suc room) = elim (Bool-cases (found pos)) [
  | inl hit ↦
      let (a, b, c, d, e) = find_loop-matching found n (pos + 1) room in
      let shift : pos + 1 + n ≡ pos + suc n = omega arith in
      rw hit (
        omega arith,
        omega arith,
        omega arith,
        λ h. omega (arith, d (omega arith)),
        ap (λ l. (pos + 1) ∷ l) (rw (← shift) e),
      )
  | inr miss ↦
      let (a, b, c, d, e) = find_loop-matching found n (pos + 1) (suc room) in
      let shift : pos + 1 + n ≡ pos + suc n = omega arith in
      rw miss (omega arith, omega arith, c, λ h. omega (arith, d h), rw (← shift) e)
]
