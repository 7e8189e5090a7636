-- ===== src/Cryptoki/Slots/Table.antt =====
-- The loops over the slot table of src/wp11_pkcs11.c.
use wolf_p.Prelude.{
  ℕ, zero, suc, ◌+◌, ◌-◌, ◌≤◌, ◌<◌, ◌≡◌, sym, ◌∙◌, ap, subst, Bool, true, false, Bool-cases, none,
  some, Option-cases, List, [], ◌∷◌, length, get_or, arith, ◌⊎◌, inl, inr,
}
use wolf_p.Cryptoki.State.{Slot, zero_slot}
use wolf_p.Cryptoki.Slots.{find_from, find_slot}

-- What a loop finds is the first entry that passes.
pub find_from-some :
    (p : Slot → Bool) (i j : ℕ) (slots : List Slot)
    → find_from p i slots ≡ some j
    → (i ≤ j)
      × (j < i + length slots)
      × (p (get_or slots (j - i) zero_slot) ≡ true)
      × ((k : ℕ) → i ≤ k → k < j → p (get_or slots (k - i) zero_slot) ≡ false)
unfolding find_from
find_from-some p i j [] e = absurd (ground arith)
find_from-some p i j (s ∷ slots) e = elim (Bool-cases (p s)) [
  | inl hit ↦
      let same : i ≡ j = ground arith in
      let none_off : j - i ≡ 0 = omega arith in
      (omega arith, omega arith, rw none_off hit, λ k low high. absurd (omega arith))
  | inr miss ↦
      let (low, high, found, first) = find_from-some p (i + 1) j slots (ground (arith, miss, e)) in
      let off : j - i ≡ suc (j - (i + 1)) = omega arith in
      (
        omega arith,
        omega arith,
        rw off found,
        λ k a b. elim (eq_or_gt i k a) [
          | inl same ↦ let z : k - i ≡ 0 = omega arith in rw z miss
          | inr more ↦ let z : k - i ≡ suc (k - (i + 1)) = omega arith in rw z (first k more b)
        ],
      )
]
  where
    eq_or_gt : (i k : ℕ) → i ≤ k → (i ≡ k) ⊎ (i + 1 ≤ k)
    eq_or_gt i k a = ground arith

pub find_from-none :
    (p : Slot → Bool) (i k : ℕ) (slots : List Slot)
    → find_from p i slots ≡ none
    → k < length slots
    → p (get_or slots k zero_slot) ≡ false
unfolding find_from
find_from-none p i k [] e h = absurd (omega arith)
find_from-none p i zero (s ∷ slots) e h = ground arith
find_from-none p i (suc k) (s ∷ slots) e h =
    find_from-none p (i + 1) k slots (ground arith) (omega arith)

pub find_slot-some :
    (p : Slot → Bool) (j : ℕ) (slots : List Slot)
    → find_slot p slots ≡ some j
    → (1 ≤ j)
      × (j < length slots)
      × (p (get_or slots j zero_slot) ≡ true)
      × ((k : ℕ) → 1 ≤ k → k < j → p (get_or slots k zero_slot) ≡ false)
unfolding find_slot
find_slot-some p j [] e = absurd (ground arith)
find_slot-some p j (s ∷ slots) e =
    let (low, high, found, first) = find_from-some p 1 j slots e in
    let off : j ≡ suc (j - 1) = omega arith in
    (
      low,
      omega arith,
      subst (λ n. p (get_or (s ∷ slots) n zero_slot) ≡ true) (sym off) found,
      λ k a b.
          let z : k ≡ suc (k - 1) = omega arith in
          subst (λ n. p (get_or (s ∷ slots) n zero_slot) ≡ false) (sym z) (first k a b),
    )

pub find_slot-none :
    (p : Slot → Bool) (k : ℕ) (slots : List Slot)
    → find_slot p slots ≡ none
    → 1 ≤ k
    → k < length slots
    → p (get_or slots k zero_slot) ≡ false
unfolding find_slot
find_slot-none p k [] e a b = absurd (omega arith)
find_slot-none p zero (s ∷ slots) e a b = absurd (omega arith)
find_slot-none p (suc k) (s ∷ slots) e a b = find_from-none p 1 k slots e (omega arith)

-- A loop finds the entry that passes when no earlier one does.
pub find_slot-first :
    (p : Slot → Bool) (j : ℕ) (slots : List Slot)
    → 1 ≤ j
    → j < length slots
    → p (get_or slots j zero_slot) ≡ true
    → ((k : ℕ) → 1 ≤ k → k < j → p (get_or slots k zero_slot) ≡ false)
    → find_slot p slots ≡ some j
find_slot-first p j slots low high found first = elim (Option-cases (find_slot p slots)) [
  | inl lost ↦ absurd (true_ne_false (sym found ∙ find_slot-none p j slots lost low high))
  | inr (i, e) ↦
      let (low', high', found', first') = find_slot-some p i slots e in
      elim (cases i j) [
        | inl same ↦ e ∙ ap some same
        | inr (inl less) ↦ absurd (true_ne_false (sym found' ∙ first i low' less))
        | inr (inr more) ↦ absurd (true_ne_false (sym found ∙ first' j low more))
      ]
]
  where
    true_ne_false : true ≡ false → ⊥
    true_ne_false e = ground arith

    cases : (i j : ℕ) → (i ≡ j) ⊎ ((i < j) ⊎ (j < i))
    cases i j = ground arith
