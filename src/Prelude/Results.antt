-- ===== src/Prelude/Results.antt =====
-- A C return code together with what the call writes through its output pointers: `ok` is code 0,
-- `err` a negative code. Calls that also change a state return the new state beside the result.
use mathlib.Core.Path.{◌≡◌, refl}
use mathlib.Core.Logic.{◌⊎◌, inl, inr}
use mathlib.Core.Option.{Option, none, some}

pub data Result (E A : Type 0) : Type 0 where
  ok : A → Result E A
  err : E → Result E A

abbrev pub bind : {E A B : Type 0} → Result E A → (A → Result E B) → Result E B
bind (ok a) f = f a
bind (err e) f = err e

-- A call over a state `S`.
abbrev pub Call : Type 0 → Type 0 → Type 0 → Type 0
Call S E A = S → Result E A × S

-- The next call runs only after a success.
abbrev pub then_do : {S E A B : Type 0} → Result E A × S → (A → Call S E B) → Result E B × S
then_do (ok a, s) f = f a s
then_do (err e, s) f = (err e, s)

infixl 5 ◌>>=◌
abbrev pub ◌>>=◌ : {S E A B : Type 0} → Call S E A → (A → Call S E B) → Call S E B
◌>>=◌ m f s = then_do (m s) f

-- A step that reads no state.
abbrev pub lift : {S E A : Type 0} → Result E A → Call S E A
lift r s = (r, s)

pub Result-cases :
    {E A : Type 0} (r : Result E A) → ((a : A) × (r ≡ ok a)) ⊎ ((e : E) × (r ≡ err e))
Result-cases (ok a) = inl (a, refl)
Result-cases (err e) = inr (e, refl)

-- A call with a loop on fuel in it: `none` means that the fuel ran out.
abbrev pub Loop : Type 0 → Type 0 → Type 0 → Type 0
Loop S E A = S → Option (Result E A) × S

abbrev pub loop_after :
    {S E A B : Type 0} → Result E A × S → (A → Loop S E B) → Option (Result E B) × S
loop_after (ok a, s) f = f a s
loop_after (err e, s) f = (some (err e), s)

-- A loop behind a call, which runs only after a success.
infixl 5 ◌>=>◌
abbrev pub ◌>=>◌ : {S E A B : Type 0} → Call S E A → (A → Loop S E B) → Loop S E B
◌>=>◌ m f s = loop_after (m s) f

-- What follows a loop.
infixl 5 ◌>->◌
abbrev pub ◌>->◌ : {S E A B : Type 0} → Loop S E A → (A → Result E B) → Loop S E B
◌>->◌ m f s = let (r, s') = m s in (elim r [ none ↦ none | some a ↦ some (bind a f) ], s')
