-- ===== src/Cryptoki/Slots/Laws.antt =====
-- The slots of tokens that leave and come back, in src/wp11_pkcs11.c.
use wolf_p.Prelude.{
  ℕ, zero, suc, ◌≤◌, ◌<◌, ◌≡◌, ◌≢◌, refl, sym, ◌∙◌, ap, subst, Bool, true, false, Bool-cases, none,
  some, Option-cases, List, [], ◌∷◌, length, get_or, set, arith, ◌⊎◌, inl, inr, get_or-set_self,
  get_or-set_ne, length-set,
}
use wolf_p.TokenDb.{TokenDesc, lookup}
use wolf_p.Cryptoki.State.{Slot, zero_slot, Library}
use wolf_p.Cryptoki.Sessions.{drop_sessions}
use wolf_p.Cryptoki.Slots.{find_slot, is_token, is_here, is_free, slot_add, slot_remove}
use wolf_p.Cryptoki.Slots.Table.{find_slot-some, find_slot-none, find_slot-first}

-- No two USB slots are for the same token.
abbrev pub Distinct : List Slot → Type 0
Distinct slots =
    (vid pid i j : ℕ)
    → 1 ≤ i
    → 1 ≤ j
    → is_token vid pid (get_or slots i zero_slot) ≡ true
    → is_token vid pid (get_or slots j zero_slot) ≡ true
    → i ≡ j

eq_or_ne : (a b : ℕ) → (a ≡ b) ⊎ (a ≢ b)
eq_or_ne a b = ground arith

-- A slot written back with the same token and use tests as before.
is_token-set :
    (vid pid i k : ℕ) (slots : List Slot) (s : Slot)
    → i < length slots
    → is_token vid pid s ≡ is_token vid pid (get_or slots i zero_slot)
    → is_token vid pid (get_or (set slots i s) k zero_slot)
      ≡ is_token vid pid (get_or slots k zero_slot)
is_token-set vid pid i k slots s inside same = elim (eq_or_ne i k) [
  | inl e ↦
      subst
        (λ n.
          is_token vid pid (get_or (set slots i s) n zero_slot)
          ≡ is_token vid pid (get_or slots n zero_slot))
        e (ap (is_token vid pid) (get_or-set_self slots i s zero_slot inside) ∙ same)
  | inr other ↦ ap (is_token vid pid) (get_or-set_ne slots i k s zero_slot other)
]

present-is_token :
    (vid pid : ℕ) (s : Slot) (here : Bool)
    → is_token vid pid (record s { token_present = here }) ≡ is_token vid pid s
unfolding is_token
present-is_token vid pid s here = refl

Distinct-same :
    (slots slots' : List Slot)
    → ((vid pid k : ℕ)
        → is_token vid pid (get_or slots' k zero_slot)
          ≡ is_token vid pid (get_or slots k zero_slot))
    → Distinct slots
    → Distinct slots'
Distinct-same slots slots' same d vid pid i j a b x y =
    d vid pid i j a b (sym (same vid pid i) ∙ x) (sym (same vid pid j) ∙ y)

-- The library after a departure from slot `i`.
without_token : ℕ → Library → Library
without_token i g = record g {
  slots = set g.slots i (record (get_or g.slots i zero_slot) { token_present = false });
  sessions = drop_sessions i g.sessions;
}

slot_remove-some :
    (vid pid i : ℕ) (g : Library)
    → find_slot (is_here vid pid) g.slots ≡ some i
    → slot_remove vid pid g ≡ (some i, without_token i g)
unfolding slot_remove without_token
slot_remove-some vid pid i g found = ground (arith, found)

slot_remove-none :
    (vid pid : ℕ) (g : Library)
    → find_slot (is_here vid pid) g.slots ≡ none
    → slot_remove vid pid g ≡ (none, g)
unfolding slot_remove
slot_remove-none vid pid g lost = ground (arith, lost)

slot_add_again :
    (vid pid i : ℕ) (desc : TokenDesc) (g : Library)
    → lookup vid pid ≡ some desc
    → find_slot (is_token vid pid) g.slots ≡ some i
    → (slot_add vid pid g).0 ≡ some i
unfolding slot_add
slot_add_again vid pid i desc g known found = ground (arith, known, found)

-- A departure keeps the slots distinct.
pub slot_remove-Distinct :
    (vid pid : ℕ) (g : Library) → Distinct g.slots → Distinct (slot_remove vid pid g).1.slots
unfolding without_token
slot_remove-Distinct vid pid g d = elim (Option-cases (find_slot (is_here vid pid) g.slots)) [
  | inl lost ↦ subst Distinct (sym (ap (λ r. r.1.slots) (slot_remove-none vid pid g lost))) d
  | inr (i, found) ↦
      let (low, high, hit, first) = find_slot-some (is_here vid pid) i g.slots found in
      let s = get_or g.slots i zero_slot in
      subst Distinct (sym (ap (λ r. r.1.slots) (slot_remove-some vid pid i g found))) (
        Distinct-same g.slots (set g.slots i (record s { token_present = false }))
          (λ v p k.
            is_token-set v p i k g.slots (record s { token_present = false }) high
              (present-is_token v p s false))
          d)
]

here-is_token : (vid pid : ℕ) (s : Slot) → is_here vid pid s ≡ true → is_token vid pid s ≡ true
unfolding is_here
here-is_token vid pid s h = ground arith

token_out :
    (slots : List Slot) (vid pid k : ℕ)
    → is_token vid pid (get_or slots k zero_slot) ≡ true
    → k < length slots
unfolding is_token
token_out [] vid pid k h = absurd (ground arith)
token_out (s ∷ slots) vid pid zero h = omega arith
token_out (s ∷ slots) vid pid (suc k) h = omega (arith, token_out slots vid pid k h)

-- If no two USB slots are for the same token, a token of the database that has left slot `i` gets
-- slot `i` again when it comes back.
pub slot_remove-slot_add :
    (vid pid i : ℕ) (desc : TokenDesc) (g : Library)
    → Distinct g.slots
    → lookup vid pid ≡ some desc
    → (slot_remove vid pid g).0 ≡ some i
    → (slot_add vid pid (slot_remove vid pid g).1).0 ≡ some i
unfolding without_token
slot_remove-slot_add vid pid i desc g d known gone =
    elim (Option-cases (find_slot (is_here vid pid) g.slots)) [
      | inl lost ↦
          absurd (some_ne_none (sym gone ∙ ap (λ r. r.0) (slot_remove-none vid pid g lost)))
      | inr (j, found) ↦
          let left = slot_remove-some vid pid j g found in
          let same : j ≡ i = some_injective (sym (ap (λ r. r.0) left) ∙ gone) in
          let (low, high, hit, first) = find_slot-some (is_here vid pid) j g.slots found in
          let s = get_or g.slots j zero_slot in
          let s' = record s { token_present = false } in
          let slots' = set g.slots j s' in
          let kept : (k : ℕ)
              → is_token vid pid (get_or slots' k zero_slot)
                ≡ is_token vid pid (get_or g.slots k zero_slot) =
            λ k. is_token-set vid pid j k g.slots s' high (present-is_token vid pid s false) in
          let token = here-is_token vid pid s hit in
          let again : find_slot (is_token vid pid) slots' ≡ some j =
            find_slot-first (is_token vid pid) j slots' low (rw (length-set g.slots j s') high)
              (kept j ∙ token)
              (λ k a b. elim (Bool-cases (is_token vid pid (get_or slots' k zero_slot))) [
                | inl clash ↦
                    absurd (irreflexive k j b (d vid pid k j a low (sym (kept k) ∙ clash) token))
                | inr clear ↦ clear
              ]) in
          ap (λ r. (slot_add vid pid r.1).0) left
          ∙ slot_add_again vid pid j desc (without_token j g) known again
          ∙ ap some same
    ]
  where
    irreflexive : (k j : ℕ) → k < j → k ≡ j → ⊥
    irreflexive k j b e = omega arith

    some_ne_none : {k : ℕ} → some k ≡ none → ⊥
    some_ne_none e = ground arith

    some_injective : {k j : ℕ} → some k ≡ some j → k ≡ j
    some_injective e = ground arith

-- The slot that a new token gets.
new_slot : ℕ → ℕ → TokenDesc → Slot → Slot
new_slot vid pid desc s = record s {
  in_use = true;
  token_present = true;
  usb_vid = vid;
  usb_pid = pid;
  proto = desc.proto;
}

-- The slot table after an arrival.
slot_add_slots :
    (vid pid : ℕ) (g : Library)
    → ((slot_add vid pid g).1.slots ≡ g.slots)
      ⊎ (((i : ℕ) × (find_slot (is_token vid pid) g.slots ≡ some i)
            × ((slot_add vid pid g).1.slots
                ≡ set g.slots i (record (get_or g.slots i zero_slot) { token_present = true })))
          ⊎ ((i : ℕ) × (desc : TokenDesc) × (find_slot (is_token vid pid) g.slots ≡ none)
              × (find_slot is_free g.slots ≡ some i)
              × ((slot_add vid pid g).1.slots
                  ≡ set g.slots i (new_slot vid pid desc (get_or g.slots i zero_slot)))))
unfolding slot_add new_slot
slot_add_slots vid pid g = elim (Option-cases (lookup vid pid)) [
  | inl unknown ↦ inl (ground (arith, unknown))
  | inr (desc, known) ↦ elim (Option-cases (find_slot (is_token vid pid) g.slots)) [
    | inr (i, found) ↦ inr (inl (i, found, ground (arith, known, found)))
    | inl lost ↦ elim (Option-cases (find_slot is_free g.slots)) [
      | inl full ↦ inl (ground (arith, known, lost, full))
      | inr (i, free) ↦ inr (inr (i, desc, lost, free, ground (arith, known, lost, free)))
    ]
  ]
]

new_slot-is_token :
    (vid pid v p : ℕ) (desc : TokenDesc) (s : Slot)
    → is_token v p (new_slot vid pid desc s) ≡ true
    → (v ≡ vid) × (p ≡ pid)
unfolding is_token new_slot
new_slot-is_token vid pid v p desc s h = (ground arith, ground arith)

-- A token at an index that is not the one written is the only one, if the new slot's token was in
-- no slot.
new_slot-ne :
    (vid pid v p i j : ℕ) (desc : TokenDesc) (slots : List Slot)
    → find_slot (is_token vid pid) slots ≡ none
    → is_token v p (new_slot vid pid desc (get_or slots i zero_slot)) ≡ true
    → 1 ≤ j
    → is_token v p (get_or slots j zero_slot) ≡ true
    → ⊥
new_slot-ne vid pid v p i j desc slots lost new low old =
    let (same_v, same_p) = new_slot-is_token vid pid v p desc (get_or slots i zero_slot) new in
    let clear = find_slot-none (is_token vid pid) j slots lost low (token_out slots v p j old) in
    let here : is_token vid pid (get_or slots j zero_slot) ≡ true =
      subst (λ q. is_token vid q (get_or slots j zero_slot) ≡ true) same_p
        (subst (λ w. is_token w p (get_or slots j zero_slot) ≡ true) same_v old) in
    clash (sym here ∙ clear)
  where
    clash : true ≡ false → ⊥
    clash e = ground arith

new_slot-Distinct :
    (vid pid i : ℕ) (desc : TokenDesc) (slots : List Slot)
    → find_slot (is_token vid pid) slots ≡ none
    → i < length slots
    → Distinct slots
    → Distinct (set slots i (new_slot vid pid desc (get_or slots i zero_slot)))
new_slot-Distinct vid pid i desc slots lost inside d v p a b low_a low_b x y =
    let n = new_slot vid pid desc (get_or slots i zero_slot) in
    let at : (k : ℕ) → i ≡ k → is_token v p (get_or (set slots i n) k zero_slot) ≡ is_token v p n =
      λ k e.
        ap (λ m. is_token v p (get_or (set slots i n) m zero_slot)) (sym e)
        ∙ ap (is_token v p) (get_or-set_self slots i n zero_slot inside) in
    let off : (k : ℕ)
        → i ≢ k
        → is_token v p (get_or (set slots i n) k zero_slot)
          ≡ is_token v p (get_or slots k zero_slot) =
      λ k e. ap (is_token v p) (get_or-set_ne slots i k n zero_slot e) in
    elim (eq_or_ne i a) [
      | inl same_a ↦ elim (eq_or_ne i b) [
        | inl same_b ↦ sym same_a ∙ same_b
        | inr other_b ↦ absurd (
            new_slot-ne vid pid v p i b desc slots lost (sym (at a same_a) ∙ x) low_b
              (sym (off b other_b) ∙ y))
      ]
      | inr other_a ↦ elim (eq_or_ne i b) [
        | inl same_b ↦ absurd (
            new_slot-ne vid pid v p i a desc slots lost (sym (at b same_b) ∙ y) low_a
              (sym (off a other_a) ∙ x))
        | inr other_b ↦ d v p a b low_a low_b (sym (off a other_a) ∙ x) (sym (off b other_b) ∙ y)
      ]
    ]

-- An arrival keeps the slots distinct.
pub slot_add-Distinct :
    (vid pid : ℕ) (g : Library) → Distinct g.slots → Distinct (slot_add vid pid g).1.slots
slot_add-Distinct vid pid g d = elim (slot_add_slots vid pid g) [
  | inl same ↦ subst Distinct (sym same) d
  | inr (inl (i, found, same)) ↦
      let (low, high, hit, first) = find_slot-some (is_token vid pid) i g.slots found in
      let s = get_or g.slots i zero_slot in
      subst Distinct (sym same) (
        Distinct-same g.slots (set g.slots i (record s { token_present = true }))
          (λ v p k.
            is_token-set v p i k g.slots (record s { token_present = true }) high
              (present-is_token v p s true))
          d)
  | inr (inr (i, desc, lost, free, same)) ↦
      let (low, high, hit, first) = find_slot-some is_free i g.slots free in
      subst Distinct (sym same) (new_slot-Distinct vid pid i desc g.slots lost high d)
]
