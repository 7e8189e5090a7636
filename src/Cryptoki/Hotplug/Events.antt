-- ===== src/Cryptoki/Hotplug/Events.antt =====
-- The events of the hotplug ring, src/wp11_pkcs11.c, read around the end of its array.
use wolf_p.Prelude.{
  ℕ, zero, suc, ◌+◌, ◌-◌, ◌%◌, ◌≤◌, ◌<◌, ◌≡◌, refl, ◌∙◌, ap, ap₂, List, [], ◌∷◌, ◌++◌, length,
  get_or, set, get_or-set_self, get_or-set_ne, arith,
}
use wolf_p.Cryptoki.Hotplug.{Event, no_slot, queue_size}

-- The `n` events from an index on, around the end of the array.
unfoldable pub events : List Event → ℕ → ℕ → List Event
events q zero i = []
events q (suc n) i = get_or q i no_slot ∷ events q n ((i + 1) % queue_size)

pub length-events : (q : List Event) (n i : ℕ) → length (events q n i) ≡ n
unfolding events
length-events q zero i = refl
length-events q (suc n) i = ap suc (length-events q n ((i + 1) % queue_size))

events-set_ne :
    (q : List Event) (n i t : ℕ) (ev : Event)
    → i < queue_size
    → t < queue_size
    → n ≤ (t + queue_size - i) % queue_size
    → events (set q t ev) n i ≡ events q n i
unfolding events
events-set_ne q zero i t ev inside low off = refl
events-set_ne q (suc n) i t ev inside low off =
    ap₂ (λ x xs. x ∷ xs) (get_or-set_ne q t i ev no_slot (λ e. absurd (omega arith)))
      (events-set_ne q n ((i + 1) % queue_size) t ev (omega arith) low (omega arith))

events-snoc :
    (q : List Event) (n i : ℕ)
    → i < queue_size
    → events q (suc n) i ≡ events q n i ++ (get_or q ((i + n) % queue_size) no_slot ∷ [])
unfolding events
events-snoc q zero i inside =
    let same : i ≡ (i + 0) % queue_size = omega arith in ap (λ k. get_or q k no_slot ∷ []) same
events-snoc q (suc n) i inside =
    let same : ((i + 1) % queue_size + n) % queue_size ≡ (i + suc n) % queue_size = omega arith in
    ap (λ l. get_or q i no_slot ∷ l)
      (events-snoc q n ((i + 1) % queue_size) (omega arith)
        ∙ ap (λ k. events q n ((i + 1) % queue_size) ++ (get_or q k no_slot ∷ [])) same)

-- A write at the tail extends the events before it.
pub events-set :
    (q : List Event) (n i t : ℕ) (ev : Event)
    → i < queue_size
    → t < queue_size
    → n ≡ (t + queue_size - i) % queue_size
    → length q ≡ queue_size
    → events (set q t ev) (suc n) i ≡ events q n i ++ (ev ∷ [])
events-set q n i t ev inside low here size =
    let at : (i + n) % queue_size ≡ t = omega arith in
    events-snoc (set q t ev) n i inside
    ∙ ap₂ (λ l x. l ++ (x ∷ [])) (events-set_ne q n i t ev inside low (omega arith))
        (ap (λ k. get_or (set q t ev) k no_slot) at ∙ get_or-set_self q t ev no_slot (omega arith))
