-- ===== src/Cryptoki/Hotplug/Laws.antt =====
-- The ring of hotplug events of src/wp11_pkcs11.c against an abstract queue.
use wolf_p.Prelude.{
  ℕ, suc, ◌+◌, ◌-◌, ◌%◌, ◌^◌, ◌≤◌, ◌<◌, ◌≡◌, ◌≢◌, refl, sym, ◌∙◌, ap, true, List, [], ◌∷◌, ◌++◌,
  ltb, if◌then◌else◌, length, get_or, set, length-set, arith, Result, ok, err, ◌⊎◌, inl, inr,
}
use wolf_p.Cryptoki.Hotplug.{
  Event, no_slot, Ring, queue_size, push_event, wait_for_slot_event, WaitErr, no_event,
}
use wolf_p.Cryptoki.Hotplug.Events.{events, length-events, events-set}

-- How many events are queued, and which, the oldest first.
unfoldable pub count : Ring → ℕ
count r = (r.tail + queue_size - r.head) % queue_size

unfoldable pub pending : Ring → List Event
unfolding count
pending r = events r.queue (count r) r.head

-- A ring with its mutex in order and its indices in range.
unfoldable pub IsRing : Ring → Type 0
IsRing r =
    (r.ready ≡ true)
    × (r.lock_ok ≡ true)
    × (r.head < queue_size)
    × (r.tail < queue_size)
    × (length r.queue ≡ queue_size)

eq_or_ne : (a b : ℕ) → (a ≡ b) ⊎ (a ≢ b)
eq_or_ne a b = ground arith

-- The abstract queue: the events, the oldest first, and the number of those dropped.
pub record Queue : Type 0 where
  pub items : List Event
  pub lost : ℕ

-- It keeps 63 events.
unfoldable pub enqueue : Event → Queue → Queue
enqueue ev q =
    if ltb (length q.items) 63
    then record q { items = q.items ++ (ev ∷ []) }
    else record q { lost = (q.lost + 1) % 2 ^ 32 }

unfoldable pub dequeue : Queue → Result WaitErr ℕ × Queue
dequeue q = elim q.items [
  | [] ↦ (err no_event, q)
  | ev ∷ items ↦ (ok ev.slot_id, record q { items = items })
]

unfoldable pub view : Ring → Queue
view r = record { items = pending r; lost = r.dropped }

pub push_event-IsRing : (ev : Event) (r : Ring) → IsRing r → IsRing (push_event ev r)
unfolding IsRing push_event
push_event-IsRing ev r (ready, lock_ok, h, t, size) =
    ground (arith, ready, lock_ok, length-set r.queue r.tail ev, size)

-- The two ways to push: with the tail right behind the head, and otherwise.
push_room :
    (ev : Event) (r : Ring)
    → r.ready ≡ true
    → r.lock_ok ≡ true
    → (r.tail + 1) % queue_size ≢ r.head
    → push_event ev r ≡ record r { queue = set r.queue r.tail ev; tail = (r.tail + 1) % queue_size }
unfolding push_event
push_room ev r ready lock_ok room = ground arith

push_full :
    (ev : Event) (r : Ring)
    → r.ready ≡ true
    → r.lock_ok ≡ true
    → (r.tail + 1) % queue_size ≡ r.head
    → push_event ev r ≡ record r { dropped = (r.dropped + 1) % 2 ^ 32 }
unfolding push_event
push_full ev r ready lock_ok full = ground arith

enqueue_room :
    (ev : Event) (q : Queue)
    → length q.items < 63
    → enqueue ev q ≡ record q { items = q.items ++ (ev ∷ []) }
unfolding enqueue
enqueue_room ev q room = ground arith

enqueue_full :
    (ev : Event) (q : Queue)
    → 63 ≤ length q.items
    → enqueue ev q ≡ record q { lost = (q.lost + 1) % 2 ^ 32 }
unfolding enqueue
enqueue_full ev q full = ground arith

length-pending : (r : Ring) → length (pending r) ≡ (r.tail + queue_size - r.head) % queue_size
unfolding pending count
length-pending r = length-events r.queue (count r) r.head

pending-push :
    (ev : Event) (r : Ring)
    → IsRing r
    → (r.tail + 1) % queue_size ≢ r.head
    → pending (record r { queue = set r.queue r.tail ev; tail = (r.tail + 1) % queue_size })
      ≡ pending r ++ (ev ∷ [])
unfolding IsRing pending count
pending-push ev r (ready, lock_ok, h, t, size) room =
    let more : ((r.tail + 1) % queue_size + queue_size - r.head) % queue_size
        ≡ suc ((r.tail + queue_size - r.head) % queue_size) =
      omega (arith, room) in
    ap (λ n. events (set r.queue r.tail ev) n r.head) more
    ∙ events-set r.queue (count r) r.head r.tail ev h t refl size

pub view-push_event :
    (ev : Event) (r : Ring) → IsRing r → view (push_event ev r) ≡ enqueue ev (view r)
unfolding IsRing view enqueue pending
view-push_event ev r (ready, lock_ok, h, t, size) =
    elim (eq_or_ne ((r.tail + 1) % queue_size) r.head) [
      | inl full ↦
          ap view (push_full ev r ready lock_ok full)
          ∙ sym (enqueue_full ev (view r) (omega (arith, length-pending r)))
      | inr room ↦
          ap view (push_room ev r ready lock_ok room)
          ∙ ap (λ l. record { items = l; lost = r.dropped })
              (pending-push ev r (ready, lock_ok, h, t, size) room)
          ∙ sym (enqueue_room ev (view r) (omega (arith, room, length-pending r)))
    ]

pub wait-IsRing : (r : Ring) → IsRing r → IsRing (wait_for_slot_event true true r).1
unfolding IsRing wait_for_slot_event
wait-IsRing r (ready, lock_ok, h, t, size) = ground (arith, ready, lock_ok, h, t, size)

-- The two ways to wait.
wait_some :
    (r : Ring)
    → r.ready ≡ true
    → r.lock_ok ≡ true
    → r.head ≢ r.tail
    → wait_for_slot_event true true r
      ≡ (ok (get_or r.queue r.head no_slot).slot_id, record r { head = (r.head + 1) % queue_size })
unfolding wait_for_slot_event
wait_some r ready lock_ok more = ground arith

wait_none :
    (r : Ring)
    → r.ready ≡ true
    → r.lock_ok ≡ true
    → r.head ≡ r.tail
    → wait_for_slot_event true true r ≡ (err no_event, r)
unfolding wait_for_slot_event
wait_none r ready lock_ok empty = ground arith

pending_none : (r : Ring) → r.head < queue_size → r.head ≡ r.tail → pending r ≡ []
unfolding pending count events
pending_none r h empty =
    let none_left : (r.tail + queue_size - r.head) % queue_size ≡ 0 = omega arith in
    ap (λ n. events r.queue n r.head) none_left

pending_some :
    (r : Ring)
    → IsRing r
    → r.head ≢ r.tail
    → pending r
      ≡ get_or r.queue r.head no_slot ∷ pending (record r { head = (r.head + 1) % queue_size })
unfolding IsRing pending count events
pending_some r (ready, lock_ok, h, t, size) more =
    let one_left : (r.tail + queue_size - r.head) % queue_size
        ≡ suc ((r.tail + queue_size - (r.head + 1) % queue_size) % queue_size) =
      omega (arith, more) in
    ap (λ n. events r.queue n r.head) one_left

dequeue_none : (q : Queue) → q.items ≡ [] → dequeue q ≡ (err no_event, q)
unfolding dequeue
dequeue_none q empty = ground (arith, empty)

dequeue_some :
    (q : Queue) (ev : Event) (items : List Event)
    → q.items ≡ ev ∷ items
    → dequeue q ≡ (ok ev.slot_id, record q { items = items })
unfolding dequeue
dequeue_some q ev items more = ground (arith, more)

pub view-wait :
    (r : Ring)
    → IsRing r
    → ((wait_for_slot_event true true r).0 ≡ (dequeue (view r)).0)
      × (view (wait_for_slot_event true true r).1 ≡ (dequeue (view r)).1)
unfolding IsRing view
view-wait r (ready, lock_ok, h, t, size) = elim (eq_or_ne r.head r.tail) [
  | inl empty ↦
      let left = wait_none r ready lock_ok empty in
      let right = dequeue_none (view r) (pending_none r h empty) in
      (
        ap (λ p. p.0) left ∙ sym (ap (λ p. p.0) right),
        ap (λ p. view p.1) left ∙ sym (ap (λ p. p.1) right),
      )
  | inr more ↦
      let left = wait_some r ready lock_ok more in
      let right =
        dequeue_some (view r) (get_or r.queue r.head no_slot)
          (pending (record r { head = (r.head + 1) % queue_size }))
          (pending_some r (ready, lock_ok, h, t, size) more) in
      (
        ap (λ p. p.0) left ∙ sym (ap (λ p. p.0) right),
        ap (λ p. view p.1) left ∙ sym (ap (λ p. p.1) right),
      )
]
