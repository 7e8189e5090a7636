-- ===== src/Cryptoki/Hotplug/Traces.antt =====
-- Sequences of hotplug pushes and polls in src/wp11_pkcs11.c.
use wolf_p.Prelude.{ℕ, ◌≡◌, refl, ◌∙◌, ap, ap₂, true, List, [], ◌∷◌, Result, ◌⊎◌, inl, inr}
use wolf_p.Cryptoki.Hotplug.{Event, Ring, push_event, wait_for_slot_event, WaitErr}
use wolf_p.Cryptoki.Hotplug.Laws.{
  IsRing, Queue, enqueue, dequeue, view, push_event-IsRing, view-push_event, wait-IsRing, view-wait,
}

-- A sequence of pushes (`inl`) and of polls (`inr`), with the results of the polls.
unfoldable pub run : List (Event ⊎ Unit {0}) → Ring → List (Result WaitErr ℕ)
run [] r = []
run (inl ev ∷ ops) r = run ops (push_event ev r)
run (inr tt ∷ ops) r =
    (wait_for_slot_event true true r).0 ∷ run ops (wait_for_slot_event true true r).1

unfoldable pub run_queue : List (Event ⊎ Unit {0}) → Queue → List (Result WaitErr ℕ)
run_queue [] q = []
run_queue (inl ev ∷ ops) q = run_queue ops (enqueue ev q)
run_queue (inr tt ∷ ops) q = (dequeue q).0 ∷ run_queue ops (dequeue q).1

-- Whatever is pushed and polled, in whatever order, the polls of a ring with its mutex in order
-- and its indices in range return what those of the abstract queue of 63 events return that
-- starts with the ring's pending events and drop counter.
pub run-run_queue :
    (ops : List (Event ⊎ Unit {0})) (r : Ring) → IsRing r → run ops r ≡ run_queue ops (view r)
unfolding run run_queue
run-run_queue [] r good = refl
run-run_queue (inl ev ∷ ops) r good =
    run-run_queue ops (push_event ev r) (push_event-IsRing ev r good)
    ∙ ap (run_queue ops) (view-push_event ev r good)
run-run_queue (inr tt ∷ ops) r good =
    let (same, next) = view-wait r good in
    ap₂ (λ x xs. x ∷ xs) same
      (run-run_queue ops (wait_for_slot_event true true r).1 (wait-IsRing r good)
        ∙ ap (run_queue ops) next)
