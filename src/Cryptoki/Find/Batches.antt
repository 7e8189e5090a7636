-- ===== src/Cryptoki/Find/Batches.antt =====
-- A whole search with C_FindObjectsInit and calls of C_FindObjects.
use wolf_p.Prelude.{
  ℕ, ◌+◌, ◌-◌, ◌≤◌, ◌<◌, ◌≡◌, refl, sym, ◌∙◌, ap, true, Option, some, Option-cases, List, [], ◌∷◌,
  ◌++◌, length, length-append, get_or, set, get_or-set_self, length-set, arith, ok, inl, inr, Call,
  ◌>>=◌, lift, subst, ◌⊎◌,
}
use wolf_p.Cryptoki.State.{Ckr, Session, zero_session, Library, max_keys, max_sessions, session_get}
use wolf_p.Cryptoki.Find.{
  found_at, find_loop, find_objects, find_objects_init, put_session, copy_template,
}
use wolf_p.Cryptoki.Find.Laws.{matching, length-matching, find_loop-matching}

-- All handles of a session's slot that match its template, in order.
unfoldable pub all_matching : Library → Session → List ℕ
all_matching g s = matching (found_at g.keys s.slot_id s.find_tmpl) max_keys 0

-- The handles that a session's search has still to return.
unfoldable pub remaining : Library → Session → List ℕ
remaining g s = matching (found_at g.keys s.slot_id s.find_tmpl) (max_keys - s.find_pos) s.find_pos

-- The session of a handle, in a search that is running.
unfoldable pub IsSearching : Library → ℕ → Session → Type 0
IsSearching g h s =
    (g.lock_ok ≡ true)
    × (g.initialized ≡ true)
    × (session_get g.sessions h ≡ some s)
    × (s.find_active ≡ true)
    × (s.find_pos ≤ max_keys)
    × (length g.sessions ≡ max_sessions)

pub session_get_put :
    (g : Library) (h : ℕ) (s s' : Session)
    → session_get g.sessions h ≡ some s
    → length g.sessions ≡ max_sessions
    → s'.in_use ≡ true
    → session_get (put_session g h s').sessions h ≡ some s'
unfolding session_get put_session
session_get_put g h s s' known size used =
    let put : get_or (set g.sessions (h - 1) s') (h - 1) zero_session ≡ s' =
      get_or-set_self g.sessions (h - 1) s' zero_session (ground arith) in
    ground (arith, put)

pub session_get-in_use :
    (ss : List Session) (h : ℕ) (s : Session) → session_get ss h ≡ some s → s.in_use ≡ true
unfolding session_get
session_get-in_use ss h s known = ground arith

find_objects-IsSearching :
    (g : Library) (h max : ℕ) (s : Session)
    → IsSearching g h s
    → let r =
        find_loop (found_at g.keys s.slot_id s.find_tmpl) (max_keys - s.find_pos) s.find_pos max in
      find_objects h max true g ≡ (ok r.0, put_session g h (record s { find_pos = r.1 }))
unfolding IsSearching find_objects
find_objects-IsSearching g h max s (lock_ok, init, known, active, pos_ok, size) =
    ground (arith, lock_ok, init, known, active)

put-IsSearching :
    (g : Library) (h p : ℕ) (s : Session)
    → p ≤ max_keys
    → IsSearching g h s
    → IsSearching (put_session g h (record s { find_pos = p })) h (record s { find_pos = p })
unfolding IsSearching put_session
put-IsSearching g h p s upto (lock_ok, init, known, active, pos_ok, size) =
    let s' = record s { find_pos = p } in
    (
      lock_ok,
      init,
      session_get_put g h s s' known size (session_get-in_use g.sessions h s known),
      active,
      upto,
      length-set g.sessions (h - 1) s' ∙ size,
    )

-- One call returns a first part of what was left, and leaves the rest; it stops before its room is
-- used only at the end of the table.
pub find_objects-remaining :
    (g : Library) (h max : ℕ) (s : Session)
    → IsSearching g h s
    → (hs : List ℕ) × (s' : Session) × (g' : Library) × (find_objects h max true g ≡ (ok hs, g'))
      × IsSearching g' h s'
      × (length hs ≤ max)
      × (remaining g s ≡ hs ++ remaining g' s')
      × (length hs < max → s'.find_pos ≡ max_keys)
unfolding remaining put_session IsSearching
find_objects-remaining g h max s running =
    let found = found_at g.keys s.slot_id s.find_tmpl in
    let n = max_keys - s.find_pos in
    let (from, upto, few, early, split) = find_loop-matching found n s.find_pos max in
    let total : s.find_pos + n ≡ max_keys = omega (arith, running.4) in
    let p = (find_loop found n s.find_pos max).1 in
    let s' = record s { find_pos = p } in
    (
      (find_loop found n s.find_pos max).0,
      s',
      put_session g h s',
      find_objects-IsSearching g h max s running,
      put-IsSearching g h p s (omega arith) running,
      few,
      subst (λ k. remaining g s ≡ (find_loop found n s.find_pos max).0 ++ matching found (k - p) p)
          total split,
      λ less. early less ∙ total,
    )

-- Calls of C_FindObjects for at most as many handles as listed, and all handles they return; a
-- failing call ends them.
unfoldable pub find_calls : ℕ → List ℕ → Call Library Ckr (List ℕ)
find_calls h [] g = (ok [], g)
find_calls h (max ∷ maxes) g =
    (find_objects h max true >>= λ hs. find_calls h maxes >>= λ rest. lift (ok (hs ++ rest))) g

unfoldable pub sum : List ℕ → ℕ
sum [] = 0
sum (x ∷ xs) = x + sum xs

nil_of_length : (xs : List ℕ) → length xs ≤ 0 → xs ≡ []
nil_of_length [] h = refl
nil_of_length (x ∷ xs) h = absurd (omega arith)

lt_or_ge : (a b : ℕ) → (a < b) ⊎ (b ≤ a)
lt_or_ge a b = ground arith

remaining_end : (g : Library) (s : Session) → s.find_pos ≡ max_keys → length (remaining g s) ≡ 0
unfolding remaining matching
remaining_end g s e = rw e refl

find_calls_cons :
    (g g' : Library) (h max : ℕ) (maxes hs rest : List ℕ)
    → find_objects h max true g ≡ (ok hs, g')
    → (find_calls h maxes g').0 ≡ ok rest
    → (find_calls h (max ∷ maxes) g).0 ≡ ok (hs ++ rest)
unfolding find_calls
find_calls_cons g g' h max maxes hs rest call more = ground (arith, call, more)

searching_session :
    (g : Library) (h : ℕ) (s : Session) → IsSearching g h s → session_get g.sessions h ≡ some s
unfolding IsSearching
searching_session g h s running = running.2

start-IsSearching :
    (g : Library) (h : ℕ) (s s' : Session)
    → g.lock_ok ≡ true
    → g.initialized ≡ true
    → session_get g.sessions h ≡ some s
    → length g.sessions ≡ max_sessions
    → s'.find_active ≡ true
    → s'.find_pos ≡ 0
    → s'.in_use ≡ true
    → IsSearching (put_session g h s') h s'
unfolding IsSearching put_session
start-IsSearching g h s s' lock_ok init known size active start used = (
  lock_ok,
  init,
  session_get_put g h s s' known size used,
  active,
  omega arith,
  length-set g.sessions (h - 1) s' ∙ size,
)

find_objects_init-IsSearching :
    (g : Library) (h : ℕ) (attrs : List (ℕ × Option (List ℕ)))
    → length g.sessions ≡ max_sessions
    → (find_objects_init h attrs g).0 ≡ ok tt
    → (s : Session) × IsSearching (find_objects_init h attrs g).1 h s
      × (copy_template attrs ≡ some s.find_tmpl)
      × (s.find_pos ≡ 0)
unfolding find_objects_init
find_objects_init-IsSearching g h attrs size done = elim (Option-cases (session_get g.sessions h)) [
  | inl unknown ↦ absurd (ground arith)
  | inr (s, known) ↦ elim (Option-cases (copy_template attrs)) [
    | inl bad ↦ absurd (ground arith)
    | inr (tmpl, copied) ↦
        let s' = record s { find_tmpl = tmpl; find_active = true; find_pos = 0 } in
        let g' = put_session g h s' in
        let same : (find_objects_init h attrs g).1 ≡ g' = ground arith in
        (
          s',
          subst (λ k. IsSearching k h s') (sym same)
              (start-IsSearching g h s s' (ground arith) (ground arith) known size refl refl
                (session_get-in_use g.sessions h s known)),
          copied,
          refl,
        )
  ]
]

find_calls-remaining :
    (g : Library) (h : ℕ) (maxes : List ℕ) (s : Session)
    → IsSearching g h s
    → length (remaining g s) ≤ sum maxes
    → (find_calls h maxes g).0 ≡ ok (remaining g s)
unfolding find_calls sum
find_calls-remaining g h [] s running enough =
    ap ok (sym (nil_of_length (remaining g s) (omega arith)))
find_calls-remaining g h (max ∷ maxes) s running enough =
    let (hs, s', g', call, running', few, split, early) =
      find_objects-remaining g h max s running in
    let size : length (remaining g s) ≡ length hs + length (remaining g' s') =
      ap length split ∙ length-append hs (remaining g' s') in
    let rest : (find_calls h maxes g').0 ≡ ok (remaining g' s') =
      find_calls-remaining g' h maxes s' running' (elim (lt_or_ge (length hs) max) [
        | inl less ↦ omega (arith, remaining_end g' s' (early less))
        | inr full ↦ omega arith
      ]) in
    find_calls_cons g g' h max maxes hs (remaining g' s') call rest ∙ ap ok (sym split)

-- In a session table of full size, if a search starts successfully with a template and is carried
-- on by calls with room for at least 64 handles in all, then the handle gives a session with that
-- template, and the calls together return exactly the handles of the keys on its slot that match
-- it, in order.
pub find_init_calls :
    (g : Library) (h : ℕ) (attrs : List (ℕ × Option (List ℕ))) (maxes : List ℕ)
    → length g.sessions ≡ max_sessions
    → (find_objects_init h attrs g).0 ≡ ok tt
    → max_keys ≤ sum maxes
    → (s : Session) × (session_get (find_objects_init h attrs g).1.sessions h ≡ some s)
      × (copy_template attrs ≡ some s.find_tmpl)
      × ((find_calls h maxes (find_objects_init h attrs g).1).0
          ≡ ok (all_matching (find_objects_init h attrs g).1 s))
unfolding all_matching remaining
find_init_calls g h attrs maxes size done enough =
    let (s, running, copied, start) = find_objects_init-IsSearching g h attrs size done in
    let g' = (find_objects_init h attrs g).1 in
    let whole : remaining g' s ≡ all_matching g' s =
      ap (λ p. matching (found_at g'.keys s.slot_id s.find_tmpl) (max_keys - p) p) start in
    let few : length (all_matching g' s) ≤ max_keys =
      length-matching (found_at g'.keys s.slot_id s.find_tmpl) max_keys 0 in
    (
      s,
      searching_session g' h s running,
      copied,
      find_calls-remaining g' h maxes s running (omega (arith, ap length whole)) ∙ ap ok whole,
    )
