-- ===== src/Cryptoki/Slots/Departures.antt =====
-- The sessions of a slot whose token departs, in src/wp11_pkcs11.c.
use wolf_p.Prelude.{
  ℕ, zero, suc, ◌-◌, ◌≡◌, ◌≢◌, ◌∙◌, ap, subst, true, some, Option-cases, List, [], ◌∷◌, get_or,
  arith, inl, inr,
}
use wolf_p.Cryptoki.State.{Session, zero_session, Library, session_get}
use wolf_p.Cryptoki.Sessions.{update_slot, drop_sessions}
use wolf_p.Cryptoki.Slots.{slot_remove, find_slot, is_here}

get_or-drop_sessions :
    (i k : ℕ) (ss : List Session)
    → (get_or (drop_sessions i ss) k zero_session).in_use ≡ true
    → (get_or (drop_sessions i ss) k zero_session).slot_id ≢ i
unfolding update_slot
get_or-drop_sessions i k [] used here = absurd (ground arith)
get_or-drop_sessions i zero (s ∷ ss) used here = ground arith
get_or-drop_sessions i (suc k) (s ∷ ss) used here = get_or-drop_sessions i k ss used here

session_get-drop_sessions :
    (i h : ℕ) (ss : List Session) (s : Session)
    → session_get (drop_sessions i ss) h ≡ some s
    → s.slot_id ≢ i
unfolding session_get
session_get-drop_sessions i h ss s known here =
    let entry = get_or (drop_sessions i ss) (h - 1) zero_session in
    let used : entry.in_use ≡ true = ground arith in
    let same : entry ≡ s = ground arith in
    get_or-drop_sessions i (h - 1) ss used (ap (λ x. x.slot_id) same ∙ here)

-- When the token of slot `i` has been removed, no handle gives a session on that slot.
pub slot_remove-session_get :
    (vid pid i h : ℕ) (g : Library) (s : Session)
    → (slot_remove vid pid g).0 ≡ some i
    → session_get (slot_remove vid pid g).1.sessions h ≡ some s
    → s.slot_id ≢ i
unfolding slot_remove
slot_remove-session_get vid pid i h g s gone known =
    let dropped : (slot_remove vid pid g).1.sessions ≡ drop_sessions i g.sessions =
      elim (Option-cases (find_slot (is_here vid pid) g.slots)) [
        | inl lost ↦ absurd (ground arith)
        | inr (j, found) ↦ ground arith
      ] in
    session_get-drop_sessions i h g.sessions s
      (subst (λ ss. session_get ss h ≡ some s) dropped known)
