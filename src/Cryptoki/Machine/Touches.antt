-- ===== src/Cryptoki/Machine/Touches.antt =====
-- Calls of src/wp11_pkcs11.c that write back their session and nothing else.
use wolf_p.Prelude.{ℕ, ◌≤◌, ◌≡◌, sym, ap, ap₂, subst, ◌∙◌, some, ◌⊎◌, inl, inr}
use wolf_p.Cryptoki.State.{is_rw, Session, Library, session_get}
use wolf_p.Cryptoki.Find.{put_session}
use wolf_p.Cryptoki.Sessions.Inv.{Fits, Inv, keep-Inv}
use wolf_p.Cryptoki.Sessions.{opened_state}
use wolf_p.Cryptoki.Machine.Changes.{put-Inv}

-- The fields that the slot and the login of a session depend on stay.
abbrev pub SameLogin : Session → Session → Type 0
SameLogin s s' =
    (s'.in_use ≡ s.in_use)
    × (s'.slot_id ≡ s.slot_id)
    × (s'.logged_in ≡ s.logged_in)
    × (s'.state ≡ s.state)
    × (s'.flags ≡ s.flags)

-- The library is as before, or a session has been written back.
abbrev pub Touches : Library → ℕ → Library → Type 0
Touches g h g' =
    (g' ≡ g)
    ⊎ ((s : Session) × (s' : Session) × (session_get g.sessions h ≡ some s)
        × SameLogin s s'
        × (g' ≡ put_session g h s'))

pub Touches-keys : (g g' : Library) (h : ℕ) → Touches g h g' → g'.keys ≡ g.keys
unfolding put_session
Touches-keys g g' h (inl same) = ap (λ x. x.keys) same
Touches-keys g g' h (inr (s, s', known, login, e)) = ap (λ x. x.keys) e

SameLogin-Fits :
    (of_slot : ℕ → ℕ) (s s' : Session) → SameLogin s s' → Fits of_slot s → Fits of_slot s'
SameLogin-Fits of_slot s s' (used, slot, login, state, flags) f live =
    let (same, state_ok, rw_ok, small) = f (sym used ∙ live) in
    (
      login ∙ same ∙ ap of_slot (sym slot),
      state ∙ state_ok ∙ ap₂ opened_state (sym login) (sym flags),
      (λ so. ap is_rw flags ∙ rw_ok (sym login ∙ so)),
      subst (λ n. n ≤ 2) (sym login) small,
    )

pub Touches-Inv : (g g' : Library) (h : ℕ) → Touches g h g' → Inv g → Inv g'
unfolding put_session
Touches-Inv g g' h (inl same) v = keep-Inv g g' (ap (λ x. x.sessions) same) v
Touches-Inv g g' h (inr (s, s', known, login, e)) v =
    put-Inv g g' h s s' known (λ of_slot. SameLogin-Fits of_slot s s' login)
      (ap (λ x. x.sessions) e) v

pub Touches_or :
    (g g' : Library) (h : ℕ) (s s' : Session)
    → session_get g.sessions h ≡ some s
    → SameLogin s s'
    → (g' ≡ g) ⊎ (g' ≡ put_session g h s')
    → Touches g h g'
Touches_or g g' h s s' known login (inl same) = inl same
Touches_or g g' h s s' known login (inr e) = inr (s, s', known, login, e)
