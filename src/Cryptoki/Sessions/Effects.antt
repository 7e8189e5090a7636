-- ===== src/Cryptoki/Sessions/Effects.antt =====
-- What each session call of src/wp11_pkcs11.c leaves behind, by its result.
use wolf_p.Prelude.{
  ℕ, ◌+◌, ◌-◌, ◌≡◌, Bool, true, false, some, Option-cases, List, set, arith, ok, err, ◌⊎◌, inl, inr,
}
use wolf_p.Cryptoki.State.{Ckr, Session, zero_session, Library, is_rw, session_get}
use wolf_p.Cryptoki.Sessions.{
  slot_login, new_session, insert_session, open_session, close_session, update_slot, drop_sessions,
  close_all_sessions, has_read_only, log_in_user, log_in_so, login, log_out, logout, cku_so,
  cku_user,
}

-- A failed call changes nothing.
pub open_session_err :
    (g : Library) (slot flags : ℕ) (out : Bool) (e : Ckr)
    → (open_session slot flags out g).0 ≡ err e
    → (open_session slot flags out g).1 ≡ g
unfolding open_session
open_session_err g slot flags out e h = ground arith

pub open_session_ok :
    (g : Library) (slot flags h : ℕ) (out : Bool)
    → (open_session slot flags out g).0 ≡ ok h
    → (i : ℕ) × (ss : List Session) × (insert_session
          (new_session slot flags (slot_login g.sessions slot))
          g.sessions
        ≡ some (i, ss))
      × (slot_login g.sessions slot ≡ 2 → is_rw flags ≡ true)
      × (h ≡ i + 1)
      × ((open_session slot flags out g).1.sessions ≡ ss)
unfolding open_session
open_session_ok g slot flags h out e =
    elim (Option-cases
      (insert_session (new_session slot flags (slot_login g.sessions slot)) g.sessions)) [
        | inl full ↦ absurd (ground arith)
        | inr ((i, ss), found) ↦ (i, ss, found, λ so. ground arith, ground arith, ground arith)
      ]

pub close_session_sessions :
    (g : Library) (h : ℕ)
    → ((close_session h g).1.sessions ≡ g.sessions)
      ⊎ ((close_session h g).1.sessions ≡ set g.sessions (h - 1) zero_session)
unfolding close_session
close_session_sessions g h = ground arith

pub close_all_sessions_sessions :
    (g : Library) (slot : ℕ)
    → ((close_all_sessions slot g).1.sessions ≡ g.sessions)
      ⊎ ((close_all_sessions slot g).1.sessions ≡ drop_sessions slot g.sessions)
unfolding close_all_sessions
close_all_sessions_sessions g slot = ground arith

pub login_err :
    (g : Library) (h user : ℕ) (e : Ckr) → (login h user g).0 ≡ err e → (login h user g).1 ≡ g
unfolding login
login_err g h user e k = ground arith

-- A login that succeeds was made with the handle of a session on a slot without a login. It was a
-- user's and changed all sessions of the slot to the user's state, or the security officer's,
-- with no read-only session on the slot, and changed them to that officer's state.
pub login_ok :
    (g : Library) (h user : ℕ)
    → (login h user g).0 ≡ ok tt
    → (s : Session) × (session_get g.sessions h ≡ some s)
      × (slot_login g.sessions s.slot_id ≡ 0)
      × (((user ≡ cku_user)
            × ((login h user g).1.sessions ≡ update_slot log_in_user s.slot_id g.sessions))
          ⊎ ((user ≡ cku_so)
              × (has_read_only g.sessions s.slot_id ≡ false)
              × ((login h user g).1.sessions ≡ update_slot log_in_so s.slot_id g.sessions)))
unfolding login
login_ok g h user e = elim (Option-cases (session_get g.sessions h)) [
  | inl unknown ↦ absurd (ground arith)
  | inr (s, known) ↦ (s, known, ground arith, ground arith)
]

pub logout_err : (g : Library) (h : ℕ) (e : Ckr) → (logout h g).0 ≡ err e → (logout h g).1 ≡ g
unfolding logout
logout_err g h e k = ground arith

pub logout_ok :
    (g : Library) (h : ℕ)
    → (logout h g).0 ≡ ok tt
    → (s : Session) × (session_get g.sessions h ≡ some s)
      × (s.logged_in ≡ 0 → ⊥)
      × ((logout h g).1.sessions ≡ update_slot log_out s.slot_id g.sessions)
unfolding logout
logout_ok g h e = elim (Option-cases (session_get g.sessions h)) [
  | inl unknown ↦ absurd (ground arith)
  | inr (s, known) ↦ (s, known, λ z. ground arith, ground arith)
]
