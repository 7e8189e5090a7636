-- ===== src/Cryptoki/Sessions/Inv.antt =====
-- The logins and states of the sessions of each slot, in src/wp11_pkcs11.c.
use wolf_p.Prelude.{
  ℕ, zero, suc, ◌-◌, ◌≤◌, ◌≡◌, refl, sym, ◌∙◌, ap, subst, length-set, Result-cases, Bool, true,
  false, Bool-cases, some, Option-cases, List, [], ◌∷◌, length, set, arith, ◌⊎◌, inl, inr, ◌==◌,
  if◌then◌else◌,
}
use wolf_p.Cryptoki.State.{Session, zero_session, Library, is_rw, max_sessions}
use wolf_p.Cryptoki.Sessions.{
  on_slot, slot_login, opened_state, new_session, insert_session, open_session, close_session,
  update_slot, drop_sessions, close_all_sessions, has_read_only, log_in_user, log_in_so, login,
  log_out, logout,
}
use wolf_p.Cryptoki.Sessions.Effects.{
  open_session_err, open_session_ok, close_session_sessions, close_all_sessions_sessions, login_err,
  login_ok, logout_err, logout_ok,
}

-- An open session has the login of its slot, the state that goes with it and its flags, and is
-- read-write under a security officer's login. The login of each slot is given by a function.
abbrev pub Fits : (ℕ → ℕ) → Session → Type 0
Fits of_slot s =
    s.in_use ≡ true
    → (s.logged_in ≡ of_slot s.slot_id)
      × (s.state ≡ opened_state s.logged_in s.flags)
      × (s.logged_in ≡ 2 → is_rw s.flags ≡ true)
      × (s.logged_in ≤ 2)

abbrev pub AllFit : (ℕ → ℕ) → List Session → Type 0
AllFit of_slot [] = Unit {0}
AllFit of_slot (s ∷ ss) = Fits of_slot s × AllFit of_slot ss

-- The invariant of the session table: its size, and sessions that fit some assignment of logins to
-- slots.
pub record Inv (g : Library) : Type 0 where
  pub of_slot : ℕ → ℕ
  pub fits : AllFit of_slot g.sessions
  pub size : length g.sessions ≡ max_sessions

-- The assignment changed at one slot.
assign : ℕ → ℕ → (ℕ → ℕ) → ℕ → ℕ
assign slot login of_slot i = if i == slot then login else of_slot i

-- The login found for a slot is the assigned one, or 0 when no session on the slot has one.
slot_login-AllFit :
    (of_slot : ℕ → ℕ) (ss : List Session) (slot : ℕ)
    → AllFit of_slot ss
    → (slot_login ss slot ≡ of_slot slot) ⊎ (slot_login ss slot ≡ 0)
unfolding slot_login
slot_login-AllFit of_slot [] slot a = inr refl
slot_login-AllFit of_slot (s ∷ ss) slot (f, a) = ground (arith, slot_login-AllFit of_slot ss slot a)

assign-Fits :
    (of_slot : ℕ → ℕ) (s : Session) (slot l : ℕ)
    → (s.in_use ≡ true → s.slot_id ≡ slot → s.logged_in ≡ l)
    → Fits of_slot s
    → Fits (assign slot l of_slot) s
unfolding assign
assign-Fits of_slot s slot l h f used =
    let (same, state_ok, rw_ok, small) = f used in
    let known = h used in (ground arith, state_ok, rw_ok, small)

assign-AllFit :
    (of_slot : ℕ → ℕ) (ss : List Session) (slot l : ℕ)
    → (l ≡ of_slot slot) ⊎ ((l ≡ 0) × (slot_login ss slot ≡ 0))
    → AllFit of_slot ss
    → AllFit (assign slot l of_slot) ss
unfolding slot_login
assign-AllFit of_slot [] slot l h a = tt
assign-AllFit of_slot (s ∷ ss) slot l h (f, a) = (
  assign-Fits of_slot s slot l (λ used here. ground (arith, (f used).0)) f,
  assign-AllFit of_slot ss slot l (ground arith) a,
)

-- So the login found can be the assigned one.
AllFit-slot_login :
    (of_slot : ℕ → ℕ) (ss : List Session) (slot : ℕ)
    → AllFit of_slot ss
    → AllFit (assign slot (slot_login ss slot) of_slot) ss
AllFit-slot_login of_slot ss slot a = elim (slot_login-AllFit of_slot ss slot a) [
  | inl same ↦ assign-AllFit of_slot ss slot (slot_login ss slot) (inl same) a
  | inr zero_login ↦
      assign-AllFit of_slot ss slot (slot_login ss slot) (inr (zero_login, zero_login)) a
]

pub zero-Fits : (of_slot : ℕ → ℕ) → Fits of_slot zero_session
zero-Fits of_slot used = absurd (ground arith)

slot_login-le :
    (of_slot : ℕ → ℕ) (ss : List Session) (slot : ℕ) → AllFit of_slot ss → slot_login ss slot ≤ 2
unfolding slot_login
slot_login-le of_slot [] slot a = omega arith
slot_login-le of_slot (s ∷ ss) slot (f, a) = ground (arith, slot_login-le of_slot ss slot a)

new_session-Fits :
    (of_slot : ℕ → ℕ) (slot flags l : ℕ)
    → (l ≡ 2 → is_rw flags ≡ true)
    → l ≤ 2
    → Fits (assign slot l of_slot) (new_session slot flags l)
unfolding new_session assign opened_state
new_session-Fits of_slot slot flags l rw_ok small used = (ground arith, refl, rw_ok, small)

insert_session-AllFit :
    (of_slot : ℕ → ℕ) (n : Session) (ss : List Session) (i : ℕ) (ss' : List Session)
    → Fits of_slot n
    → AllFit of_slot ss
    → insert_session n ss ≡ some (i, ss')
    → AllFit of_slot ss' × (length ss' ≡ length ss)
unfolding insert_session
insert_session-AllFit of_slot n [] i ss' f a e = absurd (ground arith)
insert_session-AllFit of_slot n (s ∷ ss) i ss' f (g, a) e = elim (Bool-cases s.in_use) [
  | inr free ↦
      let same : n ∷ ss ≡ ss' = ground arith in
      (subst (AllFit of_slot) same (f, a), rw (← same) refl)
  | inl used ↦ elim (Option-cases (insert_session n ss)) [
    | inl full ↦ absurd (ground arith)
    | inr ((j, rest), found) ↦
        let same : s ∷ rest ≡ ss' = ground arith in
        let (b, size) = insert_session-AllFit of_slot n ss j rest f a found in
        (subst (AllFit of_slot) same (g, b), rw (← same) (ap suc size))
  ]
]

pub set-AllFit :
    (of_slot : ℕ → ℕ) (ss : List Session) (i : ℕ) (n : Session)
    → Fits of_slot n
    → AllFit of_slot ss
    → AllFit of_slot (set ss i n)
set-AllFit of_slot [] i n f a = tt
set-AllFit of_slot (s ∷ ss) zero n f (g, a) = (f, a)
set-AllFit of_slot (s ∷ ss) (suc i) n f (g, a) = (g, set-AllFit of_slot ss i n f a)

pub length-update_slot :
    (f : Session → Session) (slot : ℕ) (ss : List Session)
    → length (update_slot f slot ss) ≡ length ss
unfolding update_slot
length-update_slot f slot [] = refl
length-update_slot f slot (s ∷ ss) = ap suc (length-update_slot f slot ss)

-- A slot's sessions are changed to one login, and the others kept.
update_slot-AllFit :
    (of_slot : ℕ → ℕ) (f : Session → Session) (slot l : ℕ) (ss : List Session)
    → ((s : Session) → on_slot slot s ≡ true → Fits of_slot s → Fits (assign slot l of_slot) (f s))
    → AllFit of_slot ss
    → AllFit (assign slot l of_slot) (update_slot f slot ss)
unfolding update_slot
update_slot-AllFit of_slot f slot l [] change a = tt
update_slot-AllFit of_slot f slot l (s ∷ ss) change (g, a) = (
  elim (Bool-cases (on_slot slot s)) [
    | inl on ↦ rw on (change s on g)
    | inr off ↦ rw off (assign-Fits of_slot s slot l (λ used here. absurd (ground arith)) g)
  ],
  update_slot-AllFit of_slot f slot l ss change a,
)

-- The sessions of a slot are zeroed; any login will do for the slot then.
drop_sessions-AllFit :
    (of_slot : ℕ → ℕ) (slot : ℕ) (ss : List Session)
    → AllFit of_slot ss
    → AllFit of_slot (drop_sessions slot ss)
unfolding update_slot
drop_sessions-AllFit of_slot slot [] a = tt
drop_sessions-AllFit of_slot slot (s ∷ ss) (g, a) = (
  elim (Bool-cases (on_slot slot s)) [ inl on ↦ rw on (zero-Fits of_slot) | inr off ↦ rw off g ],
  drop_sessions-AllFit of_slot slot ss a,
)

log_in_user-Fits :
    (of_slot : ℕ → ℕ) (slot : ℕ) (s : Session)
    → on_slot slot s ≡ true
    → Fits of_slot s
    → Fits (assign slot 1 of_slot) (log_in_user s)
unfolding log_in_user assign opened_state
log_in_user-Fits of_slot slot s on f used =
    (ground arith, ground arith, λ e. absurd (ground arith), omega arith)

log_out-Fits :
    (of_slot : ℕ → ℕ) (slot : ℕ) (s : Session)
    → on_slot slot s ≡ true
    → Fits of_slot s
    → Fits (assign slot 0 of_slot) (log_out s)
unfolding log_out assign opened_state
log_out-Fits of_slot slot s on f used =
    (ground arith, ground arith, λ e. absurd (ground arith), omega arith)

log_in_so-AllFit :
    (of_slot : ℕ → ℕ) (slot : ℕ) (ss : List Session)
    → has_read_only ss slot ≡ false
    → AllFit of_slot ss
    → AllFit (assign slot 2 of_slot) (update_slot log_in_so slot ss)
unfolding log_in_so assign opened_state update_slot has_read_only
log_in_so-AllFit of_slot slot [] h a = tt
log_in_so-AllFit of_slot slot (s ∷ ss) h (f, a) = (
  elim (Bool-cases (on_slot slot s)) [
    | inl on ↦ rw on (λ used. (ground arith, ground arith, λ e. ground arith, omega arith))
    | inr off ↦ rw off (assign-Fits of_slot s slot 2 (λ used here. absurd (ground arith)) f)
  ],
  log_in_so-AllFit of_slot slot ss (ground arith) a,
)

pub keep-Inv : (g g' : Library) → g'.sessions ≡ g.sessions → Inv g → Inv g'
keep-Inv g g' e v = record {
  of_slot = v.of_slot;
  fits = subst (AllFit v.of_slot) (sym e) v.fits;
  size = rw e v.size;
}

-- Each session call keeps the invariant, whatever its arguments and whether or not it succeeds.
pub open_session-Inv :
    (g : Library) (slot flags : ℕ) (out : Bool) → Inv g → Inv (open_session slot flags out g).1
open_session-Inv g slot flags out v = elim (Result-cases (open_session slot flags out g).0) [
  | inr (e, fails) ↦
      keep-Inv g _ (ap (λ k. k.sessions) (open_session_err g slot flags out e fails)) v
  | inl (h, done) ↦
      let (i, ss, found, so_rw, handle, same) = open_session_ok g slot flags h out done in
      let l = slot_login g.sessions slot in
      let (fits, size) =
        insert_session-AllFit (assign slot l v.of_slot) (new_session slot flags l) g.sessions i ss
          (new_session-Fits v.of_slot slot flags l so_rw
            (slot_login-le v.of_slot g.sessions slot v.fits))
          (AllFit-slot_login v.of_slot g.sessions slot v.fits) found in
      record {
        of_slot = assign slot l v.of_slot;
        fits = subst (AllFit (assign slot l v.of_slot)) (sym same) fits;
        size = rw same (size ∙ v.size);
      }
]

pub close_session-Inv : (g : Library) (h : ℕ) → Inv g → Inv (close_session h g).1
close_session-Inv g h v = elim (close_session_sessions g h) [
  | inl same ↦ keep-Inv g _ same v
  | inr zeroed ↦ record {
    of_slot = v.of_slot;
    fits =
        subst (AllFit v.of_slot) (sym zeroed)
          (set-AllFit v.of_slot g.sessions (h - 1) zero_session (zero-Fits v.of_slot) v.fits);
    size = rw zeroed (length-set g.sessions (h - 1) zero_session ∙ v.size);
  }
]

-- Zeroing the sessions of a slot keeps it too.
pub drop_sessions-Inv :
    (g g' : Library) (slot : ℕ) → g'.sessions ≡ drop_sessions slot g.sessions → Inv g → Inv g'
drop_sessions-Inv g g' slot e v = record {
  of_slot = v.of_slot;
  fits = subst (AllFit v.of_slot) (sym e) (drop_sessions-AllFit v.of_slot slot g.sessions v.fits);
  size = rw e (length-update_slot (λ s. zero_session) slot g.sessions ∙ v.size);
}

pub close_all_sessions-Inv : (g : Library) (slot : ℕ) → Inv g → Inv (close_all_sessions slot g).1
close_all_sessions-Inv g slot v = elim (close_all_sessions_sessions g slot) [
  | inl same ↦ keep-Inv g _ same v
  | inr zeroed ↦ drop_sessions-Inv g _ slot zeroed v
]

update-Inv :
    (g g' : Library) (f : Session → Session) (slot l : ℕ) (v : Inv g)
    → g'.sessions ≡ update_slot f slot g.sessions
    → AllFit (assign slot l v.of_slot) (update_slot f slot g.sessions)
    → Inv g'
update-Inv g g' f slot l v e a = record {
  of_slot = assign slot l v.of_slot;
  fits = subst (AllFit (assign slot l v.of_slot)) (sym e) a;
  size = rw e (length-update_slot f slot g.sessions ∙ v.size);
}

pub login-Inv : (g : Library) (h user : ℕ) → Inv g → Inv (login h user g).1
login-Inv g h user v = elim (Result-cases (login h user g).0) [
  | inr (e, fails) ↦ keep-Inv g _ (ap (λ k. k.sessions) (login_err g h user e fails)) v
  | inl (tt, done) ↦
      let (s, known, free, way) = login_ok g h user done in
      elim way [
        | inl (who, e) ↦ update-Inv g _ log_in_user s.slot_id 1 v e (
            update_slot-AllFit v.of_slot log_in_user s.slot_id 1 g.sessions
              (log_in_user-Fits v.of_slot s.slot_id) v.fits)
        | inr (who, rw_only, e) ↦
            update-Inv g _ log_in_so s.slot_id 2 v e
              (log_in_so-AllFit v.of_slot s.slot_id g.sessions rw_only v.fits)
      ]
]

pub logout-Inv : (g : Library) (h : ℕ) → Inv g → Inv (logout h g).1
logout-Inv g h v = elim (Result-cases (logout h g).0) [
  | inr (e, fails) ↦ keep-Inv g _ (ap (λ k. k.sessions) (logout_err g h e fails)) v
  | inl (tt, done) ↦
      let (s, known, logged, e) = logout_ok g h done in
      update-Inv g _ log_out s.slot_id 0 v e (
        update_slot-AllFit v.of_slot log_out s.slot_id 0 g.sessions
          (log_out-Fits v.of_slot s.slot_id) v.fits)
]
