-- ===== src/Cryptoki/Sessions.antt =====
-- The session calls of src/wp11_pkcs11.c: C_OpenSession to C_GetSessionInfo, C_Login and C_Logout.
pub mod Effects
pub mod Inv
pub mod Login
use wolf_p.Prelude.{
  ℕ, zero, suc, ◌+◌, ◌-◌, Bool, true, false, not, ◌&&◌, Option, none, some, List, [], ◌∷◌, ltb,
  ◌==◌, if◌then◌else◌, get_or, set, Result, ok, err, Call,
}
use wolf_p.Cryptoki.State.{
  Ckr, cryptoki_not_initialized, arguments_bad, slot_id_invalid, token_not_present,
  session_handle_invalid, session_count, session_parallel_not_supported,
  session_read_write_so_exists, session_read_only_exists, user_already_logged_in,
  user_another_already_logged_in, user_not_logged_in, user_type_invalid, SessionState,
  ro_public_session, ro_user_functions, rw_public_session, rw_user_functions, rw_so_functions,
  Session, zero_session, Slot, zero_slot, Library, is_rw, is_serial, entered, session_get,
  slot_valid,
}

-- Whether a session is open on a slot, as the loops over the sessions test it.
abbrev pub on_slot : ℕ → Session → Bool
on_slot slot s = s.in_use && s.slot_id == slot

-- The login state of a slot: that of its first session that has one; 1 is CKU_USER, 2 is CKU_SO.
unfoldable pub slot_login : List Session → ℕ → ℕ
slot_login [] slot = 0
slot_login (s ∷ ss) slot =
    if on_slot slot s && not (s.logged_in == 0) then s.logged_in else slot_login ss slot

-- The state of a new session, by the slot's login.
unfoldable pub opened_state : ℕ → ℕ → SessionState
opened_state login flags =
    if login == 1
    then if is_rw flags then rw_user_functions else ro_user_functions
    else if login == 2
    then rw_so_functions
    else if is_rw flags
    then rw_public_session
    else ro_public_session

unfoldable pub new_session : ℕ → ℕ → ℕ → Session
unfolding opened_state
new_session slot flags login = record zero_session {
  in_use = true;
  slot_id = slot;
  flags = flags;
  logged_in = login;
  state = opened_state login flags;
}

-- The new session in the first free entry, with that entry's index.
unfoldable pub insert_session : Session → List Session → Option (ℕ × List Session)
insert_session n [] = none
insert_session n (s ∷ ss) =
    if not s.in_use
    then some (0, n ∷ ss)
    else elim (insert_session n ss) [ none ↦ none | some (i, ss') ↦ some (suc i, s ∷ ss') ]

-- C_OpenSession; `out` is whether `phSession` is not NULL. The result is the handle.
unfoldable pub open_session : ℕ → ℕ → Bool → Call Library Ckr ℕ
open_session slot flags out = entered λ g.
    if not (slot_valid g.slots slot)
    then (err slot_id_invalid, g)
    else if not (get_or g.slots slot zero_slot).token_present
    then (err token_not_present, g)
    else if not out
    then (err arguments_bad, g)
    else if not (is_serial flags)
    then (err session_parallel_not_supported, g)
    else let login = slot_login g.sessions slot in
      if login == 2 && not (is_rw flags)
      then (err session_read_write_so_exists, g)
      else elim (insert_session (new_session slot flags login) g.sessions) [
        | none ↦ (err session_count, g)
        | some (i, ss) ↦ (ok (i + 1), record g { sessions = ss })
      ]

-- C_CloseSession.
unfoldable pub close_session : ℕ → Call Library Ckr (Unit {0})
close_session h = entered λ g. elim (session_get g.sessions h) [
  | none ↦ (err session_handle_invalid, g)
  | some s ↦ (ok tt, record g { sessions = set g.sessions (h - 1) zero_session })
]

-- A loop that changes every session open on a slot.
unfoldable pub update_slot : (Session → Session) → ℕ → List Session → List Session
update_slot f slot [] = []
update_slot f slot (s ∷ ss) = (if on_slot slot s then f s else s) ∷ update_slot f slot ss

-- The loop that zeroes the sessions of a slot.
abbrev pub drop_sessions : ℕ → List Session → List Session
drop_sessions = update_slot λ s. zero_session

-- C_CloseAllSessions.
unfoldable pub close_all_sessions : ℕ → Call Library Ckr (Unit {0})
close_all_sessions slot = entered λ g.
    if not (slot_valid g.slots slot)
    then (err slot_id_invalid, g)
    else (ok tt, record g { sessions = drop_sessions slot g.sessions })

-- C_GetSessionInfo: slot, state and flags; the device error is 0.
unfoldable pub get_session_info : ℕ → Bool → Call Library Ckr (ℕ × SessionState × ℕ)
get_session_info h out = entered λ g.
    if not out then (err arguments_bad, g) else elim (session_get g.sessions h) [
      | none ↦ (err session_handle_invalid, g)
      | some s ↦ (ok (s.slot_id, s.state, s.flags), g)
    ]

-- CKU_SO is 0 and CKU_USER is 1.
abbrev pub cku_so : ℕ
cku_so = 0

abbrev pub cku_user : ℕ
cku_user = 1

-- Whether a read-only session is open on the slot.
unfoldable pub has_read_only : List Session → ℕ → Bool
has_read_only [] slot = false
has_read_only (s ∷ ss) slot =
    if on_slot slot s && not (is_rw s.flags) then true else has_read_only ss slot

unfoldable pub log_in_user : Session → Session
log_in_user s = record s {
  logged_in = 1;
  state = (if is_rw s.flags then rw_user_functions else ro_user_functions);
}

unfoldable pub log_in_so : Session → Session
log_in_so s = record s { logged_in = 2; state = rw_so_functions }

-- `pin_fail_count = 0` after a successful login.
unfoldable pub reset_fail_count : ℕ → List Slot → List Slot
reset_fail_count slot slots =
    set slots slot (record (get_or slots slot zero_slot) { pin_fail_count = 0 })

-- C_Login. Without the optional backends the PIN is not read.
unfoldable pub login : ℕ → ℕ → Call Library Ckr (Unit {0})
unfolding reset_fail_count
login h user_type = entered λ g. elim (session_get g.sessions h) [
  | none ↦ (err session_handle_invalid, g)
  | some s ↦
      let current = slot_login g.sessions s.slot_id in
      let requested : ℕ = if user_type == cku_so then 2 else 1 in
      let enter = λ (f : Session → Session).
        let done : Result Ckr (Unit {0}) × Library = (
          ok tt,
          record g {
            sessions = update_slot f s.slot_id g.sessions;
            slots = reset_fail_count s.slot_id g.slots;
          },
        ) in
        done in
      if not (current == 0)
      then (
        err (
            if current == requested
            then user_already_logged_in
            else user_another_already_logged_in),
        g,
      )
      else if user_type == cku_so && has_read_only g.sessions s.slot_id
      then (err session_read_only_exists, g)
      else if user_type == cku_user
      then enter log_in_user
      else if user_type == cku_so
      then enter log_in_so
      else (err user_type_invalid, g)
]

-- What C_Logout leaves of a session on the slot: no login and no running operation.
unfoldable pub log_out : Session → Session
log_out s = record s {
  logged_in = 0;
  state = (if is_rw s.flags then rw_public_session else ro_public_session);
  sign_active = false;
  sign_key = 0;
  verify_active = false;
  verify_key = 0;
  encrypt_active = false;
  encrypt_key = 0;
  decrypt_active = false;
  decrypt_key = 0;
  digest_active = false;
  find_active = false;
  find_pos = 0;
  find_tmpl = [];
}

-- C_Logout.
unfoldable pub logout : ℕ → Call Library Ckr (Unit {0})
logout h = entered λ g. elim (session_get g.sessions h) [
  | none ↦ (err session_handle_invalid, g)
  | some s ↦
      if s.logged_in == 0
      then (err user_not_logged_in, g)
      else (ok tt, record g { sessions = update_slot log_out s.slot_id g.sessions })
]
