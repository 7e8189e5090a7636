-- ===== src/Cryptoki/Examples.antt =====
-- The theorems on the Cryptoki calls at concrete tables.
use wolf_p.Prelude.{
  none, ℕ, zero, suc, ◌≡◌, ◌≢◌, refl, subst, true, some, Option, List, [], ◌∷◌, replicate, get_or,
  if◌then◌else◌, arith, ok, inl, inr, ◌⊎◌,
}
use wolf_p.TokenDb.{lookup, row, piv, quirk_extended_apdu}
use wolf_p.Cryptoki.State.{
  Session, zero_session, rw_public_session, rw_user_functions, ro_user_functions, rw_so_functions,
  Slot, zero_slot, KeyObj, zero_key, Library, session_get, slot_valid, is_rw,
}
use wolf_p.Cryptoki.State.{key_get}
use wolf_p.Cryptoki.Sessions.{
  opened_state, new_session, insert_session, slot_login, open_session, login, update_slot,
  log_in_user, reset_fail_count, cku_user, cku_so,
}
use wolf_p.Cryptoki.Sessions.Login.{login-session_get}
use wolf_p.Cryptoki.Find.{find_objects_init, copy_template, cka_id}
use wolf_p.Cryptoki.Find.Batches.{find_calls, find_init_calls, all_matching, sum}
use wolf_p.Cryptoki.Hotplug.{Event, no_slot, Ring}
use wolf_p.Cryptoki.Hotplug.Laws.{IsRing, view}
use wolf_p.Cryptoki.Hotplug.Traces.{run, run_queue, run-run_queue}
use wolf_p.Cryptoki.Slots.{find_from, find_slot, is_token, is_here, is_free, slot_add, slot_remove}
use wolf_p.Cryptoki.Slots.Laws.{Distinct, slot_remove-slot_add, slot_add-Distinct}
use wolf_p.Cryptoki.Slots.Departures.{slot_remove-session_get}
use wolf_p.Cryptoki.Objects.{
  destroy_object, forget_all, forget_key, forget_sign, forget_verify, forget_encrypt,
  forget_decrypt,
}
use wolf_p.Cryptoki.Objects.Laws.{NoReference, destroy_object_ok}
use wolf_p.Cryptoki.Machine.{
  Reachable, start, after, opening, logging_in, Reachable-login, Reachable-state,
}

abbrev usb_key : Slot
usb_key = record zero_slot {
  in_use = true;
  token_present = true;
  usb_vid = 0x1050;
  usb_pid = 0x0407;
  proto = piv;
}

-- A key on slot 1 with the one-byte ID 7.
abbrev key : KeyObj
key = record zero_key { in_use = true; slot_id = 1; id = 7 ∷ [] }

abbrev empty : Library
empty = record {
  lock_ok = true;
  initialized = true;
  sessions = replicate 8 zero_session;
  slots = replicate 16 zero_slot;
  keys = key ∷ zero_key ∷ key ∷ replicate 61 zero_key;
}

abbrev plugged : Library
plugged = record empty { slots = zero_slot ∷ usb_key ∷ replicate 14 zero_slot }

-- Two sessions on slot 1, the second read-write, before and after the user's login by the first.
abbrev two_sessions : List Session
two_sessions =
    record zero_session { in_use = true; slot_id = 1; flags = 4 }
    ∷ record zero_session { in_use = true; slot_id = 1; flags = 6; state = rw_public_session }
    ∷ replicate 6 zero_session

abbrev opened : Library
opened = record plugged { sessions = two_sessions }

opened_by_calls : (open_session 1 6 true (open_session 1 4 true plugged).1).1 ≡ opened
unfolding open_session insert_session new_session slot_login opened_state slot_valid
opened_by_calls = refl

opened-Reachable : Reachable opened
opened-Reachable =
    subst Reachable opened_by_calls
      (after (after (start refl) (opening 1 4 true)) (opening 1 6 true))

abbrev first_session : Session
first_session = record zero_session {
  in_use = true;
  slot_id = 1;
  flags = 4;
  state = opened_state 1 4;
  logged_in = 1;
}

abbrev second_session : Session
second_session = record zero_session {
  in_use = true;
  slot_id = 1;
  flags = 6;
  state = opened_state 1 6;
  logged_in = 1;
}

first_known : session_get (login 1 cku_user opened).1.sessions 1 ≡ some first_session
unfolding login session_get slot_login update_slot log_in_user opened_state reset_fail_count
first_known = refl

second_known : session_get (login 1 cku_user opened).1.sessions 2 ≡ some second_session
unfolding login session_get slot_login update_slot log_in_user opened_state reset_fail_count
second_known = refl

Reachable-login_example : first_session.logged_in ≡ second_session.logged_in
Reachable-login_example =
    Reachable-login (login 1 cku_user opened).1 1 2 first_session second_session
      (after opened-Reachable (logging_in 1 cku_user)) first_known second_known refl

Reachable-state_example :
    (second_session.state ≡ opened_state 1 6) × ((second_session.logged_in ≢ 2) ⊎ (is_rw 6 ≡ true))
Reachable-state_example =
    Reachable-state (login 1 cku_user opened).1 2 second_session
      (after opened-Reachable (logging_in 1 cku_user)) second_known

abbrev first_open : Session
first_open = record zero_session { in_use = true; slot_id = 1; flags = 4 }

abbrev second_open : Session
second_open = record zero_session {
  in_use = true;
  slot_id = 1;
  flags = 6;
  state = rw_public_session;
}

login-session_get_example :
    let now = session_get (login 1 cku_user opened).1.sessions 2 in
    ((second_open.slot_id ≢ first_open.slot_id) × (now ≡ some second_open))
    ⊎ ((second_open.slot_id ≡ first_open.slot_id)
        × (second_open.logged_in ≡ 0)
        × (((cku_user ≡ cku_user)
              × (now
                  ≡ some (record second_open {
                    logged_in = 1;
                    state =
                        (if is_rw second_open.flags then rw_user_functions else ro_user_functions);
                  })))
            ⊎ ((cku_user ≡ cku_so)
                × (is_rw second_open.flags ≡ true)
                × (now ≡ some (record second_open { logged_in = 2; state = rw_so_functions })))))
unfolding login session_get slot_login
login-session_get_example =
    login-session_get opened 1 cku_user 2 first_open second_open refl refl refl

abbrev by_id : List (ℕ × Option (List ℕ))
by_id = (cka_id, some (7 ∷ [])) ∷ []

abbrev maxes : List ℕ
maxes = 1 ∷ 1 ∷ 62 ∷ []

find_init_calls_example :
    (s : Session) × (session_get (find_objects_init 2 by_id opened).1.sessions 2 ≡ some s)
    × (copy_template by_id ≡ some s.find_tmpl)
    × ((find_calls 2 maxes (find_objects_init 2 by_id opened).1).0
        ≡ ok (all_matching (find_objects_init 2 by_id opened).1 s))
unfolding find_objects_init session_get copy_template sum
find_init_calls_example = find_init_calls opened 2 by_id maxes refl refl (omega arith)

-- The ring is about to go around the end of its array.
abbrev ring : Ring
ring = record {
  ready = true;
  lock_ok = true;
  head = 63;
  tail = 63;
  dropped = 0;
  queue = replicate 64 no_slot;
}

abbrev ops : List (Event ⊎ Unit {0})
ops =
    inl (record { slot_id = 1; arrived = true })
    ∷ inl (record { slot_id = 2; arrived = true })
    ∷ inr tt
    ∷ inr tt
    ∷ inr tt
    ∷ []

run-run_queue_example : run ops ring ≡ run_queue ops (view ring)
unfolding IsRing
run-run_queue_example = run-run_queue ops ring (refl, refl, omega arith, omega arith, refl)

replicate-zero_slot : (n k : ℕ) → get_or (replicate n zero_slot) k zero_slot ≡ zero_slot
replicate-zero_slot zero k = refl
replicate-zero_slot (suc n) zero = refl
replicate-zero_slot (suc n) (suc k) = replicate-zero_slot n k

empty-Distinct : Distinct empty.slots
unfolding is_token
empty-Distinct vid pid i j a b x y = absurd (ground (arith, replicate-zero_slot 16 i))

plugged_by_call : (slot_add 0x1050 0x0407 empty).1.slots ≡ plugged.slots
unfolding slot_add find_slot find_from is_token is_free lookup
plugged_by_call = refl

plugged-Distinct : Distinct plugged.slots
plugged-Distinct =
    subst Distinct plugged_by_call (slot_add-Distinct 0x1050 0x0407 empty empty-Distinct)

gone : (slot_remove 0x1050 0x0407 opened).0 ≡ some 1
unfolding slot_remove find_slot find_from is_here is_token
gone = refl

slot_remove-slot_add_example :
    (slot_add 0x1050 0x0407 (slot_remove 0x1050 0x0407 opened).1).0 ≡ some 1
unfolding lookup
slot_remove-slot_add_example =
    slot_remove-slot_add 0x1050 0x0407 1
      (row 0x1050 0x0407 "YubiKey 5 NFC" piv quirk_extended_apdu 0x31) opened plugged-Distinct refl
      gone

-- A session on slot 2 stays.
abbrev other_session : Session
other_session = record zero_session { in_use = true; slot_id = 2; flags = 4 }

abbrev also_other : Library
also_other = record plugged { sessions = other_session ∷ replicate 7 zero_session }

slot_remove-session_get_example : other_session.slot_id ≢ 1
unfolding slot_remove find_slot find_from is_here is_token session_get update_slot
slot_remove-session_get_example =
    slot_remove-session_get 0x1050 0x0407 1 1 also_other other_session refl refl

-- A session that signs with key 3.
abbrev signing : Library
signing = record plugged {
  sessions =
      record zero_session {
        in_use = true;
        slot_id = 1;
        flags = 4;
        sign_active = true;
        sign_key = 3;
      }
      ∷ replicate 7 zero_session;
}

abbrev idle_session : Session
idle_session = record zero_session { in_use = true; slot_id = 1; flags = 4 }

destroy_object_ok_example :
    (key_get (destroy_object 1 3 signing).1.keys 3 ≡ none)
    × (key_get (destroy_object 1 3 signing).1.keys 1 ≡ key_get signing.keys 1)
    × NoReference 3 idle_session
unfolding destroy_object session_get key_get forget_all forget_key forget_sign forget_verify
    forget_encrypt forget_decrypt
destroy_object_ok_example =
    destroy_object_ok signing 1 3 1 1 idle_session refl refl (λ e. absurd (omega arith)) refl
