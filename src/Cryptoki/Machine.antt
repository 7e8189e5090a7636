-- ===== src/Cryptoki/Machine.antt =====
-- The session table of src/wp11_pkcs11.c after any sequence of calls and of hotplug
-- changes.
mod Examples
pub mod Changes
pub mod Keys
pub mod Touches
pub mod Operations
pub mod Ciphers
pub mod Calls
pub mod Digests
pub mod Kept
pub mod Secrets
use wolf_p.Prelude.{
  ℕ, zero, suc, ◌-◌, ◌≡◌, sym, ◌∙◌, ap, subst, Bool, true, false, Option, some, Option-cases, List,
  [], ◌∷◌, get_or, set, replicate, length, length-replicate, length-set, arith, Result-cases, ◌≢◌,
  ◌⊎◌, inl, inr,
}
use wolf_p.Cryptoki.State.{
  max_keys, FindAttr, Session, zero_session, Library, max_sessions, is_rw, session_get,
}
use wolf_p.Cryptoki.Sessions.{
  opened_state, open_session, close_session, close_all_sessions, login, logout,
}
use wolf_p.Cryptoki.Sessions.Inv.{
  Fits, AllFit, Inv, keep-Inv, set-AllFit, zero-Fits, drop_sessions-Inv, open_session-Inv,
  close_session-Inv, close_all_sessions-Inv, login-Inv, logout-Inv,
}
use wolf_p.Cryptoki.Find.{
  find_loop, found_at, find_objects_init, find_objects, find_objects_final, put_session,
  copy_template,
}
use wolf_p.Cryptoki.Machine.Changes.{
  replicate-AllFit, session_get-AllFit, Searches-Inv, find_objects_init-Searches,
  find_objects-Searches, find_objects_final-Searches, Signs-Inv,
}
use wolf_p.Cryptoki.Verify.{Verifier, verify_init, verify}
use wolf_p.Cryptoki.EncryptInit.{Cipher, CipherParam, encrypt_init}
use wolf_p.Cryptoki.Encrypt.{encrypt, encrypt_update, encrypt_final}
use wolf_p.Cryptoki.Digest.{digest_init, digest, digest_update, digest_key, digest_final}
use wolf_p.Cryptoki.Machine.Touches.{Touches-Inv}
use wolf_p.Cryptoki.Machine.Operations.{verify-Touches, verify_init-Touches}
use wolf_p.Cryptoki.Machine.Ciphers.{encrypt_init-Touches}
use wolf_p.Cryptoki.Machine.Calls.{encrypt-Touches, encrypt_final-Touches, encrypt_update-Touches}
use wolf_p.Cryptoki.Machine.Digests.{
  digest-Touches, digest_final-Touches, digest_init-Touches, digest_key-Touches,
  digest_update-Touches,
}
use wolf_p.Cryptoki.Attributes.{set_attribute_value}
use wolf_p.Cryptoki.Create.{Attr, create_object, copy_object}
use wolf_p.Cryptoki.Create.Keeps.{
  create_object_sessions, copy_object_sessions, set_attribute_value_sessions,
}
use wolf_p.Cryptoki.SignInit.{MechParam, sign_init}
use wolf_p.Cryptoki.Sign.{Signer, sign}
use wolf_p.Cryptoki.Sign.Change.{Signs, sign_init-Signs, sign-Signs}
use wolf_p.Cryptoki.Objects.{destroy_object}
use wolf_p.Cryptoki.Objects.Laws.{destroy_object-Inv}
use wolf_p.Cryptoki.Slots.{slot_add, slot_remove, find_slot, is_here}

-- One call, or one change by the hotplug callback, with any arguments.
pub data Step : Library → Library → Type 0 where
  opening : {g : Library} (slot flags : ℕ) (out : Bool) → Step g (open_session slot flags out g).1
  closing : {g : Library} (h : ℕ) → Step g (close_session h g).1
  closing_all : {g : Library} (slot : ℕ) → Step g (close_all_sessions slot g).1
  logging_in : {g : Library} (h user : ℕ) → Step g (login h user g).1
  logging_out : {g : Library} (h : ℕ) → Step g (logout h g).1
  starting_find :
      {g : Library} (h : ℕ) (attrs : List (ℕ × Option (List ℕ)))
      → Step g (find_objects_init h attrs g).1
  finding : {g : Library} (h max : ℕ) (out : Bool) → Step g (find_objects h max out g).1
  ending_find : {g : Library} (h : ℕ) → Step g (find_objects_final h g).1
  starting_sign :
      {g : Library} (h key : ℕ) (mechanism : Option (ℕ × MechParam))
      → Step g (sign_init h mechanism key g).1
  signing :
      {g : Library} (signer : Signer) (h : ℕ) (data_given : Option (List ℕ)) (has_sig : Bool)
      (len : Option ℕ)
      → Step g (sign signer h data_given has_sig len g).1
  starting_verify :
      {g : Library} (h key : ℕ) (mechanism : Option (ℕ × MechParam))
      → Step g (verify_init h mechanism key g).1
  verifying :
      {g : Library} (verifier : Verifier) (h : ℕ) (data_given sig_given : Option (List ℕ))
      → Step g (verify verifier h data_given sig_given g).1
  starting_encrypt :
      {g : Library} (cipher : Cipher) (h key : ℕ) (mechanism : Option (ℕ × CipherParam))
      → Step g (encrypt_init cipher h mechanism key g).1
  encrypting :
      {g : Library} (cipher : Cipher) (h : ℕ) (data_given : Option (List ℕ)) (has_out : Bool)
      (len : Option ℕ)
      → Step g (encrypt cipher h data_given has_out len g).1
  encrypting_part :
      {g : Library} (cipher : Cipher) (h : ℕ) (part_given : Option (List ℕ)) (has_out : Bool)
      (len : Option ℕ)
      → Step g (encrypt_update cipher h part_given has_out len g).1
  ending_encrypt : {g : Library} (h : ℕ) (has_out : Bool) → Step g (encrypt_final h has_out g).1
  starting_digest :
      {g : Library} (h : ℕ) (mechanism : Option ℕ) → Step g (digest_init h mechanism g).1
  digesting :
      {g : Library} (finish : ℕ → List (List ℕ) → List ℕ) (h : ℕ) (data_given : Option (List ℕ))
      (has_out : Bool) (len : Option ℕ)
      → Step g (digest finish h data_given has_out len g).1
  digesting_part :
      {g : Library} (h : ℕ) (piece : Option (List ℕ)) → Step g (digest_update h piece g).1
  digesting_key : {g : Library} (h key : ℕ) → Step g (digest_key h key g).1
  ending_digest :
      {g : Library} (finish : ℕ → List (List ℕ) → List ℕ) (h : ℕ) (has_out : Bool) (len : Option ℕ)
      → Step g (digest_final finish h has_out len g).1
  destroying : {g : Library} (session h : ℕ) → Step g (destroy_object session h g).1
  creating :
      {g : Library} (memory : ℕ → Bool) (session : ℕ) (template : Option (List Attr))
      (has_out : Bool)
      → Step g (create_object memory session template has_out g).1
  copying :
      {g : Library} (memory : ℕ → Bool) (session h : ℕ) (template : Option (List Attr))
      (has_out : Bool)
      → Step g (copy_object memory session h template has_out g).1
  setting :
      {g : Library} (session h : ℕ) (template : Option (List (ℕ × Option (List ℕ))))
      → Step g (set_attribute_value session h template g).1
  arriving : {g : Library} (vid pid : ℕ) → Step g (slot_add vid pid g).1
  leaving : {g : Library} (vid pid : ℕ) → Step g (slot_remove vid pid g).1

-- What is reached from a session table as C_Initialize leaves it, with no session.
pub data Reachable : Library → Type 0 where
  start : {g : Library} → g.sessions ≡ replicate max_sessions zero_session → Reachable g
  after : {g g' : Library} → Reachable g → Step g g' → Reachable g'

slot_add_sessions : (vid pid : ℕ) (g : Library) → (slot_add vid pid g).1.sessions ≡ g.sessions
unfolding slot_add
slot_add_sessions vid pid g = ground arith

slot_remove-Inv : (vid pid : ℕ) (g : Library) → Inv g → Inv (slot_remove vid pid g).1
unfolding slot_remove
slot_remove-Inv vid pid g v = elim (Option-cases (find_slot (is_here vid pid) g.slots)) [
  | inl lost ↦ keep-Inv g _ (ground arith) v
  | inr (i, found) ↦ drop_sessions-Inv g _ i (ground arith) v
]

Step-Inv : {g g' : Library} → Step g g' → Inv g → Inv g'
Step-Inv {g} (opening slot flags out) v = open_session-Inv g slot flags out v
Step-Inv {g} (closing h) v = close_session-Inv g h v
Step-Inv {g} (closing_all slot) v = close_all_sessions-Inv g slot v
Step-Inv {g} (logging_in h user) v = login-Inv g h user v
Step-Inv {g} (logging_out h) v = logout-Inv g h v
Step-Inv {g} (starting_find h attrs) v = Searches-Inv g _ h (find_objects_init-Searches g h attrs) v
Step-Inv {g} (finding h max out) v = Searches-Inv g _ h (find_objects-Searches g h max out) v
Step-Inv {g} (ending_find h) v = Searches-Inv g _ h (find_objects_final-Searches g h) v
Step-Inv {g} (starting_sign h key mechanism) v =
    Signs-Inv g _ h (sign_init-Signs g h key mechanism) v
Step-Inv {g} (signing signer h data_given has_sig len) v =
    Signs-Inv g _ h (sign-Signs signer g h data_given has_sig len) v
Step-Inv {g} (starting_verify h key mechanism) v =
    Touches-Inv g (verify_init h mechanism key g).1 h (verify_init-Touches h key mechanism g) v
Step-Inv {g} (verifying verifier h data_given sig_given) v =
    Touches-Inv g (verify verifier h data_given sig_given g).1 h
      (verify-Touches verifier h data_given sig_given g) v
Step-Inv {g} (starting_encrypt cipher h key mechanism) v =
    Touches-Inv g (encrypt_init cipher h mechanism key g).1 h
      (encrypt_init-Touches cipher h key mechanism g) v
Step-Inv {g} (encrypting cipher h data_given has_out len) v =
    Touches-Inv g (encrypt cipher h data_given has_out len g).1 h
      (encrypt-Touches cipher h has_out g data_given len) v
Step-Inv {g} (encrypting_part cipher h part_given has_out len) v =
    Touches-Inv g (encrypt_update cipher h part_given has_out len g).1 h
      (encrypt_update-Touches cipher h has_out g part_given len) v
Step-Inv {g} (ending_encrypt h has_out) v =
    Touches-Inv g (encrypt_final h has_out g).1 h (encrypt_final-Touches h has_out g) v
Step-Inv {g} (starting_digest h mechanism) v =
    Touches-Inv g (digest_init h mechanism g).1 h (digest_init-Touches h mechanism g) v
Step-Inv {g} (digesting finish h data_given has_out len) v =
    Touches-Inv g (digest finish h data_given has_out len g).1 h
      (digest-Touches finish h has_out g data_given len) v
Step-Inv {g} (digesting_part h piece) v =
    Touches-Inv g (digest_update h piece g).1 h (digest_update-Touches h piece g) v
Step-Inv {g} (digesting_key h key) v =
    Touches-Inv g (digest_key h key g).1 h (digest_key-Touches h key g) v
Step-Inv {g} (ending_digest finish h has_out len) v =
    Touches-Inv g (digest_final finish h has_out len g).1 h
      (digest_final-Touches finish h has_out g len) v
Step-Inv {g} (destroying session h) v = destroy_object-Inv g session h v
Step-Inv {g} (creating memory session template has_out) v =
    keep-Inv g _ (create_object_sessions memory session template has_out g) v
Step-Inv {g} (copying memory session h template has_out) v =
    keep-Inv g _ (copy_object_sessions memory session h template has_out g) v
Step-Inv {g} (setting session h template) v =
    keep-Inv g _ (set_attribute_value_sessions session h template g) v
Step-Inv {g} (arriving vid pid) v = keep-Inv g _ (slot_add_sessions vid pid g) v
Step-Inv {g} (leaving vid pid) v = slot_remove-Inv vid pid g v

Reachable-Inv : {g : Library} → Reachable g → Inv g
Reachable-Inv {g} (start e) = record {
  of_slot = λ i. 0;
  fits = subst (AllFit (λ i. 0)) (sym e) (replicate-AllFit (λ i. 0) max_sessions);
  size = ap length e ∙ length-replicate max_sessions zero_session;
}
Reachable-Inv (after r step) = Step-Inv step (Reachable-Inv r)

-- In every library state that is reached from a table without sessions by the session, login,
-- search, object, attribute, signing, verifying, encryption and digest calls and the slot changes
-- of `Step`, with any arguments, the sessions that two handles give on one slot have the same
-- login.
pub Reachable-login :
    (g : Library) (h k : ℕ) (s t : Session)
    → Reachable g
    → session_get g.sessions h ≡ some s
    → session_get g.sessions k ≡ some t
    → s.slot_id ≡ t.slot_id
    → s.logged_in ≡ t.logged_in
Reachable-login g h k s t r known_s known_t same =
    let v = Reachable-Inv r in
    let (used_s, fit_s) = session_get-AllFit v.of_slot g.sessions h s v.fits known_s in
    let (used_t, fit_t) = session_get-AllFit v.of_slot g.sessions k t v.fits known_t in
    (fit_s used_s).0 ∙ ap v.of_slot same ∙ sym (fit_t used_t).0

-- In every library state that is reached from a table without sessions by the steps of `Step`,
-- the session that a handle gives has the state that its login and its flags determine, and is
-- read-write if its login is the security officer's.
pub Reachable-state :
    (g : Library) (h : ℕ) (s : Session)
    → Reachable g
    → session_get g.sessions h ≡ some s
    → (s.state ≡ opened_state s.logged_in s.flags) × ((s.logged_in ≢ 2) ⊎ (is_rw s.flags ≡ true))
Reachable-state g h s r known =
    let v = Reachable-Inv r in
    let (used, fit) = session_get-AllFit v.of_slot g.sessions h s v.fits known in
    let (same, state_ok, rw_ok, small) = fit used in (state_ok, ground (arith, rw_ok))
