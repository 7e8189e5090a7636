-- ===== src/Cryptoki/Machine/Secrets.antt =====
-- Secret keys that C_GetAttributeValue of src/wp11_pkcs11.c does not give out, whatever calls come
-- before it.
use wolf_p.Prelude.{
  ℕ, ◌-◌, ◌≡◌, ◌≢◌, sym, ap, subst, ◌∙◌, Option, none, some, Option-cases, List, get_elem?, arith,
  ok, inl, inr,
}
use wolf_p.Cryptoki.State.{KeyObj, Library, key_get}
use wolf_p.Cryptoki.Machine.{
  Step, opening, closing, closing_all, logging_in, logging_out, starting_find, finding, ending_find,
  starting_sign, signing, destroying, starting_verify, verifying, starting_encrypt, encrypting,
  encrypting_part, ending_encrypt, starting_digest, digesting, digesting_part, digesting_key,
  ending_digest, creating, copying, setting, arriving, leaving,
}
use wolf_p.Cryptoki.Verify.{verify_init, verify}
use wolf_p.Cryptoki.EncryptInit.{encrypt_init}
use wolf_p.Cryptoki.Encrypt.{encrypt, encrypt_update, encrypt_final}
use wolf_p.Cryptoki.Digest.{digest_init, digest, digest_update, digest_key, digest_final}
use wolf_p.Cryptoki.Machine.Touches.{Touches-keys}
use wolf_p.Cryptoki.Machine.Operations.{verify-Touches, verify_init-Touches}
use wolf_p.Cryptoki.Machine.Ciphers.{encrypt_init-Touches}
use wolf_p.Cryptoki.Machine.Calls.{encrypt-Touches, encrypt_final-Touches, encrypt_update-Touches}
use wolf_p.Cryptoki.Machine.Digests.{
  digest-Touches, digest_final-Touches, digest_init-Touches, digest_key-Touches,
  digest_update-Touches,
}
use wolf_p.Cryptoki.Machine.Kept.{key_get_entry, Keeps, set_attribute_value-Keeps}
use wolf_p.Cryptoki.Machine.Keys.{
  open_session_keys, close_session_keys, close_all_sessions_keys, login_keys, logout_keys,
  find_objects_init_keys, find_objects_keys, find_objects_final_keys, sign_init_keys, sign_keys,
  slot_add_keys, slot_remove_keys,
}
use wolf_p.Cryptoki.Objects.{destroyed, destroy_object}
use wolf_p.Cryptoki.Cka.{cka_value}
use wolf_p.Cryptoki.Attributes.{Export, Query, Reply, Fault, get_attribute_value}
use wolf_p.Cryptoki.Attributes.Laws.{IsKept, IsKept-get_attribute_value}
use wolf_p.Cryptoki.Create.{create_object, copy_object}
use wolf_p.Cryptoki.Create.Laws.{key_get-set_other}
use wolf_p.Cryptoki.Create.Keeps.{Fills-key_get, create_object-Fills, copy_object-Fills}

-- A step that does not destroy the object of a handle.
abbrev Spares : ℕ → {g g' : Library} → Step g g' → Type 0
Spares h (destroying session k) = k ≢ h
Spares h step = Unit {0}

-- The states behind any number of such steps.
pub data Run (h : ℕ) (g : Library) : Library → Type 0 where
  stay : Run h g g
  next : {g' g'' : Library} → Run h g g' → (step : Step g' g'') → Spares h step → Run h g g''

same-Keeps : (h : ℕ) (ks ks' : List KeyObj) → ks' ≡ ks → Keeps h ks → Keeps h ks'
same-Keeps h ks ks' same (obj, found, kept) = (obj, ap (λ ks. key_get ks h) same ∙ found, kept)

destroy_object-Keeps :
    (session k h : ℕ) (g : Library)
    → k ≢ h
    → Keeps h g.keys
    → Keeps h (destroy_object session k g).1.keys
unfolding destroy_object
destroy_object-Keeps session k h g other (obj, found, kept) =
    elim (Option-cases (key_get g.keys k)) [
      | inl lost ↦ (obj, ground arith, kept)
      | inr (gone, there) ↦
          let (low, high, entry, live) = key_get_entry g.keys k gone there in
          (
            obj,
            ground (
              arith,
              key_get-set_other g.keys (k - 1) h (destroyed gone) (λ e. other (omega arith)),
            ),
            kept,
          )
    ]

Step-Keeps :
    {g g' : Library} (h : ℕ) (step : Step g g') → Spares h step → Keeps h g.keys → Keeps h g'.keys
Step-Keeps {g} h (opening slot flags out) spared k =
    same-Keeps h g.keys _ (open_session_keys slot flags out g) k
Step-Keeps {g} h (closing session) spared k = same-Keeps h g.keys _ (close_session_keys session g) k
Step-Keeps {g} h (closing_all slot) spared k =
    same-Keeps h g.keys _ (close_all_sessions_keys slot g) k
Step-Keeps {g} h (logging_in session user) spared k =
    same-Keeps h g.keys _ (login_keys session user g) k
Step-Keeps {g} h (logging_out session) spared k = same-Keeps h g.keys _ (logout_keys session g) k
Step-Keeps {g} h (starting_find session attrs) spared k =
    same-Keeps h g.keys _ (find_objects_init_keys session attrs g) k
Step-Keeps {g} h (finding session max out) spared k =
    same-Keeps h g.keys _ (find_objects_keys session max out g) k
Step-Keeps {g} h (ending_find session) spared k =
    same-Keeps h g.keys _ (find_objects_final_keys session g) k
Step-Keeps {g} h (starting_sign session key mechanism) spared k =
    same-Keeps h g.keys _ (sign_init_keys session key mechanism g) k
Step-Keeps {g} h (signing signer session data_given has_sig len) spared k =
    same-Keeps h g.keys _ (sign_keys signer session data_given has_sig len g) k
Step-Keeps {g} handle (starting_verify h key mechanism) spared k =
    same-Keeps handle g.keys _
      (Touches-keys g (verify_init h mechanism key g).1 h (verify_init-Touches h key mechanism g)) k
Step-Keeps {g} handle (verifying verifier h data_given sig_given) spared k =
    same-Keeps handle g.keys _
      (Touches-keys g (verify verifier h data_given sig_given g).1 h
        (verify-Touches verifier h data_given sig_given g))
      k
Step-Keeps {g} handle (starting_encrypt cipher h key mechanism) spared k =
    same-Keeps handle g.keys _
      (Touches-keys g (encrypt_init cipher h mechanism key g).1 h
        (encrypt_init-Touches cipher h key mechanism g))
      k
Step-Keeps {g} handle (encrypting cipher h data_given has_out len) spared k =
    same-Keeps handle g.keys _
      (Touches-keys g (encrypt cipher h data_given has_out len g).1 h
        (encrypt-Touches cipher h has_out g data_given len))
      k
Step-Keeps {g} handle (encrypting_part cipher h part_given has_out len) spared k =
    same-Keeps handle g.keys _
      (Touches-keys g (encrypt_update cipher h part_given has_out len g).1 h
        (encrypt_update-Touches cipher h has_out g part_given len))
      k
Step-Keeps {g} handle (ending_encrypt h has_out) spared k =
    same-Keeps handle g.keys _
      (Touches-keys g (encrypt_final h has_out g).1 h (encrypt_final-Touches h has_out g)) k
Step-Keeps {g} handle (starting_digest h mechanism) spared k =
    same-Keeps handle g.keys _
      (Touches-keys g (digest_init h mechanism g).1 h (digest_init-Touches h mechanism g)) k
Step-Keeps {g} handle (digesting finish h data_given has_out len) spared k =
    same-Keeps handle g.keys _
      (Touches-keys g (digest finish h data_given has_out len g).1 h
        (digest-Touches finish h has_out g data_given len))
      k
Step-Keeps {g} handle (digesting_part h piece) spared k =
    same-Keeps handle g.keys _
      (Touches-keys g (digest_update h piece g).1 h (digest_update-Touches h piece g)) k
Step-Keeps {g} handle (digesting_key h key) spared k =
    same-Keeps handle g.keys _
      (Touches-keys g (digest_key h key g).1 h (digest_key-Touches h key g)) k
Step-Keeps {g} handle (ending_digest finish h has_out len) spared k =
    same-Keeps handle g.keys _
      (Touches-keys g (digest_final finish h has_out len g).1 h
        (digest_final-Touches finish h has_out g len))
      k
Step-Keeps {g} h (destroying session other) spared k =
    destroy_object-Keeps session other h g spared k
Step-Keeps {g} h (creating memory session template has_out) spared (obj, found, kept) = (
  obj,
  Fills-key_get g (create_object memory session template has_out g).1 h obj found
      (create_object-Fills memory session template has_out g),
  kept,
)
Step-Keeps {g} h (copying memory session src template has_out) spared (obj, found, kept) = (
  obj,
  Fills-key_get g (copy_object memory session src template has_out g).1 h obj found
      (copy_object-Fills memory session src template has_out g),
  kept,
)
Step-Keeps {g} h (setting session other template) spared k =
    set_attribute_value-Keeps session other h template g k
Step-Keeps {g} h (arriving vid pid) spared k = same-Keeps h g.keys _ (slot_add_keys vid pid g) k
Step-Keeps {g} h (leaving vid pid) spared k = same-Keeps h g.keys _ (slot_remove_keys vid pid g) k

Run-Keeps : (h : ℕ) {g g' : Library} → Run h g g' → Keeps h g.keys → Keeps h g'.keys
Run-Keeps h stay k = k
Run-Keeps h (next run step spared) k = Step-Keeps h step spared (Run-Keeps h run k)

-- If a handle gives a secret key that was made in the library and is sensitive or not extractable,
-- then after any number of the steps of `Step` other than destroying that object, be they
-- C_SetAttributeValue or C_CopyObject on it or calls on other objects with any arguments,
-- C_GetAttributeValue with that handle writes nothing for CKA_VALUE and sets its length to
-- CK_UNAVAILABLE_INFORMATION, wherever the template names it.
pub Run-get_attribute_value :
    (export : Export) (g g' : Library) (session h i : ℕ) (obj : KeyObj) (qs : List Query)
    (q : Query) (worst : Option Fault) (rs : List Reply)
    → key_get g.keys h ≡ some obj
    → IsKept obj
    → Run h g g'
    → (get_attribute_value export session h (some qs) g').0 ≡ ok (worst, rs)
    → get_elem? qs i ≡ some q
    → q.kind ≡ cka_value
    → get_elem? rs i ≡ some (record { written = none; new_len = none })
Run-get_attribute_value export g g' session h i obj qs q worst rs found kept run done entry value =
    let (obj', found', kept') = Run-Keeps h run (obj, found, kept) in
    IsKept-get_attribute_value export g' session h i qs q worst rs
      (λ o e. subst IsKept (some_eq obj' o (sym found' ∙ e)) kept') done entry value
  where
    some_eq : (a b : KeyObj) → some a ≡ some b → a ≡ b
    some_eq a b e = cc
