-- ===== src/Cryptoki/Machine/Keys.antt =====
-- The calls of src/wp11_pkcs11.c that leave the key table alone.
use wolf_p.Prelude.{
  ℕ, ◌≡◌, refl, Bool, Option, none, some, Option-cases, List, Result, ok, err, arith, inl, inr,
}
use wolf_p.Cryptoki.State.{word32_cut, Ckr, Hash, Library, Session, KeyObj, session_get, key_get}
use wolf_p.Cryptoki.Find.{put_session, find_objects_init, find_objects, find_objects_final}
use wolf_p.Cryptoki.Sessions.{open_session, close_session, close_all_sessions, login, logout}
use wolf_p.Cryptoki.SignInit.{MechParam, sign_init, mech_hmac_type}
use wolf_p.Cryptoki.Sign.{
  Signer, sign, sign_answer, end_sign, sign_hmac, sign_pss, sign_key_op, or_failed, backend_answer,
}
use wolf_p.Cryptoki.Slots.{slot_add, slot_remove}

pub open_session_keys :
    (slot flags : ℕ) (out : Bool) (g : Library) → (open_session slot flags out g).1.keys ≡ g.keys
unfolding open_session
open_session_keys slot flags out g = ground arith

pub close_session_keys : (h : ℕ) (g : Library) → (close_session h g).1.keys ≡ g.keys
unfolding close_session
close_session_keys h g = ground arith

pub close_all_sessions_keys : (slot : ℕ) (g : Library) → (close_all_sessions slot g).1.keys ≡ g.keys
unfolding close_all_sessions
close_all_sessions_keys slot g = ground arith

pub login_keys : (h user : ℕ) (g : Library) → (login h user g).1.keys ≡ g.keys
unfolding login
login_keys h user g = ground arith

pub logout_keys : (h : ℕ) (g : Library) → (logout h g).1.keys ≡ g.keys
unfolding logout
logout_keys h g = ground arith

pub find_objects_init_keys :
    (h : ℕ) (attrs : List (ℕ × Option (List ℕ))) (g : Library)
    → (find_objects_init h attrs g).1.keys ≡ g.keys
unfolding find_objects_init put_session
find_objects_init_keys h attrs g = ground arith

pub find_objects_keys :
    (h max : ℕ) (out : Bool) (g : Library) → (find_objects h max out g).1.keys ≡ g.keys
unfolding find_objects put_session
find_objects_keys h max out g = ground arith

pub find_objects_final_keys : (h : ℕ) (g : Library) → (find_objects_final h g).1.keys ≡ g.keys
unfolding find_objects_final put_session
find_objects_final_keys h g = ground arith

pub slot_add_keys : (vid pid : ℕ) (g : Library) → (slot_add vid pid g).1.keys ≡ g.keys
unfolding slot_add
slot_add_keys vid pid g = ground arith

pub slot_remove_keys : (vid pid : ℕ) (g : Library) → (slot_remove vid pid g).1.keys ≡ g.keys
unfolding slot_remove
slot_remove_keys vid pid g = ground arith

pub sign_init_keys :
    (h key : ℕ) (mechanism : Option (ℕ × MechParam)) (g : Library)
    → (sign_init h mechanism key g).1.keys ≡ g.keys
unfolding sign_init put_session
sign_init_keys h key none g = ground arith
sign_init_keys h key (some (mech, p)) g = ground arith

sign_answer_keys :
    (g : Library) (h : ℕ) (s : Session) (r : Result Ckr (List ℕ))
    → (sign_answer g h s r).1.keys ≡ g.keys
unfolding sign_answer end_sign put_session
sign_answer_keys g h s (ok v) = refl
sign_answer_keys g h s (err e) = refl

module _ (signer : Signer) (g : Library) (h : ℕ) (s : Session) (obj : KeyObj) (data_in : List ℕ)
    (room : ℕ) where
  sign_hmac_keys :
      (hash : Hash) (has_sig : Bool)
      → (sign_hmac signer g h s obj hash data_in has_sig room).1.keys ≡ g.keys
  unfolding sign_hmac end_sign put_session
  sign_hmac_keys hash has_sig = ground (
    arith,
    sign_answer_keys g h s
        (or_failed (signer.hmac hash (word32_cut obj.secret) (word32_cut data_in))),
  )

  sign_key_op_keys :
      (has_sig : Bool) → (sign_key_op signer g h s obj data_in has_sig room).1.keys ≡ g.keys
  unfolding sign_key_op sign_pss end_sign put_session
  sign_key_op_keys has_sig = ground (
    arith,
    sign_answer_keys g h s (or_failed (signer.pss_sign obj data_in room s.pss_sign)),
    sign_answer_keys g h s (backend_answer (signer.sign obj s.sign_mech data_in room)),
  )

pub sign_keys :
    (signer : Signer) (h : ℕ) (data_given : Option (List ℕ)) (has_sig : Bool) (len : Option ℕ)
    (g : Library)
    → (sign signer h data_given has_sig len g).1.keys ≡ g.keys
unfolding sign end_sign put_session
sign_keys signer h none has_sig len g = ground arith
sign_keys signer h (some data_in) has_sig none g = ground arith
sign_keys signer h (some data_in) has_sig (some room) g =
    elim (Option-cases (session_get g.sessions h)) [
      | inl unknown ↦ ground arith
      | inr (s, known) ↦ elim (Option-cases (key_get g.keys s.sign_key)) [
        | inl no_key ↦ ground arith
        | inr (obj, has_key) ↦ elim (Option-cases (mech_hmac_type s.sign_mech)) [
          | inl not_hmac ↦ ground (arith, sign_key_op_keys signer g h s obj data_in room has_sig)
          | inr (hash, is_hmac) ↦
              ground (arith, sign_hmac_keys signer g h s obj data_in room hash has_sig)
        ]
      ]
    ]
