-- ===== src/Cryptoki/Objects/Laws.antt =====
-- Destroyed keys and the references of sessions to them, in src/wp11_pkcs11.c.
use wolf_p.Prelude.{
  ℕ, zero, suc, ◌-◌, ◌≤◌, ◌≡◌, ◌≢◌, refl, sym, ◌∙◌, ap, subst, true, false, none, some,
  Option-cases, List, [], ◌∷◌, get_or, set, length, get_or-set_ne, get_or-set_self, arith,
  Result-cases, ok, err, inl, inr, ap₂,
}
use wolf_p.Cryptoki.State.{
  Ckr, is_rw, Session, zero_session, KeyObj, zero_key, Library, session_get, key_get, max_keys,
}
use wolf_p.Cryptoki.Sessions.Inv.{AllFit, Inv, keep-Inv}
use wolf_p.Cryptoki.Sessions.{opened_state}
use wolf_p.Cryptoki.Objects.{
  forget_sign, forget_verify, forget_encrypt, forget_decrypt, forget_key, forget_all, destroyed,
  destroy_object,
}

-- No operation of a session refers to a key.
abbrev pub NoReference : ℕ → Session → Type 0
NoReference h s = (s.sign_key ≢ h) × (s.verify_key ≢ h) × (s.encrypt_key ≢ h) × (s.decrypt_key ≢ h)

forget_key-NoReference :
    (h : ℕ) (s : Session) → 1 ≤ h → s.in_use ≡ true → NoReference h (forget_key h s)
unfolding forget_key forget_sign forget_verify forget_encrypt forget_decrypt
forget_key-NoReference h s pos used = (ground arith, ground arith, ground arith, ground arith)

-- A session's other fields stay.
forget_key-same :
    (h : ℕ) (s : Session)
    → ((forget_key h s).in_use ≡ s.in_use)
      × ((forget_key h s).slot_id ≡ s.slot_id)
      × ((forget_key h s).logged_in ≡ s.logged_in)
      × ((forget_key h s).state ≡ s.state)
      × ((forget_key h s).flags ≡ s.flags)
unfolding forget_key forget_sign forget_verify forget_encrypt forget_decrypt
forget_key-same h s = (ground arith, ground arith, ground arith, ground arith, ground arith)

get_or-forget_all :
    (h i : ℕ) (ss : List Session)
    → 1 ≤ h
    → (get_or (forget_all h ss) i zero_session).in_use ≡ true
    → NoReference h (get_or (forget_all h ss) i zero_session)
unfolding forget_all
get_or-forget_all h i [] pos used = absurd (ground arith)
get_or-forget_all h zero (s ∷ ss) pos used =
    forget_key-NoReference h s pos (sym (forget_key-same h s).0 ∙ used)
get_or-forget_all h (suc i) (s ∷ ss) pos used = get_or-forget_all h i ss pos used

session_get-entry :
    (ss : List Session) (k : ℕ) (s : Session)
    → session_get ss k ≡ some s
    → (get_or ss (k - 1) zero_session ≡ s) × (s.in_use ≡ true)
unfolding session_get
session_get-entry ss k s known = (ground arith, ground arith)

-- What a success leaves behind.
destroy_object_effect :
    (g : Library) (session h : ℕ)
    → (destroy_object session h g).0 ≡ ok tt
    → (obj : KeyObj) × (key_get g.keys h ≡ some obj)
      × ((destroy_object session h g).1.keys ≡ set g.keys (h - 1) (destroyed obj))
      × ((destroy_object session h g).1.sessions ≡ forget_all h g.sessions)
unfolding destroy_object
destroy_object_effect g session h done = elim (Option-cases (session_get g.sessions session)) [
  | inl unknown ↦ absurd (ground arith)
  | inr (s, known) ↦ elim (Option-cases (key_get g.keys h)) [
    | inl lost ↦ absurd (ground arith)
    | inr (obj, found) ↦ (obj, found, ground arith, ground arith)
  ]
]

key_get-range :
    (keys : List KeyObj) (h : ℕ) (obj : KeyObj)
    → key_get keys h ≡ some obj
    → (1 ≤ h) × (h ≤ max_keys)
unfolding key_get
key_get-range keys h obj found = (ground arith, ground arith)

key_get-free :
    (keys : List KeyObj) (h : ℕ) (obj : KeyObj)
    → get_or keys (h - 1) zero_key ≡ obj
    → obj.in_use ≡ false
    → key_get keys h ≡ none
unfolding key_get
key_get-free keys h obj e free = ground arith

key_get-entry :
    (keys keys' : List KeyObj) (j : ℕ)
    → (1 ≤ j → get_or keys' (j - 1) zero_key ≡ get_or keys (j - 1) zero_key)
    → key_get keys' j ≡ key_get keys j
unfolding key_get
key_get-entry keys keys' zero same = refl
key_get-entry keys keys' (suc j) same = ground (arith, same (omega arith))

destroyed_free : (obj : KeyObj) → (destroyed obj).in_use ≡ false
unfolding destroyed
destroyed_free obj = refl

-- In a key table of full size, when an object has been destroyed, its handle gives no object any
-- more, every other handle gives what it gave, and no session that a handle gives names the
-- object as the key of an operation.
pub destroy_object_ok :
    (g : Library) (session h j k : ℕ) (s : Session)
    → length g.keys ≡ max_keys
    → (destroy_object session h g).0 ≡ ok tt
    → j ≢ h
    → session_get (destroy_object session h g).1.sessions k ≡ some s
    → (key_get (destroy_object session h g).1.keys h ≡ none)
      × (key_get (destroy_object session h g).1.keys j ≡ key_get g.keys j)
      × NoReference h s
destroy_object_ok g session h j k s size done other known =
    let (obj, found, keys_are, sessions_are) = destroy_object_effect g session h done in
    let (low, high) = key_get-range g.keys h obj found in
    let gone = destroyed obj in
    let keys' = set g.keys (h - 1) gone in
    let (entry, used) =
      session_get-entry (forget_all h g.sessions) k s
        (subst (λ ss. session_get ss k ≡ some s) sessions_are known) in
    (
      subst (λ ks. key_get ks h ≡ none) (sym keys_are)
          (key_get-free keys' h gone (get_or-set_self g.keys (h - 1) gone zero_key (omega arith))
            (destroyed_free obj)),
      subst (λ ks. key_get ks j ≡ key_get g.keys j) (sym keys_are)
          (key_get-entry g.keys keys' j
            (λ pos. get_or-set_ne g.keys (h - 1) (j - 1) gone zero_key (apart pos low))),
      subst (NoReference h) entry
          (get_or-forget_all h (k - 1) g.sessions low (ap (λ x. x.in_use) entry ∙ used)),
    )
  where
    apart : 1 ≤ j → 1 ≤ h → h - 1 ≢ j - 1
    apart a b e = other (omega arith)

destroy_object_err :
    (g : Library) (session h : ℕ) (e : Ckr)
    → (destroy_object session h g).0 ≡ err e
    → (destroy_object session h g).1.sessions ≡ g.sessions
unfolding destroy_object
destroy_object_err g session h e fails = ground arith

-- The sessions' logins and states are kept.
pub forget_all-AllFit :
    (of_slot : ℕ → ℕ) (h : ℕ) (ss : List Session)
    → AllFit of_slot ss
    → AllFit of_slot (forget_all h ss)
unfolding forget_all
forget_all-AllFit of_slot h [] a = tt
forget_all-AllFit of_slot h (s ∷ ss) (f, a) =
    let (used, slot, login, state, flags) = forget_key-same h s in
    (
      λ live.
          let (same, state_ok, rw_ok, small) = f (sym used ∙ live) in
          (
            login ∙ same ∙ ap of_slot (sym slot),
            state ∙ state_ok ∙ ap₂ opened_state (sym login) (sym flags),
            λ so. ap is_rw flags ∙ rw_ok (sym login ∙ so),
            omega (arith, login, small),
          ),
      forget_all-AllFit of_slot h ss a,
    )

length-forget_all : (h : ℕ) (ss : List Session) → length (forget_all h ss) ≡ length ss
unfolding forget_all
length-forget_all h [] = refl
length-forget_all h (s ∷ ss) = ap suc (length-forget_all h ss)

pub destroy_object-Inv : (g : Library) (session h : ℕ) → Inv g → Inv (destroy_object session h g).1
destroy_object-Inv g session h v = elim (Result-cases (destroy_object session h g).0) [
  | inr (e, fails) ↦ keep-Inv g _ (destroy_object_err g session h e fails) v
  | inl (tt, done) ↦
      let (obj, found, keys_are, sessions_are) = destroy_object_effect g session h done in
      record {
        of_slot = v.of_slot;
        fits =
            subst (AllFit v.of_slot) (sym sessions_are)
              (forget_all-AllFit v.of_slot h g.sessions v.fits);
        size = rw sessions_are (length-forget_all h g.sessions ∙ v.size);
      }
]
