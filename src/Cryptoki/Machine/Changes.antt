-- ===== src/Cryptoki/Machine/Changes.antt =====
-- What the calls of src/wp11_pkcs11.c that write back a session leave of the session table's
-- invariant.
use wolf_p.Prelude.{
  ℕ, zero, suc, ◌-◌, ◌≡◌, sym, ◌∙◌, subst, Bool, true, false, Option, some, Option-cases, List, [],
  ◌∷◌, get_or, set, replicate, length-set, arith, Result-cases, ◌⊎◌, inl, inr,
}
use wolf_p.Cryptoki.State.{max_keys, FindAttr, Session, zero_session, Library, session_get}
use wolf_p.Cryptoki.Sessions.Inv.{Fits, AllFit, Inv, keep-Inv, set-AllFit, zero-Fits}
use wolf_p.Cryptoki.Find.{
  find_loop, found_at, find_objects_init, find_objects, find_objects_final, put_session,
  copy_template,
}
use wolf_p.Cryptoki.Sign.Change.{Signs}

pub replicate-AllFit : (of_slot : ℕ → ℕ) (n : ℕ) → AllFit of_slot (replicate n zero_session)
replicate-AllFit of_slot zero = tt
replicate-AllFit of_slot (suc n) = (zero-Fits of_slot, replicate-AllFit of_slot n)

get_or-AllFit :
    (of_slot : ℕ → ℕ) (ss : List Session) (i : ℕ)
    → AllFit of_slot ss
    → Fits of_slot (get_or ss i zero_session)
get_or-AllFit of_slot [] i a = zero-Fits of_slot
get_or-AllFit of_slot (s ∷ ss) zero (f, a) = f
get_or-AllFit of_slot (s ∷ ss) (suc i) (f, a) = get_or-AllFit of_slot ss i a

pub session_get-AllFit :
    (of_slot : ℕ → ℕ) (ss : List Session) (h : ℕ) (s : Session)
    → AllFit of_slot ss
    → session_get ss h ≡ some s
    → (s.in_use ≡ true) × Fits of_slot s
unfolding session_get
session_get-AllFit of_slot ss h s a known =
    let same : get_or ss (h - 1) zero_session ≡ s = ground arith in
    (ground arith, subst (Fits of_slot) same (get_or-AllFit of_slot ss (h - 1) a))

-- A call that writes back a session with the same slot, login, state and flags.
pub put-Inv :
    (g g' : Library) (h : ℕ) (s s' : Session)
    → session_get g.sessions h ≡ some s
    → ((of_slot : ℕ → ℕ) → Fits of_slot s → Fits of_slot s')
    → g'.sessions ≡ set g.sessions (h - 1) s'
    → Inv g
    → Inv g'
put-Inv g g' h s s' known fit e v = record {
  of_slot = v.of_slot;
  fits = subst (AllFit v.of_slot) (sym e) (
      set-AllFit v.of_slot g.sessions (h - 1) s'
        (fit v.of_slot (session_get-AllFit v.of_slot g.sessions h s v.fits known).1) v.fits);
  size = rw e (length-set g.sessions (h - 1) s' ∙ v.size);
}

-- The calls of a search change at most the search's fields of their session.
abbrev pub Searches : Library → Library → ℕ → Type 0
Searches g g' h =
    (g'.sessions ≡ g.sessions)
    ⊎ ((s : Session) × (tmpl : List FindAttr) × (active : Bool) × (pos : ℕ) × (session_get
            g.sessions h
          ≡ some s)
        × (g'.sessions
            ≡ set g.sessions (h - 1)
                (record s { find_tmpl = tmpl; find_active = active; find_pos = pos })))

pub Searches-Inv : (g g' : Library) (h : ℕ) → Searches g g' h → Inv g → Inv g'
Searches-Inv g g' h (inl same) v = keep-Inv g g' same v
Searches-Inv g g' h (inr (s, tmpl, active, pos, known, e)) v =
    put-Inv g g' h s (record s { find_tmpl = tmpl; find_active = active; find_pos = pos }) known
      (λ of_slot f. f) e v

pub find_objects_init-Searches :
    (g : Library) (h : ℕ) (attrs : List (ℕ × Option (List ℕ)))
    → Searches g (find_objects_init h attrs g).1 h
unfolding find_objects_init put_session
find_objects_init-Searches g h attrs = elim (Option-cases (session_get g.sessions h)) [
  | inl unknown ↦ inl (ground arith)
  | inr (s, known) ↦ elim (Option-cases (copy_template attrs)) [
    | inl bad ↦ inl (ground arith)
    | inr (tmpl, copied) ↦ elim (Result-cases (find_objects_init h attrs g).0) [
      | inr (e, fails) ↦ inl (ground arith)
      | inl (t, done) ↦ inr (s, tmpl, true, 0, known, ground arith)
    ]
  ]
]

pub find_objects-Searches :
    (g : Library) (h max : ℕ) (out : Bool) → Searches g (find_objects h max out g).1 h
unfolding find_objects put_session
find_objects-Searches g h max out = elim (Option-cases (session_get g.sessions h)) [
  | inl unknown ↦ inl (ground arith)
  | inr (s, known) ↦ elim (Result-cases (find_objects h max out g).0) [
    | inr (e, fails) ↦ inl (ground arith)
    | inl (hs, done) ↦ inr (
      s,
      s.find_tmpl,
      s.find_active,
      (find_loop (found_at g.keys s.slot_id s.find_tmpl) (max_keys - s.find_pos) s.find_pos max).1,
      known,
      ground arith,
    )
  ]
]

pub find_objects_final-Searches : (g : Library) (h : ℕ) → Searches g (find_objects_final h g).1 h
unfolding find_objects_final put_session
find_objects_final-Searches g h = elim (Option-cases (session_get g.sessions h)) [
  | inl unknown ↦ inl (ground arith)
  | inr (s, known) ↦ elim (Result-cases (find_objects_final h g).0) [
    | inr (e, fails) ↦ inl (ground arith)
    | inl (t, done) ↦ inr (s, [], false, s.find_pos, known, ground arith)
  ]
]

pub Signs-Inv : (g g' : Library) (h : ℕ) → Signs g g' h → Inv g → Inv g'
Signs-Inv g g' h (inl same) v = keep-Inv g g' same v
Signs-Inv g g' h (inr (s, active, mech, key, pss, known, e)) v =
    put-Inv g g' h s
      (record s { sign_active = active; sign_mech = mech; sign_key = key; pss_sign = pss }) known
      (λ of_slot f. f) e v
