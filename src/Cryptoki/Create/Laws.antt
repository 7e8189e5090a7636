-- ===== src/Cryptoki/Create/Laws.antt =====
-- Created objects in the key table of src/wp11_pkcs11.c.
use wolf_p.Prelude.{
  ℕ, zero, suc, ◌+◌, ◌-◌, ◌^◌, ◌≤◌, ◌<◌, ◌≡◌, ◌≢◌, refl, subst, ◌∙◌, Bool, Bool-cases, true, false,
  none, some, Option-cases, List, [], ◌∷◌, ltb, if◌then◌else◌, get_or, set, length, get_or-set_ne,
  get_or-set_self, arith, ok, ◌⊎◌, inl, inr,
}
use wolf_p.Cryptoki.State.{Session, KeyObj, zero_key, Library, session_get, key_get, max_keys}
use wolf_p.Cryptoki.Cka.{cko_data}
use wolf_p.Cryptoki.Create.{
  Attr, class_of, Wanted, no_wishes, wishes, free_key, is_key_class, value_bytes, fill_key,
  fill_entry, create_in, create_object,
}

-- The position is the first free one.
pub free_key-found :
    (pos i : ℕ) (ks : List KeyObj)
    → free_key pos ks ≡ some i
    → (pos ≤ i) × (i < pos + length ks) × ((get_or ks (i - pos) zero_key).in_use ≡ false)
unfolding free_key
free_key-found pos i [] e = absurd (ground arith)
free_key-found pos i (k ∷ ks) e = elim (Bool-cases k.in_use) [
  | inr free ↦
      let here : i ≡ pos = ground arith in
      (
        omega arith,
        omega arith,
        subst (λ n. (get_or (k ∷ ks) n zero_key).in_use ≡ false) (nothing here) free,
      )
  | inl used ↦
      let (low, high, free) = free_key-found (pos + 1) i ks (ground arith) in
      (
        omega arith,
        omega arith,
        subst (λ n. (get_or (k ∷ ks) n zero_key).in_use ≡ false) (next low) free,
      )
]
  where
    nothing : i ≡ pos → 0 ≡ i - pos
    nothing h = omega arith

    next : pos + 1 ≤ i → suc (i - (pos + 1)) ≡ i - pos
    next h = omega arith

pub free_key-free :
    (i : ℕ) (ks : List KeyObj)
    → free_key 0 ks ≡ some i
    → (i < length ks) × ((get_or ks i zero_key).in_use ≡ false)
free_key-free i ks e =
    let (low, high, free) = free_key-found 0 i ks e in
    (omega arith, subst (λ n. (get_or ks n zero_key).in_use ≡ false) (omega arith) free)

pub key_get-at :
    (keys : List KeyObj) (i : ℕ)
    → i < max_keys
    → key_get keys (i + 1) ≡ (let k = get_or keys i zero_key in if k.in_use then some k else none)
unfolding key_get
key_get-at keys i small = ground arith

pub key_get-set_other :
    (keys : List KeyObj) (i j : ℕ) (k : KeyObj)
    → j ≢ i + 1
    → key_get (set keys i k) j ≡ key_get keys j
unfolding key_get
key_get-set_other keys i zero k other = refl
key_get-set_other keys i (suc j) k other =
    ground (arith, get_or-set_ne keys i (suc j - 1) k zero_key (λ e. other (omega arith)))

-- An object put into a free entry.
pub key_get-put :
    (keys : List KeyObj) (i : ℕ) (k : KeyObj)
    → length keys ≡ max_keys
    → free_key 0 keys ≡ some i
    → k.in_use ≡ true
    → (key_get keys (i + 1) ≡ none) × (key_get (set keys i k) (i + 1) ≡ some k)
key_get-put keys i k size at used =
    let (low, high, free) = free_key-found 0 i keys at in
    (
      key_get-at keys i (omega arith) ∙ ground arith,
      key_get-at (set keys i k) i (omega arith)
          ∙ ground (arith, get_or-set_self keys i k zero_key (omega arith)),
    )

pub fill_entry_fields :
    (old : KeyObj) (slot class : ℕ) (w : Wanted)
    → ((fill_entry old slot class w).in_use ≡ true)
      × ((fill_entry old slot class w).slot_id ≡ slot)
      × ((fill_entry old slot class w).obj_class ≡ class)
      × ((fill_entry old slot class w).secret ≡ value_bytes w.value)
      × ((fill_entry old slot class w).has_secret ≡ ltb 0 (length (value_bytes w.value)))
      × ((fill_entry old slot class w).cert_der ≡ old.cert_der)
unfolding fill_entry fill_key
fill_entry_fields old slot class w =
    (ground arith, ground arith, ground arith, ground arith, ground arith, ground arith)

pub fill_entry_local :
    (old : KeyObj) (slot class : ℕ) (w : Wanted)
    → is_key_class class ≡ true
    → (fill_entry old slot class w).is_local ≡ false
unfolding fill_entry fill_key
fill_entry_local old slot class w key = ground arith

-- What a success of C_CreateObject does.
pub create_object_effect :
    (memory : ℕ → Bool) (session h : ℕ) (attrs : List Attr) (has_out : Bool) (g : Library)
    → (create_object memory session (some attrs) has_out g).0 ≡ ok h
    → (s : Session) × (i : ℕ) × (session_get g.sessions session ≡ some s)
      × (free_key 0 g.keys ≡ some i)
      × (h ≡ i + 1)
      × ((create_object memory session (some attrs) has_out g).1 ≡ record g {
        keys = set g.keys i (
            fill_entry
              (get_or g.keys i zero_key)
              s.slot_id
              (class_of (2 ^ 64 - 1) attrs)
              (wishes no_wishes attrs));
      })
      × ((class_of (2 ^ 64 - 1) attrs ≡ cko_data)
          ⊎ (is_key_class (class_of (2 ^ 64 - 1) attrs) ≡ true))
unfolding create_object create_in
create_object_effect memory session h attrs has_out g done =
    elim (Option-cases (session_get g.sessions session)) [
      | inl unknown ↦ absurd (ground arith)
      | inr (s, known) ↦ elim (Option-cases (free_key 0 g.keys)) [
        | inl full ↦ absurd (ground arith)
        | inr (i, at) ↦ (s, i, known, at, ground arith, ground arith, ground arith)
      ]
    ]
