-- ===== src/Cryptoki/Machine/Kept.antt =====
-- C_SetAttributeValue of src/wp11_pkcs11.c on secret keys that are not to be given out.
use wolf_p.Prelude.{
  ℕ, zero, suc, ◌+◌, ◌-◌, ◌≤◌, ◌<◌, ◌≡◌, ◌≢◌, ap, ap₂, ◌∙◌, Bool-cases, true, Option, none, some,
  Option-cases, List, [], ◌∷◌, ◌==◌, get_or, set, length, arith, Result-cases, ok, ◌⊎◌, inl, inr,
  get_or-set_self,
}
use wolf_p.Cryptoki.State.{KeyObj, zero_key, Library, session_get, key_get, max_keys}
use wolf_p.Cryptoki.Attributes.{set_attr, set_attrs, set_attribute_value}
use wolf_p.Cryptoki.Attributes.Laws.{IsKept}
use wolf_p.Cryptoki.Create.Laws.{key_get-set_other}

set_attr-IsKept :
    (obj obj' : KeyObj) (kind : ℕ) (val : List ℕ)
    → obj.in_use ≡ true
    → IsKept obj
    → set_attr obj kind val ≡ ok obj'
    → (obj'.in_use ≡ true) × IsKept obj'
unfolding set_attr
set_attr-IsKept obj obj' kind val used (here, class, kept) e =
    (ground arith, (ground arith, ground arith, ground arith))

set_attrs-IsKept :
    (obj : KeyObj) (attrs : List (ℕ × Option (List ℕ)))
    → obj.in_use ≡ true
    → IsKept obj
    → ((set_attrs obj attrs).1.in_use ≡ true) × IsKept (set_attrs obj attrs).1
unfolding set_attrs
set_attrs-IsKept obj [] used kept = (used, kept)
set_attrs-IsKept obj ((kind, none) ∷ attrs) used kept = set_attrs-IsKept obj attrs used kept
set_attrs-IsKept obj ((kind, some val) ∷ attrs) used kept =
    elim (Result-cases (set_attr obj kind val)) [
      | inr (e, fails) ↦ rw (set_attrs, fails) (used, kept)
      | inl (obj', is) ↦
          let (used', kept') = set_attr-IsKept obj obj' kind val used kept is in
          rw (set_attrs, is) (set_attrs-IsKept obj' attrs used' kept')
    ]

-- The object of a handle is kept.
abbrev pub Keeps : ℕ → List KeyObj → Type 0
Keeps h ks = (obj : KeyObj) × (key_get ks h ≡ some obj) × IsKept obj

in_use_entry : (ks : List KeyObj) (i : ℕ) → (get_or ks i zero_key).in_use ≡ true → i < length ks
in_use_entry [] i used = absurd (ground arith)
in_use_entry (k ∷ ks) zero used = omega arith
in_use_entry (k ∷ ks) (suc i) used = let low = in_use_entry ks i used in omega arith

pub key_get_entry :
    (ks : List KeyObj) (h : ℕ) (obj : KeyObj)
    → key_get ks h ≡ some obj
    → (1 ≤ h) × (h ≤ max_keys) × (get_or ks (h - 1) zero_key ≡ obj) × (obj.in_use ≡ true)
unfolding key_get
key_get_entry ks h obj found = (ground arith, ground arith, ground arith, ground arith)

key_get-set_self :
    (ks : List KeyObj) (h : ℕ) (old obj : KeyObj)
    → key_get ks h ≡ some old
    → obj.in_use ≡ true
    → key_get (set ks (h - 1) obj) h ≡ some obj
unfolding key_get
key_get-set_self ks h old obj found used =
    let (low, high, entry, live) = key_get_entry ks h old found in
    let small = in_use_entry ks (h - 1) (ap (λ k. k.in_use) entry ∙ live) in
    ground (arith, get_or-set_self ks (h - 1) obj zero_key small)

set_attribute_value_keys :
    (session k : ℕ) (template : Option (List (ℕ × Option (List ℕ)))) (g : Library)
    → ((set_attribute_value session k template g).1.keys ≡ g.keys)
      ⊎ ((obj : KeyObj) × (attrs : List (ℕ × Option (List ℕ))) × (key_get g.keys k ≡ some obj)
          × ((set_attribute_value session k template g).1.keys
              ≡ set g.keys (k - 1) (set_attrs obj attrs).1))
unfolding set_attribute_value
set_attribute_value_keys session k none g = inl (ground arith)
set_attribute_value_keys session k (some attrs) g = elim (Option-cases (key_get g.keys k)) [
  | inl lost ↦ inl (ground arith)
  | inr (obj, found) ↦ elim (Option-cases (session_get g.sessions session)) [
    | inl unknown ↦ inl (ground arith)
    | inr (s, known) ↦ elim (Bool-cases g.lock_ok) [
      | inr unlocked ↦ inl (ground arith)
      | inl locked ↦ elim (Bool-cases g.initialized) [
        | inr early ↦ inl (ground arith)
        | inl running ↦ inr (obj, attrs, found, ground arith)
      ]
    ]
  ]
]

pub set_attribute_value-Keeps :
    (session k h : ℕ) (template : Option (List (ℕ × Option (List ℕ)))) (g : Library)
    → Keeps h g.keys
    → Keeps h (set_attribute_value session k template g).1.keys
set_attribute_value-Keeps session k h template g (obj, found, kept) =
    elim (set_attribute_value_keys session k template g) [
      | inl same ↦ (obj, ap (λ ks. key_get ks h) same ∙ found, kept)
      | inr (src, attrs, there, e) ↦ elim (Bool-cases (k == h)) [
        | inl equal ↦
            let this : k ≡ h = ground arith in
            let is_obj : src ≡ obj = cc in
            let (low, high, entry, live) = key_get_entry g.keys h obj found in
            let (used, kept') = set_attrs-IsKept obj attrs live kept in
            (
              (set_attrs obj attrs).1,
              ap (λ ks. key_get ks h) e
                  ∙ ap₂ (λ n o. key_get (set g.keys (n - 1) (set_attrs o attrs).1) h) this is_obj
                  ∙ key_get-set_self g.keys h obj _ found used,
              kept',
            )
        | inr differ ↦
            let other : k ≢ h = ground arith in
            let (low, high, entry, live) = key_get_entry g.keys k src there in
            (
              obj,
              ap (λ ks. key_get ks h) e
                  ∙ key_get-set_other g.keys (k - 1) h _ (apart low other)
                  ∙ found,
              kept,
            )
      ]
    ]
  where
    apart : 1 ≤ k → k ≢ h → h ≢ k - 1 + 1
    apart low other e = other (omega arith)
