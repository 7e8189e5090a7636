-- ===== src/Cryptoki/Create/Keeps.antt =====
-- What the calls on objects of src/wp11_pkcs11.c leave alone.
use wolf_p.Prelude.{
  ℕ, ◌+◌, ◌-◌, ◌≡◌, ◌≢◌, ap, subst, ◌∙◌, Bool, false, Option, none, some, Option-cases, List,
  get_or, set, arith, Result-cases, err, ◌⊎◌, inl, inr,
}
use wolf_p.Cryptoki.State.{Ckr, KeyObj, zero_key, Library, key_get}
use wolf_p.Cryptoki.Attributes.{set_attribute_value}
use wolf_p.Cryptoki.Create.{Attr, free_key, create_in, create_object, copy_object}
use wolf_p.Cryptoki.Create.Copies.{copy_object_effect}
use wolf_p.Cryptoki.Create.Laws.{free_key-free, key_get-set_other, create_object_effect}

module _ (memory : ℕ → Bool) where
  pub create_object_sessions :
      (session : ℕ) (template : Option (List Attr)) (has_out : Bool) (g : Library)
      → (create_object memory session template has_out g).1.sessions ≡ g.sessions
  unfolding create_object create_in
  create_object_sessions session none has_out g = ground arith
  create_object_sessions session (some attrs) has_out g = ground arith

  pub copy_object_sessions :
      (session h : ℕ) (template : Option (List Attr)) (has_out : Bool) (g : Library)
      → (copy_object memory session h template has_out g).1.sessions ≡ g.sessions
  unfolding copy_object
  copy_object_sessions session h none has_out g = ground arith
  copy_object_sessions session h (some attrs) has_out g = ground arith

pub set_attribute_value_sessions :
    (session h : ℕ) (template : Option (List (ℕ × Option (List ℕ)))) (g : Library)
    → (set_attribute_value session h template g).1.sessions ≡ g.sessions
unfolding set_attribute_value
set_attribute_value_sessions session h none g = ground arith
set_attribute_value_sessions session h (some attrs) g = ground arith

-- A free entry is not that of a handle with an object.
free_key-other :
    (keys : List KeyObj) (h i : ℕ) (obj : KeyObj)
    → key_get keys h ≡ some obj
    → free_key 0 keys ≡ some i
    → h ≢ i + 1
unfolding key_get
free_key-other keys h i obj found at e =
    let (low, free) = free_key-free i keys at in
    let same : (get_or keys (h - 1) zero_key).in_use ≡ false =
      subst (λ n. (get_or keys n zero_key).in_use ≡ false) (omega arith) free in
    absurd (ground arith)

-- A call that fills at most a free entry.
abbrev Fills : Library → Library → Type 0
Fills g g' =
    (g'.keys ≡ g.keys)
    ⊎ ((i : ℕ) × (k : KeyObj) × (free_key 0 g.keys ≡ some i) × (g'.keys ≡ set g.keys i k))

pub Fills-key_get :
    (g g' : Library) (h : ℕ) (obj : KeyObj)
    → key_get g.keys h ≡ some obj
    → Fills g g'
    → key_get g'.keys h ≡ some obj
Fills-key_get g g' h obj found (inl same) = ap (λ ks. key_get ks h) same ∙ found
Fills-key_get g g' h obj found (inr (i, k, at, e)) =
    ap (λ ks. key_get ks h) e
    ∙ key_get-set_other g.keys i h k (free_key-other g.keys h i obj found at)
    ∙ found

module _ (memory : ℕ → Bool) where
  pub create_object-Fills :
      (session : ℕ) (template : Option (List Attr)) (has_out : Bool) (g : Library)
      → Fills g (create_object memory session template has_out g).1
  unfolding create_object create_in
  create_object-Fills session none has_out g = inl (ground arith)
  create_object-Fills session (some attrs) has_out g =
      elim (Result-cases (create_object memory session (some attrs) has_out g).0) [
        | inr (e, fails) ↦ inl (ground arith)
        | inl (n, done) ↦
            let (s, i, known, at, handle, after, kind) =
              create_object_effect memory session n attrs has_out g done in
            inr (i, _, at, ap (λ x. x.keys) after)
      ]

  pub copy_object-Fills :
      (session src : ℕ) (template : Option (List Attr)) (has_out : Bool) (g : Library)
      → Fills g (copy_object memory session src template has_out g).1
  unfolding copy_object
  copy_object-Fills session src none has_out g = inl (ground arith)
  copy_object-Fills session src (some attrs) has_out g =
      elim (Result-cases (copy_object memory session src (some attrs) has_out g).0) [
        | inl (n, done) ↦
            let (obj, k, i, found, data_class, at, made, handle, after) =
              copy_object_effect memory session src n attrs has_out g done in
            inr (i, k, at, ap (λ x. x.keys) after)
        | inr (e, fails) ↦ elim (Option-cases (free_key 0 g.keys)) [
          | inl full ↦ inl (ground arith)
          | inr (i, at) ↦ elim (failing i at e fails) [
            | inl same ↦ inl same
            | inr cleared ↦ inr (i, zero_key, at, cleared)
          ]
        ]
      ]
    where
      failing :
          (i : ℕ)
          → free_key 0 g.keys ≡ some i
          → (e : Ckr) → (copy_object memory session src (some attrs) has_out g).0 ≡ err e
          → ((copy_object memory session src (some attrs) has_out g).1.keys ≡ g.keys)
            ⊎ ((copy_object memory session src (some attrs) has_out g).1.keys
                ≡ set g.keys i zero_key)
      failing i at e fails = ground arith
