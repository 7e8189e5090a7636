-- ===== src/Cryptoki/Create/Copies.antt =====
-- Copies of objects, and that created and copied objects leave the rest alone, in
-- src/wp11_pkcs11.c.
use wolf_p.Prelude.{
  ℕ, ◌+◌, ◌≡◌, ◌≢◌, refl, sym, ap, ap₂, ◌∙◌, Bool, true, none, some, Option-cases, List, [], ◌∷◌,
  set, length, arith, ok, inl, inr,
}
use wolf_p.Cryptoki.State.{KeyObj, Library, session_get, key_get, max_keys}
use wolf_p.Cryptoki.Cka.{cko_data}
use wolf_p.Cryptoki.Create.{Attr, free_key, override_with, override_all, copied, copy_object}
use wolf_p.Cryptoki.Create.Laws.{key_get-put, key_get-set_other}

-- What a success of C_CopyObject does.
pub copy_object_effect :
    (memory : ℕ → Bool) (session h n : ℕ) (attrs : List Attr) (has_out : Bool) (g : Library)
    → (copy_object memory session h (some attrs) has_out g).0 ≡ ok n
    → (src : KeyObj) × (k : KeyObj) × (i : ℕ) × (key_get g.keys h ≡ some src)
      × (src.obj_class ≡ cko_data)
      × (free_key 0 g.keys ≡ some i)
      × (copied memory src attrs ≡ some k)
      × (n ≡ i + 1)
      × ((copy_object memory session h (some attrs) has_out g).1
          ≡ record g { keys = set g.keys i k })
unfolding copy_object
copy_object_effect memory session h n attrs has_out g done =
    elim (Option-cases (session_get g.sessions session)) [
      | inl unknown ↦ absurd (ground arith)
      | inr (s, known) ↦ elim (Option-cases (key_get g.keys h)) [
        | inl lost ↦ absurd (ground arith)
        | inr (src, found) ↦ elim (Option-cases (free_key 0 g.keys)) [
          | inl full ↦ absurd (ground arith)
          | inr (i, at) ↦ elim (Option-cases (copied memory src attrs)) [
            | inl failed ↦ absurd (ground arith)
            | inr (k, made) ↦ (src, k, i, found, ground arith, at, made, ground arith, ground arith)
          ]
        ]
      ]
    ]

-- Overrides change the label and the value alone.
abbrev SameBut : KeyObj → KeyObj → Type 0
SameBut src k = k ≡ record src { label = k.label; has_secret = k.has_secret; secret = k.secret }

override_with-SameBut :
    (memory : ℕ → Bool) (src k k' : KeyObj) (kind : ℕ) (val : List ℕ)
    → SameBut src k
    → override_with memory k kind val ≡ some k'
    → SameBut src k'
unfolding override_with
override_with-SameBut memory src k k' kind val same e = ground arith

override_all-SameBut :
    (memory : ℕ → Bool) (src k k' : KeyObj) (attrs : List Attr)
    → SameBut src k
    → override_all memory k attrs ≡ some k'
    → SameBut src k'
unfolding override_all
override_all-SameBut memory src k k' [] same e = ground arith
override_all-SameBut memory src k k' (a ∷ attrs) same e = elim (Option-cases a.val) [
  | inl skipped ↦ override_all-SameBut memory src k k' attrs same (ground arith)
  | inr (val, given) ↦ elim (Option-cases (override_with memory k a.kind val)) [
    | inl failed ↦ absurd (ground arith)
    | inr (next, made) ↦
        override_all-SameBut memory src next k' attrs
          (override_with-SameBut memory src k next a.kind val same made) (ground arith)
  ]
]

copied-SameBut :
    (memory : ℕ → Bool) (src k : KeyObj) (attrs : List Attr)
    → copied memory src attrs ≡ some k
    → SameBut src k
unfolding copied
copied-SameBut memory src k attrs made =
    override_all-SameBut memory src src k attrs refl (ground arith)

key_get_used :
    (ks : List KeyObj) (h : ℕ) (obj : KeyObj) → key_get ks h ≡ some obj → obj.in_use ≡ true
unfolding key_get
key_get_used ks h obj e = ground arith

-- In a key table of full size, a successful C_CopyObject was given the handle of a data object. It
-- returns a handle that gave no object and now gives an object that differs from the one copied in
-- its label and its value at most. Every other handle gives what it gave, and the sessions stay.
pub copy_object_ok :
    (memory : ℕ → Bool) (session h n j : ℕ) (attrs : List Attr) (g : Library)
    → length g.keys ≡ max_keys
    → (copy_object memory session h (some attrs) true g).0 ≡ ok n
    → j ≢ n
    → (src : KeyObj) × (k : KeyObj) × (key_get g.keys h ≡ some src)
      × (src.obj_class ≡ cko_data)
      × (key_get g.keys n ≡ none)
      × (key_get (copy_object memory session h (some attrs) true g).1.keys n ≡ some k)
      × SameBut src k
      × (key_get (copy_object memory session h (some attrs) true g).1.keys j ≡ key_get g.keys j)
      × ((copy_object memory session h (some attrs) true g).1.sessions ≡ g.sessions)
copy_object_ok memory session h n j attrs g size done other =
    let (src, k, i, found, data_class, at, made, handle, after) =
      copy_object_effect memory session h n attrs true g done in
    let same = copied-SameBut memory src k attrs made in
    let (before, now) =
      key_get-put g.keys i k size at (ap (λ x. x.in_use) same ∙ key_get_used g.keys h src found) in
    let keys_are = ap (λ x. x.keys) after in
    (
      src,
      k,
      found,
      data_class,
      ap (key_get g.keys) handle ∙ before,
      ap₂ key_get keys_are handle ∙ now,
      same,
      ap (λ ks. key_get ks j) keys_are
          ∙ key_get-set_other g.keys i j k (λ e. other (e ∙ sym handle)),
      ap (λ x. x.sessions) after,
    )
