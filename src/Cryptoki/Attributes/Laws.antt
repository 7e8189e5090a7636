-- ===== src/Cryptoki/Attributes/Laws.antt =====
-- What C_GetAttributeValue gives out, in src/wp11_pkcs11.c.
use wolf_p.Prelude.{
  ℕ, zero, suc, ◌≡◌, refl, ap, ◌∙◌, ap₂, true, not, ◌||◌, Option, none, some, Option-cases, List,
  [], ◌∷◌, map, get_elem?, arith, ok, inl, inr,
}
use Prim.Native.Nat.{max}
use wolf_p.Cryptoki.SignInit.{cko_secret_key}
use wolf_p.Cryptoki.State.{KeyObj, Session, Library, session_get, key_get}
use wolf_p.Cryptoki.Cka.{cka_value}
use wolf_p.Cryptoki.Attributes.{
  Export, Answer, reveals, absent, hidden, attr_answer, Query, Reply, Fault, small_buffer,
  attr_sensitive, attr_type_invalid, update_worst, serve, serve_all, get_attribute_value,
  value_answer,
}

-- How bad a code is.
abbrev pub severity : Option Fault → ℕ
severity none = 0
severity (some small_buffer) = 1
severity (some attr_sensitive) = 2
severity (some attr_type_invalid) = 3

abbrev pub worst_of : List ℕ → ℕ
worst_of [] = 0
worst_of (n ∷ ns) = max n (worst_of ns)

-- One entry served by itself.
abbrev pub alone : Export → KeyObj → Query → Option Fault × Reply
alone export obj q = serve none q (attr_answer export obj q.kind)

update_worst-max :
    (w : Option Fault) (e : Fault)
    → severity (update_worst w e) ≡ max (severity w) (severity (some e))
unfolding update_worst
update_worst-max none small_buffer = refl
update_worst-max none attr_sensitive = refl
update_worst-max none attr_type_invalid = refl
update_worst-max (some small_buffer) small_buffer = refl
update_worst-max (some small_buffer) attr_sensitive = refl
update_worst-max (some small_buffer) attr_type_invalid = refl
update_worst-max (some attr_sensitive) small_buffer = refl
update_worst-max (some attr_sensitive) attr_sensitive = refl
update_worst-max (some attr_sensitive) attr_type_invalid = refl
update_worst-max (some attr_type_invalid) small_buffer = refl
update_worst-max (some attr_type_invalid) attr_sensitive = refl
update_worst-max (some attr_type_invalid) attr_type_invalid = refl

serve_lem :
    (w : Option Fault) (q : Query) (a : Answer)
    → (severity (serve w q a).0 ≡ max (severity w) (severity (serve none q a).0))
      × ((serve w q a).1 ≡ (serve none q a).1)
unfolding serve
serve_lem w q absent = (
  ground (arith, update_worst-max w attr_type_invalid, update_worst-max none attr_type_invalid),
  refl,
)
serve_lem w q hidden =
    (ground (arith, update_worst-max w attr_sensitive, update_worst-max none attr_sensitive), refl)
serve_lem w q (reveals src) = elim (Option-cases q.room) [
  | inl query ↦ (ground arith, ground arith)
  | inr (room, given) ↦ (
    ground (arith, update_worst-max w small_buffer, update_worst-max none small_buffer),
    ground arith,
  )
]

serve_all_lem :
    (export : Export) (obj : KeyObj) (w : Option Fault) (qs : List Query)
    → (severity (serve_all export obj w qs).0
        ≡ max (severity w) (worst_of (map (λ q. severity (alone export obj q).0) qs)))
      × ((serve_all export obj w qs).1 ≡ map (λ q. (alone export obj q).1) qs)
unfolding serve_all
serve_all_lem export obj w [] = (omega arith, refl)
serve_all_lem export obj w (q ∷ qs) =
    let a = attr_answer export obj q.kind in
    let (here, reply) = serve_lem w q a in
    let (later, replies) = serve_all_lem export obj (serve w q a).0 qs in
    (omega arith, ap₂ (λ r rs. r ∷ rs) reply replies)

-- What a success of the call says of the object and of the answer.
get_attribute_value_effect :
    (export : Export) (g : Library) (session h : ℕ) (qs : List Query)
    (out : Option Fault × List Reply)
    → (get_attribute_value export session h (some qs) g).0 ≡ ok out
    → (obj : KeyObj) × (s : Session) × (session_get g.sessions session ≡ some s)
      × (key_get g.keys h ≡ some obj)
      × (obj.slot_id ≡ s.slot_id)
      × (out ≡ serve_all export obj none qs)
unfolding get_attribute_value
get_attribute_value_effect export g session h qs out done =
    elim (Option-cases (session_get g.sessions session)) [
      | inl unknown ↦ absurd (ground arith)
      | inr (s, known) ↦ elim (Option-cases (key_get g.keys h)) [
        | inl lost ↦ absurd (ground arith)
        | inr (obj, found) ↦ (obj, s, known, found, ground arith, ground arith)
      ]
    ]

max_zero : (n : ℕ) → max 0 n ≡ n
max_zero n = omega arith

-- If C_GetAttributeValue serves a template, the handle gives an object on the slot of the session,
-- each entry of the template is left as it is when it is served alone, whatever the entries before
-- it, and the code returned is the worst of the codes of the entries served alone.
pub get_attribute_value-alone :
    (export : Export) (g : Library) (session h : ℕ) (qs : List Query) (worst : Option Fault)
    (rs : List Reply)
    → (get_attribute_value export session h (some qs) g).0 ≡ ok (worst, rs)
    → (obj : KeyObj) × (s : Session) × (session_get g.sessions session ≡ some s)
      × (key_get g.keys h ≡ some obj)
      × (obj.slot_id ≡ s.slot_id)
      × (severity worst ≡ worst_of (map (λ q. severity (alone export obj q).0) qs))
      × (rs ≡ map (λ q. (alone export obj q).1) qs)
get_attribute_value-alone export g session h qs worst rs done =
    let (obj, s, known, found, here, e) =
      get_attribute_value_effect export g session h qs (worst, rs) done in
    let (worst_is, replies) = serve_all_lem export obj none qs in
    (
      obj,
      s,
      known,
      found,
      here,
      ap (λ o. severity o.0) e ∙ worst_is ∙ max_zero _,
      ap (λ o. o.1) e ∙ replies,
    )

-- A secret key made in the library that is sensitive or not extractable.
abbrev pub IsKept : KeyObj → Type 0
IsKept obj =
    (obj.is_local ≡ true)
    × (obj.obj_class ≡ cko_secret_key)
    × (obj.is_sensitive || not obj.is_extractable ≡ true)

IsKept-value_answer : (obj : KeyObj) → IsKept obj → value_answer obj ≡ hidden
unfolding value_answer
IsKept-value_answer obj (here, class, kept) = ground arith

IsKept-alone :
    (export : Export) (obj : KeyObj) (q : Query)
    → IsKept obj
    → q.kind ≡ cka_value
    → (alone export obj q).1 ≡ record { written = none; new_len = none }
unfolding attr_answer serve
IsKept-alone export obj q kept e = rw e (rw (IsKept-value_answer obj kept) refl)

get_elem-map :
    (export : Export) (obj : KeyObj) (qs : List Query) (i : ℕ) (q : Query)
    → get_elem? qs i ≡ some q
    → get_elem? (map (λ q. (alone export obj q).1) qs) i ≡ some (alone export obj q).1
get_elem-map export obj [] i q e = absurd (ground arith)
get_elem-map export obj (p ∷ qs) zero q e = cc
get_elem-map export obj (p ∷ qs) (suc i) q e = get_elem-map export obj qs i q e

-- C_GetAttributeValue never writes the value of a kept secret key.
pub IsKept-get_attribute_value :
    (export : Export) (g : Library) (session h i : ℕ) (qs : List Query) (q : Query)
    (worst : Option Fault) (rs : List Reply)
    → ((obj : KeyObj) → key_get g.keys h ≡ some obj → IsKept obj)
    → (get_attribute_value export session h (some qs) g).0 ≡ ok (worst, rs)
    → get_elem? qs i ≡ some q
    → q.kind ≡ cka_value
    → get_elem? rs i ≡ some (record { written = none; new_len = none })
IsKept-get_attribute_value export g session h i qs q worst rs kept done entry value =
    let (obj, s, known, found, here, worst_is, replies) =
      get_attribute_value-alone export g session h qs worst rs done in
    ap (λ l. get_elem? l i) replies
    ∙ get_elem-map export obj qs i q entry
    ∙ ap some (IsKept-alone export obj q (kept obj found) value)
