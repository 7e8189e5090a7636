-- ===== src/Cryptoki/Find.antt =====
-- Object search in src/wp11_pkcs11.c: C_FindObjectsInit, C_FindObjects and C_FindObjectsFinal.
pub mod Laws
pub mod Batches
use wolf_p.Prelude.{
  ℕ, zero, suc, ◌+◌, ◌-◌, ◌/◌, ◌%◌, Bool, true, false, not, ◌&&◌, ◌||◌, Option, none, some, List,
  [], ◌∷◌, ◌++◌, ltb, ◌==◌, if◌then◌else◌, length, get_or, set, Result, ok, err, Call,
}
use wolf_p.Cryptoki.State.{
  Ckr, arguments_bad, session_handle_invalid, operation_active, operation_not_initialized, FindAttr,
  Session, KeyObj, zero_key, Library, max_keys, entered, session_get,
}

-- CKA_CLASS to CKA_APPLICATION.
abbrev pub cka_class : ℕ
cka_class = 0

abbrev pub cka_token : ℕ
cka_token = 1

abbrev pub cka_label : ℕ
cka_label = 3

abbrev pub cka_application : ℕ
cka_application = 16

abbrev pub cka_key_type : ℕ
cka_key_type = 256

abbrev pub cka_id : ℕ
cka_id = 258

-- FIND_TMPL_MAX_ATTRS and FIND_ATTR_MAX_VAL_LEN.
abbrev pub max_attrs : ℕ
max_attrs = 8

abbrev pub max_val_len : ℕ
max_val_len = 64

-- The bytes of a CK_ULONG, which has eight of them, the low one first.
unfoldable pub le_bytes : ℕ → ℕ → List ℕ
le_bytes zero n = []
le_bytes (suc w) n = n % 256 ∷ le_bytes w (n / 256)

-- Equal lengths, and `memcmp` over that length.
unfoldable pub equal_bytes : List ℕ → List ℕ → Bool
equal_bytes [] [] = true
equal_bytes [] (y ∷ ys) = false
equal_bytes (x ∷ xs) [] = false
equal_bytes (x ∷ xs) (y ∷ ys) = x == y && equal_bytes xs ys

-- The `switch` on one attribute.
unfoldable pub attr_matches : KeyObj → FindAttr → Bool
unfolding le_bytes
attr_matches obj a =
    if a.attr_type == cka_class
    then equal_bytes a.val (le_bytes 8 obj.obj_class)
    else if a.attr_type == cka_key_type
    then equal_bytes a.val (le_bytes 8 obj.key_type)
    else if a.attr_type == cka_label
    then equal_bytes a.val obj.label
    else if a.attr_type == cka_id
    then equal_bytes a.val obj.id
    else if a.attr_type == cka_token
    then length a.val == 1
      && (if not (get_or a.val 0 0 == 0) then obj.is_token else not obj.is_token)
    else if a.attr_type == cka_application
    then equal_bytes a.val obj.application
    else false

unfoldable pub key_matches_template : KeyObj → List FindAttr → Bool
key_matches_template obj [] = true
key_matches_template obj (a ∷ tmpl) =
    if not (attr_matches obj a) then false else key_matches_template obj tmpl

-- The copying loop; an attribute of the caller has a type and, unless NULL, a value.
unfoldable pub copy_template : List (ℕ × Option (List ℕ)) → Option (List FindAttr)
copy_template [] = some []
copy_template ((kind, none) ∷ attrs) = none
copy_template ((kind, some val) ∷ attrs) =
    let rest = copy_template attrs in
    if ltb max_val_len (length val) then none else elim rest [
      | none ↦ none
      | some tmpl ↦ some (record { attr_type = kind; val = val } ∷ tmpl)
    ]

-- A session's entry is written back at its handle.
unfoldable pub put_session : Library → ℕ → Session → Library
put_session g h s = record g { sessions = set g.sessions (h - 1) s }

-- C_FindObjectsInit; no template is the empty one. A failing copy leaves `find_tmpl_count`, which is
-- 0 while no search is active, so that the entries it has written do not count.
unfoldable pub find_objects_init : ℕ → List (ℕ × Option (List ℕ)) → Call Library Ckr (Unit {0})
find_objects_init h attrs = entered λ g. elim (session_get g.sessions h) [
  | none ↦ (err session_handle_invalid, g)
  | some s ↦
      if s.find_active
      then (err operation_active, g)
      else if ltb max_attrs (length attrs)
      then (err arguments_bad, g)
      else elim (copy_template attrs) [
        | none ↦ (err arguments_bad, g)
        | some tmpl ↦ (
          ok tt,
          put_session g h (record s { find_tmpl = tmpl; find_active = true; find_pos = 0 }),
        )
      ]
]

-- The test of one entry of the key table.
unfoldable pub found_at : List KeyObj → ℕ → List FindAttr → ℕ → Bool
found_at keys slot tmpl idx =
    let k = get_or keys idx zero_key in k.in_use && k.slot_id == slot && key_matches_template k tmpl

-- The search loop over the `n` entries from `pos` on, for at most `room` handles; with the handles,
-- the position it stops at.
unfoldable pub find_loop : (ℕ → Bool) → ℕ → ℕ → ℕ → List ℕ × ℕ
find_loop found zero pos room = ([], pos)
find_loop found (suc n) pos zero = ([], pos)
find_loop found (suc n) pos (suc room) =
    let hit = found pos in
    let (hs, p) = find_loop found n (pos + 1) (if hit then room else suc room) in
    ((if hit then (pos + 1) ∷ hs else hs), p)

-- C_FindObjects; `out` is whether both output pointers are not NULL.
unfoldable pub find_objects : ℕ → ℕ → Bool → Call Library Ckr (List ℕ)
find_objects h max out = entered λ g.
    if not out then (err arguments_bad, g) else elim (session_get g.sessions h) [
      | none ↦ (err session_handle_invalid, g)
      | some s ↦
          if not s.find_active
          then (err operation_not_initialized, g)
          else (let (hs, p) =
                find_loop (found_at g.keys s.slot_id s.find_tmpl) (max_keys - s.find_pos) s.find_pos
                  max in
              (ok hs, put_session g h (record s { find_pos = p })))
    ]

-- C_FindObjectsFinal.
unfoldable pub find_objects_final : ℕ → Call Library Ckr (Unit {0})
find_objects_final h = entered λ g. elim (session_get g.sessions h) [
  | none ↦ (err session_handle_invalid, g)
  | some s ↦
      if not s.find_active
      then (err operation_not_initialized, g)
      else (ok tt, put_session g h (record s { find_active = false; find_tmpl = [] }))
]
