-- ===== src/Cryptoki/Create.antt =====
-- C_CreateObject, with the wolfHSM backend off, and C_CopyObject of src/wp11_pkcs11.c. The parameter
-- `memory` is whether malloc gives memory of a size. Memory is copied, not shared.
pub mod Laws
pub mod RoundTrip
pub mod Copies
pub mod Keeps
use wolf_p.Prelude.{
  ℕ, zero, suc, ◌+◌, ◌-◌, ◌*◌, ◌^◌, Bool, true, false, not, ◌&&◌, ◌||◌, Option, none, some, List,
  [], ◌∷◌, ◌++◌, ltb, leb, ◌==◌, if◌then◌else◌, length, get_or, set, take, Result, ok, err, Call,
  c_string,
}
use wolf_p.Cryptoki.State.{
  Ckr, arguments_bad, session_handle_invalid, object_handle_invalid, attribute_read_only,
  attribute_value_invalid, template_incomplete, function_not_supported, device_memory, host_memory,
  Session, KeyObj, zero_key, Library, entered, session_get, key_get,
}
use wolf_p.Cryptoki.Find.{cka_class, cka_token, cka_label, cka_application, cka_key_type}
use wolf_p.Cryptoki.SignInit.{cko_secret_key, ckk_generic_secret}
use wolf_p.Cryptoki.Cka.{
  cka_private, cka_value, cka_sensitive, cka_extractable, cko_data, cko_public_key, cko_private_key,
}

-- An entry of the caller's template: its type, the `ulValueLen` bytes of its value unless `pValue` is
-- NULL, and the memory behind these bytes.
pub record Attr : Type 0 where
  pub kind : ℕ
  pub val : Option (List ℕ)
  pub beyond : List ℕ

-- The CK_ULONG at the start of some memory, the low byte first.
unfoldable pub le_value : ℕ → List ℕ → ℕ
le_value zero bytes = 0
le_value (suc w) [] = 0
le_value (suc w) (b ∷ bytes) = b + 256 * le_value w bytes

-- The first loop, which reads CKA_CLASS whatever its length; `(CK_OBJECT_CLASS)-1` is for none.
unfoldable pub class_of : ℕ → List Attr → ℕ
unfolding le_value
class_of class [] = class
class_of class (a ∷ attrs) = elim a.val [
  | none ↦ class_of class attrs
  | some val ↦ class_of (if a.kind == cka_class then le_value 8 (val ++ a.beyond) else class) attrs
]

-- What the second loop reads of the template.
pub record Wanted : Type 0 where
  pub label : List ℕ
  pub app : Option (List ℕ)
  pub value : Option (List ℕ)
  pub is_token : Bool
  pub is_sensitive : Bool
  pub is_extractable : Bool
  pub key_type : ℕ
  pub is_private : Bool

abbrev pub no_wishes : Wanted
no_wishes = record {
  label = [];
  app = none;
  value = none;
  is_token = false;
  is_sensitive = false;
  is_extractable = true;
  key_type = ckk_generic_secret;
  is_private = false;
}

-- A CK_BBOOL of the right length, or else the old one.
abbrev pub flag_or : Bool → List ℕ → Bool
flag_or old val = if length val == 1 then not (get_or val 0 0 == 0) else old

-- The `switch`; the label is the text at the value's start, whatever the value's length.
unfoldable pub wish : Wanted → ℕ → List ℕ → List ℕ → Wanted
unfolding c_string le_value
wish w kind val beyond =
    if kind == cka_label
    then record w { label = c_string (val ++ beyond) }
    else if kind == cka_value
    then record w { value = some val }
    else if kind == cka_token
    then record w { is_token = flag_or w.is_token val }
    else if kind == cka_application
    then record w { app = some val }
    else if kind == cka_key_type
    then if length val == 8 then record w { key_type = le_value 8 val } else w
    else if kind == cka_sensitive
    then record w { is_sensitive = flag_or w.is_sensitive val }
    else if kind == cka_extractable
    then record w { is_extractable = flag_or w.is_extractable val }
    else if kind == cka_private
    then record w { is_private = flag_or w.is_private val }
    else w

unfoldable pub wishes : Wanted → List Attr → Wanted
wishes w [] = w
wishes w (a ∷ attrs) = elim a.val [
  | none ↦ wishes w attrs
  | some val ↦ wishes (wish w a.kind val a.beyond) attrs
]

-- The loop for a free entry, from position `pos` on.
unfoldable pub free_key : ℕ → List KeyObj → Option ℕ
free_key pos [] = none
free_key pos (k ∷ ks) = if k.in_use then free_key (pos + 1) ks else some pos

abbrev pub is_key_class : ℕ → Bool
is_key_class class = class == cko_secret_key || class == cko_public_key || class == cko_private_key

abbrev pub value_bytes : Option (List ℕ) → List ℕ
value_bytes none = []
value_bytes (some v) = v

-- The fields of a key.
unfoldable pub fill_key : KeyObj → Wanted → KeyObj
fill_key k w = record k {
  key_type = w.key_type;
  is_sensitive = w.is_sensitive;
  is_extractable = w.is_extractable;
  always_sensitive = false;
  never_extractable = false;
  is_local = false;
}

-- The assignments to the free entry, which keep the other fields of the entry as the last object has
-- left them.
unfoldable pub fill_entry : KeyObj → ℕ → ℕ → Wanted → KeyObj
unfolding fill_key
fill_entry old slot class w =
    let v = value_bytes w.value in
    let app = value_bytes w.app in
    let k = record old {
      in_use = true;
      slot_id = slot;
      obj_class = class;
      is_private = w.is_private;
      is_token = w.is_token;
      has_secret = ltb 0 (length v);
      secret = v;
      has_priv = false;
      can_sign = false;
      can_verify = false;
      soft_ops = false;
      label = take 31 w.label;
    } in
    let k' = if is_key_class class then fill_key k w else k in
    if ltb 0 (length app) then record k' { application = app } else k'

-- The part behind the checks of the arguments.
unfoldable pub create_in : (ℕ → Bool) → Session → List Attr → Call Library Ckr ℕ
create_in memory s attrs g =
    let class = class_of (2 ^ 64 - 1) attrs in
    let w = wishes no_wishes attrs in
    let n = length (value_bytes w.value) in
    if class == 2 ^ 64 - 1
    then (err template_incomplete, g)
    else if not (class == cko_data) && not (is_key_class class)
    then (err function_not_supported, g)
    else if ltb 64 (length (value_bytes w.app))
    then (err attribute_value_invalid, g)
    else elim (free_key 0 g.keys) [
      | none ↦ (err device_memory, g)
      | some gi ↦ if ltb 0 n && not (memory n) then (err device_memory, g) else (
        ok (gi + 1),
        record g {
          keys = set g.keys gi (fill_entry (get_or g.keys gi zero_key) s.slot_id class w);
        },
      )
    ]

-- C_CreateObject: `has_out` is for `phObject`, and no template is `none` for a count over 0, and else
-- the empty one.
unfoldable pub create_object : (ℕ → Bool) → ℕ → Option (List Attr) → Bool → Call Library Ckr ℕ
create_object memory session template has_out = entered λ g. elim (session_get g.sessions session) [
  | none ↦ (err session_handle_invalid, g)
  | some s ↦
      if not has_out
      then (err arguments_bad, g)
      else elim template [ none ↦ (err arguments_bad, g) | some attrs ↦ create_in memory s attrs g ]
]

-- The overrides of C_CopyObject; `none` is for a malloc that fails.
unfoldable pub override_with : (ℕ → Bool) → KeyObj → ℕ → List ℕ → Option KeyObj
override_with memory k kind val =
    if kind == cka_label
    then some (if ltb (length val) 32 then record k { label = c_string val } else k)
    else if kind == cka_value
    then if memory (length val) then some (record k { has_secret = true; secret = val }) else none
    else some k

unfoldable pub override_all : (ℕ → Bool) → KeyObj → List Attr → Option KeyObj
override_all memory k [] = some k
override_all memory k (a ∷ attrs) = elim a.val [
  | none ↦ override_all memory k attrs
  | some val ↦ elim (override_with memory k a.kind val) [
    | none ↦ none
    | some k' ↦ override_all memory k' attrs
  ]
]

-- The struct copy with the copied secret, and the overrides.
unfoldable pub copied : (ℕ → Bool) → KeyObj → List Attr → Option KeyObj
unfolding override_with override_all
copied memory src attrs =
    if src.has_secret && ltb 0 (length src.secret) && not (memory (length src.secret))
    then none
    else override_all memory src attrs

unfoldable pub names_class : List Attr → Bool
names_class [] = false
names_class (a ∷ attrs) = if a.kind == cka_class then true else names_class attrs

-- C_CopyObject; an entry of the table that a failing malloc leaves is cleared.
unfoldable pub copy_object : (ℕ → Bool) → ℕ → ℕ → Option (List Attr) → Bool → Call Library Ckr ℕ
copy_object memory session h template has_out = entered λ g. elim (session_get g.sessions session) [
  | none ↦ (err session_handle_invalid, g)
  | some s ↦ elim (key_get g.keys h) [
    | none ↦ (err object_handle_invalid, g)
    | some src ↦ if not has_out then (err arguments_bad, g) else elim template [
      | none ↦ (err arguments_bad, g)
      | some attrs ↦
          if names_class attrs
          then (err attribute_read_only, g)
          else if not (src.obj_class == cko_data)
          then (err function_not_supported, g)
          else elim (free_key 0 g.keys) [
            | none ↦ (err device_memory, g)
            | some gi ↦ elim (copied memory src attrs) [
              | none ↦ (err host_memory, record g { keys = set g.keys gi zero_key })
              | some k ↦ (ok (gi + 1), record g { keys = set g.keys gi k })
            ]
          ]
    ]
  ]
]
