-- ===== src/Cryptoki/Attributes.antt =====
-- C_GetAttributeValue and C_SetAttributeValue of src/wp11_pkcs11.c, and C_GetObjectSize. A CK_BBOOL
-- is a byte of which only matters whether it is 0, and is given out as 0 or 1. The export of an RSA
-- public key, which ends in wolfCrypt, is the parameter `Export`.
pub mod Laws
use wolf_p.Prelude.{
  ℕ, ◌-◌, ◌^◌, Bool, true, false, not, ◌&&◌, ◌||◌, Option, none, some, List, [], ◌∷◌, ltb, leb,
  ◌==◌, if◌then◌else◌, length, get_or, set, Result, ok, err, Call, c_string,
}
use wolf_p.Cryptoki.State.{
  Ckr, arguments_bad, session_handle_invalid, object_handle_invalid, attribute_read_only, Session,
  KeyObj, Library, entered, session_get, key_get,
}
use wolf_p.Cryptoki.Find.{
  cka_class, cka_token, cka_label, cka_application, cka_key_type, cka_id, le_bytes,
}
use wolf_p.Cryptoki.Cka.{
  cka_private, cka_value, cka_certificate_type, cka_sensitive, cka_modulus, cka_public_exponent,
  cka_private_exponent, cka_coefficient, cka_extractable, cka_local, cka_never_extractable,
  cka_always_sensitive, cka_key_gen_mechanism, cko_data, cko_public_key, cko_private_key,
}
use wolf_p.Cryptoki.SignInit.{cko_certificate, cko_secret_key}

-- `wp11_soft_key_export_rsa_pub` of the object's key: the modulus and the exponent.
abbrev pub Export : Type 0
Export = KeyObj → Option (List ℕ × List ℕ)

-- What the `switch` does with an attribute: COPY_ATTR, ATTR_NOT_FOUND or ATTR_SENSITIVE.
pub data Answer : Type 0 where
  reveals : List ℕ → Answer
  absent hidden : Answer

abbrev pub flag_bytes : Bool → List ℕ
flag_bytes b = (if b then 1 else 0) ∷ []

unfoldable pub value_answer : KeyObj → Answer
value_answer obj =
    if obj.is_local
      && obj.obj_class == cko_secret_key
      && (obj.is_sensitive || not obj.is_extractable)
    then hidden
    else elim obj.cert_der [
      | some der ↦ reveals der
      | none ↦ if obj.has_secret then reveals obj.secret else absent
    ]

-- `none` for the modulus is for no key, another class, or a failing export.
unfoldable pub rsa_answer : Export → KeyObj → ℕ → Answer
rsa_answer export obj kind =
    if not obj.has_priv
      || not (obj.obj_class == cko_public_key) && not (obj.obj_class == cko_private_key)
    then absent
    else elim (export obj) [
      | none ↦ absent
      | some parts ↦ if kind == cka_modulus then reveals parts.0 else reveals parts.1
    ]

-- The `switch` of C_GetAttributeValue. The attributes of a key, from CKA_SENSITIVE on.
unfoldable pub key_answer : Export → KeyObj → ℕ → Answer
unfolding rsa_answer
key_answer export obj kind =
    if kind == cka_sensitive
    then reveals (flag_bytes obj.is_sensitive)
    else if kind == cka_extractable
    then reveals (flag_bytes obj.is_extractable)
    else if kind == cka_always_sensitive
    then reveals (flag_bytes obj.always_sensitive)
    else if kind == cka_never_extractable
    then reveals (flag_bytes obj.never_extractable)
    else if kind == cka_local
    then reveals (flag_bytes obj.is_local)
    else if kind == cka_key_gen_mechanism
    then reveals (le_bytes 8 (if obj.is_local then obj.key_gen_mech else 2 ^ 64 - 1))
    else if kind == cka_modulus || kind == cka_public_exponent
    then rsa_answer export obj kind
    else if leb cka_private_exponent kind && leb kind cka_coefficient
    then if obj.obj_class == cko_private_key then hidden else absent
    else absent

-- All of it.
unfoldable pub attr_answer : Export → KeyObj → ℕ → Answer
unfolding value_answer key_answer
attr_answer export obj kind =
    if kind == cka_class
    then reveals (le_bytes 8 obj.obj_class)
    else if kind == cka_key_type
    then reveals (le_bytes 8 obj.key_type)
    else if kind == cka_label
    then reveals obj.label
    else if kind == cka_id
    then if leb 1 (length obj.id) then reveals obj.id else absent
    else if kind == cka_token
    then reveals (flag_bytes obj.is_token)
    else if kind == cka_private
    then reveals (flag_bytes obj.is_private)
    else if kind == cka_application
    then if obj.obj_class == cko_data then reveals obj.application else absent
    else if kind == cka_value
    then value_answer obj
    else if kind == cka_certificate_type
    then if obj.obj_class == cko_certificate then reveals (le_bytes 8 0) else absent
    else key_answer export obj kind

-- An entry of the caller's template: the attribute's type, and the buffer's size unless `pValue` is
-- NULL; and what the call leaves in it: the bytes written, and the length set, where `none` is
-- CK_UNAVAILABLE_INFORMATION.
pub record Query : Type 0 where
  pub kind : ℕ
  pub room : Option ℕ

pub record Reply : Type 0 where
  pub written : Option (List ℕ)
  pub new_len : Option ℕ

-- The values of `worst` other than CKR_OK: CKR_BUFFER_TOO_SMALL, CKR_ATTRIBUTE_SENSITIVE and
-- CKR_ATTRIBUTE_TYPE_INVALID.
pub data Fault : Type 0 where
  small_buffer attr_sensitive attr_type_invalid : Fault

-- UPDATE_WORST.
unfoldable pub update_worst : Option Fault → Fault → Option Fault
update_worst worst attr_type_invalid = some attr_type_invalid
update_worst (some attr_type_invalid) attr_sensitive = some attr_type_invalid
update_worst (some attr_sensitive) attr_sensitive = some attr_sensitive
update_worst (some small_buffer) attr_sensitive = some attr_sensitive
update_worst none attr_sensitive = some attr_sensitive
update_worst (some attr_type_invalid) small_buffer = some attr_type_invalid
update_worst (some attr_sensitive) small_buffer = some attr_sensitive
update_worst (some small_buffer) small_buffer = some small_buffer
update_worst none small_buffer = some small_buffer

-- COPY_ATTR, ATTR_NOT_FOUND and ATTR_SENSITIVE on one entry.
unfoldable pub serve : Option Fault → Query → Answer → Option Fault × Reply
serve worst q (reveals src) =
    let n = length src in
    elim q.room [
      | none ↦ (worst, record { written = none; new_len = some n })
      | some room ↦
          if leb n room
          then (worst, record { written = some src; new_len = some n })
          else (update_worst worst small_buffer, record { written = none; new_len = some n })
    ]
serve worst q absent =
    (update_worst worst attr_type_invalid, record { written = none; new_len = none })
serve worst q hidden =
    (update_worst worst attr_sensitive, record { written = none; new_len = none })

-- The loop.
unfoldable pub serve_all : Export → KeyObj → Option Fault → List Query → Option Fault × List Reply
serve_all export obj worst [] = (worst, [])
serve_all export obj worst (q ∷ qs) =
    let (worst', r) = serve worst q (attr_answer export obj q.kind) in
    let (last, rs) = serve_all export obj worst' qs in (last, r ∷ rs)

-- C_GetAttributeValue. Where the template is served, the code returned is the `worst`, and the
-- replies are the template's entries afterwards.
unfoldable pub get_attribute_value :
    Export → ℕ → ℕ → Option (List Query) → Call Library Ckr (Option Fault × List Reply)
get_attribute_value export session h template = entered λ g. elim (session_get g.sessions session) [
  | none ↦ (err session_handle_invalid, g)
  | some s ↦ elim template [
    | none ↦ (err arguments_bad, g)
    | some qs ↦ elim (key_get g.keys h) [
      | none ↦ (err object_handle_invalid, g)
      | some obj ↦
          if not (obj.slot_id == s.slot_id)
          then (err object_handle_invalid, g)
          else (ok (serve_all export obj none qs), g)
    ]
  ]
]

-- One entry of the loop of C_SetAttributeValue: `err` leaves the loop.
unfoldable pub set_attr : KeyObj → ℕ → List ℕ → Result Ckr KeyObj
unfolding c_string
set_attr obj kind val =
    if kind == cka_class || kind == cka_key_type
    then err attribute_read_only
    else if kind == cka_sensitive && length val == 1
    then (let new = not (get_or val 0 0 == 0) in
        if obj.is_sensitive && not new
        then err attribute_read_only
        else ok (if new then record obj { is_sensitive = true } else obj))
    else if kind == cka_extractable && length val == 1
    then (let new = not (get_or val 0 0 == 0) in
        if not obj.is_extractable && new
        then err attribute_read_only
        else ok
            (if new then obj else record obj { is_extractable = false; never_extractable = true }))
    else if kind == cka_label && leb (length val) 31
    then ok (record obj { label = c_string val })
    else ok obj

-- The loop, with what it leaves of the object: the changes before an error stay.
unfoldable pub set_attrs : KeyObj → List (ℕ × Option (List ℕ)) → Result Ckr (Unit {0}) × KeyObj
set_attrs obj [] = (ok tt, obj)
set_attrs obj ((kind, none) ∷ attrs) = set_attrs obj attrs
set_attrs obj ((kind, some val) ∷ attrs) = elim (set_attr obj kind val) [
  | err e ↦ (err e, obj)
  | ok obj' ↦ set_attrs obj' attrs
]

-- C_SetAttributeValue; no template is `none` for a count over 0, and else the empty one.
unfoldable pub set_attribute_value :
    ℕ → ℕ → Option (List (ℕ × Option (List ℕ))) → Call Library Ckr (Unit {0})
set_attribute_value session h template = entered λ g. elim (session_get g.sessions session) [
  | none ↦ (err session_handle_invalid, g)
  | some s ↦ elim (key_get g.keys h) [
    | none ↦ (err object_handle_invalid, g)
    | some obj ↦ elim template [
      | none ↦ (err arguments_bad, g)
      | some attrs ↦
          let (r, obj') = set_attrs obj attrs in (r, record g { keys = set g.keys (h - 1) obj' })
    ]
  ]
]

-- C_GetObjectSize: `has_out` is for `pulSize`, and the size is CK_UNAVAILABLE_INFORMATION.
unfoldable pub get_object_size : ℕ → ℕ → Bool → Call Library Ckr ℕ
get_object_size session h has_out = entered λ g. elim (session_get g.sessions session) [
  | none ↦ (err session_handle_invalid, g)
  | some s ↦ elim (key_get g.keys h) [
    | none ↦ (err object_handle_invalid, g)
    | some obj ↦ if has_out then (ok (2 ^ 64 - 1), g) else (err arguments_bad, g)
  ]
]
