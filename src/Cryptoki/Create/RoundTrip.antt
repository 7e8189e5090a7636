-- ===== src/Cryptoki/Create/RoundTrip.antt =====
-- What C_CreateObject of src/wp11_pkcs11.c stores, C_GetAttributeValue gives back.
use wolf_p.Prelude.{
  ℕ, ◌-◌, ◌^◌, ◌≤◌, ◌≡◌, ◌≢◌, sym, ap, ap₂, ◌∙◌, Bool, true, false, none, some, List, [], ◌∷◌,
  get_or, set, length, arith, ok, ◌⊎◌,
}
use wolf_p.Cryptoki.State.{Session, KeyObj, zero_key, Library, session_get, key_get, max_keys}
use wolf_p.Cryptoki.Cka.{cka_value, cko_data}
use wolf_p.Cryptoki.Attributes.{
  Export, reveals, attr_answer, value_answer, serve, serve_all, get_attribute_value,
}
use wolf_p.Cryptoki.Create.{
  Attr, class_of, Wanted, no_wishes, wishes, is_key_class, value_bytes, fill_entry, create_object,
}
use wolf_p.Cryptoki.Create.Laws.{
  free_key-free, key_get-put, key_get-set_other, fill_entry_fields, fill_entry_local,
  create_object_effect,
}

-- In a key table of full size, a successful C_CreateObject returns a handle that gave no object and
-- now gives an object on the slot of the session, of the class that the template asks for and with
-- the value that it asks for. Every other handle gives what it gave, and the sessions stay.
pub create_object_ok :
    (memory : ℕ → Bool) (session h j : ℕ) (attrs : List Attr) (g : Library)
    → length g.keys ≡ max_keys
    → (create_object memory session (some attrs) true g).0 ≡ ok h
    → j ≢ h
    → (s : Session) × (obj : KeyObj) × (session_get g.sessions session ≡ some s)
      × (key_get g.keys h ≡ none)
      × (key_get (create_object memory session (some attrs) true g).1.keys h ≡ some obj)
      × (obj.slot_id ≡ s.slot_id)
      × (obj.obj_class ≡ class_of (2 ^ 64 - 1) attrs)
      × (obj.secret ≡ value_bytes (wishes no_wishes attrs).value)
      × (key_get (create_object memory session (some attrs) true g).1.keys j ≡ key_get g.keys j)
      × ((create_object memory session (some attrs) true g).1.sessions ≡ g.sessions)
create_object_ok memory session h j attrs g size done other =
    let (s, i, known, at, handle, after, kind) =
      create_object_effect memory session h attrs true g done in
    let w = wishes no_wishes attrs in
    let class = class_of (2 ^ 64 - 1) attrs in
    let obj = fill_entry (get_or g.keys i zero_key) s.slot_id class w in
    let (used, slot, class_is, secret, has, cert) =
      fill_entry_fields (get_or g.keys i zero_key) s.slot_id class w in
    let (before, now) = key_get-put g.keys i obj size at used in
    let keys_are = ap (λ x. x.keys) after in
    (
      s,
      obj,
      known,
      ap (key_get g.keys) handle ∙ before,
      ap₂ key_get keys_are handle ∙ now,
      slot,
      class_is,
      secret,
      ap (λ ks. key_get ks j) keys_are
          ∙ key_get-set_other g.keys i j obj (λ e. other (e ∙ sym handle)),
      ap (λ x. x.sessions) after,
    )

fill_entry-value_answer :
    (old : KeyObj) (slot class : ℕ) (w : Wanted) (v : List ℕ)
    → (class ≡ cko_data) ⊎ (is_key_class class ≡ true)
    → old.cert_der ≡ none
    → w.value ≡ some v
    → 1 ≤ length v
    → value_answer (fill_entry old slot class w) ≡ reveals v
unfolding value_answer
fill_entry-value_answer old slot class w v kind no_cert wanted some_bytes =
    let (used, slot_is, class_is, secret, has, cert) = fill_entry_fields old slot class w in
    let bytes_are = ap value_bytes wanted in
    ground (arith, fill_entry_local old slot class w, secret ∙ bytes_are)

-- C_GetAttributeValue asked for CKA_VALUE alone.
get_attribute_value_one :
    (export : Export) (g : Library) (session h room : ℕ) (s : Session) (obj : KeyObj) (v : List ℕ)
    → g.lock_ok ≡ true
    → g.initialized ≡ true
    → session_get g.sessions session ≡ some s
    → key_get g.keys h ≡ some obj
    → obj.slot_id ≡ s.slot_id
    → value_answer obj ≡ reveals v
    → length v ≤ room
    → (get_attribute_value export session h
        (some (record { kind = cka_value; room = some room } ∷ []))
        g).0
      ≡ ok (none, record { written = some v; new_len = some (length v) } ∷ [])
unfolding get_attribute_value serve serve_all attr_answer
get_attribute_value_one export g session h room s obj v locked running known found here answer
      fits =
    ground arith

create_object_entered :
    (memory : ℕ → Bool) (session h : ℕ) (attrs : List Attr) (g : Library)
    → (create_object memory session (some attrs) true g).0 ≡ ok h
    → (g.lock_ok ≡ true) × (g.initialized ≡ true)
unfolding create_object
create_object_entered memory session h attrs g done = (ground arith, ground arith)

-- The value of a created object, if it is not empty, is given back by C_GetAttributeValue in the
-- same session to a buffer with room for it, whatever its class and its other attributes, if no free
-- entry of the key table still has a certificate of an object that was there.
pub create_object-get_attribute_value :
    (memory : ℕ → Bool) (export : Export) (session h room : ℕ) (attrs : List Attr) (v : List ℕ)
    (g : Library)
    → length g.keys ≡ max_keys
    → ((i : ℕ)
        → (get_or g.keys i zero_key).in_use ≡ false
        → (get_or g.keys i zero_key).cert_der ≡ none)
    → (wishes no_wishes attrs).value ≡ some v
    → 1 ≤ length v
    → length v ≤ room
    → (create_object memory session (some attrs) true g).0 ≡ ok h
    → (get_attribute_value export session h
        (some (record { kind = cka_value; room = some room } ∷ []))
        (create_object memory session (some attrs) true g).1).0
      ≡ ok (none, record { written = some v; new_len = some (length v) } ∷ [])
create_object-get_attribute_value memory export session h room attrs v g size clean wanted
      some_bytes fits done =
    let (s, i, known, at, handle, after, kind) =
      create_object_effect memory session h attrs true g done in
    let w = wishes no_wishes attrs in
    let class = class_of (2 ^ 64 - 1) attrs in
    let old = get_or g.keys i zero_key in
    let obj = fill_entry old s.slot_id class w in
    let g' = record g { keys = set g.keys i obj } in
    let (used, slot, class_is, secret, has, cert) = fill_entry_fields old s.slot_id class w in
    let (before, now) = key_get-put g.keys i obj size at used in
    let (locked, running) = create_object_entered memory session h attrs g done in
    let (low, free) = free_key-free i g.keys at in
    rw after (
      get_attribute_value_one export g' session h room s obj v locked running known
        (ap (key_get g'.keys) handle ∙ now) slot
        (fill_entry-value_answer old s.slot_id class w v kind (clean i free) wanted some_bytes)
        fits)
