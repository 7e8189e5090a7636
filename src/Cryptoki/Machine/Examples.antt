-- ===== src/Cryptoki/Machine/Examples.antt =====
-- The theorems on objects and attributes at concrete inputs.
use wolf_p.Prelude.{
  ℕ, zero, suc, ◌≡◌, refl, Bool, true, some, none, Option, List, [], ◌∷◌, map, replicate, ok, arith,
  get_or, get_elem?,
}
use wolf_p.Cryptoki.State.{
  Session, zero_session, KeyObj, zero_key, zero_slot, Library, session_get, key_get,
}
use wolf_p.Cryptoki.Cka.{cka_sensitive, cka_extractable, cko_data}
use wolf_p.Cryptoki.Attributes.{
  Export, Query, Reply, attr_type_invalid, get_attribute_value, set_attribute_value, attr_answer,
  value_answer, serve, serve_all, update_worst, set_attr, set_attrs,
}
use wolf_p.Cryptoki.Attributes.Laws.{severity, worst_of, alone, get_attribute_value-alone}
use wolf_p.Cryptoki.Create.{
  Attr, class_of, le_value, wish, wishes, free_key, fill_entry, fill_key, create_in, create_object,
  names_class, copied, override_all, copy_object,
}
use wolf_p.Cryptoki.Create.RoundTrip.{create_object_ok, create_object-get_attribute_value}
use wolf_p.Cryptoki.Create.Copies.{copy_object_ok}
use wolf_p.Cryptoki.Machine.{setting, creating}
use wolf_p.Cryptoki.Machine.Secrets.{Run, stay, next, Run-get_attribute_value}

-- A secret key made in the library, which is extractable but sensitive, and a data object.
abbrev secret_key : KeyObj
secret_key = record zero_key {
  in_use = true;
  obj_class = 4;
  has_secret = true;
  secret = 7 ∷ 8 ∷ [];
  is_local = true;
  is_sensitive = true;
  is_extractable = true;
}

abbrev data_object : KeyObj
data_object = record zero_key {
  in_use = true;
  label = 65 ∷ [];
  has_secret = true;
  secret = 1 ∷ 2 ∷ 3 ∷ [];
}

abbrev library : Library
library = record {
  lock_ok = true;
  initialized = true;
  sessions = record zero_session { in_use = true } ∷ replicate 7 zero_session;
  slots = replicate 16 zero_slot;
  keys = secret_key ∷ data_object ∷ replicate 62 zero_key;
}

abbrev no_export : Export
no_export obj = none

abbrev plenty : ℕ → Bool
plenty n = true

-- Its value, an attribute that it does not have, and a label that fits.
abbrev queries : List Query
queries =
    record { kind = 0x11; room = some 100 }
    ∷ record { kind = 0x80; room = none }
    ∷ record { kind = 3; room = some 0 }
    ∷ []

abbrev replies : List Reply
replies =
    record { written = none; new_len = none }
    ∷ record { written = none; new_len = none }
    ∷ record { written = some []; new_len = some 0 }
    ∷ []

get_attribute_value-alone_example :
    (obj : KeyObj) × (s : Session) × (session_get library.sessions 1 ≡ some s)
    × (key_get library.keys 1 ≡ some obj)
    × (obj.slot_id ≡ s.slot_id)
    × (3 ≡ worst_of (map (λ q. severity (alone no_export obj q).0) queries))
    × (replies ≡ map (λ q. (alone no_export obj q).1) queries)
unfolding get_attribute_value session_get key_get serve_all serve attr_answer value_answer
    update_worst
get_attribute_value-alone_example =
    get_attribute_value-alone no_export library 1 1 queries (some attr_type_invalid) replies refl

-- A template for a data object with a value, which is a token object.
abbrev template : List Attr
template =
    record { kind = 0; val = some (0 ∷ replicate 7 0); beyond = [] }
    ∷ record { kind = 1; val = some (1 ∷ []); beyond = [] }
    ∷ record { kind = 0x11; val = some (5 ∷ 6 ∷ []); beyond = 9 ∷ [] }
    ∷ []

created : (create_object plenty 1 (some template) true library).0 ≡ ok 3
unfolding create_object create_in session_get class_of le_value wishes wish free_key
created = refl

create_object_ok_example :
    (s : Session) × (obj : KeyObj) × (session_get library.sessions 1 ≡ some s)
    × (key_get library.keys 3 ≡ none)
    × (key_get (create_object plenty 1 (some template) true library).1.keys 3 ≡ some obj)
    × (obj.slot_id ≡ s.slot_id)
    × (obj.obj_class ≡ 0)
    × (obj.secret ≡ 5 ∷ 6 ∷ [])
    × (key_get (create_object plenty 1 (some template) true library).1.keys 1
        ≡ key_get library.keys 1)
    × ((create_object plenty 1 (some template) true library).1.sessions ≡ library.sessions)
unfolding class_of le_value wishes wish
create_object_ok_example =
    create_object_ok plenty 1 3 1 template library refl created (λ e. absurd (omega arith))

no_certificates : (i : ℕ) → (get_or library.keys i zero_key).cert_der ≡ none
no_certificates zero = refl
no_certificates (suc zero) = refl
no_certificates (suc (suc i)) = go 62 i
  where
    go : (n j : ℕ) → (get_or (replicate n zero_key) j zero_key).cert_der ≡ none
    go zero j = refl
    go (suc n) zero = refl
    go (suc n) (suc j) = go n j

create_object-get_attribute_value_example :
    (get_attribute_value no_export 1 3
      (some (record { kind = 0x11; room = some 2 } ∷ []))
      (create_object plenty 1 (some template) true library).1).0
    ≡ ok (none, record { written = some (5 ∷ 6 ∷ []); new_len = some 2 } ∷ [])
unfolding wishes wish
create_object-get_attribute_value_example =
    create_object-get_attribute_value plenty no_export 1 3 2 template (5 ∷ 6 ∷ []) library refl
      (λ i free. no_certificates i) refl (omega arith) (omega arith) created

abbrev no_attrs : List Attr
no_attrs = []

copied_once : (copy_object plenty 1 2 (some no_attrs) true library).0 ≡ ok 3
unfolding copy_object session_get key_get names_class free_key copied override_all
copied_once = refl

copy_object_ok_example :
    (src : KeyObj) × (k : KeyObj) × (key_get library.keys 2 ≡ some src)
    × (src.obj_class ≡ cko_data)
    × (key_get library.keys 3 ≡ none)
    × (key_get (copy_object plenty 1 2 (some no_attrs) true library).1.keys 3 ≡ some k)
    × (k ≡ record src { label = k.label; has_secret = k.has_secret; secret = k.secret })
    × (key_get (copy_object plenty 1 2 (some no_attrs) true library).1.keys 2
        ≡ key_get library.keys 2)
    × ((copy_object plenty 1 2 (some no_attrs) true library).1.sessions ≡ library.sessions)
copy_object_ok_example =
    copy_object_ok plenty 1 2 3 2 no_attrs library refl copied_once (λ e. absurd (omega arith))

-- A call that wants to make the key readable, which fails, and the creation of an object.
abbrev wanted : Option (List (ℕ × Option (List ℕ)))
wanted = some ((cka_extractable, some (1 ∷ [])) ∷ (cka_sensitive, some (0 ∷ [])) ∷ [])

abbrev later : Library
later = (create_object plenty 1 (some template) true (set_attribute_value 1 1 wanted library).1).1

two_steps : Run 1 library later
two_steps = next (next stay (setting 1 1 wanted) tt) (creating plenty 1 (some template) true) tt

Run-get_attribute_value_example :
    get_elem? replies 0 ≡ some (record { written = none; new_len = none })
unfolding get_attribute_value session_get key_get serve_all serve attr_answer value_answer
    update_worst create_object create_in class_of le_value wishes wish free_key set_attribute_value
    set_attrs set_attr fill_entry fill_key
Run-get_attribute_value_example =
    Run-get_attribute_value no_export library later 1 1 0 secret_key queries
      (record { kind = 0x11; room = some 100 }) (some attr_type_invalid) replies refl
      (refl, refl, refl) two_steps refl refl refl
