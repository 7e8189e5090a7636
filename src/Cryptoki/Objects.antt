-- ===== src/Cryptoki/Objects.antt =====
-- C_DestroyObject of src/wp11_pkcs11.c, without the freeing of the key's memory.
pub mod Laws
use wolf_p.Prelude.{
  ℕ, ◌-◌, Bool, true, false, not, Option, none, some, List, [], ◌∷◌, ◌==◌, if◌then◌else◌, get_or,
  set, Result, ok, err, Call,
}
use wolf_p.Cryptoki.State.{
  Ckr, session_handle_invalid, object_handle_invalid, Session, KeyObj, Library, entered,
  session_get, key_get,
}

-- The four tests of the loop over the sessions, one operation each.
unfoldable pub forget_sign : ℕ → Session → Session
forget_sign h s = if s.sign_key == h then record s { sign_active = false; sign_key = 0 } else s

unfoldable pub forget_verify : ℕ → Session → Session
forget_verify h s =
    if s.verify_key == h then record s { verify_active = false; verify_key = 0 } else s

unfoldable pub forget_encrypt : ℕ → Session → Session
forget_encrypt h s =
    if s.encrypt_key == h then record s { encrypt_active = false; encrypt_key = 0 } else s

unfoldable pub forget_decrypt : ℕ → Session → Session
forget_decrypt h s =
    if s.decrypt_key == h then record s { decrypt_active = false; decrypt_key = 0 } else s

unfoldable pub forget_key : ℕ → Session → Session
unfolding forget_sign forget_verify forget_encrypt forget_decrypt
forget_key h s =
    if not s.in_use
    then s
    else forget_decrypt h (forget_encrypt h (forget_verify h (forget_sign h s)))

-- The loop.
unfoldable pub forget_all : ℕ → List Session → List Session
forget_all h [] = []
forget_all h (s ∷ ss) = forget_key h s ∷ forget_all h ss

-- `key_priv` and `secret` are NULL afterwards, and the other fields stay.
unfoldable pub destroyed : KeyObj → KeyObj
destroyed obj = record obj { in_use = false; has_priv = false; has_secret = false; secret = [] }

-- C_DestroyObject.
unfoldable pub destroy_object : ℕ → ℕ → Call Library Ckr (Unit {0})
destroy_object session h = entered λ g. elim (session_get g.sessions session) [
  | none ↦ (err session_handle_invalid, g)
  | some s ↦ elim (key_get g.keys h) [
    | none ↦ (err object_handle_invalid, g)
    | some obj ↦ if not (obj.slot_id == s.slot_id) then (err object_handle_invalid, g) else (
      ok tt,
      record g { keys = set g.keys (h - 1) (destroyed obj); sessions = forget_all h g.sessions },
    )
  ]
]
