-- ===== src/Cryptoki/Sign/Examples.antt =====
-- The theorems on signing at concrete inputs.
use wolf_p.Prelude.{ℕ, ◌≤◌, ◌≡◌, ◌≢◌, refl, true, false, some, List, [], ◌∷◌, replicate, ok}
use wolf_p.Cryptoki.State.{
  Session, zero_session, KeyObj, zero_key, zero_slot, Library, session_get, key_get,
}
use wolf_p.Cryptoki.SignInit.{MechParam, mech_hmac_type}
use wolf_p.Cryptoki.Sign.{Signer, too_small, sign_key_op, sign}
use wolf_p.Cryptoki.Sign.Laws.{sign_query-sign}

-- A backend that gives the data back.
abbrev echo : Signer
echo = record {
  hmac = λ hash key data_in. some data_in;
  pss_sign = λ obj data_in room pss. some data_in;
  sign = λ obj mech data_in room. ok data_in;
}

-- A session that is logged in, and a private EC key with signatures of 64 bytes.
abbrev session : Session
session = record zero_session { in_use = true; logged_in = 1 }

abbrev key : KeyObj
key = record zero_key {
  in_use = true;
  obj_class = 3;
  key_type = 3;
  is_private = true;
  sig_len_max = 64;
  has_priv = true;
  can_sign = true;
}

abbrev library : Library
library = record {
  lock_ok = true;
  initialized = true;
  sessions = session ∷ replicate 7 zero_session;
  slots = replicate 16 zero_slot;
  keys = key ∷ replicate 63 zero_key;
}

abbrev no_param : MechParam
no_param = record { given = false; len = 0; hash_alg = 0; mgf = 0; s_len = 0 }

abbrev digest : List ℕ
digest = 1 ∷ 2 ∷ 3 ∷ []

-- CKM_ECDSA.
abbrev mech : ℕ
mech = 0x1041

abbrev started : Library
started = record library {
  sessions =
      record session { sign_active = true; sign_mech = mech; sign_key = 1 }
      ∷ replicate 7 zero_session;
}

sign_query-sign_example :
    ((sign echo 1 (some digest) false (some 0) started).1 ≡ started)
    × ((room k : ℕ) (data_now : List ℕ)
        → 64 ≤ room
        → (sign echo 1 (some data_now) true (some room) started).0 ≢ ok (too_small k))
unfolding sign sign_key_op session_get key_get mech_hmac_type
sign_query-sign_example = sign_query-sign echo 1 digest 0 64 started refl
