-- ===== src/Cryptoki/Verify/Examples.antt =====
-- The theorems on verifying at concrete inputs.
use wolf_p.Prelude.{
  ℕ, zero, suc, ◌≡◌, ◌↔◌, refl, true, false, some, none, List, [], ◌∷◌, replicate, ok, arith,
}
use wolf_p.Cryptoki.State.{
  sha_1, zero_session, KeyObj, zero_key, zero_slot, Library, session_get, key_get,
}
use wolf_p.Cryptoki.Find.{put_session}
use wolf_p.Cryptoki.SignInit.{
  MechParam, mech_hmac_type, mech_hmac_output_size, check_sign, check_sign_mech, sign_init,
}
use wolf_p.Cryptoki.Sign.{Signer, or_failed, sign_answer, sign_hmac, end_sign, sign}
use wolf_p.Cryptoki.Verify.{Verifier, check_verify, check_verify_mech, verify_init, verify}
use wolf_p.Cryptoki.Verify.Compare.{AllBytes}
use wolf_p.Cryptoki.Verify.RoundTrip.{verify_init-verify, sign-verify}

-- A MAC of twenty bytes that is the key's first one.
abbrev mac : List ℕ → List ℕ
mac key = replicate 20 7

abbrev signer : Signer
signer = record {
  hmac = λ hash key bytes. some (mac key);
  pss_sign = λ obj bytes room pss. none;
  sign = λ obj mech bytes room. ok bytes;
}

abbrev verifier : Verifier
verifier = record {
  hmac = λ hash key bytes. some (mac key);
  pss_verify = λ obj sig bytes pss. false;
  verify = λ obj mech bytes sig. ok tt;
}

abbrev mac_key : KeyObj
mac_key = record zero_key {
  in_use = true;
  obj_class = 4;
  key_type = 0x10;
  has_secret = true;
  secret = 7 ∷ [];
}

abbrev library : Library
library = record {
  lock_ok = true;
  initialized = true;
  sessions = record zero_session { in_use = true } ∷ replicate 7 zero_session;
  slots = replicate 16 zero_slot;
  keys = mac_key ∷ replicate 63 zero_key;
}

abbrev no_param : MechParam
no_param = record { given = false; len = 0; hash_alg = 0; mgf = 0; s_len = 0 }

mac-AllBytes : AllBytes (mac [])
mac-AllBytes = go 20
  where
    go : (n : ℕ) → AllBytes (replicate n 7)
    go zero = tt
    go (suc n) = (omega arith, go n)

checking : (verify_init 1 (some (0x221, no_param)) 1 library).0 ≡ ok tt
unfolding verify_init check_verify check_verify_mech mech_hmac_type session_get key_get
checking = refl

verify_init-verify_example :
    ((verify verifier 1
        (some (1 ∷ []))
        (some (mac []))
        (verify_init 1 (some (0x221, no_param)) 1 library).1).0
      ≡ ok tt)
    ↔ (mac [] ≡ mac [])
unfolding mech_hmac_type mech_hmac_output_size key_get
verify_init-verify_example =
    verify_init-verify verifier 1 0x221 1 sha_1 no_param mac_key (1 ∷ []) (mac []) (mac []) library
      refl refl refl checking (omega arith) (omega arith) refl refl refl mac-AllBytes mac-AllBytes

abbrev signing : Library
signing = (sign_init 1 (some (0x221, no_param)) 1 library).1

abbrev signed : Library
signed = (sign signer 1 (some (1 ∷ [])) true (some 20) signing).1

sign-verify_example :
    (verify verifier 1
      (some (1 ∷ []))
      (some (mac []))
      (verify_init 1 (some (0x221, no_param)) 1 signed).1).0
    ≡ ok tt
unfolding mech_hmac_type mech_hmac_output_size session_get key_get sign_init check_sign
    check_sign_mech sign sign_hmac sign_answer or_failed end_sign put_session verify_init
    check_verify check_verify_mech
sign-verify_example =
    sign-verify signer verifier 1 1 0x221 1 20 sha_1 no_param no_param (1 ∷ []) (mac []) library
      signing signed (verify_init 1 (some (0x221, no_param)) 1 signed).1 refl (λ hash k bytes. refl)
      refl refl refl refl refl
