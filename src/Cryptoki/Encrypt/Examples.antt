-- ===== src/Cryptoki/Encrypt/Examples.antt =====
-- The theorems on encryption at concrete inputs.
use wolf_p.Prelude.{
  ℕ, ◌/◌, ◌≤◌, ◌≡◌, refl, true, false, some, none, List, [], ◌∷◌, ◌++◌, replicate, length-replicate,
  ok, err, arith, inr,
}
use wolf_p.Cryptoki.State.{
  zero_session, KeyObj, zero_key, zero_slot, Library, session_get, key_get, operation_active,
  operation_not_initialized,
}
use wolf_p.Cryptoki.Find.{put_session}
use wolf_p.Cryptoki.Digest.Pieces.{joined}
use wolf_p.Cryptoki.EncryptInit.{
  Cipher, CipherParam, check_encrypt, encrypt_setup, block_setup, mech_block_size, mech_has_iv,
  mech_required_key_type, encrypt_init,
}
use wolf_p.Cryptoki.Encrypt.{
  enc_size, encrypted, encrypt, encrypt_update, encrypt_with, encrypt_block, encrypt_part, ragged,
  knows_block,
}
use wolf_p.Cryptoki.Encrypt.Pieces.{taken, Chains, encrypt_pieces, encrypt_pieces-encrypt}
use wolf_p.Cryptoki.Encrypt.Laws.{Measured, encrypt_bounded}
use wolf_p.Cryptoki.Encrypt.Modes.{encrypt_update-encrypt, encrypt-encrypt_update}

-- A cipher that gives the data back, with a tag of zeros.
abbrev echo : Cipher
echo = record {
  aes_set_key = λ key. true;
  gcm_set_key = λ key. true;
  process = λ mech ctx bytes. some bytes;
  gcm_encrypt = λ ctx gcm bytes. some (bytes, replicate (gcm.tag_bits / 8) 0);
  rsa_size = λ obj. some 256;
  rsa_encrypt = λ obj bytes room. some [];
  oaep_size = λ obj oaep. some 256;
  oaep_encrypt = λ obj oaep bytes room. some [];
}

echo-Chains : Chains echo
echo-Chains = ((λ mech ctx. refl), (λ mech ctx a b whole. refl))

echo-Measured : Measured echo
echo-Measured = record {
  of_process = λ mech ctx bytes out e. ground arith;
  of_gcm = λ ctx gcm bytes out e.
      (ground arith, ground (arith, length-replicate {A = ℕ} (gcm.tag_bits / 8) 0));
  of_rsa = λ obj bytes out room e. ground arith;
  of_oaep = λ obj oaep bytes out room e. ground arith;
}

-- An AES key and a session.
abbrev aes_key : KeyObj
aes_key = record zero_key {
  in_use = true;
  obj_class = 4;
  key_type = 0x1F;
  has_secret = true;
  secret = replicate 16 7;
}

abbrev library : Library
library = record {
  lock_ok = true;
  initialized = true;
  sessions = record zero_session { in_use = true } ∷ replicate 7 zero_session;
  slots = replicate 16 zero_slot;
  keys = aes_key ∷ replicate 63 zero_key;
}

abbrev no_param : CipherParam
no_param = record {
  base = record { given = false; len = 0; hash_alg = 0; mgf = 0; s_len = 0 };
  iv_bytes = [];
  p_iv = none;
  aad_given = false;
  p_aad = [];
  tag_bits = 0;
  source_given = false;
  source = [];
}

abbrev started : Library
started = (encrypt_init echo 1 (some (0x1081, no_param)) 1 library).1

starts : (encrypt_init echo 1 (some (0x1081, no_param)) 1 library).0 ≡ ok tt
unfolding encrypt_init check_encrypt encrypt_setup block_setup mech_required_key_type mech_has_iv
    mech_block_size session_get key_get
starts = refl

abbrev two_blocks : List (List ℕ)
two_blocks = replicate 16 1 ∷ replicate 16 2 ∷ []

encrypt_pieces-encrypt_example :
    encrypt_pieces echo 1 16 two_blocks started
    ≡ taken (encrypt echo 1 (some (replicate 16 1 ++ replicate 16 2)) true (some 32) started).0
unfolding joined ragged mech_block_size knows_block
encrypt_pieces-encrypt_example =
    encrypt_pieces-encrypt echo library 1 0x1081 1 16 32 no_param two_blocks echo-Chains refl refl
      starts (refl, omega arith, (refl, omega arith, tt)) (omega arith) (omega arith)

first_part :
    (encrypt_update echo 1 (some (replicate 16 1)) true (some 20) started).0
    ≡ ok (encrypted (replicate 16 1) 16)
unfolding encrypt_init check_encrypt encrypt_setup block_setup mech_required_key_type mech_has_iv
    mech_block_size session_get key_get put_session encrypt_update encrypt_part ragged knows_block
first_part = refl

query : (encrypt echo 1 (some (replicate 16 1)) false (some 0) started).0 ≡ ok (enc_size 16)
unfolding encrypt_init check_encrypt encrypt_setup block_setup mech_required_key_type mech_has_iv
    mech_block_size session_get key_get put_session encrypt encrypt_with encrypt_block ragged
    knows_block
query = refl

encrypt_bounded_example : (16 ≤ 16) × (16 ≤ 20)
encrypt_bounded_example =
    encrypt_bounded echo started 1 20 16 (some (replicate 16 1)) true (replicate 16 1) echo-Measured
      (inr first_part)

encrypt_update-encrypt_example :
    let g' = (encrypt_update echo 1 (some (replicate 16 1)) true (some 20) started).1 in
    let (r, g'') = encrypt echo 1 none true none g' in
    (r ≡ err operation_active)
    × ((encrypt echo 1 (some (1 ∷ [])) false (some 3) g'').0 ≡ err operation_not_initialized)
    × ((encrypt_update echo 1 (some (1 ∷ [])) false (some 3) g'').0 ≡ err operation_not_initialized)
unfolding encrypt_init check_encrypt encrypt_setup block_setup mech_required_key_type mech_has_iv
    mech_block_size session_get key_get put_session
encrypt_update-encrypt_example =
    encrypt_update-encrypt echo started 1 20 16 (replicate 16 1) true (replicate 16 1) echo none
      true none echo (some (1 ∷ [])) false (some 3) refl first_part

encrypt-encrypt_update_example :
    let g' = (encrypt echo 1 (some (replicate 16 1)) false (some 0) started).1 in
    let (r, g'') = encrypt_update echo 1 none true none g' in
    (r ≡ err operation_active)
    × ((encrypt echo 1 (some (1 ∷ [])) false (some 3) g'').0 ≡ err operation_not_initialized)
    × ((encrypt_update echo 1 (some (1 ∷ [])) false (some 3) g'').0 ≡ err operation_not_initialized)
unfolding encrypt_init check_encrypt encrypt_setup block_setup mech_required_key_type mech_has_iv
    mech_block_size session_get key_get put_session
encrypt-encrypt_update_example =
    encrypt-encrypt_update echo started 1 0 16 (replicate 16 1) false echo none true none echo
      (some (1 ∷ [])) false (some 3) refl query
