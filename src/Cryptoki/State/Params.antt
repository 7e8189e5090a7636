-- ===== src/Cryptoki/State/Params.antt =====
-- The parameters and the contexts of operations that a session of src/wp11_pkcs11.c keeps.
use wolf_p.Prelude.{ℕ, Option, none, List, []}

-- The hash functions that mechanisms name.
pub data Hash : Type 0 where
  md5 sha_1 sha224 sha256 sha384 sha512 : Hash

-- The parameters of RSA-PSS: the hash, the hash of the mask generation, and the salt's length, where
-- `none` is RSA_PSS_SALT_LEN_DEFAULT.
pub record Pss : Type 0 where
  pub hash_type : Hash
  pub mgf : Hash
  pub salt_len : Option ℕ

-- The parameters of AES-GCM.
pub record Gcm : Type 0 where
  pub iv : List ℕ
  pub aad : List ℕ
  pub tag_bits : ℕ

abbrev pub zero_gcm : Gcm
zero_gcm = record { iv = []; aad = []; tag_bits = 0 }

-- The parameters of RSA-OAEP: the hash, the hash of the mask generation, and the label.
pub record Oaep : Type 0 where
  pub hash_type : Hash
  pub mgf : Hash
  pub label : List ℕ

-- A cipher context of wolfCrypt: the key and the IV that it was set up with, and the data that it was
-- given since, call by call.
pub record CipherCtx : Type 0 where
  pub set_key : List ℕ
  pub set_iv : Option (List ℕ)
  pub given : List (List ℕ)

abbrev pub zero_ctx : CipherCtx
zero_ctx = record { set_key = []; set_iv = none; given = [] }
