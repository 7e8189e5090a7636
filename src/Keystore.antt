-- ===== src/Keystore.antt =====
-- src/wp11_keystore.c and wolfp11/wp11_keystore.h: keystore files, with the extension .p11k.
-- malloc, mlock and wolfCrypt are parameters; a size_t has 64 bits.
pub mod Cbor
pub mod Payload
pub mod Io
pub mod File
mod Toy
mod Examples
use wolf_p.Prelude.{ℕ, Bool, Option, List, ◌^◌}

-- The codes WP11_KEYSTORE_ERR_*.
pub data KsErr : Type 0 where
  param io nomem bad_magic bad_version bad_pin kdf_weak truncated cbor mlock crypto : KsErr
  unsupported bad_iter invalid_der : KsErr

-- WP11_KEYSTORE_LABEL_MAX, WP11_KEYSTORE_DER_MAX and WP11_KEYSTORE_CERT_MAX.
abbrev pub label_max : ℕ
label_max = 64

abbrev pub der_max : ℕ
der_max = 4096

abbrev pub cert_max : ℕ
cert_max = 4096

-- WP11_KEYSTORE_MAX_ENTRIES.
abbrev pub max_entries : ℕ
max_entries = 64

-- WP11_KEYSTORE_MAX_CT_LEN.
abbrev pub max_ct_len : ℕ
max_ct_len = 524288

-- WP11_KEY_TYPE_RSA and WP11_KEY_TYPE_EC.
abbrev pub key_type_rsa : ℕ
key_type_rsa = 0

abbrev pub key_type_ec : ℕ
key_type_ec = 1

-- `wp11_key_entry_t`; the label is the text before its terminator, and `cert` is `none` for a
-- `cert_bytes` that is NULL.
pub record KeyEntry : Type 0 where
  pub id : List ℕ
  pub label : List ℕ
  pub key_type : ℕ
  pub der : List ℕ
  pub cert : Option (List ℕ)

-- Whether malloc and mlock succeed, by the number of bytes that are still to be decoded and the
-- size: no two of the decoder's calls agree in the former.
pub record Memory : Type 0 where
  pub malloc_ok : ℕ → ℕ → Bool
  pub mlock_ok : ℕ → ℕ → Bool
