-- ===== src/Cryptoki/State.antt =====
-- The global tables of src/wp11_pkcs11.c and the lookups by handle. The optional backends are off, as
-- in wolfp11/wp11_settings.h: a slot has no CCID context and no keystore.
mod Params
pub use Params.*
use wolf_p.Prelude.{
  ℕ, ◌-◌, ◌/◌, ◌%◌, ◌^◌, Bool, false, not, ◌||◌, Option, none, some, List, [], length, take, ltb,
  leb, ◌==◌, if◌then◌else◌, get_or, err, Call,
}
use wolf_p.TokenDb.{Proto, soft}

-- Bytes handed over behind a cast of their length to word32.
abbrev pub word32_cut : List ℕ → List ℕ
word32_cut bytes = take (length bytes % 2 ^ 32) bytes

-- The return codes that the modelled functions use; `ok` of a result is CKR_OK.
pub data Ckr : Type 0 where
  cryptoki_not_initialized arguments_bad slot_id_invalid token_not_present : Ckr
  session_handle_invalid session_count session_parallel_not_supported : Ckr
  session_read_write_so_exists session_read_only_exists : Ckr
  user_already_logged_in user_another_already_logged_in user_not_logged_in : Ckr
  user_type_invalid operation_active operation_not_initialized : Ckr
  object_handle_invalid buffer_too_small no_event : Ckr
  key_handle_invalid key_type_inconsistent key_size_range mechanism_invalid
        mechanism_param_invalid :
      Ckr
  attribute_read_only attribute_value_invalid template_incomplete function_not_supported : Ckr
  device_memory host_memory key_indigestible function_failed data_len_range signature_len_range
        device_error action_prohibited signature_invalid :
      Ckr

-- CK_STATE.
pub data SessionState : Type 0 where
  ro_public_session ro_user_functions rw_public_session rw_user_functions rw_so_functions :
      SessionState

-- `wp11_find_attr_t`: the attribute's type and its value's bytes.
pub record FindAttr : Type 0 where
  pub attr_type : ℕ
  pub val : List ℕ

-- `wp11_session_t`, with the mechanisms and the parameters of the signing, verifying and encrypting
-- operations (`pss_sign`, `pss_verify` and `oaep_enc` are `none` until they have been set) and the
-- state of the digest operation; without the mechanism, parameters and context of decrypting. A
-- wolfCrypt context stands for the data it was given since its start, call by call. `find_tmpl` holds
-- the first `find_tmpl_count` attributes.
pub record Session : Type 0 where
  pub in_use : Bool
  pub slot_id : ℕ
  pub flags : ℕ
  pub state : SessionState
  pub logged_in : ℕ
  pub sign_active : Bool
  pub sign_mech : ℕ
  pub sign_key : ℕ
  pub pss_sign : Option Pss
  pub verify_active : Bool
  pub verify_mech : ℕ
  pub verify_key : ℕ
  pub pss_verify : Option Pss
  pub encrypt_active : Bool
  pub encrypt_oneshot : Bool
  pub encrypt_multipart : Bool
  pub encrypt_mech : ℕ
  pub encrypt_key : ℕ
  pub enc_ctx : CipherCtx
  pub gcm_enc : Gcm
  pub oaep_enc : Option Oaep
  pub decrypt_active : Bool
  pub decrypt_key : ℕ
  pub digest_active : Bool
  pub digest_oneshot : Bool
  pub digest_multipart : Bool
  pub digest_mech : ℕ
  pub dig_ctx : List (List ℕ)
  pub find_active : Bool
  pub find_pos : ℕ
  pub find_tmpl : List FindAttr

-- `memset(s, 0, sizeof(*s))`; CKS_RO_PUBLIC_SESSION is 0.
abbrev pub zero_session : Session
zero_session = record {
  in_use = false;
  slot_id = 0;
  flags = 0;
  state = ro_public_session;
  logged_in = 0;
  sign_active = false;
  sign_mech = 0;
  sign_key = 0;
  pss_sign = none;
  verify_active = false;
  verify_mech = 0;
  verify_key = 0;
  pss_verify = none;
  encrypt_active = false;
  encrypt_oneshot = false;
  encrypt_multipart = false;
  encrypt_mech = 0;
  encrypt_key = 0;
  enc_ctx = zero_ctx;
  gcm_enc = zero_gcm;
  oaep_enc = none;
  decrypt_active = false;
  decrypt_key = 0;
  digest_active = false;
  digest_oneshot = false;
  digest_multipart = false;
  digest_mech = 0;
  dig_ctx = [];
  find_active = false;
  find_pos = 0;
  find_tmpl = [];
}

-- `wp11_key_obj_t`: texts as their bytes; `has_priv` is for `key_priv`, `has_secret` for `secret`, whose bytes
-- are none for NULL; `can_sign` is for a `backend_ops` with a `sign`, `can_verify` for one with a `verify`,
-- `soft_ops` for the software backend's, and `cert_der` is `none` for NULL.
pub record KeyObj : Type 0 where
  pub in_use : Bool
  pub slot_id : ℕ
  pub obj_class : ℕ
  pub key_type : ℕ
  pub label : List ℕ
  pub id : List ℕ
  pub application : List ℕ
  pub is_token : Bool
  pub is_private : Bool
  pub sig_len_max : ℕ
  pub has_secret : Bool
  pub secret : List ℕ
  pub cert_der : Option (List ℕ)
  pub is_sensitive : Bool
  pub is_extractable : Bool
  pub always_sensitive : Bool
  pub never_extractable : Bool
  pub is_local : Bool
  pub key_gen_mech : ℕ
  pub has_priv : Bool
  pub can_sign : Bool
  pub can_verify : Bool
  pub soft_ops : Bool

abbrev pub zero_key : KeyObj
zero_key = record {
  in_use = false;
  slot_id = 0;
  obj_class = 0;
  key_type = 0;
  label = [];
  id = [];
  application = [];
  is_token = false;
  is_private = false;
  sig_len_max = 0;
  has_secret = false;
  secret = [];
  cert_der = none;
  is_sensitive = false;
  is_extractable = false;
  always_sensitive = false;
  never_extractable = false;
  is_local = false;
  key_gen_mech = 0;
  has_priv = false;
  can_sign = false;
  can_verify = false;
  soft_ops = false;
}

-- `wp11_slot_t`.
pub record Slot : Type 0 where
  pub in_use : Bool
  pub token_present : Bool
  pub usb_vid : ℕ
  pub usb_pid : ℕ
  pub proto : Proto
  pub pin_fail_count : ℕ

abbrev pub zero_slot : Slot
zero_slot = record {
  in_use = false;
  token_present = false;
  usb_vid = 0;
  usb_pid = 0;
  proto = soft;
  pin_fail_count = 0;
}

abbrev pub max_sessions : ℕ
max_sessions = 8

abbrev pub max_slots : ℕ
max_slots = 16

abbrev pub max_keys : ℕ
max_keys = 64

-- The globals. `lock_ok` is whether WP11_LOCK gets the lock: `g_lock_ready` and wc_LockMutex.
pub record Library : Type 0 where
  pub lock_ok : Bool
  pub initialized : Bool
  pub sessions : List Session
  pub slots : List Slot
  pub keys : List KeyObj

-- `flags & CKF_RW_SESSION` and `flags & CKF_SERIAL_SESSION`.
abbrev pub is_rw : ℕ → Bool
is_rw flags = flags / 2 ^ 1 % 2 == 1

abbrev pub is_serial : ℕ → Bool
is_serial flags = flags / 2 ^ 2 % 2 == 1

-- The two checks that every call begins with.
abbrev pub entered : {A : Type 0} → Call Library Ckr A → Call Library Ckr A
entered call g =
    if not g.lock_ok
    then (err cryptoki_not_initialized, g)
    else if not g.initialized
    then (err cryptoki_not_initialized, g)
    else call g

-- `session_handle_valid` and `session_get`: handles count from 1.
unfoldable pub session_get : List Session → ℕ → Option Session
session_get sessions h =
    if h == 0 || ltb max_sessions h
    then none
    else let s = get_or sessions (h - 1) zero_session in if s.in_use then some s else none

-- `key_handle_valid` and `key_get`.
unfoldable pub key_get : List KeyObj → ℕ → Option KeyObj
key_get keys h =
    if h == 0 || ltb max_keys h
    then none
    else let k = get_or keys (h - 1) zero_key in if k.in_use then some k else none

-- `slot_valid`.
unfoldable pub slot_valid : List Slot → ℕ → Bool
slot_valid slots slot = if leb max_slots slot then false else (get_or slots slot zero_slot).in_use
