-- ===== src/Keystore/File.antt =====
-- wp11_keystore_load and wp11_keystore_create of src/wp11_keystore.c: the file format around the
-- encrypted payload. wolfCrypt is a parameter.
pub mod Header
pub mod Created
pub mod Loading
pub mod RoundTrip
pub mod Sound
use wolf_p.Prelude.{
  ℕ, ◌+◌, ◌-◌, ◌*◌, ◌/◌, ◌%◌, ◌^◌, Bool, true, false, not, ◌&&◌, ◌||◌, Option, none, some, List, [],
  ◌∷◌, ◌++◌, ltb, ◌==◌, if◌then◌else◌, length, get_elem?, get_or, take, drop, same_bytes, Result,
  ok, err, bind, Call,
}
use wolf_p.Keystore.{
  KsErr, param, io, nomem, bad_magic, bad_version, bad_pin, kdf_weak, truncated, cbor, mlock,
  crypto, bad_iter, cert_max, max_entries, max_ct_len, KeyEntry, Memory,
}
use wolf_p.Keystore.Payload.{decode_payload, encode_payload}
use wolf_p.Keystore.Io.{Exit, returns, ReadRet, read_all, World, save}

-- wc_PBKDF2 with the PIN, the salt and the iterations, wc_AesGcmSetKey, wc_AesGcmEncrypt with the key,
-- the nonce and the plaintext, and wc_AesGcmDecrypt with the key, the nonce, the ciphertext and the
-- tag; `none` and `false` stand for an error code.
pub record Crypto : Type 0 where
  pub derive : List ℕ → List ℕ → ℕ → Option (List ℕ)
  pub set_key : List ℕ → Bool
  pub encrypt : List ℕ → List ℕ → List ℕ → Option (List ℕ × List ℕ)
  pub decrypt : List ℕ → List ℕ → List ℕ → List ℕ → Option (List ℕ)

-- WP11_P11K_MAGIC, WP11_P11K_VERSION, the lengths WP11_P11K_SALT_LEN, WP11_P11K_NONCE_LEN,
-- WP11_P11K_TAG_LEN and WP11_P11K_HDR_LEN, and the offsets WP11_P11K_OFF_*.
abbrev pub magic : List ℕ
magic = 80 ∷ 49 ∷ 49 ∷ 75 ∷ []

abbrev pub version : ℕ
version = 1

abbrev pub salt_len : ℕ
salt_len = 32

abbrev pub nonce_len : ℕ
nonce_len = 12

abbrev pub tag_len : ℕ
tag_len = 16

abbrev pub hdr_len : ℕ
hdr_len = 57

abbrev pub off_salt : ℕ
off_salt = 5

abbrev pub off_iter : ℕ
off_iter = 37

abbrev pub off_nonce : ℕ
off_nonce = 41

abbrev pub off_ctlen : ℕ
off_ctlen = 53

-- WP11_KEYSTORE_MIN_KDF_ITER, WP11_KEYSTORE_KDF_ITERATIONS and INT_MAX.
abbrev pub min_kdf_iter : ℕ
min_kdf_iter = 100000

abbrev pub kdf_iterations : ℕ
kdf_iterations = 200000

abbrev pub int_max : ℕ
int_max = 2 ^ 31 - 1

-- `read_u32be` at an offset.
unfoldable pub read_u32be : List ℕ → ℕ → ℕ
read_u32be buf at =
    get_or buf at 0 * 2 ^ 24
    + get_or buf (at + 1) 0 * 2 ^ 16
    + get_or buf (at + 2) 0 * 2 ^ 8
    + get_or buf (at + 3) 0

unfoldable pub write_u32be : ℕ → List ℕ
write_u32be v = (v / 2 ^ 24 % 2 ^ 8) ∷ (v / 2 ^ 16 % 2 ^ 8) ∷ (v / 2 ^ 8 % 2 ^ 8) ∷ (v % 2 ^ 8) ∷ []

-- `n` bytes at an offset.
abbrev pub field : ℕ → ℕ → List ℕ → List ℕ
field at n buf = take n (drop at buf)

-- The file as `open`, `fstat` and `read` show it: `none` is an error of open or of fstat.
pub record Opened : Type 0 where
  pub size : Option ℕ
  pub reads : List ReadRet

-- Whether the calls of malloc and mlock in `wp11_keystore_load` succeed.
pub record LoadMemory : Type 0 where
  pub file_ok : Bool
  pub plain_ok : Bool
  pub plain_locked : Bool
  pub entries_ok : Bool
  pub entries_locked : Bool
  pub handle_ok : Bool
  pub decoding : Memory

-- The PIN's checks, which both functions make.
unfoldable pub check_pin : Option (List ℕ) → Result KsErr (List ℕ)
check_pin none = err param
check_pin (some pin) =
    if length pin == 0 then err param else if ltb int_max (length pin) then err param else ok pin

abbrev pub code : {A : Type 0} → Result KsErr A → Result Exit A
code (ok a) = ok a
code (err e) = err (returns e)

-- Opening and reading of the file.
unfoldable pub read_file : LoadMemory → Option Opened → Result Exit (List ℕ)
read_file mem none = err (returns io)
read_file mem (some f) = elim f.size [
  | none ↦ err (returns io)
  | some size ↦
      if ltb size (hdr_len + tag_len)
      then err (returns truncated)
      else if ltb (hdr_len + max_ct_len + tag_len) size
      then err (returns truncated)
      else if not mem.file_ok
      then err (returns nomem)
      else read_all size f.reads
]

-- The header's checks, with the iterations and the length of the ciphertext.
unfoldable pub parse_header : List ℕ → Result KsErr (ℕ × ℕ)
parse_header buf =
    let iter = read_u32be buf off_iter in
    let ctlen = read_u32be buf off_ctlen in
    if not (same_bytes (take 4 buf) magic)
    then err bad_magic
    else if not (get_or buf 4 0 == version)
    then err bad_version
    else if ltb iter min_kdf_iter
    then err kdf_weak
    else if ltb max_ct_len ctlen
    then err cbor
    else if ltb (length buf) (hdr_len + ctlen + tag_len)
    then err truncated
    else if ltb int_max iter
    then err bad_iter
    else ok (iter, ctlen)

-- From the key's derivation to the plaintext.
unfoldable pub open_payload : LoadMemory → Crypto → List ℕ → List ℕ → ℕ × ℕ → Result KsErr (List ℕ)
open_payload mem c pin buf (iter, ctlen) = elim (c.derive pin (field off_salt salt_len buf) iter) [
  | none ↦ err crypto
  | some key ↦
      if ctlen == 0
      then err cbor
      else if not mem.plain_ok
      then err nomem
      else if not mem.plain_locked
      then err mlock
      else if not (c.set_key key)
      then err crypto
      else elim (c.decrypt key (field off_nonce nonce_len buf) (field hdr_len ctlen buf)
          (field (hdr_len + ctlen) tag_len buf)) [ none ↦ err bad_pin | some plain ↦ ok plain ]
]

-- From the plaintext to the handle.
unfoldable pub load_entries : LoadMemory → List ℕ → Result KsErr (List KeyEntry)
load_entries mem plain =
    if not mem.entries_ok
    then err nomem
    else bind (decode_payload mem.decoding plain) λ keys.
      if not mem.entries_locked then err mlock else if not mem.handle_ok then err nomem else ok keys

-- `wp11_keystore_load`: `has_path` and `has_out` for the pointers `path` and `ks_out`. The handle holds
-- the entries.
unfoldable pub load :
    LoadMemory
    → Crypto
    → Option Opened
    → Bool
    → Option (List ℕ)
    → Bool
    → Result Exit (List KeyEntry)
load mem c f has_path pin has_out =
    if not has_path || not has_out
    then err (returns param)
    else bind (code (check_pin pin)) λ p. bind (read_file mem f) λ buf. code (
        bind (parse_header buf)
          λ parsed. bind (open_payload mem c p buf parsed) λ plain. load_entries mem plain)

-- `wp11_keystore_count` and `wp11_keystore_get`; `none` is a NULL handle or entry.
unfoldable pub keystore_count : Option (List KeyEntry) → ℕ
keystore_count none = 0
keystore_count (some keys) = length keys

unfoldable pub keystore_get : Option (List KeyEntry) → ℕ → Option KeyEntry
keystore_get none i = none
keystore_get (some keys) i = get_elem? keys i

-- What `wp11_keystore_create` gets: whether its two allocations succeed, wc_InitRng, the two random
-- blocks, and PATH_MAX.
pub record Creation : Type 0 where
  pub plain_ok : Bool
  pub ct_ok : Bool
  pub rng_ok : Bool
  pub salt : Option (List ℕ)
  pub nonce : Option (List ℕ)
  pub path_max : ℕ

-- The room for `n` entries.
abbrev pub payload_room : ℕ → ℕ
payload_room n = 5 + n * (4300 + cert_max + 16)

unfoldable pub encode_keys : Creation → List KeyEntry → Result KsErr (List ℕ)
encode_keys how keys =
    if not how.plain_ok
    then err nomem
    else bind (encode_payload (payload_room (length keys)) keys)
        λ plain. if not how.ct_ok then err nomem else ok plain

unfoldable pub draw : Creation → Result KsErr (List ℕ × List ℕ)
draw how = if not how.rng_ok then err crypto else elim how.salt [
  | none ↦ err crypto
  | some salt ↦ elim how.nonce [ none ↦ err crypto | some nonce ↦ ok (salt, nonce) ]
]

-- The key's derivation and the encryption.
unfoldable pub seal : Crypto → List ℕ → List ℕ → List ℕ → List ℕ → Result KsErr (List ℕ × List ℕ)
seal c pin salt nonce plain = elim (c.derive pin salt kdf_iterations) [
  | none ↦ err crypto
  | some key ↦
      if not (c.set_key key)
      then err crypto
      else elim (c.encrypt key nonce plain) [ none ↦ err crypto | some sealed ↦ ok sealed ]
]

unfoldable pub header : List ℕ → List ℕ → ℕ → List ℕ
header salt nonce ctlen =
    magic ++ (version ∷ (salt ++ (write_u32be kdf_iterations ++ (nonce ++ write_u32be ctlen))))

-- The three parts of the file: the header, the ciphertext and the tag. `has_keys` is for the pointer
-- `keys`, whose `nkeys` entries are the list.
unfoldable pub file_parts :
    Creation
    → Crypto
    → Option (List ℕ)
    → Option (List ℕ)
    → Bool
    → List KeyEntry
    → Result KsErr (List ℕ × List ℕ × List ℕ)
file_parts how c none pin has_keys keys = err param
file_parts how c (some path) pin has_keys keys =
    if not has_keys && not (length keys == 0)
    then err param
    else bind (check_pin pin) λ p.
      if ltb max_entries (length keys)
      then err param
      else bind (encode_keys how keys) λ plain. bind (draw how) λ (salt, nonce).
        bind (seal c p salt nonce plain) λ (ct, tag).
          if not (ltb (length path) how.path_max)
          then err param
          else ok (header salt nonce (length plain), ct, tag)

-- `wp11_keystore_create`. A successful encryption gives as many bytes as the plaintext has and a tag
-- of 16, so the writes are of the whole parts.
unfoldable pub create :
    Creation
    → Crypto
    → Option (List ℕ)
    → Option (List ℕ)
    → Bool
    → List KeyEntry
    → Call World Exit (Unit {0})
create how c path pin has_keys keys w = elim (file_parts how c path pin has_keys keys) [
  | err e ↦ (err (returns e), w)
  | ok (hdr, ct, tag) ↦ save hdr ct tag w
]
