-- ===== src/Keystore/File/Loading.antt =====
-- The steps of wp11_keystore_load of src/wp11_keystore.c on a file that was written.
use wolf_p.Prelude.{
  ℕ, ◌+◌, ◌≤◌, ◌<◌, ◌≡◌, ◌≢◌, sym, ap, ap₂, ◌∙◌, true, some, List, [], length, length-append, arith,
  ok, err,
}
use mathlib.Core.List.{append-nil}
use wolf_p.Keystore.{truncated, max_entries, max_ct_len, KeyEntry}
use wolf_p.Keystore.Payload.{decode_payload}
use wolf_p.Keystore.Cbor.{major_array}
use wolf_p.Keystore.Cbor.Heads.{head_bytes, length-head_bytes}
use wolf_p.Keystore.Payload.Written.{AreEntries, payload_bytes, entries_bytes}
use wolf_p.Keystore.Payload.RoundTrip.{Enough, decode_payload-payload_bytes}
use wolf_p.Keystore.Io.{returns}
use wolf_p.Keystore.Io.Laws.{Delivers, read_all-Delivers}
use wolf_p.Keystore.File.{
  Crypto, salt_len, nonce_len, tag_len, hdr_len, off_salt, off_nonce, kdf_iterations, field, Opened,
  LoadMemory, check_pin, read_file, parse_header, open_payload, load_entries, load, Creation,
}
use wolf_p.Keystore.File.Header.{file_bytes, salt_field, nonce_field, ct_field, tag_field}

-- wolfCrypt as documented: what AES-GCM encrypts it decrypts with the same key and nonce, a
-- ciphertext has as many bytes as its plaintext, and a tag has 16.
pub record Documented (c : Crypto) : Type 0 where
  pub decrypted :
      (key nonce plain ct tag : List ℕ)
      → c.encrypt key nonce plain ≡ some (ct, tag)
      → c.decrypt key nonce ct tag ≡ some plain
  pub ct_size :
      (key nonce plain ct tag : List ℕ)
      → c.encrypt key nonce plain ≡ some (ct, tag)
      → length ct ≡ length plain
  pub tag_size :
      (key nonce plain ct tag : List ℕ)
      → c.encrypt key nonce plain ≡ some (ct, tag)
      → length tag ≡ tag_len

-- wc_RNG_GenerateBlock fills the whole block.
pub record Drawn (how : Creation) : Type 0 where
  pub salt_size : (s : List ℕ) → how.salt ≡ some s → length s ≡ salt_len
  pub nonce_size : (s : List ℕ) → how.nonce ≡ some s → length s ≡ nonce_len

-- No allocation and no mlock of a load fails.
pub record Roomy (mem : LoadMemory) : Type 0 where
  pub file_ok : mem.file_ok ≡ true
  pub plain_ok : mem.plain_ok ≡ true
  pub plain_locked : mem.plain_locked ≡ true
  pub entries_ok : mem.entries_ok ≡ true
  pub entries_locked : mem.entries_locked ≡ true
  pub handle_ok : mem.handle_ok ≡ true
  pub decoding : Enough mem.decoding

open_payload_steps :
    (mem : LoadMemory) (c : Crypto) (pin buf key plain : List ℕ) (iter n : ℕ)
    → mem.plain_ok ≡ true
    → mem.plain_locked ≡ true
    → n ≢ 0
    → c.derive pin (field off_salt salt_len buf) iter ≡ some key
    → c.set_key key ≡ true
    → c.decrypt key
        (field off_nonce nonce_len buf)
        (field hdr_len n buf)
        (field (hdr_len + n) tag_len buf)
      ≡ some plain
    → open_payload mem c pin buf (iter, n) ≡ ok plain
unfolding open_payload
open_payload_steps mem c pin buf key plain iter n h1 h2 h3 h4 h5 h6 =
    ground (arith, h1, h2, h4, h5, h6)

pub open_payload-written :
    (mem : LoadMemory) (c : Crypto) (pin salt nonce key plain ct tag : List ℕ)
    → Roomy mem
    → length salt ≡ salt_len
    → length nonce ≡ nonce_len
    → c.derive pin salt kdf_iterations ≡ some key
    → c.set_key key ≡ true
    → c.encrypt key nonce plain ≡ some (ct, tag)
    → Documented c
    → length plain ≢ 0
    → open_payload mem c pin
        (file_bytes salt nonce (length plain) ct tag)
        (kdf_iterations, length plain)
      ≡ ok plain
open_payload-written mem c pin salt nonce key plain ct tag room hs hn derived set enc doc
      some_bytes =
    let n = length plain in
    let ct_size : length ct ≡ n = doc.ct_size key nonce plain ct tag enc in
    let tag_size = doc.tag_size key nonce plain ct tag enc in
    let s = salt_field salt nonce ct tag n hs hn in
    let m = nonce_field salt nonce ct tag n hs hn in
    let b : field hdr_len n (file_bytes salt nonce n ct tag) ≡ ct =
      ap (λ k. field hdr_len k (file_bytes salt nonce n ct tag)) (sym ct_size)
      ∙ ct_field salt nonce ct tag n hs hn in
    let t : field (hdr_len + n) tag_len (file_bytes salt nonce n ct tag) ≡ tag =
      ap (λ k. field (hdr_len + k) tag_len (file_bytes salt nonce n ct tag)) (sym ct_size)
      ∙ tag_field salt nonce ct tag n hs hn tag_size in
    let got_key : c.derive pin (field off_salt salt_len (file_bytes salt nonce n ct tag))
          kdf_iterations
        ≡ some key =
      ap (λ x. c.derive pin x kdf_iterations) s ∙ derived in
    let got_plain : c.decrypt key (field off_nonce nonce_len (file_bytes salt nonce n ct tag))
          (field hdr_len n (file_bytes salt nonce n ct tag))
          (field (hdr_len + n) tag_len (file_bytes salt nonce n ct tag))
        ≡ some plain =
      ap₂ (λ g x. g x) (ap₂ (c.decrypt key) m b) t ∙ doc.decrypted key nonce plain ct tag enc in
    open_payload_steps mem c pin (file_bytes salt nonce n ct tag) key plain kdf_iterations n
      room.plain_ok room.plain_locked some_bytes got_key set got_plain

pub load_entries-written :
    (mem : LoadMemory) (keys : List KeyEntry)
    → Roomy mem
    → AreEntries keys
    → length keys ≤ max_entries
    → load_entries mem (payload_bytes keys) ≡ ok keys
unfolding load_entries
load_entries-written mem keys room good few =
    let whole : decode_payload mem.decoding (payload_bytes keys) ≡ ok keys =
      ap (decode_payload mem.decoding) (sym (append-nil (payload_bytes keys)))
      ∙ decode_payload-payload_bytes mem.decoding room.decoding keys [] good few in
    ground (arith, whole, room.entries_ok, room.entries_locked, room.handle_ok)

pub payload_bytes-nonempty : (keys : List KeyEntry) → length (payload_bytes keys) ≢ 0
unfolding payload_bytes
payload_bytes-nonempty keys e = omega (
  arith,
  length-append (head_bytes major_array (length keys)) (entries_bytes keys),
  length-head_bytes major_array (length keys),
)

-- What a load needs of the system: the file's size, and answers that deliver its bytes.
pub record Shows (f : Opened) (bytes : List ℕ) : Type 0 where
  pub size : f.size ≡ some (length bytes)
  pub reads : Delivers f.reads bytes

pub load_steps :
    (mem : LoadMemory) (c : Crypto) (f : Opened) (pin buf plain : List ℕ) (parsed : ℕ × ℕ)
    (keys : List KeyEntry)
    → check_pin (some pin) ≡ ok pin
    → read_file mem (some f) ≡ ok buf
    → parse_header buf ≡ ok parsed
    → open_payload mem c pin buf parsed ≡ ok plain
    → load_entries mem plain ≡ ok keys
    → load mem c (some f) true (some pin) true ≡ ok keys
unfolding load
load_steps mem c f pin buf plain parsed keys h1 h2 h3 h4 h5 = ground (arith, h1, h2, h3, h4, h5)

pub read_file-Shows :
    (mem : LoadMemory) (f : Opened) (buf : List ℕ)
    → mem.file_ok ≡ true
    → Shows f buf
    → hdr_len + tag_len ≤ length buf
    → length buf ≤ hdr_len + max_ct_len + tag_len
    → read_file mem (some f) ≡ ok buf
unfolding read_file
read_file-Shows mem f buf file_ok shows big small =
    ground (arith, file_ok, shows.size, read_all-Delivers shows.reads)

pub load_oversized :
    (mem : LoadMemory) (c : Crypto) (f : Opened) (pin file : List ℕ)
    → check_pin (some pin) ≡ ok pin
    → Shows f file
    → hdr_len + max_ct_len + tag_len < length file
    → load mem c (some f) true (some pin) true ≡ err (returns truncated)
unfolding load read_file
load_oversized mem c f pin file checked shows large = ground (arith, checked, shows.size)
