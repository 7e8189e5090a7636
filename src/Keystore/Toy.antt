-- ===== src/Keystore/Toy.antt =====
-- Two keystores for the examples, with a cipher that changes nothing.
use wolf_p.Prelude.{
  ℕ, zero, suc, ◌*◌, ◌≤◌, ◌<◌, ◌≡◌, ◌≢◌, refl, sym, replicate, length-replicate, ap, ◌∙◌, true,
  none, some, List, [], ◌∷◌, ◌++◌, length, length-append, drop, arith, ok, subst,
}
use mathlib.Core.List.{append-nil}
use wolf_p.Keystore.{max_ct_len, KeyEntry}
use wolf_p.Keystore.Payload.Written.{AreEntries, payload_bytes}
use wolf_p.Keystore.Payload.Bounds.{encode_payload_fits}
use wolf_p.Keystore.Io.{ReadRet, SysRet, value, World}
use wolf_p.Keystore.Io.Laws.{Delivers, Takes}
use wolf_p.Keystore.File.{Crypto, Opened, LoadMemory, load, Creation, header, create}
use wolf_p.Keystore.Cbor.{major_array}
use wolf_p.Keystore.Cbor.Heads.{head_bytes, string_bytes, NoZero}
use wolf_p.Keystore.Payload.Written.{IsEntry, entry_bytes, entries_bytes, cert_bytes}
use wolf_p.Keystore.Io.{got, interrupted}
use wolf_p.Keystore.Io.Laws.{delivered, piece, taken, put_off, part}
use wolf_p.Keystore.Payload.Fields.{some_injective}
use wolf_p.Keystore.File.Header.{header-length}
use wolf_p.Keystore.File.Created.{Ready, create_succeeds}
use wolf_p.Keystore.File.Loading.{payload_bytes-nonempty, Documented, Drawn, Roomy, Shows}
use wolf_p.Keystore.File.RoundTrip.{create-load}

-- A cipher that changes nothing, with a tag of zeros, and a derivation that gives the PIN.
abbrev pub toy : Crypto
toy = record {
  derive = λ pin salt iter. some pin;
  set_key = λ key. true;
  encrypt = λ key nonce plain. some (plain, replicate 16 0);
  decrypt = λ key nonce ct tag. some ct;
}

pub toy-Documented : Documented toy
toy-Documented = record {
  decrypted = λ key nonce plain ct tag e. ground arith;
  ct_size = λ key nonce plain ct tag e. ap length (sym (ap (λ x. x.0) (some_injective e)));
  tag_size = λ key nonce plain ct tag e. ap length (sym (ap (λ x. x.1) (some_injective e)));
}

abbrev pub salt : List ℕ
salt = replicate 32 1

abbrev pub nonce : List ℕ
nonce = replicate 12 2

abbrev pub how : Creation
how = record {
  plain_ok = true;
  ct_ok = true;
  rng_ok = true;
  salt = some salt;
  nonce = some nonce;
  path_max = 4096;
}

pub how-Drawn : Drawn how
how-Drawn = record {
  salt_size = λ s e. ap length (sym (some_injective e));
  nonce_size = λ s e. ap length (sym (some_injective e));
}

abbrev pub memory : LoadMemory
memory = record {
  file_ok = true;
  plain_ok = true;
  plain_locked = true;
  entries_ok = true;
  entries_locked = true;
  handle_ok = true;
  decoding = record { malloc_ok = λ left n. true; mlock_ok = λ left n. true };
}

pub memory-Roomy : Roomy memory
memory-Roomy = record {
  file_ok = refl;
  plain_ok = refl;
  plain_locked = refl;
  entries_ok = refl;
  entries_locked = refl;
  handle_ok = refl;
  decoding = λ left n. (refl, refl);
}

abbrev pub pin : List ℕ
pin = 49 ∷ 50 ∷ 51 ∷ 52 ∷ []

abbrev pub path : List ℕ
path = 107 ∷ []

abbrev pub one_key : List KeyEntry
one_key =
    record { id = replicate 16 7; label = 107 ∷ []; key_type = 1; der = 48 ∷ 0 ∷ []; cert = none }
    ∷ []

pub one_key-AreEntries : AreEntries one_key
one_key-AreEntries = (
  record {
    id_size = refl;
    label_size = omega arith;
    label_text = (λ e. absurd (ground arith), tt);
    known_type = omega arith;
    der_size = omega arith;
    cert_size = λ c e. absurd (ground arith);
  },
  tt,
)

pub one_key-Ready :
    Ready how toy path pin one_key salt nonce pin (payload_bytes one_key) (replicate 16 0)
one_key-Ready = record {
  path_size = omega arith;
  pin_size = omega arith;
  pin_given = λ e. ground arith;
  good = one_key-AreEntries;
  few = omega arith;
  plain_ok = refl;
  ct_ok = refl;
  rng_ok = refl;
  drawn_salt = refl;
  drawn_nonce = refl;
  derived = refl;
  key_set = refl;
  sealed = refl;
}

-- Bytes taken at once.
pub drop_all : (xs : List ℕ) → drop (length xs) xs ≡ []
drop_all [] = refl
drop_all (x ∷ xs) = drop_all xs

pub at_once :
    (bs : List ℕ) (answers : List SysRet)
    → length bs ≢ 0
    → Takes (value (length bs) ∷ answers) bs answers
at_once [] answers h = absurd (h refl)
at_once (b ∷ bs) answers h =
    part (length bs) b bs (subst (λ x. Takes answers x answers) (sym (drop_all bs)) taken)

-- Bytes taken at once after an interruption.
pub after_interrupt :
    (bs : List ℕ) (answers : List SysRet)
    → length bs ≢ 0
    → Takes (interrupted ∷ value (length bs) ∷ answers) bs answers
after_interrupt [] answers h = absurd (h refl)
after_interrupt (b ∷ bs) answers h = put_off (at_once (b ∷ bs) answers h)

abbrev pub header_of : List KeyEntry → List ℕ
header_of keys = header salt nonce (length (payload_bytes keys))

-- The answers of a system that is interrupted once, and takes each part at once.
abbrev pub answers_for : List KeyEntry → List SysRet
answers_for keys =
    value 3
    ∷ interrupted
    ∷ value (length (header_of keys))
    ∷ value (length (payload_bytes keys))
    ∷ value 16
    ∷ value 0
    ∷ value 0
    ∷ value 0
    ∷ []

abbrev pub world_for : List KeyEntry → World
world_for keys = record { answers = answers_for keys; disk = record { target = none; temp = none } }

abbrev pub file_of : List KeyEntry → List ℕ
file_of keys = header_of keys ++ (payload_bytes keys ++ replicate 16 0)

abbrev pub IsReady : List KeyEntry → Type 0
IsReady keys = Ready how toy path pin keys salt nonce pin (payload_bytes keys) (replicate 16 0)

pub header_of-nonempty : (keys : List KeyEntry) → length (header_of keys) ≢ 0
header_of-nonempty keys e =
    omega (arith, header-length salt nonce (length (payload_bytes keys)) refl refl)

pub create-toy :
    (keys : List KeyEntry)
    → IsReady keys
    → create how toy (some path) (some pin) true keys (world_for keys) ≡ (
      ok tt,
      record { answers = []; disk = record { target = some (file_of keys); temp = none } },
    )
create-toy keys r =
    create_succeeds how toy path pin keys salt nonce pin (payload_bytes keys) (replicate 16 0) r
      (record { target = none; temp = none }) 3 0 0 (value 0)
      (after_interrupt (header_of keys) _ (header_of-nonempty keys))
      (at_once (payload_bytes keys) _ (payload_bytes-nonempty keys))
      (at_once (replicate 16 0) _ (λ e. ground arith))

-- As many keys and certificates as the format's limits allow.
abbrev pub large_entry : KeyEntry
large_entry = record {
  id = replicate 16 7;
  label = replicate 64 107;
  key_type = 0;
  der = replicate 4096 48;
  cert = some (replicate 4096 48);
}

pub replicate-NoZero : (n : ℕ) → NoZero (replicate n 107)
replicate-NoZero zero = tt
replicate-NoZero (suc n) = (λ e. absurd (ground arith), replicate-NoZero n)

pub large_entry-IsEntry : IsEntry large_entry
large_entry-IsEntry = record {
  id_size = refl;
  label_size = omega (arith, length-replicate {A = ℕ} 64 107);
  label_text = replicate-NoZero 64;
  known_type = omega arith;
  der_size = omega (arith, length-replicate {A = ℕ} 4096 48);
  cert_size = λ c e. omega (arith, ap length (some_injective e), length-replicate {A = ℕ} 4096 48);
}

pub full_store : List KeyEntry
full_store = replicate 64 large_entry

pub replicate-AreEntries : (n : ℕ) → AreEntries (replicate n large_entry)
replicate-AreEntries zero = tt
replicate-AreEntries (suc n) = (large_entry-IsEntry, replicate-AreEntries n)

pub length-entries_bytes-replicate :
    (n : ℕ) (e : KeyEntry) → length (entries_bytes (replicate n e)) ≡ n * length (entry_bytes e)
unfolding entries_bytes
length-entries_bytes-replicate zero e = omega arith
length-entries_bytes-replicate (suc n) e = omega (
  arith,
  length-append (entry_bytes e) (entries_bytes (replicate n e)),
  length-entries_bytes-replicate n e,
)

pub large_entry_size : 8200 ≤ length (entry_bytes large_entry)
unfolding entry_bytes string_bytes cert_bytes
large_entry_size =
    simp length-append
      (omega (arith, length-replicate {A = ℕ} 4096 48, length-replicate {A = ℕ} 64 107))

pub full_store_size : max_ct_len < length (payload_bytes full_store)
unfolding full_store payload_bytes
full_store_size = omega (
  arith,
  length-append (head_bytes major_array (length (replicate 64 large_entry)))
      (entries_bytes (replicate 64 large_entry)),
  length-entries_bytes-replicate 64 large_entry,
  large_entry_size,
)

pub full_store-Ready : IsReady full_store
unfolding full_store
full_store-Ready = record {
  path_size = omega arith;
  pin_size = omega arith;
  pin_given = λ e. ground arith;
  good = replicate-AreEntries 64;
  few = omega (arith, length-replicate {A = KeyEntry} 64 large_entry);
  plain_ok = refl;
  ct_ok = refl;
  rng_ok = refl;
  drawn_salt = refl;
  drawn_nonce = refl;
  derived = refl;
  key_set = refl;
  sealed = refl;
}

-- The file above, read in one piece.
pub one_key_loads :
    (file : List ℕ) × ((create how toy
        (some path)
        (some pin)
        true
        one_key
        (world_for one_key)).1.disk.target
      ≡ some file)
    × ((mem : LoadMemory) (f : Opened)
        → Roomy mem
        → Shows f file
        → load mem toy (some f) true (some pin) true ≡ ok one_key)
one_key_loads =
    create-load how toy path pin true one_key (world_for one_key) toy-Documented how-Drawn
      one_key-AreEntries
      (omega (arith, (encode_payload_fits one_key one_key-AreEntries (omega arith)).1))
      (ap (λ r. r.0) (create-toy one_key one_key-Ready))

abbrev pub one_read : List ℕ → List ReadRet
one_read content = got content ∷ []

pub one_read-Delivers :
    (content : List ℕ) → length content ≢ 0 → Delivers (one_read content) content
one_read-Delivers [] h = absurd (h refl)
one_read-Delivers (b ∷ bs) h =
    subst (Delivers (got (b ∷ bs) ∷ [])) (append-nil (b ∷ bs)) (piece b bs delivered)

abbrev pub opened_with : List ℕ → Opened
opened_with content = record { size = some (length content); reads = one_read content }

pub one_key_file-nonempty : length one_key_loads.0 ≢ 0
one_key_file-nonempty e =
    let same : file_of one_key ≡ one_key_loads.0 =
      some_injective
        (sym (ap (λ r. r.1.disk.target) (create-toy one_key one_key-Ready)) ∙ one_key_loads.1) in
    omega (
      arith,
      ap length same,
      length-append (header_of one_key) (payload_bytes one_key ++ replicate 16 0),
      header_of-nonempty one_key,
    )
