-- ===== src/Keystore/Examples.antt =====
-- The theorems on keystore files at concrete inputs.
use wolf_p.Prelude.{
  ℕ, ◌≤◌, ◌≡◌, ◌≢◌, refl, replicate, ap, true, none, some, List, [], ◌∷◌, length, arith, ok, err,
  ◌⊎◌,
}
use wolf_p.Keystore.{truncated, max_entries}
use wolf_p.Keystore.Payload.Written.{AreEntries, payload_bytes}
use wolf_p.Keystore.Payload.Bounds.{encode_payload_fits}
use wolf_p.Keystore.Io.{returns, value, World, save}
use wolf_p.Keystore.File.{Opened, LoadMemory, read_file, load, create}
use wolf_p.Keystore.Cbor.Skip.{Item, number, bytes, array, map, end, item}
use wolf_p.Keystore.Io.Atomic.{save_atomic}
use wolf_p.Keystore.File.Created.{create_succeeds}
use wolf_p.Keystore.File.Loading.{payload_bytes-nonempty, Roomy, Shows}
use wolf_p.Keystore.File.RoundTrip.{create-load, create-load_refused}
use wolf_p.Keystore.File.Sound.{Opening, load_sound}
use wolf_p.Keystore.Toy.{
  toy, toy-Documented, salt, nonce, how, how-Drawn, memory, memory-Roomy, pin, path, one_key,
  one_key-AreEntries, one_key-Ready, at_once, after_interrupt, header_of, world_for, file_of,
  header_of-nonempty, create-toy, full_store, full_store_size, full_store-Ready, one_key_loads,
  one_read-Delivers, opened_with, one_key_file-nonempty,
}

create_succeeds_example : create how toy (some path) (some pin) true one_key (world_for one_key) ≡ (
  ok tt,
  record { answers = []; disk = record { target = some (file_of one_key); temp = none } },
)
create_succeeds_example =
    create_succeeds how toy path pin one_key salt nonce pin (payload_bytes one_key) (replicate 16 0)
      one_key-Ready (record { target = none; temp = none }) 3 0 0 (value 0)
      (after_interrupt (header_of one_key) _ (header_of-nonempty one_key))
      (at_once (payload_bytes one_key) _ (payload_bytes-nonempty one_key))
      (at_once (replicate 16 0) _ (λ e. ground arith))

create-load_example :
    (file : List ℕ) × ((create how toy
        (some path)
        (some pin)
        true
        one_key
        (world_for one_key)).1.disk.target
      ≡ some file)
    × ((mem : LoadMemory) (f : Opened)
        → Roomy mem
        → Shows f file
        → load mem toy (some f) true (some pin) true ≡ ok one_key)
create-load_example =
    create-load how toy path pin true one_key (world_for one_key) toy-Documented how-Drawn
      one_key-AreEntries
      (omega (arith, (encode_payload_fits one_key one_key-AreEntries (omega arith)).1))
      (ap (λ r. r.0) (create-toy one_key one_key-Ready))

create-load_refused_example :
    (file : List ℕ) × ((create how toy
        (some path)
        (some pin)
        true
        full_store
        (world_for full_store)).1.disk.target
      ≡ some file)
    × ((mem : LoadMemory) (f : Opened)
        → Shows f file
        → load mem toy (some f) true (some (9 ∷ [])) true ≡ err (returns truncated))
create-load_refused_example =
    create-load_refused how toy path pin (9 ∷ []) true full_store (world_for full_store)
      toy-Documented how-Drawn full_store-Ready.good full_store_size (omega arith) (omega arith)
      (ap (λ r. r.0) (create-toy full_store full_store-Ready))

-- A process that is killed within the ciphertext.
abbrev killed_world : World
killed_world = record {
  answers = value 3 ∷ value 2 ∷ value 1 ∷ [];
  disk = record { target = some (9 ∷ []); temp = none };
}

save_atomic_example :
    (((save (1 ∷ 2 ∷ []) (3 ∷ 4 ∷ []) (5 ∷ []) killed_world).0 ≢ ok tt)
      × ((save (1 ∷ 2 ∷ []) (3 ∷ 4 ∷ []) (5 ∷ []) killed_world).1.disk.target ≡ some (9 ∷ [])))
    ⊎ (((save (1 ∷ 2 ∷ []) (3 ∷ 4 ∷ []) (5 ∷ []) killed_world).0 ≡ ok tt)
        × ((save (1 ∷ 2 ∷ []) (3 ∷ 4 ∷ []) (5 ∷ []) killed_world).1.disk.target
            ≡ some (1 ∷ 2 ∷ 3 ∷ 4 ∷ 5 ∷ [])))
save_atomic_example = save_atomic (1 ∷ 2 ∷ []) (3 ∷ 4 ∷ []) (5 ∷ []) killed_world

-- The map { 1: [ h'05' ] }, and a byte behind it.
abbrev nested : Item
nested = map (item (number 1) (item (array (item (bytes (5 ∷ [])) end)) end))

load_sound_example :
    (buf : List ℕ) × (read_file memory (some (opened_with one_key_loads.0)) ≡ ok buf)
    × Opening toy memory.decoding pin buf one_key
    × (length one_key ≤ max_entries)
    × AreEntries one_key
load_sound_example = load_sound memory toy (opened_with one_key_loads.0) pin one_key (
    one_key_loads.2 memory (opened_with one_key_loads.0) memory-Roomy
      (record { size = refl; reads = one_read-Delivers one_key_loads.0 one_key_file-nonempty }))
