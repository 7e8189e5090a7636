-- ===== src/Keystore/File/RoundTrip.antt =====
-- wp11_keystore_load on the file that wp11_keystore_create writes, in src/wp11_keystore.c.
use wolf_p.Prelude.{
  ℕ, ◌+◌, ◌≤◌, ◌<◌, ◌≡◌, ◌≢◌, sym, ap, ◌∙◌, Bool, true, some, List, ◌++◌, length, length-append,
  arith, Result-cases, ok, err, inl, inr, subst,
}
use wolf_p.Keystore.{truncated, max_ct_len, KeyEntry}
use wolf_p.Keystore.Payload.Written.{AreEntries, payload_bytes}
use wolf_p.Keystore.Payload.Accepted.{ok_injective}
use wolf_p.Keystore.Payload.Bounds.{encode_payload_fits}
use wolf_p.Keystore.Io.{returns, World, save}
use wolf_p.Keystore.Io.Atomic.{save_atomic}
use wolf_p.Keystore.File.{
  int_max, Crypto, tag_len, hdr_len, kdf_iterations, Opened, LoadMemory, load, Creation, header,
  file_parts, create,
}
use wolf_p.Keystore.File.Header.{file_bytes, header-length, parse_header-written}
use wolf_p.Keystore.File.Created.{Made, file_parts-ok, check_pin_given}
use wolf_p.Keystore.File.Loading.{
  Documented, Drawn, Roomy, Shows, open_payload-written, load_entries-written,
  payload_bytes-nonempty, load_steps, read_file-Shows, load_oversized,
}

-- A save that succeeds has the parts, which then stand in the file.
create-ok :
    (how : Creation) (c : Crypto) (path pin : List ℕ) (has_keys : Bool) (keys : List KeyEntry)
    (w : World)
    → (create how c (some path) (some pin) has_keys keys w).0 ≡ ok tt
    → (hdr : List ℕ) × (ct : List ℕ) × (tag : List ℕ) × Made how c pin keys hdr ct tag
      × ((create how c (some path) (some pin) has_keys keys w).1.disk.target
          ≡ some (hdr ++ (ct ++ tag)))
unfolding create
create-ok how c path pin has_keys keys w e =
    elim (Result-cases (file_parts how c (some path) (some pin) has_keys keys)) [
      | inr (bad, fails) ↦ absurd (ground arith)
      | inl ((hdr, ct, tag), parts) ↦
          let same : create how c (some path) (some pin) has_keys keys w ≡ save hdr ct tag w =
            ground (arith, parts) in
          elim (save_atomic hdr ct tag w) [
            | inl (fails, kept) ↦ absurd (fails (ap (λ r. r.0) (sym same) ∙ e))
            | inr (fine, holds) ↦ (
              hdr,
              ct,
              tag,
              file_parts-ok how c path pin has_keys keys hdr ct tag parts,
              ap (λ r. r.1.disk.target) same ∙ holds,
            )
          ]
    ]

Made-plain :
    (how : Creation) (c : Crypto) (pin hdr ct tag : List ℕ) (keys : List KeyEntry)
    (good : AreEntries keys) (made : Made how c pin keys hdr ct tag)
    → made.plain ≡ payload_bytes keys
Made-plain how c pin hdr ct tag keys good made =
    ok_injective made.encoded (encode_payload_fits keys good made.few).0

Made-size :
    (how : Creation) (c : Crypto) (pin hdr ct tag : List ℕ) (keys : List KeyEntry)
    → Documented c
    → Drawn how
    → AreEntries keys
    → Made how c pin keys hdr ct tag
    → length (hdr ++ (ct ++ tag)) ≡ hdr_len + length (payload_bytes keys) + tag_len
Made-size how c pin hdr ct tag keys doc drawn good made = omega (
  arith,
  ap length (Made-plain how c pin hdr ct tag keys good made),
  ap length made.headed,
  length-append hdr (ct ++ tag),
  length-append ct tag,
  header-length made.salt made.nonce (length made.plain) (drawn.salt_size made.salt made.drawn_salt)
      (drawn.nonce_size made.nonce made.drawn_nonce),
  doc.ct_size made.key made.nonce made.plain ct tag made.sealed,
  doc.tag_size made.key made.nonce made.plain ct tag made.sealed,
)

-- A load of a file whose parts were made from the payload of some entries.
load-Made :
    (how : Creation) (c : Crypto) (pin hdr ct tag : List ℕ) (keys : List KeyEntry)
    (mem : LoadMemory) (f : Opened)
    → Documented c
    → Drawn how
    → AreEntries keys
    → length (payload_bytes keys) ≤ max_ct_len
    → Made how c pin keys hdr ct tag
    → Roomy mem
    → Shows f (hdr ++ (ct ++ tag))
    → load mem c (some f) true (some pin) true ≡ ok keys
load-Made how c pin hdr ct tag keys mem f doc drawn good small made room shows =
    let plain = payload_bytes keys in
    let n = length plain in
    let same_plain : made.plain ≡ plain = Made-plain how c pin hdr ct tag keys good made in
    let enc : c.encrypt made.key made.nonce plain ≡ some (ct, tag) =
      ap (c.encrypt made.key made.nonce) (sym same_plain) ∙ made.sealed in
    let whole : hdr ++ (ct ++ tag) ≡ file_bytes made.salt made.nonce n ct tag =
      ap (λ x. x ++ (ct ++ tag))
        (made.headed ∙ ap (λ x. header made.salt made.nonce (length x)) same_plain) in
    let hs = drawn.salt_size made.salt made.drawn_salt in
    let hn = drawn.nonce_size made.nonce made.drawn_nonce in
    let ct_size = doc.ct_size made.key made.nonce plain ct tag enc in
    let tag_size = doc.tag_size made.key made.nonce plain ct tag enc in
    let file = file_bytes made.salt made.nonce n ct tag in
    let size : length file ≡ hdr_len + n + tag_len =
      ap length (sym whole) ∙ Made-size how c pin hdr ct tag keys doc drawn good made in
    load_steps mem c f pin file plain (kdf_iterations, n) keys
      (check_pin_given pin made.pin_given made.pin_size)
      (read_file-Shows mem f file room.file_ok (subst (Shows f) whole shows) (omega arith)
        (omega arith))
      (parse_header-written made.salt made.nonce ct tag n hs hn (sym ct_size) tag_size small)
      (open_payload-written mem c pin made.salt made.nonce made.key plain ct tag room hs hn
        made.derived made.key_set enc doc (payload_bytes-nonempty keys))
      (load_entries-written mem keys room good made.few)

-- A keystore that was created is loaded again: if wp11_keystore_create succeeds with well-formed entries
-- whose payload has at most 524288 bytes, the path holds a file from which wp11_keystore_load, with
-- the same PIN and no failure of memory, gives exactly these entries, in whatever pieces it is read.
pub create-load :
    (how : Creation) (c : Crypto) (path pin : List ℕ) (has_keys : Bool) (keys : List KeyEntry)
    (w : World)
    → Documented c
    → Drawn how
    → AreEntries keys
    → length (payload_bytes keys) ≤ max_ct_len
    → (create how c (some path) (some pin) has_keys keys w).0 ≡ ok tt
    → (file : List ℕ) × ((create how c (some path) (some pin) has_keys keys w).1.disk.target
        ≡ some file)
      × ((mem : LoadMemory) (f : Opened)
          → Roomy mem
          → Shows f file
          → load mem c (some f) true (some pin) true ≡ ok keys)
create-load how c path pin has_keys keys w doc drawn good small e =
    let (hdr, ct, tag, made, holds) = create-ok how c path pin has_keys keys w e in
    (
      hdr ++ (ct ++ tag),
      holds,
      λ mem f room shows.
          load-Made how c pin hdr ct tag keys mem f doc drawn good small made room shows,
    )

-- A keystore of well-formed entries whose payload has more than 524288 bytes can be created but never
-- loaded: if wp11_keystore_create succeeds with it, the path holds a file that
-- wp11_keystore_load refuses as truncated by its size, with any PIN that it takes (one that is given,
-- of 1 to 2147483647 bytes).
pub create-load_refused :
    (how : Creation) (c : Crypto) (path pin pin_now : List ℕ) (has_keys : Bool)
    (keys : List KeyEntry) (w : World)
    → Documented c
    → Drawn how
    → AreEntries keys
    → max_ct_len < length (payload_bytes keys)
    → length pin_now ≢ 0
    → length pin_now ≤ int_max
    → (create how c (some path) (some pin) has_keys keys w).0 ≡ ok tt
    → (file : List ℕ) × ((create how c (some path) (some pin) has_keys keys w).1.disk.target
        ≡ some file)
      × ((mem : LoadMemory) (f : Opened)
          → Shows f file
          → load mem c (some f) true (some pin_now) true ≡ err (returns truncated))
create-load_refused how c path pin pin_now has_keys keys w doc drawn good large given short e =
    let (hdr, ct, tag, made, holds) = create-ok how c path pin has_keys keys w e in
    let size = Made-size how c pin hdr ct tag keys doc drawn good made in
    (
      hdr ++ (ct ++ tag),
      holds,
      λ mem f shows.
          load_oversized mem c f pin_now (hdr ++ (ct ++ tag)) (check_pin_given pin_now given short)
            shows (omega arith),
    )
