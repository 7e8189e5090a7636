-- ===== src/Keystore/File/Sound.antt =====
-- What wp11_keystore_load of src/wp11_keystore.c accepts.
use wolf_p.Prelude.{
  ℕ, ◌+◌, ◌≤◌, ◌≡◌, ap, ◌∙◌, true, some, Option-cases, List, length, arith, Result-cases, ok, inl,
  inr,
}
use wolf_p.Keystore.{max_entries, KeyEntry, Memory}
use wolf_p.Keystore.Payload.{decode_payload}
use wolf_p.Keystore.Payload.Written.{AreEntries}
use wolf_p.Keystore.File.{
  Crypto, salt_len, nonce_len, tag_len, hdr_len, off_salt, off_nonce, min_kdf_iter, int_max, field,
  Opened, LoadMemory, check_pin, read_file, parse_header, open_payload, load_entries, load,
}
use wolf_p.Keystore.Payload.Accepted.{decode_payload_accepted}
use wolf_p.Keystore.File.Created.{check_pin-ok}

parse_header_bounds :
    (buf : List ℕ) (iter n : ℕ)
    → parse_header buf ≡ ok (iter, n)
    → (min_kdf_iter ≤ iter) × (iter ≤ int_max) × (hdr_len + n + tag_len ≤ length buf)
unfolding parse_header
parse_header_bounds buf iter n e = (ground arith, ground arith, ground arith)

open_payload-ok :
    (mem : LoadMemory) (c : Crypto) (pin buf plain : List ℕ) (iter n : ℕ)
    → open_payload mem c pin buf (iter, n) ≡ ok plain
    → (key : List ℕ) × (c.derive pin (field off_salt salt_len buf) iter ≡ some key)
      × (c.decrypt key
            (field off_nonce nonce_len buf)
            (field hdr_len n buf)
            (field (hdr_len + n) tag_len buf)
          ≡ some plain)
unfolding open_payload
open_payload-ok mem c pin buf plain iter n e =
    elim (Option-cases (c.derive pin (field off_salt salt_len buf) iter)) [
      | inl no_key ↦ absurd (ground arith)
      | inr (key, has_key) ↦
          elim (Option-cases (
            c.decrypt key (field off_nonce nonce_len buf) (field hdr_len n buf)
              (field (hdr_len + n) tag_len buf))) [
                | inl fails ↦ absurd (ground arith)
                | inr (got, decrypted) ↦ (key, has_key, ground arith)
              ]
    ]

load_entries-ok :
    (mem : LoadMemory) (plain : List ℕ) (keys : List KeyEntry)
    → load_entries mem plain ≡ ok keys
    → decode_payload mem.decoding plain ≡ ok keys
unfolding load_entries
load_entries-ok mem plain keys e = elim (Result-cases (decode_payload mem.decoding plain)) [
  | inr (bad, fails) ↦ absurd (ground arith)
  | inl (ks, got) ↦ ground arith
]

-- How the PIN opens the bytes of a file to some entries.
pub record Opening (c : Crypto) (decoding : Memory) (pin buf : List ℕ) (keys : List KeyEntry)
    : Type 0 where
  pub iter : ℕ
  pub ctlen : ℕ
  pub strong : min_kdf_iter ≤ iter
  pub in_range : iter ≤ int_max
  pub whole : hdr_len + ctlen + tag_len ≤ length buf
  pub key : List ℕ
  pub derived : c.derive pin (field off_salt salt_len buf) iter ≡ some key
  pub plain : List ℕ
  pub decrypted :
      c.decrypt key
        (field off_nonce nonce_len buf)
        (field hdr_len ctlen buf)
        (field (hdr_len + ctlen) tag_len buf)
      ≡ some plain
  pub decoded : decode_payload decoding plain ≡ ok keys

-- Whatever wp11_keystore_load gives was opened with the PIN: the key derived from it with at least
-- 100000 iterations decrypts a ciphertext within the file, with the tag behind it, and the plaintext
-- decodes to at most 64 well-formed entries, which are the ones given.
pub load_sound :
    (mem : LoadMemory) (c : Crypto) (f : Opened) (pin : List ℕ) (keys : List KeyEntry)
    → load mem c (some f) true (some pin) true ≡ ok keys
    → (buf : List ℕ) × (read_file mem (some f) ≡ ok buf)
      × Opening c mem.decoding pin buf keys
      × (length keys ≤ max_entries)
      × AreEntries keys
unfolding load
load_sound mem c f pin keys e = elim (Result-cases (check_pin (some pin))) [
  | inr (bad, fails) ↦ absurd (ground arith)
  | inl (p, checked) ↦ elim (Result-cases (read_file mem (some f))) [
    | inr (bad, fails) ↦ absurd (ground arith)
    | inl (buf, got) ↦ elim (Result-cases (parse_header buf)) [
      | inr (bad, fails) ↦ absurd (ground arith)
      | inl ((iter, n), parsed) ↦ elim (Result-cases (open_payload mem c p buf (iter, n))) [
        | inr (bad, fails) ↦ absurd (ground arith)
        | inl (plain, was_opened) ↦ elim (Result-cases (load_entries mem plain)) [
          | inr (bad, fails) ↦ absurd (ground arith)
          | inl (ks, entered) ↦
              let same : ks ≡ keys = ground arith in
              let same_pin = (check_pin-ok pin p checked).0 in
              let (strong, in_range, whole) = parse_header_bounds buf iter n parsed in
              let (key, derived, decrypted) = open_payload-ok mem c p buf plain iter n was_opened in
              let decoded : decode_payload mem.decoding plain ≡ ok keys =
                load_entries-ok mem plain ks entered ∙ ap ok same in
              let (few, good) = decode_payload_accepted mem.decoding plain keys decoded in
              (
                buf,
                got,
                record {
                  iter = iter;
                  ctlen = n;
                  strong = strong;
                  in_range = in_range;
                  whole = whole;
                  key = key;
                  derived =
                      ap (λ x. c.derive x (field off_salt salt_len buf) iter) same_pin ∙ derived;
                  plain = plain;
                  decrypted = decrypted;
                  decoded = decoded;
                },
                few,
                good,
              )
        ]
      ]
    ]
  ]
]
