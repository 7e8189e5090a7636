-- ===== src/Keystore/Cbor.antt =====
-- The CBOR reader and writer of src/wp11_keystore.c. A reader gets the bytes of the buffer from its
-- position on, and gives the value with the number of bytes it took; a writer gets the room that is
-- left and gives the bytes it writes, or `none` for -1.
pub mod Heads
pub mod Skip
use wolf_p.Prelude.{
  c_string, ℕ, zero, suc, ◌+◌, ◌-◌, ◌*◌, ◌/◌, ◌%◌, ◌^◌, Bool, true, false, not, ◌||◌, Option, none,
  some, List, [], ◌∷◌, ◌++◌, ltb, leb, ◌==◌, if◌then◌else◌, length, get_or, take, drop, Result, ok,
  err, bind,
}
use wolf_p.Keystore.{KsErr, nomem, cbor, mlock, der_max, max_ct_len, Memory}

-- CBOR_MAJOR_UINT, CBOR_MAJOR_BYTES, CBOR_MAJOR_TEXT, CBOR_MAJOR_ARRAY and CBOR_MAJOR_MAP.
abbrev pub major_uint : ℕ
major_uint = 0

abbrev pub major_bytes : ℕ
major_bytes = 2

abbrev pub major_text : ℕ
major_text = 3

abbrev pub major_array : ℕ
major_array = 4

abbrev pub major_map : ℕ
major_map = 5

-- `cbor_read_head`: the major type, the value and the number of bytes. Shifted bytes share no bits,
-- so `|` is the sum.
unfoldable pub read_head : List ℕ → Result KsErr (ℕ × ℕ × ℕ)
read_head rest =
    let major = get_or rest 0 0 / 2 ^ 5 in
    let info = get_or rest 0 0 % 2 ^ 5 in
    if length rest == 0
    then err cbor
    else if leb info 23
    then ok (major, info, 1)
    else if info == 24
    then if leb (length rest) 1 then err cbor else ok (major, get_or rest 1 0, 2)
    else if info == 25
    then if leb (length rest) 2
      then err cbor
      else ok (major, get_or rest 1 0 * 2 ^ 8 + get_or rest 2 0, 3)
    else if info == 26
    then if leb (length rest) 4
      then err cbor
      else ok (
        major,
        get_or rest 1 0 * 2 ^ 24
            + get_or rest 2 0 * 2 ^ 16
            + get_or rest 3 0 * 2 ^ 8
            + get_or rest 4 0,
        5,
      )
    else err cbor

-- `cbor_read_text` into a buffer of `dst_len` bytes.
unfoldable pub read_text : ℕ → List ℕ → Result KsErr (List ℕ × ℕ)
read_text dst_len rest = bind (read_head rest) λ (major, slen, head).
    if not (major == major_text) || leb dst_len slen
    then err cbor
    else if ltb (length rest) (head + slen)
    then err cbor
    else ok (c_string (take slen (drop head rest)), head + slen)

-- `cbor_read_bytes_alloc`.
unfoldable pub read_bytes_alloc : Memory → List ℕ → Result KsErr (List ℕ × ℕ)
read_bytes_alloc mem rest = bind (read_head rest) λ (major, blen, head).
    if not (major == major_bytes) || ltb der_max blen
    then err cbor
    else if ltb (length rest) (head + blen)
    then err cbor
    else if not (mem.malloc_ok (length rest) blen)
    then err nomem
    else if not (mem.mlock_ok (length rest) blen)
    then err mlock
    else ok (take blen (drop head rest), head + blen)

-- `cbor_read_bytes_fixed`.
unfoldable pub read_bytes_fixed : ℕ → List ℕ → Result KsErr (List ℕ × ℕ)
read_bytes_fixed expected_len rest = bind (read_head rest) λ (major, blen, head).
    if not (major == major_bytes) || not (blen == expected_len)
    then err cbor
    else if ltb (length rest) (head + expected_len)
    then err cbor
    else ok (take expected_len (drop head rest), head + expected_len)

-- The loops of `cbor_skip`: `n` items one after the other, and the bytes of all.
unfoldable pub skip_items : (List ℕ → Result KsErr ℕ) → ℕ → List ℕ → Result KsErr ℕ
skip_items skip_item zero rest = ok 0
skip_items skip_item (suc n) rest =
    bind (skip_item rest)
      λ taken. bind (skip_items skip_item n (drop taken rest)) λ more. ok (taken + more)

-- `val` items behind the head.
unfoldable pub skip_body : (List ℕ → Result KsErr ℕ) → List ℕ → ℕ → ℕ → Result KsErr ℕ
skip_body skip_item rest head n =
    bind (skip_items skip_item n (drop head rest)) λ taken. ok (head + taken)

-- `cbor_skip` behind its call of `cbor_read_head`, with the recursive call as an argument. The test
-- of a map's size against SIZE_MAX / 2 is implied by the one that follows it.
unfoldable pub skip_value : (List ℕ → Result KsErr ℕ) → List ℕ → ℕ × ℕ × ℕ → Result KsErr ℕ
skip_value skip_item rest (major, val, head) =
    if major == major_bytes || major == major_text
    then if ltb (length rest) (head + val) then err cbor else ok (head + val)
    else if major == major_uint
    then ok head
    else elim (major == major_array) [
      | true ↦ skip_body skip_item rest head val
      | false ↦ elim (major == major_map) [
        | true ↦ elim (ltb (max_ct_len / 2) val) [
          | true ↦ err cbor
          | false ↦ skip_body skip_item rest head (val * 2)
        ]
        | false ↦ err cbor
      ]
    ]

-- `cbor_skip`, by the number of levels that are left: a `depth` of `max_depth` is the last one.
unfoldable pub skip : ℕ → List ℕ → Result KsErr ℕ
skip zero rest = err cbor
skip (suc levels) rest = bind (read_head rest) (skip_value (skip levels) rest)

-- CBOR_SKIP_MAX_DEPTH.
abbrev pub max_depth : ℕ
max_depth = 8

-- Bytes that fit the room.
abbrev pub put : List ℕ → ℕ → Option (List ℕ)
put bytes room = if ltb room (length bytes) then none else some bytes

-- `cbor_write_head`. A prefix has its low five bits clear, so `|` is the sum.
unfoldable pub write_head : ℕ → ℕ → ℕ → Option (List ℕ)
write_head major value room =
    let prefix = major % 8 * 2 ^ 5 in
    if leb value 23
    then if leb room 0 then none else some ((prefix + value) ∷ [])
    else if leb value 0xFF
    then if leb room 1 then none else some ((prefix + 24) ∷ value ∷ [])
    else if leb value 0xFFFF
    then if leb room 2 then none else some ((prefix + 25) ∷ (value / 2 ^ 8) ∷ (value % 256) ∷ [])
    else if leb value 0xFFFFFFFF
    then if leb room 4
      then none
      else some (
          (prefix + 26)
          ∷ (value / 2 ^ 24)
          ∷ (value / 2 ^ 16 % 256)
          ∷ (value / 2 ^ 8 % 256)
          ∷ (value % 256)
          ∷ [])
    else none

-- `cbor_write_text` and `cbor_write_bytes`, which differ in the major type.
unfoldable pub write_string : ℕ → List ℕ → ℕ → Option (List ℕ)
write_string major bytes room = elim (write_head major (length bytes) room) [
  | none ↦ none
  | some head ↦ if ltb room (length head + length bytes) then none else some (head ++ bytes)
]

abbrev pub write_text : List ℕ → ℕ → Option (List ℕ)
write_text = write_string major_text

abbrev pub write_bytes : List ℕ → ℕ → Option (List ℕ)
write_bytes = write_string major_bytes
