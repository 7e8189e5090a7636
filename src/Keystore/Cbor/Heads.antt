-- ===== src/Keystore/Cbor/Heads.antt =====
-- The CBOR items that src/wp11_keystore.c writes, and its readers on them.
use wolf_p.Prelude.{
  c_string, ℕ, ◌+◌, ◌*◌, ◌/◌, ◌%◌, ◌^◌, ◌≤◌, ◌<◌, ◌≡◌, ◌≢◌, refl, ap, ◌∙◌, true, List, [], ◌∷◌,
  ◌++◌, leb, if◌then◌else◌, length, take, drop, ok, arith, length-append, take-length-append,
  drop-length-append,
}
use mathlib.Core.List.{append_assoc}
use wolf_p.Keystore.{der_max, Memory}
use wolf_p.Keystore.Cbor.{
  read_head, read_text, read_bytes_alloc, read_bytes_fixed, write_head, write_string, put,
  major_text, major_bytes,
}

-- The bytes of a head.
unfoldable pub head_bytes : ℕ → ℕ → List ℕ
head_bytes major v =
    if leb v 23
    then (major * 32 + v) ∷ []
    else if leb v 0xFF
    then (major * 32 + 24) ∷ v ∷ []
    else if leb v 0xFFFF
    then (major * 32 + 25) ∷ (v / 2 ^ 8) ∷ (v % 256) ∷ []
    else (major * 32 + 26) ∷ (v / 2 ^ 24) ∷ (v / 2 ^ 16 % 256) ∷ (v / 2 ^ 8 % 256) ∷ (v % 256) ∷ []

pub length-head_bytes :
    (major v : ℕ) → (1 ≤ length (head_bytes major v)) × (length (head_bytes major v) ≤ 5)
unfolding head_bytes
length-head_bytes major v = (ground arith, ground arith)

-- A head is written exactly if the room is enough for it.
pub write_head-put :
    (major v room : ℕ)
    → major < 8
    → v < 2 ^ 32
    → write_head major v room ≡ put (head_bytes major v) room
unfolding write_head head_bytes
write_head-put major v room h k = ground arith

pub read_head-head_bytes :
    (major v : ℕ) (rest : List ℕ)
    → major < 8
    → v < 2 ^ 32
    → read_head (head_bytes major v ++ rest) ≡ ok (major, v, length (head_bytes major v))
unfolding read_head head_bytes
read_head-head_bytes major v rest h k = ground arith

-- A string item.
unfoldable pub string_bytes : ℕ → List ℕ → List ℕ
string_bytes major bytes = head_bytes major (length bytes) ++ bytes

pub write_string-put :
    (major : ℕ) (bytes : List ℕ) (room : ℕ)
    → major < 8
    → length bytes < 2 ^ 32
    → write_string major bytes room ≡ put (string_bytes major bytes) room
unfolding write_string string_bytes
write_string-put major bytes room h k = ground (
  arith,
  write_head-put major (length bytes) room h k,
  length-append (head_bytes major (length bytes)) bytes,
)

-- The parts of a string item that a reader takes.
pub string_parts :
    (major : ℕ) (bytes rest : List ℕ)
    → major < 8
    → length bytes < 2 ^ 32
    → let whole = string_bytes major bytes ++ rest in
      let head = length (head_bytes major (length bytes)) in
      (read_head whole ≡ ok (major, length bytes, head))
      × (take (length bytes) (drop head whole) ≡ bytes)
      × (head + length bytes ≤ length whole)
      × (length (string_bytes major bytes) ≡ head + length bytes)
unfolding string_bytes
string_parts major bytes rest h k =
    let head = head_bytes major (length bytes) in
    let whole = append_assoc head bytes rest in
    (
      ap read_head whole ∙ read_head-head_bytes major (length bytes) (bytes ++ rest) h k,
      ap (λ l. take (length bytes) (drop (length head) l)) whole
          ∙ ap (take (length bytes)) (drop-length-append head (bytes ++ rest))
          ∙ take-length-append bytes rest,
      omega (arith, length-append (head ++ bytes) rest, length-append head bytes),
      length-append head bytes,
    )

abbrev pub NoZero : List ℕ → Type 0
NoZero [] = Unit {0}
NoZero (b ∷ bs) = (b ≢ 0) × NoZero bs

c_string-NoZero : (bs : List ℕ) → NoZero bs → c_string bs ≡ bs
unfolding c_string
c_string-NoZero [] h = refl
c_string-NoZero (b ∷ bs) (h, hs) = ground (arith, h, c_string-NoZero bs hs)

pub read_text-string_bytes :
    (cap : ℕ) (text rest : List ℕ)
    → NoZero text
    → length text < cap
    → cap ≤ 2 ^ 32
    → read_text cap (string_bytes major_text text ++ rest)
      ≡ ok (text, length (string_bytes major_text text))
unfolding read_text
read_text-string_bytes cap text rest clean fits small =
    let (head, part, inside, size) =
      string_parts major_text text rest (omega arith) (omega arith) in
    ground (arith, head, part, inside, size, c_string-NoZero text clean)

pub read_bytes_fixed-string_bytes :
    (n : ℕ) (bytes rest : List ℕ)
    → length bytes ≡ n
    → n < 2 ^ 32
    → read_bytes_fixed n (string_bytes major_bytes bytes ++ rest)
      ≡ ok (bytes, length (string_bytes major_bytes bytes))
unfolding read_bytes_fixed
read_bytes_fixed-string_bytes n bytes rest e small =
    let (head, part, inside, size) =
      string_parts major_bytes bytes rest (omega arith) (omega arith) in
    ground (arith, head, part, inside, size)

pub read_bytes_alloc-string_bytes :
    (mem : Memory) (bytes rest : List ℕ)
    → length bytes ≤ der_max
    → ((left n : ℕ) → (mem.malloc_ok left n ≡ true) × (mem.mlock_ok left n ≡ true))
    → read_bytes_alloc mem (string_bytes major_bytes bytes ++ rest)
      ≡ ok (bytes, length (string_bytes major_bytes bytes))
unfolding read_bytes_alloc
read_bytes_alloc-string_bytes mem bytes rest short enough =
    let (head, part, inside, size) =
      string_parts major_bytes bytes rest (omega arith) (omega arith) in
    let (got, locked) = enough (length (string_bytes major_bytes bytes ++ rest)) (length bytes) in
    ground (arith, head, part, inside, size, got, locked)
