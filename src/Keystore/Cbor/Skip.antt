-- ===== src/Keystore/Cbor/Skip.antt =====
-- What `cbor_skip` of src/wp11_keystore.c passes over.
use wolf_p.Prelude.{
  ℕ, zero, suc, ◌+◌, ◌*◌, ◌/◌, ◌%◌, ◌^◌, ◌≤◌, ◌<◌, ◌≡◌, refl, sym, ap, ◌∙◌, List, [], ◌++◌, length,
  drop, Result, Result-cases, ok, bind, ◌⊎◌, arith, length-append, drop-length-append, length-drop,
  inl, inr,
}
use mathlib.Core.List.{append_assoc}
use Prim.Native.Nat.{max}
use wolf_p.Keystore.{KsErr, max_ct_len}
use wolf_p.Keystore.Cbor.{
  read_head, skip, skip_items, skip_body, skip_value, major_uint, major_text, major_bytes,
  major_array, major_map,
}
use wolf_p.Keystore.Cbor.Heads.{head_bytes, read_head-head_bytes, string_bytes, string_parts}

read_head_bounds :
    (rest : List ℕ) (major v n : ℕ)
    → read_head rest ≡ ok (major, v, n)
    → (1 ≤ n) × (n ≤ length rest)
unfolding read_head
read_head_bounds rest major v n e = (ground arith, ground arith)

abbrev Bounded : (List ℕ → Result KsErr ℕ) → Type 0
Bounded f = (rest : List ℕ) (n : ℕ) → f rest ≡ ok n → (1 ≤ n) × (n ≤ length rest)

skip_items_bounds :
    (f : List ℕ → Result KsErr ℕ)
    → Bounded f
    → (k : ℕ) (rest : List ℕ) (n : ℕ) → skip_items f k rest ≡ ok n
    → (k ≤ n) × (n ≤ length rest)
unfolding skip_items
skip_items_bounds f bounded zero rest n e = (ground arith, ground arith)
skip_items_bounds f bounded (suc k) rest n e = elim (Result-cases (f rest)) [
  | inr (bad, fails) ↦ absurd (ground arith)
  | inl (taken, got) ↦ elim (Result-cases (skip_items f k (drop taken rest))) [
    | inr (bad, fails) ↦ absurd (ground arith)
    | inl (more, left) ↦
        let (one, fits) = bounded rest taken got in
        let (many, in_rest) = skip_items_bounds f bounded k (drop taken rest) more left in
        let total : taken + more ≡ n = ground arith in
        (omega arith, omega (arith, length-drop taken rest))
  ]
]

after_head :
    (f : List ℕ → Result KsErr ℕ)
    → Bounded f
    → (k head n : ℕ) (rest : List ℕ) → 1 ≤ head
    → head ≤ length rest
    → skip_body f rest head k ≡ ok n
    → (1 ≤ n) × (n ≤ length rest)
unfolding skip_body
after_head f bounded k head n rest one fits e =
    elim (Result-cases (skip_items f k (drop head rest))) [
      | inr (bad, fails) ↦ absurd (ground arith)
      | inl (taken, got) ↦
          let (many, inside) = skip_items_bounds f bounded k (drop head rest) taken got in
          let total : head + taken ≡ n = ground arith in
          (omega arith, omega (arith, length-drop head rest))
    ]

skip_value_bounds :
    (f : List ℕ → Result KsErr ℕ)
    → Bounded f
    → (major val head n : ℕ) (rest : List ℕ) → 1 ≤ head
    → head ≤ length rest
    → skip_value f rest (major, val, head) ≡ ok n
    → (1 ≤ n) × (n ≤ length rest)
unfolding skip_value
skip_value_bounds f bounded major val head n rest one fits e = ground (
  arith,
  after_head f bounded val head n rest one fits,
  after_head f bounded (val * 2) head n rest one fits,
)

-- An item that is passed over takes a byte or more, and lies inside the buffer.
pub skip_bounds :
    (levels : ℕ) (rest : List ℕ) (n : ℕ) → skip levels rest ≡ ok n → (1 ≤ n) × (n ≤ length rest)
unfolding skip
skip_bounds zero rest n e = absurd (ground arith)
skip_bounds (suc levels) rest n e = elim (Result-cases (read_head rest)) [
  | inr (bad, fails) ↦ absurd (ground arith)
  | inl ((major, val, head), got) ↦
      let (one, fits) = read_head_bounds rest major val head got in
      skip_value_bounds (skip levels) (skip_bounds levels) major val head n rest one fits
        (rw got at e)
]

-- A CBOR value of the five kinds, with the fields of a map listed as items.
mutual
  pub data Item : Type 0 where
    number : ℕ → Item
    bytes text : List ℕ → Item
    array map : Items → Item

  pub data Items : Type 0 where
    end : Items
    item : Item → Items → Items

unfoldable mutual
  pub item_count : Items → ℕ
  item_count end = 0
  item_count (item x xs) = suc (item_count xs)

unfoldable mutual
  unfolding head_bytes string_bytes item_count

  pub encoding : Item → List ℕ
  encoding (number v) = head_bytes major_uint v
  encoding (bytes b) = string_bytes major_bytes b
  encoding (text b) = string_bytes major_text b
  encoding (array xs) = head_bytes major_array (item_count xs) ++ encodings xs
  encoding (map xs) = head_bytes major_map (item_count xs / 2) ++ encodings xs

  pub encodings : Items → List ℕ
  encodings end = []
  encodings (item x xs) = encoding x ++ encodings xs

-- How deep arrays and maps are nested.
unfoldable mutual
  pub depth : Item → ℕ
  depth (number v) = 0
  depth (bytes b) = 0
  depth (text b) = 0
  depth (array xs) = depths xs
  depth (map xs) = depths xs

  pub depths : Items → ℕ
  depths end = 0
  depths (item x xs) = max (suc (depth x)) (depths xs)

-- The sizes that the format can hold, and an even number of items in a map.
unfoldable mutual
  unfolding item_count

  pub IsItem : Item → Type 0
  IsItem (number v) = v < 2 ^ 32
  IsItem (bytes b) = length b < 2 ^ 32
  IsItem (text b) = length b < 2 ^ 32
  IsItem (array xs) = (item_count xs < 2 ^ 32) × AreItems xs
  IsItem (map xs) = (item_count xs % 2 ≡ 0) × (item_count xs ≤ max_ct_len) × AreItems xs

  pub AreItems : Items → Type 0
  AreItems end = Unit {0}
  AreItems (item x xs) = IsItem x × AreItems xs

-- What the proof shows of an item and of a list of items.
abbrev Skips : Item → Type 0
Skips x =
    (levels : ℕ) (rest : List ℕ)
    → IsItem x
    → depth x < levels
    → skip levels (encoding x ++ rest) ≡ ok (length (encoding x))

abbrev SkipsAll : Items → Type 0
SkipsAll xs =
    (levels : ℕ) (rest : List ℕ)
    → AreItems xs
    → depths xs ≤ levels
    → skip_items (skip levels) (item_count xs) (encodings xs ++ rest) ≡ ok (length (encodings xs))

skip_string :
    (levels major : ℕ) (b rest : List ℕ)
    → length b < 2 ^ 32
    → ((major ≡ major_bytes) ⊎ (major ≡ major_text))
    → skip (suc levels) (string_bytes major b ++ rest) ≡ ok (length (string_bytes major b))
unfolding skip skip_value
skip_string levels major b rest h k =
    let (head, part, inside, size) = string_parts major b rest (ground arith) h in
    ground (arith, head, inside, size)

skip_number :
    (levels v : ℕ) (rest : List ℕ)
    → v < 2 ^ 32
    → skip (suc levels) (head_bytes major_uint v ++ rest) ≡ ok (length (head_bytes major_uint v))
unfolding skip skip_value
skip_number levels v rest h = ground (arith, read_head-head_bytes major_uint v rest (omega arith) h)

skip_body-append :
    (f : List ℕ → Result KsErr ℕ) (n : ℕ) (head body rest : List ℕ)
    → skip_items f n (body ++ rest) ≡ ok (length body)
    → skip_body f ((head ++ body) ++ rest) (length head) n ≡ ok (length (head ++ body))
unfolding skip_body
skip_body-append f n head body rest inner =
    let behind : drop (length head) ((head ++ body) ++ rest) ≡ body ++ rest =
      ap (drop (length head)) (append_assoc head body rest)
      ∙ drop-length-append head (body ++ rest) in
    ap (λ l. bind (skip_items f n l) (λ taken. ok (length head + taken))) behind
    ∙ ap (λ r. bind r (λ taken. ok (length head + taken))) inner
    ∙ ap ok (sym (length-append head body))

skip_items_cons :
    (f : List ℕ → Result KsErr ℕ) (n taken more : ℕ) (rest : List ℕ)
    → f rest ≡ ok taken
    → skip_items f n (drop taken rest) ≡ ok more
    → skip_items f (suc n) rest ≡ ok (taken + more)
unfolding skip_items
skip_items_cons f n taken more rest one others = ground (arith, one, others)

skip_array :
    (f : List ℕ → Result KsErr ℕ) (n : ℕ) (rest : List ℕ) (size : ℕ)
    → skip_body f rest size n ≡ skip_value f rest (major_array, n, size)
unfolding skip_value
skip_array f n rest size = refl

skip_map :
    (f : List ℕ → Result KsErr ℕ) (n : ℕ) (rest : List ℕ) (size : ℕ)
    → n % 2 ≡ 0
    → n ≤ max_ct_len
    → skip_value f rest (major_map, n / 2, size) ≡ skip_body f rest size n
unfolding skip_value
skip_map f n rest size even small = let half : n / 2 * 2 ≡ n = omega arith in ground (arith, half)

read_head-container :
    (major n : ℕ) (body rest : List ℕ)
    → major < 8
    → n < 2 ^ 32
    → read_head ((head_bytes major n ++ body) ++ rest) ≡ ok (major, n, length (head_bytes major n))
read_head-container major n body rest h k =
    ap read_head (append_assoc (head_bytes major n) body rest)
    ∙ read_head-head_bytes major n (body ++ rest) h k

mutual
  unfolding skip encoding depth IsItem skip_items

  skip-Skips : (x : Item) → Skips x
  skip-Skips x zero rest h d = absurd (omega arith)
  skip-Skips (number v) (suc levels) rest h d = skip_number levels v rest h
  skip-Skips (bytes b) (suc levels) rest h d = skip_string levels major_bytes b rest h (inl refl)
  skip-Skips (text b) (suc levels) rest h d = skip_string levels major_text b rest h (inr refl)
  skip-Skips (array xs) (suc levels) rest (h, hs) d =
      rw (read_head-container major_array (item_count xs) (encodings xs) rest (omega arith) h) (
        sym (skip_array (skip levels) (item_count xs) _ _)
        ∙ skip_body-append (skip levels) (item_count xs) (head_bytes major_array (item_count xs))
            (encodings xs) rest (skip-SkipsAll xs levels rest hs (omega arith)))
  skip-Skips (map xs) (suc levels) rest (even, h, hs) d =
      rw
        (read_head-container major_map (item_count xs / 2) (encodings xs) rest (omega arith)
          (omega arith))
        (skip_map (skip levels) (item_count xs) _ _ even h
          ∙ skip_body-append (skip levels) (item_count xs)
              (head_bytes major_map (item_count xs / 2)) (encodings xs) rest
              (skip-SkipsAll xs levels rest hs (omega arith)))

  skip-SkipsAll : (xs : Items) → SkipsAll xs
  skip-SkipsAll end levels rest h d = refl
  skip-SkipsAll (item x xs) levels rest (h, hs) d =
      let whole : (encoding x ++ encodings xs) ++ rest ≡ encoding x ++ (encodings xs ++ rest) =
        append_assoc (encoding x) (encodings xs) rest in
      skip_items_cons (skip levels) (item_count xs) (length (encoding x)) (length (encodings xs))
        ((encoding x ++ encodings xs) ++ rest)
        (ap (skip levels) whole ∙ skip-Skips x levels (encodings xs ++ rest) h (omega arith))
        (ap (λ l. skip_items (skip levels) (item_count xs) (drop (length (encoding x)) l)) whole
          ∙ ap (skip_items (skip levels) (item_count xs))
              (drop-length-append (encoding x) (encodings xs ++ rest))
          ∙ skip-SkipsAll xs levels rest hs (omega arith))
      ∙ ap ok (sym (length-append (encoding x) (encodings xs)))
