-- ===== src/Piv/Keygen/Laws.antt =====
-- The public key in the reply of wp11_piv_generate_key in src/wp11_proto_piv.c.
use wolf_p.Prelude.{
  ℕ, ◌+◌, ◌-◌, ◌≤◌, ◌<◌, ◌≡◌, refl, ap, sym, ◌∙◌, Option-cases, List, [], ◌∷◌, ◌++◌, length, get_or,
  take, drop, length-append, drop-length-append, take-length-append, arith, Result-cases, ok, inl,
  inr, bind,
}
use mathlib.Core.List.{append_assoc}
use wolf_p.Piv.Tlv.{ber_len_decode, ber_len_encode}
use wolf_p.Piv.Tlv.Laws.{ber_len_decode_bounds, ber_len_decode-encode}
use wolf_p.Piv.Keygen.{sized_at, find_pubkey, copy_pubkey, room}

sized_at_bounds :
    (resp : List ℕ) (pos end i n : ℕ)
    → pos ≤ end
    → sized_at resp pos end ≡ ok (i, n)
    → (pos < i) × (i + n ≤ end)
unfolding sized_at
sized_at_bounds resp pos end i n h e =
    elim (Option-cases (ber_len_decode (drop pos resp) (end - pos))) [
      | inl fails ↦ absurd (ground arith)
      | inr ((v, k), reads) ↦
          ground (arith, ber_len_decode_bounds (drop pos resp) (end - pos) v k reads)
    ]

-- A public key that is found lies in the reply before the status word, behind at least five bytes.
pub find_pubkey_bounds :
    (resp : List ℕ) (i n : ℕ) → find_pubkey resp ≡ ok (i, n) → (5 ≤ i) × (i + n ≤ length resp - 2)
unfolding find_pubkey
find_pubkey_bounds resp i n e = elim (Result-cases (sized_at resp 2 (length resp - 2))) [
  | inr (bad, fails) ↦ absurd (ground arith)
  | inl ((k, outer_len), outer) ↦ ground (
    arith,
    sized_at_bounds resp 2 (length resp - 2) k outer_len,
    sized_at_bounds resp (k + 1) (length resp - 2) i n,
  )
]

sized_at-encode :
    (before rest : List ℕ) (n end : ℕ)
    → n ≤ 0xFFFF
    → length before + length (ber_len_encode n) + n ≤ end
    → sized_at (before ++ (ber_len_encode n ++ rest)) (length before) end
      ≡ ok (length before + length (ber_len_encode n), n)
unfolding sized_at
sized_at-encode before rest n end h k = ground (
  arith,
  drop-length-append before (ber_len_encode n ++ rest),
  ber_len_decode-encode n (end - length before) rest h,
)

-- The object 7F 49 with length field `o`, holding the element `tag { v }`, more bytes and 90 00.
unfoldable pub pubkey_reply : ℕ → ℕ → List ℕ → List ℕ → List ℕ
pubkey_reply o tag v more =
    0x7F
    ∷ 0x49
    ∷ (ber_len_encode o
        ++ (tag ∷ (ber_len_encode (length v) ++ (v ++ (more ++ (0x90 ∷ 0x00 ∷ []))))))

abbrev after_key : List ℕ → List ℕ
after_key more = more ++ (0x90 ∷ 0x00 ∷ [])

before_len : ℕ → ℕ → List ℕ
before_len o tag = 0x7F ∷ 0x49 ∷ (ber_len_encode o ++ (tag ∷ []))

before_key : ℕ → ℕ → ℕ → List ℕ
before_key o tag n = before_len o tag ++ ber_len_encode n

length-before_len : (o tag : ℕ) → length (before_len o tag) ≡ 3 + length (ber_len_encode o)
unfolding before_len
length-before_len o tag = omega (arith, length-append (ber_len_encode o) (tag ∷ []))

pubkey_reply-before_len :
    (o tag : ℕ) (v more : List ℕ)
    → pubkey_reply o tag v more
      ≡ before_len o tag ++ (ber_len_encode (length v) ++ (v ++ after_key more))
unfolding pubkey_reply before_len
pubkey_reply-before_len o tag v more =
    ap (λ l. 0x7F ∷ 0x49 ∷ l) (sym (append_assoc (ber_len_encode o) (tag ∷ []) _))

pubkey_reply-before_key :
    (o tag : ℕ) (v more : List ℕ)
    → pubkey_reply o tag v more ≡ before_key o tag (length v) ++ (v ++ after_key more)
unfolding before_key
pubkey_reply-before_key o tag v more =
    pubkey_reply-before_len o tag v more
    ∙ sym (append_assoc (before_len o tag) (ber_len_encode (length v)) (v ++ after_key more))

length-pubkey_reply :
    (o tag : ℕ) (v more : List ℕ)
    → length (pubkey_reply o tag v more) - 2
      ≡ 3 + length (ber_len_encode o) + length (ber_len_encode (length v)) + length v + length more
unfolding pubkey_reply
length-pubkey_reply o tag v more =
    let tail = ber_len_encode (length v) ++ (v ++ after_key more) in
    omega (
      arith,
      length-append (ber_len_encode o) (tag ∷ tail),
      length-append (ber_len_encode (length v)) (v ++ after_key more),
      length-append v (after_key more),
      length-append more (0x90 ∷ 0x00 ∷ []),
    )

outer_read :
    (o tag : ℕ) (v more : List ℕ)
    → o ≤ 0xFFFF
    → o ≤ 1 + length (ber_len_encode (length v)) + length v + length more
    → sized_at (pubkey_reply o tag v more) 2 (length (pubkey_reply o tag v more) - 2)
      ≡ ok (2 + length (ber_len_encode o), o)
unfolding pubkey_reply
outer_read o tag v more k l =
    sized_at-encode (0x7F ∷ 0x49 ∷ []) _ o _ k (omega (arith, length-pubkey_reply o tag v more))

pubkey_reply_tag :
    (o tag : ℕ) (v more : List ℕ)
    → (get_or (pubkey_reply o tag v more) 0 0 ≡ 0x7F)
      × (get_or (pubkey_reply o tag v more) 1 0 ≡ 0x49)
unfolding pubkey_reply
pubkey_reply_tag o tag v more = (refl, refl)

key_bytes :
    (o tag : ℕ) (v more : List ℕ)
    → take (length v) (
        drop
          (length (before_len o tag) + length (ber_len_encode (length v)))
          (pubkey_reply o tag v more))
      ≡ v
unfolding before_key
key_bytes o tag v more =
    let pre = before_key o tag (length v) in
    let at : length (before_len o tag) + length (ber_len_encode (length v)) ≡ length pre =
      sym (length-append (before_len o tag) (ber_len_encode (length v))) in
    ap (λ k. take (length v) (drop k (pubkey_reply o tag v more))) at
    ∙ ap (λ r. take (length v) (drop (length pre) r)) (pubkey_reply-before_key o tag v more)
    ∙ ap (take (length v)) (drop-length-append pre (v ++ after_key more))
    ∙ take-length-append v (after_key more)

-- A key of at most 65535 bytes that fits the caller's buffer is handed on from a reply whose
-- outer length `o` is any value of two bytes up to the number of bytes that are there, one too
-- small for the key included.
pub pubkey_reply_read :
    (o tag cap : ℕ) (v more : List ℕ)
    → length v ≤ 0xFFFF
    → o ≤ 0xFFFF
    → o ≤ 1 + length (ber_len_encode (length v)) + length v + length more
    → length v ≤ cap
    → bind
        (find_pubkey (pubkey_reply o tag v more))
        (copy_pubkey (room cap) (pubkey_reply o tag v more))
      ≡ ok v
unfolding find_pubkey copy_pubkey
pubkey_reply_read o tag cap v more h k l m =
    let resp = pubkey_reply o tag v more in
    let end = length resp - 2 in
    let total = length-pubkey_reply o tag v more in
    let n = length v in
    let i = length (before_len o tag) + length (ber_len_encode n) in
    let outer : sized_at resp 2 end ≡ ok (2 + length (ber_len_encode o), o) =
      outer_read o tag v more k l in
    let at : 2 + length (ber_len_encode o) + 1 ≡ length (before_len o tag) =
      omega (arith, length-before_len o tag) in
    let inner : sized_at resp (length (before_len o tag)) end ≡ ok (i, n) =
      ap (λ r. sized_at r (length (before_len o tag)) end) (pubkey_reply-before_len o tag v more)
      ∙ sized_at-encode (before_len o tag) (v ++ after_key more) n end h
          (omega (arith, total, length-before_len o tag)) in
    let key : take n (drop i resp) ≡ v = key_bytes o tag v more in
    let (first, second) = pubkey_reply_tag o tag v more in
    ground (arith, total, at, length-before_len o tag)
