-- ===== src/Keystore/File/Header.antt =====
-- The header that wp11_keystore_create of src/wp11_keystore.c writes, as wp11_keystore_load reads it.
use wolf_p.Prelude.{
  ℕ, suc, ◌+◌, ◌≤◌, ◌<◌, ◌^◌, ◌≡◌, refl, sym, ap, ◌∙◌, List, [], ◌∷◌, ◌++◌, length, length-append,
  take, drop, take-length-append, drop-length-append, get_or, arith, ok,
}
use mathlib.Core.List.{append_assoc, append-nil}
use wolf_p.Keystore.{max_ct_len}
use wolf_p.Keystore.File.{
  magic, version, salt_len, nonce_len, tag_len, hdr_len, off_salt, off_iter, off_nonce, off_ctlen,
  kdf_iterations, read_u32be, write_u32be, field, parse_header, header,
}

read_u32be-write_u32be :
    (v : ℕ) (rest : List ℕ) → v < 2 ^ 32 → read_u32be (write_u32be v ++ rest) 0 ≡ v
unfolding read_u32be write_u32be
read_u32be-write_u32be v rest h = omega arith

-- The fields of a file, wherever they stand.
field-append :
    (n : ℕ) (a b rest : List ℕ) → n ≡ length a → field n (length b) (a ++ (b ++ rest)) ≡ b
field-append n a b rest e =
    ap (λ k. take (length b) (drop k (a ++ (b ++ rest)))) e
    ∙ ap (take (length b)) (drop-length-append a (b ++ rest))
    ∙ take-length-append b rest

-- The file, taken apart before each of its fields.
abbrev pub file_bytes : List ℕ → List ℕ → ℕ → List ℕ → List ℕ → List ℕ
file_bytes salt nonce n ct tag = header salt nonce n ++ (ct ++ tag)

pub header-length :
    (salt nonce : List ℕ) (n : ℕ)
    → length salt ≡ salt_len
    → length nonce ≡ nonce_len
    → length (header salt nonce n) ≡ hdr_len
unfolding header write_u32be
header-length salt nonce n hs hn = simp length-append (omega (arith, hs, hn))

get_or-behind : (a b : List ℕ) (i : ℕ) → get_or (a ++ b) (length a + i) 0 ≡ get_or b i 0
get_or-behind [] b i = let e : 0 + i ≡ i = omega arith in ap (λ k. get_or b k 0) e
get_or-behind (x ∷ a) b i =
    let e : length (x ∷ a) + i ≡ suc (length a + i) = omega arith in
    ap (λ k. get_or (x ∷ (a ++ b)) k 0) e ∙ get_or-behind a b i

read_u32be-append :
    (a rest : List ℕ) (n v : ℕ)
    → n ≡ length a
    → v < 2 ^ 32
    → read_u32be (a ++ (write_u32be v ++ rest)) n ≡ v
unfolding read_u32be
read_u32be-append a rest n v e h =
    let at = get_or-behind a (write_u32be v ++ rest) in
    let first : length a + 0 ≡ n = omega arith in
    let zeroth : get_or (a ++ (write_u32be v ++ rest)) n 0 ≡ get_or (write_u32be v ++ rest) 0 0 =
      ground (arith, first, at 0) in
    ground (arith, e, zeroth, at 1, at 2, at 3, read_u32be-write_u32be v rest h)

-- The fields of a written file.
module _ (salt nonce ct tag : List ℕ) (n : ℕ) (salt_size : length salt ≡ salt_len)
    (nonce_size : length nonce ≡ nonce_len) where
  iter_split :
      file_bytes salt nonce n ct tag
      ≡ (magic ++ (version ∷ salt))
        ++ (write_u32be kdf_iterations ++ (nonce ++ (write_u32be n ++ (ct ++ tag))))
  unfolding header
  iter_split = simp append_assoc refl

  salt_split :
      file_bytes salt nonce n ct tag
      ≡ (magic ++ (version ∷ []))
        ++ (salt ++ (write_u32be kdf_iterations ++ (nonce ++ (write_u32be n ++ (ct ++ tag)))))
  unfolding header
  salt_split = simp append_assoc refl

  nonce_split :
      file_bytes salt nonce n ct tag
      ≡ (magic ++ (version ∷ (salt ++ write_u32be kdf_iterations)))
        ++ (nonce ++ (write_u32be n ++ (ct ++ tag)))
  unfolding header
  nonce_split = simp append_assoc refl

  ctlen_split :
      file_bytes salt nonce n ct tag
      ≡ (magic ++ (version ∷ (salt ++ (write_u32be kdf_iterations ++ nonce))))
        ++ (write_u32be n ++ (ct ++ tag))
  unfolding header
  ctlen_split = simp append_assoc refl

  pub salt_field : field off_salt salt_len (file_bytes salt nonce n ct tag) ≡ salt
  salt_field =
      ap (λ k. field off_salt k (file_bytes salt nonce n ct tag)) (sym salt_size)
      ∙ ap (field off_salt (length salt)) salt_split
      ∙ field-append off_salt (magic ++ (version ∷ [])) salt _ refl

  pub nonce_field : field off_nonce nonce_len (file_bytes salt nonce n ct tag) ≡ nonce
  unfolding write_u32be
  nonce_field =
      ap (λ k. field off_nonce k (file_bytes salt nonce n ct tag)) (sym nonce_size)
      ∙ ap (field off_nonce (length nonce)) nonce_split
      ∙ field-append off_nonce (magic ++ (version ∷ (salt ++ write_u32be kdf_iterations))) nonce _
          (simp length-append (omega (arith, salt_size)))

  iter_read : read_u32be (file_bytes salt nonce n ct tag) off_iter ≡ kdf_iterations
  iter_read =
      ap (λ x. read_u32be x off_iter) iter_split
      ∙ read_u32be-append (magic ++ (version ∷ salt)) _ off_iter kdf_iterations
          (omega (arith, salt_size)) (omega arith)

  ctlen_read : n < 2 ^ 32 → read_u32be (file_bytes salt nonce n ct tag) off_ctlen ≡ n
  unfolding write_u32be
  ctlen_read h =
      ap (λ x. read_u32be x off_ctlen) ctlen_split
      ∙ read_u32be-append (magic ++ (version ∷ (salt ++ (write_u32be kdf_iterations ++ nonce))))
          (ct ++ tag) off_ctlen n (simp length-append (omega (arith, salt_size, nonce_size))) h

  pub ct_field : field hdr_len (length ct) (file_bytes salt nonce n ct tag) ≡ ct
  ct_field =
      field-append hdr_len (header salt nonce n) ct tag
        (sym (header-length salt nonce n salt_size nonce_size))

  pub tag_field :
      length tag ≡ tag_len
      → field (hdr_len + length ct) tag_len (file_bytes salt nonce n ct tag) ≡ tag
  tag_field h =
      let split : file_bytes salt nonce n ct tag ≡ (header salt nonce n ++ ct) ++ (tag ++ []) =
        ap (λ x. header salt nonce n ++ (ct ++ x)) (sym (append-nil tag))
        ∙ sym (append_assoc (header salt nonce n) ct (tag ++ [])) in
      ap (λ k. field (hdr_len + length ct) k (file_bytes salt nonce n ct tag)) (sym h)
      ∙ ap (field (hdr_len + length ct) (length tag)) split
      ∙ field-append (hdr_len + length ct) (header salt nonce n ++ ct) tag [] (
          omega (
            arith,
            length-append (header salt nonce n) ct,
            header-length salt nonce n salt_size nonce_size,
          ))

  magic_read : take 4 (file_bytes salt nonce n ct tag) ≡ magic
  unfolding header
  magic_read = refl

  version_read : get_or (file_bytes salt nonce n ct tag) 4 0 ≡ version
  unfolding header
  version_read = refl

  -- The checks of the header pass, and give the iterations and the ciphertext's length.
  pub parse_header-written :
      n ≡ length ct
      → length tag ≡ tag_len
      → n ≤ max_ct_len
      → parse_header (file_bytes salt nonce n ct tag) ≡ ok (kdf_iterations, n)
  unfolding parse_header
  parse_header-written same h few =
      let size : length (file_bytes salt nonce n ct tag) ≡ hdr_len + n + tag_len = omega (
        arith,
        length-append (header salt nonce n) (ct ++ tag),
        length-append ct tag,
        header-length salt nonce n salt_size nonce_size,
      ) in
      ground (arith, magic_read, version_read, iter_read, ctlen_read (omega arith), size)
