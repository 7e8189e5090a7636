-- ===== src/Piv/Auth/Laws.antt =====
-- The command and the reply of GENERAL AUTHENTICATE in src/wp11_proto_piv.c.
use wolf_p.Prelude.{
  ℕ, ◌≤◌, ◌<◌, ◌≡◌, ap, ◌∙◌, List, [], ◌∷◌, ◌++◌, length, length-append, arith, ok, err,
}
use mathlib.Core.List.{append_assoc}
use wolf_p.Piv.Tlv.{ber_len_encode}
use wolf_p.Piv.Tlv.Laws.{tlv}
use wolf_p.Piv.Apdu.{bufsize}
use wolf_p.Piv.Auth.{
  auth_cmd, apdu_data_size, dat_content_len, len_width, encoded_len, tag_dat, tag_response,
}

-- The template 7C { 82 {} tag { input } }; 82 00 is the empty element 82.
unfoldable pub template : ℕ → List ℕ → List ℕ
template tag input = tlv tag_dat (tag_response ∷ 0x00 ∷ tlv tag input)

length-ber_len_encode_width : (v : ℕ) → v ≤ 0xFF → length (ber_len_encode v) ≡ len_width v
unfolding ber_len_encode
length-ber_len_encode_width v h = ground arith

encoded_len-eq : (v : ℕ) → v ≤ 0xFFFF → encoded_len v ≡ ok (ber_len_encode v)
unfolding ber_len_encode
encoded_len-eq v h = ground arith

length-inner :
    (tag : ℕ) (input : List ℕ)
    → length input ≤ 247
    → length (tag_response ∷ 0x00 ∷ tlv tag input) ≡ dat_content_len (length input)
unfolding tlv
length-inner tag input h = ground (
  arith,
  length-append (ber_len_encode (length input)) input,
  length-ber_len_encode_width (length input),
)

dat_content_len-le : (n : ℕ) → n ≤ 247 → dat_content_len n ≤ 252
dat_content_len-le n h = ground arith

apdu_data_size-le : (n : ℕ) → n ≤ 247 → apdu_data_size n ≤ 255
apdu_data_size-le n h = ground arith

length-template :
    (tag : ℕ) (input : List ℕ)
    → length input ≤ 247
    → length (template tag input) ≡ apdu_data_size (length input)
unfolding template tlv
length-template tag input h =
    let inner = tag_response ∷ 0x00 ∷ tlv tag input in
    let small = dat_content_len-le (length input) h in
    let same : length inner ≡ dat_content_len (length input) = length-inner tag input h in
    omega (
      arith,
      same,
      small,
      length-append (ber_len_encode (length inner)) inner,
      length-ber_len_encode_width (length inner) (omega arith),
      ap len_width same,
    )

template-parts :
    (tag : ℕ) (input rest : List ℕ)
    → length input ≤ 247
    → template tag input ++ rest
      ≡ tag_dat
        ∷ (ber_len_encode (dat_content_len (length input))
            ++ (tag_response ∷ 0x00 ∷ tag ∷ (ber_len_encode (length input) ++ (input ++ rest))))
unfolding template tlv
template-parts tag input rest h =
    let inner = tag_response ∷ 0x00 ∷ tlv tag input in
    let outer_len = ber_len_encode (dat_content_len (length input)) in
    let input_len = ber_len_encode (length input) in
    ap (λ k. (tag_dat ∷ (ber_len_encode k ++ inner)) ++ rest) (length-inner tag input h)
    ∙ ap (λ l. tag_dat ∷ l)
        (append_assoc outer_len inner rest
          ∙ ap (λ l. outer_len ++ (tag_response ∷ 0x00 ∷ tag ∷ l))
              (append_assoc input_len input rest))

-- For every input of up to 247 bytes the command is built: its header, Lc, the template and Le. The
-- sizes that the code computes by hand agree with the encoder's.
pub auth_cmd_shape :
    (tag slot alg : ℕ) (input : List ℕ)
    → length input ≤ 247
    → (auth_cmd tag slot alg input
        ≡ ok (
            0x00
            ∷ 0x87
            ∷ alg
            ∷ slot
            ∷ length (template tag input)
            ∷ (template tag input ++ (0x00 ∷ []))))
      × (length (template tag input) ≤ 255)
unfolding auth_cmd
auth_cmd_shape tag slot alg input h = (
  rw (template-parts tag input (0x00 ∷ []) h) (
      ground (
        arith,
        apdu_data_size-le (length input) h,
        dat_content_len-le (length input) h,
        length-template tag input h,
        encoded_len-eq (length input),
        encoded_len-eq (dat_content_len (length input)),
      )),
  omega (arith, length-template tag input h, apdu_data_size-le (length input) h),
)

-- One byte more does not fit a short command: the command is refused before anything is sent.
pub auth_cmd_too_long :
    (tag slot alg : ℕ) (input : List ℕ)
    → 247 < length input
    → auth_cmd tag slot alg input ≡ err bufsize
unfolding auth_cmd
auth_cmd_too_long tag slot alg input h = ground arith
