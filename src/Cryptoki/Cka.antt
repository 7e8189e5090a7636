-- ===== src/Cryptoki/Cka.antt =====
-- The attribute types and the object classes of PKCS #11 that src/wp11_pkcs11.c names beside those
-- of the object search and of signing.
use wolf_p.Prelude.{ℕ}

abbrev pub cka_private : ℕ
cka_private = 0x2

abbrev pub cka_value : ℕ
cka_value = 0x11

abbrev pub cka_certificate_type : ℕ
cka_certificate_type = 0x80

abbrev pub cka_sensitive : ℕ
cka_sensitive = 0x103

abbrev pub cka_modulus : ℕ
cka_modulus = 0x120

abbrev pub cka_public_exponent : ℕ
cka_public_exponent = 0x122

-- The first and the last of the six private parts of an RSA key.
abbrev pub cka_private_exponent : ℕ
cka_private_exponent = 0x123

abbrev pub cka_coefficient : ℕ
cka_coefficient = 0x128

abbrev pub cka_extractable : ℕ
cka_extractable = 0x162

abbrev pub cka_local : ℕ
cka_local = 0x163

abbrev pub cka_never_extractable : ℕ
cka_never_extractable = 0x164

abbrev pub cka_always_sensitive : ℕ
cka_always_sensitive = 0x165

abbrev pub cka_key_gen_mechanism : ℕ
cka_key_gen_mechanism = 0x166

-- CKO_DATA, CKO_PUBLIC_KEY and CKO_PRIVATE_KEY.
abbrev pub cko_data : ℕ
cko_data = 0

abbrev pub cko_public_key : ℕ
cko_public_key = 2

abbrev pub cko_private_key : ℕ
cko_private_key = 3
