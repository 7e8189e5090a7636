-- ===== src/TokenDb.antt =====
-- src/wp11_token_db.c and wolfp11/wp11_token_db.h: the table of USB tokens.
pub mod Laws
mod Examples
use Prim.Native.Nat.{bit_or}
use Prim.Native.String.{String}
use wolf_p.Prelude.{ℕ, ◌&&◌, Option, none, some, List, [], ◌∷◌, ◌==◌, if◌then◌else◌, length}

-- `wp11_proto_t`.
pub data Proto : Type 0 where
  soft piv openpgp pkcs15 flash wolfhsm fsdir : Proto

-- `wp11_token_desc_t`.
pub record TokenDesc : Type 0 where
  pub usb_vid : ℕ
  pub usb_pid : ℕ
  pub name : String
  pub proto : Proto
  pub quirks : ℕ
  pub algos : ℕ

abbrev pub quirk_none : ℕ
quirk_none = 0

abbrev pub quirk_short_apdu : ℕ
quirk_short_apdu = 2

abbrev pub quirk_extended_apdu : ℕ
quirk_extended_apdu = 4

abbrev pub algo_rsa2048 : ℕ
algo_rsa2048 = 0x01

abbrev pub algo_ec_p256 : ℕ
algo_ec_p256 = 0x10

abbrev pub algo_ec_p384 : ℕ
algo_ec_p384 = 0x20

abbrev rsa_p256 : ℕ
rsa_p256 = bit_or algo_rsa2048 algo_ec_p256

abbrev pub row : ℕ → ℕ → String → Proto → ℕ → ℕ → TokenDesc
row vid pid name proto quirks algos = record {
  usb_vid = vid;
  usb_pid = pid;
  name = name;
  proto = proto;
  quirks = quirks;
  algos = algos;
}

-- `wp11_token_db`.
abbrev pub token_db : List TokenDesc
token_db =
    row 0x1050 0x0407 "YubiKey 5 NFC" piv quirk_extended_apdu (bit_or rsa_p256 algo_ec_p384)
    ∷ row 0x1050 0x0406 "YubiKey 5C" piv quirk_extended_apdu (bit_or rsa_p256 algo_ec_p384)
    ∷ row 0x1050 0x0410 "YubiKey 5 Nano" piv quirk_extended_apdu rsa_p256
    ∷ row 0x20A0 0x4108 "NitroKey HSM 2" piv quirk_extended_apdu rsa_p256
    ∷ row 0x20A0 0x4109 "NitroKey Pro 2" openpgp quirk_none rsa_p256
    ∷ row 0x096E 0x0608 "Feitian ePass3003" piv quirk_short_apdu rsa_p256
    ∷ row 0x096E 0x0858 "Feitian FIDO K9" piv quirk_short_apdu rsa_p256
    ∷ []

-- `wp11_token_db_fallback`, which wp11_token_db_lookup_unknown returns.
abbrev pub lookup_unknown : TokenDesc
lookup_unknown = row 0 0 "Generic PIV Token" piv quirk_short_apdu rsa_p256

-- The loop of wp11_token_db_lookup from one row on.
unfoldable pub lookup_from : List TokenDesc → ℕ → ℕ → Option TokenDesc
lookup_from [] vid pid = none
lookup_from (d ∷ ds) vid pid =
    if d.usb_vid == vid && d.usb_pid == pid then some d else lookup_from ds vid pid

-- wp11_token_db_lookup.
unfoldable pub lookup : ℕ → ℕ → Option TokenDesc
unfolding lookup_from
lookup vid pid = lookup_from token_db vid pid

-- wp11_token_db_count.
unfoldable pub count : ℕ
count = length token_db
