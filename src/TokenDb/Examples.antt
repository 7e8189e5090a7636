-- ===== src/TokenDb/Examples.antt =====
-- The theorems on the token table at concrete ids.
use wolf_p.Prelude.{◌≡◌, ◌↔◌, some}
use wolf_p.TokenDb.{TokenDesc, openpgp, lookup, row, quirk_none, rsa_p256, token_db}
use wolf_p.TokenDb.Laws.{lookup_iff, In, HasIds}

abbrev nitro_key : TokenDesc
nitro_key = row 0x20A0 0x4109 "NitroKey Pro 2" openpgp quirk_none rsa_p256

lookup_iff_example :
    (lookup 0x20A0 0x4109 ≡ some nitro_key)
    ↔ (In nitro_key token_db × HasIds nitro_key 0x20A0 0x4109)
lookup_iff_example = lookup_iff 0x20A0 0x4109 nitro_key
