-- ===== src/Piv/Apdu.antt =====
-- What the functions of src/wp11_proto_piv.c share: the codes, the status word, and one exchange.
pub mod Laws
use wolf_p.Prelude.{ℕ, ◌-◌, Bool, ◌&&◌, List, length, get_or, take, ltb, ◌==◌, if◌then◌else◌}
use wolf_p.Card.{Protocol}

-- The codes WP11_PIV_ERR_*.
pub data PivErr : Type 0 where
  param transport sw bufsize pin_bad pin_locked truncated encoding not_found : PivErr
  user_presence security_status not_supported nomem : PivErr

-- `piv_get_sw`: SW1 and SW2.
unfoldable pub piv_get_sw : List ℕ → ℕ × ℕ
piv_get_sw resp =
    if ltb (length resp) 2
    then (0, 0)
    else (get_or resp (length resp - 2) 0, get_or resp (length resp - 1) 0)

-- `piv_sw_to_err`.
unfoldable pub piv_sw_to_err : ℕ → ℕ → PivErr
piv_sw_to_err sw1 sw2 =
    if sw1 == 0x69 && sw2 == 0x85
    then user_presence
    else if sw1 == 0x69 && sw2 == 0x82
    then security_status
    else if sw1 == 0x6A && sw2 == 0x81
    then not_supported
    else if sw1 == 0x6A && sw2 == 0x88
    then not_found
    else sw

-- `PIV_APDU_MAX_CMD` and `PIV_APDU_MAX_RESP`.
abbrev pub max_cmd : ℕ
max_cmd = 261

abbrev pub max_resp : ℕ
max_resp = 512

abbrev pub piv_card : Protocol PivErr
piv_card = record {
  transport = transport;
  truncated = truncated;
  resp_max = max_resp;
  get_sw = piv_get_sw;
}

-- SW 90 00.
abbrev pub is_success : ℕ × ℕ → Bool
is_success (sw1, sw2) = sw1 == 0x90 && sw2 == 0x00

-- The reply without its status word.
abbrev pub body : List ℕ → List ℕ
body resp = take (length resp - 2) resp
