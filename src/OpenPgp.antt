-- ===== src/OpenPgp.antt =====
-- src/wp11_proto_openpgp.c and wolfp11/wp11_proto_openpgp.h: the OpenPGP card application.
pub mod Laws
mod Examples
use wolf_p.Prelude.{
  ℕ, ◌+◌, ◌-◌, ◌%◌, Bool, ◌&&◌, ◌||◌, not, Option, none, some, List, [], ◌∷◌, ◌++◌, length, get_or,
  take, ltb, ◌==◌, if◌then◌else◌, Result, ok, err, Call, ◌>>=◌, lift,
}
use wolf_p.Ccid.{Transport, Ctx}
use wolf_p.Card.{Protocol, with_handle, send, send_retry}

-- The codes WP11_OPENPGP_ERR_*.
pub data PgpErr : Type 0 where
  param transport sw bufsize pw_bad pw_locked truncated : PgpErr

-- `extract_sw`.
unfoldable pub extract_sw : List ℕ → ℕ × ℕ
extract_sw resp =
    if ltb (length resp) 2
    then (0, 0)
    else (get_or resp (length resp - 2) 0, get_or resp (length resp - 1) 0)

-- `OPENPGP_RESP_MAX` and the codes for a failed exchange.
abbrev pub pgp_card : Protocol PgpErr
pgp_card = record {
  transport = transport;
  truncated = truncated;
  resp_max = 514;
  get_sw = extract_sw;
}

abbrev pub is_success : ℕ × ℕ → Bool
is_success (sw1, sw2) = sw1 == 0x90 && sw2 == 0x00

abbrev pub select_cmd : List ℕ
select_cmd = 0x00 ∷ 0xA4 ∷ 0x04 ∷ 0x00 ∷ 0x06 ∷ 0xD2 ∷ 0x76 ∷ 0x00 ∷ 0x01 ∷ 0x24 ∷ 0x01 ∷ []

-- `WP11_OPENPGP_PW1_MODE_SIGN` and `WP11_OPENPGP_PW1_MODE_OTHER`.
abbrev pub mode_sign : ℕ
mode_sign = 0x81

abbrev pub mode_other : ℕ
mode_other = 0x82

abbrev pub verify_cmd : ℕ → List ℕ → List ℕ
verify_cmd mode pw = 0x00 ∷ 0x20 ∷ 0x00 ∷ (mode % 256) ∷ (length pw % 256) ∷ pw

-- Header bytes, Lc, data and Le, as the two signing commands have them.
abbrev pub data_cmd : ℕ → ℕ → ℕ → List ℕ → List ℕ
data_cmd ins p1 p2 input = 0x00 ∷ ins ∷ p1 ∷ p2 ∷ (length input % 256) ∷ (input ++ (0x00 ∷ []))

abbrev pub sign_cmd : List ℕ → List ℕ
sign_cmd = data_cmd 0x2A 0x9E 0x9A

abbrev pub auth_cmd : List ℕ → List ℕ
auth_cmd = data_cmd 0x88 0x00 0x00

abbrev pub ard_cmd : List ℕ
ard_cmd = 0x00 ∷ 0xCA ∷ 0x00 ∷ 0x6E ∷ 0x00 ∷ []

unfoldable pub select_result : ℕ × ℕ → Result PgpErr (Unit {0})
select_result words = if is_success words then ok tt else err sw

unfoldable pub pw_result : ℕ × ℕ → Result PgpErr (Unit {0})
pw_result (sw1, sw2) =
    if is_success (sw1, sw2)
    then ok tt
    else if sw1 == 0x63
    then err pw_bad
    else if sw1 == 0x69 && sw2 == 0x83
    then err pw_locked
    else err sw

-- The end of the three reading calls: the reply without its status word, if that is 90 00 and the
-- data fits.
unfoldable pub copy_body : ℕ → List ℕ → Result PgpErr (List ℕ)
copy_body cap resp =
    if not (is_success (extract_sw resp))
    then err sw
    else if ltb cap (length resp - 2)
    then err bufsize
    else ok (take (length resp - 2) resp)

module _ {W : Type 0} (t : Transport W) where
  -- wp11_openpgp_select.
  unfoldable pub select : Option (Ctx W) → Result PgpErr (Unit {0}) × Option (Ctx W)
  unfolding select_result
  select ccid =
      with_handle param ccid
        do resp ← send t pgp_card select_cmd; lift (select_result (extract_sw resp))

  -- wp11_openpgp_verify_pw1.
  unfoldable pub verify_pw1 :
      Option (Ctx W) → Option (List ℕ) → ℕ → Result PgpErr (Unit {0}) × Option (Ctx W)
  unfolding pw_result
  verify_pw1 ccid none mode = (err param, ccid)
  verify_pw1 ccid (some pw) mode =
      if length pw == 0 || ltb 255 (length pw)
      then (err param, ccid)
      else if not (mode == mode_sign) && not (mode == mode_other)
      then (err param, ccid)
      else with_handle param ccid
          do resp ← send t pgp_card (verify_cmd mode pw); lift (pw_result (extract_sw resp))

  -- One command with the retry, and its data.
  unfoldable pub fetch : List ℕ → ℕ → Call (Ctx W) PgpErr (List ℕ)
  unfolding copy_body
  fetch cmd cap = do resp ← send_retry t pgp_card cmd; lift (copy_body cap resp)

  -- wp11_openpgp_sign.
  unfoldable pub sign :
      Option (Ctx W) → Option (List ℕ) → Option ℕ → Result PgpErr (List ℕ) × Option (Ctx W)
  sign ccid (some hash) (some siglen) =
      if length hash == 0 || ltb 255 (length hash)
      then (err param, ccid)
      else with_handle param ccid (fetch (sign_cmd hash) siglen)
  sign ccid _ _ = (err param, ccid)

  -- wp11_openpgp_authenticate.
  unfoldable pub authenticate :
      Option (Ctx W) → Option (List ℕ) → Option ℕ → Result PgpErr (List ℕ) × Option (Ctx W)
  authenticate ccid (some input) (some resplen) =
      if length input == 0 || ltb 255 (length input)
      then (err param, ccid)
      else with_handle param ccid (fetch (auth_cmd input) resplen)
  authenticate ccid _ _ = (err param, ccid)

  -- wp11_openpgp_get_ard.
  unfoldable pub get_ard : Option (Ctx W) → Option ℕ → Result PgpErr (List ℕ) × Option (Ctx W)
  get_ard ccid none = (err param, ccid)
  get_ard ccid (some buflen) = with_handle param ccid (fetch ard_cmd buflen)
