-- ===== src/Card.antt =====
-- What src/wp11_proto_piv.c and src/wp11_proto_openpgp.c do around each call of wp11_ccid_apdu: the
-- transport's error codes are folded into one, a reply without room for its status word is
-- refused, and SW 6C xx is answered by one retry with Le = xx.
pub mod Laws
pub mod Canned
use wolf_p.Prelude.{
  ℕ, ◌-◌, Option, none, some, List, length, set, ltb, ◌==◌, if◌then◌else◌, Result, ok, err, Call,
  Loop, ◌>>=◌, lift,
}
use wolf_p.Ccid.{Transport, Ctx, CcidErr, exchange}

-- The code's `if (ccid == NULL) return …_ERR_PARAM`: the handle is the pointer with its target.
abbrev pub with_handle :
    {W E A : Type 0} → E → Option (Ctx W) → Call (Ctx W) E A → Result E A × Option (Ctx W)
with_handle e none call = (err e, none)
with_handle e (some c) call = let (r, c') = call c in (r, some c')

abbrev pub with_handle_loop :
    {W E A : Type 0} → E → Option (Ctx W) → Loop (Ctx W) E A → Option (Result E A) × Option (Ctx W)
with_handle_loop e none call = (some (err e), none)
with_handle_loop e (some c) call = let (r, c') = call c in (r, some c')

-- `cmd[cmdlen - 1] = sw2`.
unfoldable pub patch_le : List ℕ → ℕ → List ℕ
patch_le cmd le = set cmd (length cmd - 1) le

-- Where the two protocols differ: their codes, the size of their reply buffer, and their function
-- for the status word.
pub record Protocol (E : Type 0) : Type 0 where
  pub transport : E
  pub truncated : E
  pub resp_max : ℕ
  pub get_sw : List ℕ → ℕ × ℕ

module _ {W E : Type 0} (t : Transport W) (p : Protocol E) where
  unfoldable pub check_reply : Result CcidErr (List ℕ) → Result E (List ℕ)
  check_reply (err e) = err p.transport
  check_reply (ok resp) = if ltb (length resp) 2 then err p.truncated else ok resp

  unfoldable pub send : List ℕ → Call (Ctx W) E (List ℕ)
  unfolding check_reply
  send cmd c = let (r, c') = exchange t cmd p.resp_max c in (check_reply r, c')

  -- The second reply stands, even if it is 6C xx again.
  unfoldable pub send_retry : List ℕ → Call (Ctx W) E (List ℕ)
  unfolding send
  send_retry cmd = do
    resp ← send cmd
    if (p.get_sw resp).0 == 0x6C then send (patch_le cmd (p.get_sw resp).1) else lift (ok resp)
