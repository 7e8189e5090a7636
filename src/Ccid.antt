-- ===== src/Ccid.antt =====
-- src/wp11_ccid.c and wolfp11/wp11_ccid.h: the framing of ISO 7816 commands in CCID messages.
-- libusb and the mock callback are a parameter, `Transport`, over a device of type `W`. A byte is
-- a number below 256. An output buffer is given by its capacity, `none` where a pointer is NULL.
pub mod Codec
pub mod Frames
pub mod Sync
mod Examples
use wolf_p.Prelude.{
  ℕ, suc, ◌+◌, ◌-◌, ◌*◌, ◌/◌, ◌%◌, ◌^◌, Bool, true, false, ◌||◌, not, Option, none, some, List, [],
  ◌∷◌, ◌++◌, ltb, leb, ◌==◌, if◌then◌else◌, length, get_or, take, drop, Result, ok, err, bind, Call,
}

-- The codes WP11_CCID_ERR_*.
pub data CcidErr : Type 0 where
  param usb status seq bufsize nomem notfound timeout no_card : CcidErr

-- What the code tells apart of libusb's return codes.
pub data UsbRet : Type 0 where
  success no_device timed_out pipe other : UsbRet

-- The code that is called and not implemented here. `mock w out cap` is the callback: it gets the
-- frame and the room for the reply, and answers with the reply's bytes, or `none` for a nonzero
-- return. `bulk_out` and `bulk_in` are libusb_bulk_transfer on the two endpoints, and the halts
-- libusb_clear_halt.
pub record Transport (W : Type 0) : Type 0 where
  pub mock : W → List ℕ → ℕ → Option (List ℕ) × W
  pub bulk_out : W → List ℕ → UsbRet × W
  pub bulk_in : W → ℕ → UsbRet × List ℕ × W
  pub clear_halt_out : W → W
  pub clear_halt_in : W → W

-- `struct wp11_ccid_ctx`; `dev` stands for the handles, endpoints and the mock's user data.
pub record Ctx (W : Type 0) : Type 0 where
  pub is_mock : Bool
  pub seq : ℕ
  pub desync : Bool
  pub dev : W

abbrev pub header_len : ℕ
header_len = 10

-- The data part of the two frame buffers.
abbrev pub max_data : ℕ
max_data = 512

unfoldable pub put_u32le : ℕ → List ℕ
put_u32le v = v % 256 ∷ v / 2 ^ 8 % 256 ∷ v / 2 ^ 16 % 256 ∷ v / 2 ^ 24 % 256 ∷ []

-- The shifted bytes share no bits, so `|` is the sum.
unfoldable pub get_u32le : List ℕ → ℕ
get_u32le src =
    get_or src 0 0 + get_or src 1 0 * 2 ^ 8 + get_or src 2 0 * 2 ^ 16 + get_or src 3 0 * 2 ^ 24

unfoldable pub open_mock : {W : Type 0} → Option W → Result CcidErr (Ctx W)
open_mock none = err param
open_mock (some w) = ok (record { is_mock = true; seq = 0; desync = false; dev = w })

-- The PC_to_RDR_XfrBlock message.
unfoldable pub build_frame : ℕ → List ℕ → List ℕ
unfolding put_u32le
build_frame n cmd = 0x6F ∷ put_u32le (length cmd) ++ (0 ∷ n ∷ 0 ∷ 0 ∷ 0 ∷ cmd)

-- The checks on a received frame, in the code's order, and the copy to the caller's buffer.
unfoldable pub validate : ℕ → ℕ → List ℕ → Result CcidErr (List ℕ)
unfolding get_u32le
validate sent cap f =
    if ltb (length f) header_len
    then err usb
    else if not (get_or f 0 0 == 0x80)
    then err usb
    else if not (get_or f 6 0 == sent)
    then err seq
    else let icc_status = get_or f 7 0 % 4 in
      let cmd_status = get_or f 7 0 / 2 ^ 6 % 4 in
      if icc_status == 1 || icc_status == 2
      then err no_card
      else if not (cmd_status == 0)
      then err status
      else let dw_length = get_u32le (drop 1 f) in
        if ltb cap dw_length
        then err bufsize
        else if ltb (2 ^ 32 - 1 - header_len) dw_length || ltb (length f) (header_len + dw_length)
        then err usb
        else ok (take dw_length (drop header_len f))

unfoldable pub transfer_err : UsbRet → CcidErr
transfer_err no_device = no_card
transfer_err timed_out = timeout
transfer_err _ = usb

module _ {W : Type 0} (t : Transport W) where
  -- A failed OUT: nothing was sent.
  unfoldable pub out_failed : UsbRet → Call (Ctx W) CcidErr (List ℕ)
  unfolding transfer_err
  out_failed pipe c = (err (transfer_err pipe), record c { dev = t.clear_halt_out c.dev })
  out_failed ret c = (err (transfer_err ret), c)

  -- A failed IN after a good OUT: the conversation is out of step for good.
  unfoldable pub in_failed : UsbRet → Call (Ctx W) CcidErr (List ℕ)
  unfolding transfer_err
  in_failed pipe c =
      (err (transfer_err pipe), record c { desync = true; dev = t.clear_halt_in c.dev })
  in_failed ret c = (err (transfer_err ret), record c { desync = true })

  unfoldable pub receive : Call (Ctx W) CcidErr (List ℕ)
  unfolding in_failed
  receive c =
      let (ret, frame, w) = t.bulk_in c.dev (header_len + max_data) in
      elim ret [
        | success ↦ (ok frame, record c { dev = w })
        | failed ↦ in_failed failed (record c { dev = w })
      ]

  unfoldable pub usb_exchange : List ℕ → Call (Ctx W) CcidErr (List ℕ)
  unfolding out_failed receive
  usb_exchange frame c =
      let (ret, w) = t.bulk_out c.dev frame in
      elim ret [
        | success ↦ receive (record c { dev = w })
        | failed ↦ out_failed failed (record c { dev = w })
      ]

  unfoldable pub mock_exchange : List ℕ → Call (Ctx W) CcidErr (List ℕ)
  mock_exchange frame c =
      let (reply, w) = t.mock c.dev frame (header_len + max_data) in
      elim reply [
        | none ↦ (err usb, record c { dev = w })
        | some got ↦ (ok got, record c { dev = w })
      ]

  unfoldable pub dispatch : List ℕ → Call (Ctx W) CcidErr (List ℕ)
  unfolding usb_exchange mock_exchange
  dispatch frame c = if c.is_mock then mock_exchange frame c else usb_exchange frame c

  -- wp11_ccid_apdu past the NULL checks.
  unfoldable pub exchange : List ℕ → ℕ → Call (Ctx W) CcidErr (List ℕ)
  unfolding build_frame validate dispatch
  exchange cmd cap c =
      if ltb max_data (length cmd)
      then (err param, c)
      else if c.desync
      then (err usb, c)
      else let (r, c') = dispatch (build_frame c.seq cmd) (record c { seq = (c.seq + 1) % 256 }) in
        (bind r (validate c.seq cap), c')

  -- wp11_ccid_apdu. The handle is the `ctx` pointer with what it points to.
  unfoldable pub apdu :
      Option (Ctx W) → Option (List ℕ) → Option ℕ → Result CcidErr (List ℕ) × Option (Ctx W)
  unfolding exchange
  apdu (some c) (some cmd) (some cap) = let (r, c') = exchange cmd cap c in (r, some c')
  apdu ctx cmd cap = (err param, ctx)
