-- ===== src/Ccid/Frames.antt =====
-- The reply frames that src/wp11_ccid.c accepts.
use wolf_p.Prelude.{
  ℕ, ◌+◌, ◌-◌, ◌*◌, ◌/◌, ◌%◌, ◌^◌, ◌≤◌, ◌<◌, ◌≡◌, ◌≢◌, refl, List, [], ◌∷◌, ◌++◌, length, get_or,
  drop, arith, length-append, take-append-drop, take-length-append, length-take, Result-cases, inl,
  inr, ok,
}
use wolf_p.Ccid.{
  put_u32le, get_u32le, validate, build_frame, Ctx, Transport, exchange, max_data, dispatch,
  header_len,
}
use wolf_p.Ccid.Codec.{get_u32le-put_u32le}

-- An RDR_to_PC_DataBlock message (CCID 1.1, 6.2.1) with data `d`.
unfoldable pub data_block : ℕ → ℕ → ℕ → ℕ → ℕ → List ℕ → List ℕ
data_block slot n status error chain d =
    0x80 ∷ put_u32le (length d) ++ (slot ∷ n ∷ status ∷ error ∷ chain ∷ d)

-- The card is active and the reader reports no error.
abbrev pub IsGood : ℕ → Type 0
IsGood status = (status % 4 ≢ 1) × (status % 4 ≢ 2) × (status / 2 ^ 6 % 4 ≡ 0)

abbrev pub AllBytes : List ℕ → Type 0
AllBytes [] = Unit {0}
AllBytes (b ∷ bs) = (b < 256) × AllBytes bs

-- Every good block whose data fits the caller's buffer and leaves room for the header below 2 ^
-- 32 is accepted, with any bytes after it: the reply is exactly its data, also if that is empty.
pub validate-data_block :
    (slot n status error chain cap : ℕ) (d rest : List ℕ)
    → IsGood status
    → length d ≤ cap
    → length d ≤ 2 ^ 32 - 1 - 10
    → validate n cap (data_block slot n status error chain d ++ rest) ≡ ok d
unfolding validate data_block put_u32le
validate-data_block slot n status error chain cap d rest g h k = ground (
  arith,
  length-append d rest,
  take-length-append d rest,
  get_u32le-put_u32le (length d) (slot ∷ n ∷ status ∷ error ∷ chain ∷ (d ++ rest)) (omega arith),
)

-- The frame holds a good block with data `d` from the buffer's start.
abbrev pub Accepts : ℕ → ℕ → List ℕ → List ℕ → Type 0
Accepts n cap f d =
    (slot status error chain : ℕ) × (rest : List ℕ) × (f
      ≡ data_block slot n status error chain d ++ rest)
    × IsGood status
    × (length d ≤ cap)

-- Of frames of bytes, only those are accepted that begin with a good block with the number sent,
-- whose data fits the caller's buffer; and the reply is that data.
pub validate-Accepts :
    (n cap : ℕ) (f d : List ℕ) → AllBytes f → validate n cap f ≡ ok d → Accepts n cap f d
unfolding validate data_block put_u32le
validate-Accepts n cap (b0 ∷ b1 ∷ b2 ∷ b3 ∷ b4 ∷ b5 ∷ b6 ∷ b7 ∷ b8 ∷ b9 ∷ body) d bytes e =
    let dw = b1 + b2 * 2 ^ 8 + b3 * 2 ^ 16 + b4 * 2 ^ 24 in
    (
      b5,
      b7,
      b8,
      b9,
      drop (length d) body,
      ground (arith, length-take dw body, take-append-drop dw body),
      (ground arith, ground arith, ground arith),
      ground (arith, length-take dw body),
    )
validate-Accepts n cap f d bytes e = ground arith

-- What a reader finds in a sent frame: the type byte, the command's length, the sequence number and
-- the command itself, for every command that the length guard lets through.
pub build_frame_fields :
    (n : ℕ) (cmd : List ℕ)
    → length cmd ≤ max_data
    → (length (build_frame n cmd) ≡ header_len + length cmd)
      × (get_or (build_frame n cmd) 0 0 ≡ 0x6F)
      × (get_u32le (drop 1 (build_frame n cmd)) ≡ length cmd)
      × (get_or (build_frame n cmd) 6 0 ≡ n)
      × (drop header_len (build_frame n cmd) ≡ cmd)
unfolding build_frame
build_frame_fields n cmd h = (
  omega arith,
  refl,
  get_u32le-put_u32le (length cmd) (0 ∷ n ∷ 0 ∷ 0 ∷ 0 ∷ cmd) (omega arith),
  refl,
  refl,
)

pub length-validate : (n cap : ℕ) (f d : List ℕ) → validate n cap f ≡ ok d → length d ≤ cap
unfolding validate
length-validate n cap f d e = ground (arith, length-take (get_u32le (drop 1 f)) (drop header_len f))

module _ {W : Type 0} (t : Transport W) where
  -- The context as `dispatch` gets it: the number after the one sent.
  abbrev bumped : Ctx W → Ctx W
  bumped c = record c { seq = (c.seq + 1) % 256 }

  -- If the frame that the transport delivers consists of bytes and a call succeeds, that frame
  -- holds a good block that carries the number sent with the command, the reply is the block's
  -- data, and it fits the caller's buffer.
  pub exchange-Accepts :
      (c : Ctx W) (cmd d : List ℕ) (cap : ℕ)
      → ((frame : List ℕ)
          → (dispatch t (build_frame c.seq cmd) (bumped c)).0 ≡ ok frame
          → AllBytes frame)
      → (exchange t cmd cap c).0 ≡ ok d
      → (frame : List ℕ) × ((dispatch t (build_frame c.seq cmd) (bumped c)).0 ≡ ok frame)
        × Accepts c.seq cap frame d
  unfolding exchange
  exchange-Accepts c cmd d cap bytes e =
      elim (Result-cases (dispatch t (build_frame c.seq cmd) (bumped c)).0) [
        | inl (frame, got) ↦
            (frame, got, validate-Accepts c.seq cap frame d (bytes frame got) (ground arith))
        | inr (failed, got) ↦ absurd (ground arith)
      ]

  -- A successful reply fits the caller's buffer, whatever the transport delivers.
  pub length-exchange :
      (c : Ctx W) (cmd d : List ℕ) (cap : ℕ) → (exchange t cmd cap c).0 ≡ ok d → length d ≤ cap
  unfolding exchange
  length-exchange c cmd d cap e =
      elim (Result-cases (dispatch t (build_frame c.seq cmd) (bumped c)).0) [
        | inl (frame, got) ↦ length-validate c.seq cap frame d (ground arith)
        | inr (failed, got) ↦ absurd (ground arith)
      ]
