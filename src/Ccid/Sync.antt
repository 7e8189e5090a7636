-- ===== src/Ccid/Sync.antt =====
-- The sequence number and the `desync` flag of src/wp11_ccid.c over a client's calls.
use wolf_p.Prelude.{
  ℕ, ◌+◌, ◌%◌, ◌≤◌, ◌<◌, ◌≡◌, refl, ap, ◌∙◌, Bool, true, false, not, ◌&&◌, Bool-cases, inl, inr,
  List, [], ◌∷◌, length, leb, arith, Result, ok, err,
}
use wolf_p.Ccid.{Ctx, Transport, CcidErr, UsbRet, exchange, max_data, header_len, build_frame}

abbrev pub is_success : UsbRet → Bool
is_success UsbRet.success = true
is_success _ = false

abbrev pub IsErr : {A : Type 0} → Result CcidErr A → Type 0
IsErr (ok a) = ⊥
IsErr (err e) = Unit

abbrev pub AllErr : List (Result CcidErr (List ℕ)) → Type 0
AllErr [] = Unit {0}
AllErr (r ∷ rs) = IsErr r × AllErr rs

abbrev pub AllFit : List (List ℕ × ℕ) → Type 0
AllFit [] = Unit {0}
AllFit ((cmd, cap) ∷ rs) = (length cmd ≤ max_data) × AllFit rs

module _ {W : Type 0} (t : Transport W) where
  -- A client's calls in order, each a command and the room for its reply, with the results.
  unfoldable pub run : List (List ℕ × ℕ) → Ctx W → List (Result CcidErr (List ℕ)) × Ctx W
  run [] c = ([], c)
  run ((cmd, cap) ∷ calls) c =
      let (r, c') = exchange t cmd cap c in let (rs, c'') = run calls c' in (r ∷ rs, c'')

  -- The device when the frame of `cmd` has been sent to it.
  abbrev sent : Ctx W → List ℕ → UsbRet × W
  sent c cmd = t.bulk_out c.dev (build_frame c.seq cmd)

  -- On a context in step, a call leaves it out of step exactly if the command is not too long,
  -- the context is a USB one, the OUT transfer succeeded and the IN transfer failed.
  pub exchange-desync :
      (c : Ctx W) (cmd : List ℕ) (cap : ℕ)
      → c.desync ≡ false
      → (exchange t cmd cap c).1.desync ≡ (
          leb (length cmd) max_data
          && not c.is_mock
          && is_success (sent c cmd).0
          && not (is_success (t.bulk_in (sent c cmd).1 (header_len + max_data)).0))
  unfolding exchange
  exchange-desync c cmd cap h = ground arith

  exchange-desync_keep :
      (c : Ctx W) (cmd : List ℕ) (cap : ℕ)
      → c.desync ≡ true
      → ((exchange t cmd cap c).1 ≡ c) × IsErr (exchange t cmd cap c).0
  unfolding exchange
  exchange-desync_keep c cmd cap h = (ground arith, ground arith)

  -- In a context that is out of step, every call of any sequence fails, and the context with
  -- its device stays as it is.
  run-desync :
      (calls : List (List ℕ × ℕ)) (c : Ctx W)
      → c.desync ≡ true
      → ((run calls c).1 ≡ c) × AllErr (run calls c).0
  unfolding run
  run-desync [] c h = (refl, tt)
  run-desync ((cmd, cap) ∷ calls) c h =
      let (same, fails) = exchange-desync_keep c cmd cap h in
      let (rest_same, rest_fails) = run-desync calls (exchange t cmd cap c).1 (rw same h) in
      (rest_same ∙ same, (fails, rest_fails))

  -- The device after a failed IN transfer: a stalled endpoint is cleared.
  abbrev pub after_in : UsbRet → W → W
  after_in UsbRet.pipe w = t.clear_halt_in w
  after_in _ w = w

  exchange-lost :
      (c : Ctx W) (cmd bytes : List ℕ) (cap : ℕ) (ret : UsbRet) (w w' : W)
      → length cmd ≤ max_data
      → c.desync ≡ false
      → c.is_mock ≡ false
      → t.bulk_out c.dev (build_frame c.seq cmd) ≡ (UsbRet.success, w)
      → t.bulk_in w (header_len + max_data) ≡ (ret, bytes, w')
      → is_success ret ≡ false
      → IsErr (exchange t cmd cap c).0
        × ((exchange t cmd cap c).1
            ≡ record c { seq = (c.seq + 1) % 256; desync = true; dev = after_in ret w' })
  unfolding exchange
  exchange-lost c cmd bytes cap ret w w' fits sync usb out lost fails = (ground arith, ground arith)

  -- A lost reply puts the conversation out of step for good. If a command that is not too long is sent
  -- on a USB context in step, the OUT transfer succeeds and the IN transfer fails, then that call
  -- fails, and every call of any sequence after it fails too: at the end the context is the first one
  -- with the next sequence number, `desync` set, and the device as the IN transfer has left it, its
  -- endpoint cleared if it had stalled.
  pub exchange-run :
      (c : Ctx W) (cmd bytes : List ℕ) (cap : ℕ) (ret : UsbRet) (w w' : W)
      (calls : List (List ℕ × ℕ))
      → length cmd ≤ max_data
      → c.desync ≡ false
      → c.is_mock ≡ false
      → t.bulk_out c.dev (build_frame c.seq cmd) ≡ (UsbRet.success, w)
      → t.bulk_in w (header_len + max_data) ≡ (ret, bytes, w')
      → is_success ret ≡ false
      → let (rs, c') = run ((cmd, cap) ∷ calls) c in
        AllErr rs
        × (c' ≡ record c { seq = (c.seq + 1) % 256; desync = true; dev = after_in ret w' })
  unfolding run
  exchange-run c cmd bytes cap ret w w' calls fits sync usb out lost fails =
      let (failed, left) = exchange-lost c cmd bytes cap ret w w' fits sync usb out lost fails in
      let (same, rest_fails) =
        run-desync calls (exchange t cmd cap c).1 (ap (λ x. x.desync) left) in
      ((failed, rest_fails), same ∙ left)

  exchange-seq :
      (c : Ctx W) (cmd : List ℕ) (cap : ℕ)
      → length cmd ≤ max_data
      → (exchange t cmd cap c).1.desync ≡ false
      → ((exchange t cmd cap c).1.seq ≡ (c.seq + 1) % 256) × (c.desync ≡ false)
  unfolding exchange
  exchange-seq c cmd cap f h = (ground arith, ground arith)

  run-desync_before :
      (calls : List (List ℕ × ℕ)) (c : Ctx W) → (run calls c).1.desync ≡ false → c.desync ≡ false
  run-desync_before calls c h = elim (Bool-cases c.desync) [
    | inl out ↦ cc (run-desync calls c out).0
    | inr fine ↦ fine
  ]

  -- Sequence numbers count the commands sent, modulo 256, as long as the conversation is in step.
  pub run-seq :
      (calls : List (List ℕ × ℕ)) (c : Ctx W)
      → AllFit calls
      → c.seq < 256
      → (run calls c).1.desync ≡ false
      → (run calls c).1.seq ≡ (c.seq + length calls) % 256
  unfolding run
  run-seq [] c f s h = omega arith
  run-seq ((cmd, cap) ∷ calls) c f s h =
      let (next, _) =
        exchange-seq c cmd cap f.0 (run-desync_before calls (exchange t cmd cap c).1 h) in
      run-seq calls (exchange t cmd cap c).1 f.1 (omega arith) h ∙ omega arith
