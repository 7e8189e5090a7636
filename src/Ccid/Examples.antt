-- ===== src/Ccid/Examples.antt =====
-- The theorems on CCID frames at concrete inputs.
use wolf_p.Prelude.{ℕ, ◌≡◌, refl, subst, true, false, some, List, [], ◌∷◌, ◌++◌, get_or, arith, ok}
use wolf_p.Ccid.{
  Ctx, Transport, success, timed_out, put_u32le, validate, build_frame, dispatch, exchange,
}
use wolf_p.Ccid.Frames.{data_block, AllBytes, validate-data_block, Accepts, exchange-Accepts}
use wolf_p.Ccid.Sync.{run, AllErr, exchange-desync, exchange-run}

-- A reader whose card answers every command by 90 00, and whose IN transfers time out.
abbrev reader : Transport (Unit {0})
unfolding data_block put_u32le
reader = record {
  mock = λ w out cap. (some (data_block 0 (get_or out 6 0) 0 0 0 (0x90 ∷ 0x00 ∷ [])), w);
  bulk_out = λ w out. (success, w);
  bulk_in = λ w cap. (timed_out, [], w);
  clear_halt_out = λ w. w;
  clear_halt_in = λ w. w;
}

abbrev mock_ctx : Ctx (Unit {0})
mock_ctx = record { is_mock = true; seq = 255; desync = false; dev = tt }

abbrev usb_ctx : Ctx (Unit {0})
usb_ctx = record { is_mock = false; seq = 7; desync = false; dev = tt }

abbrev stuck_ctx : Ctx (Unit {0})
stuck_ctx = record { is_mock = false; seq = 8; desync = true; dev = tt }

abbrev select_cmd : List ℕ
select_cmd = 0x00 ∷ 0xA4 ∷ 0x04 ∷ 0x00 ∷ []

abbrev calls : List (List ℕ × ℕ)
calls = (select_cmd, 512) ∷ (select_cmd, 512) ∷ []

abbrev reply_frame : List ℕ
unfolding data_block put_u32le
reply_frame = data_block 0 255 0 0 0 (0x90 ∷ 0x00 ∷ []) ++ []

validate-data_block_example :
    validate 255 512 (data_block 0 255 0 0 0 (0x90 ∷ 0x00 ∷ []) ++ []) ≡ ok (0x90 ∷ 0x00 ∷ [])
validate-data_block_example =
    validate-data_block 0 255 0 0 0 512 (0x90 ∷ 0x00 ∷ []) [] (omega arith) (omega arith)
      (omega arith)

reader_bytes :
    (frame : List ℕ)
    → (dispatch reader (build_frame 255 select_cmd) (record mock_ctx { seq = 0 })).0 ≡ ok frame
    → AllBytes frame
unfolding data_block put_u32le dispatch build_frame
reader_bytes frame e =
    let same : reply_frame ≡ frame = cc in
    let bytes : AllBytes reply_frame = omega arith in subst AllBytes same bytes

exchange-Accepts_example :
    (frame : List ℕ) × ((dispatch reader
        (build_frame 255 select_cmd)
        (record mock_ctx { seq = 0 })).0
      ≡ ok frame)
    × Accepts 255 512 frame (0x90 ∷ 0x00 ∷ [])
unfolding data_block put_u32le exchange dispatch
exchange-Accepts_example =
    exchange-Accepts reader mock_ctx select_cmd (0x90 ∷ 0x00 ∷ []) 512 reader_bytes refl

exchange-desync_example : (exchange reader select_cmd 512 usb_ctx).1.desync ≡ true
unfolding reader
exchange-desync_example = exchange-desync reader usb_ctx select_cmd 512 refl

exchange-run_example :
    AllErr (run reader ((select_cmd, 512) ∷ calls) usb_ctx).0
    × ((run reader ((select_cmd, 512) ∷ calls) usb_ctx).1 ≡ stuck_ctx)
unfolding reader
exchange-run_example =
    exchange-run reader usb_ctx select_cmd [] 512 timed_out tt tt calls (omega arith) refl refl refl
      refl refl
