-- ===== src/Card/Canned.antt =====
-- A card with canned replies, for runs at concrete inputs.
use wolf_p.Prelude.{ℕ, true, false, none, some, List, [], ◌∷◌, get_or}
use wolf_p.Ccid.{Ctx, Transport, timed_out, put_u32le}
use wolf_p.Ccid.Frames.{data_block}

-- The mock callback answers with the next of the replies, in a good frame.
unfoldable pub canned : Transport (List (List ℕ))
unfolding data_block put_u32le
canned = record {
  mock = λ w out cap. elim w [
    | [] ↦ (none, [])
    | reply ∷ replies ↦ (some (data_block 0 (get_or out 6 0) 0 0 0 reply), replies)
  ];
  bulk_out = λ w out. (timed_out, w);
  bulk_in = λ w cap. (timed_out, [], w);
  clear_halt_out = λ w. w;
  clear_halt_in = λ w. w;
}

abbrev pub with_replies : ℕ → List (List ℕ) → Ctx (List (List ℕ))
with_replies seq replies = record { is_mock = true; seq = seq; desync = false; dev = replies }
