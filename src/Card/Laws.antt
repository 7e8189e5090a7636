-- ===== src/Card/Laws.antt =====
-- Bounds on the replies that the protocol code works with.
use wolf_p.Prelude.{ℕ, ◌≤◌, ◌≡◌, inl, inr, List, length, arith, Result-cases, ok}
use wolf_p.Ccid.{Transport, Ctx, exchange}
use wolf_p.Ccid.Frames.{length-exchange}
use wolf_p.Card.{Protocol, send}

module _ {W E : Type 0} (t : Transport W) (p : Protocol E) where
  -- A reply that is handed on has its status word and fits the buffer.
  pub length-send :
      (cmd : List ℕ) (c : Ctx W) (resp : List ℕ)
      → (send t p cmd c).0 ≡ ok resp
      → (2 ≤ length resp) × (length resp ≤ p.resp_max)
  unfolding send
  length-send cmd c resp e = elim (Result-cases (exchange t cmd p.resp_max c).0) [
    | inl (d, got) ↦ ground (arith, length-exchange t c cmd d p.resp_max got)
    | inr (f, got) ↦ absurd (ground arith)
  ]
