-- ===== src/Cryptoki/Digest/Examples.antt =====
-- The theorem on digests at a concrete input.
use wolf_p.Prelude.{ℕ, ◌≡◌, refl, sym, true, some, List, [], ◌∷◌, replicate, arith, ok}
use mathlib.Core.List.{append-nil}
use wolf_p.Cryptoki.State.{zero_session, zero_key, zero_slot, Library, session_get}
use wolf_p.Cryptoki.Sign.{signature}
use wolf_p.Cryptoki.Digest.{
  mech_digest_output_size, knows_digest, digest_init, digest, digest_final,
}
use wolf_p.Cryptoki.Digest.Pieces.{joined, update_all, digest_final-digest}

abbrev library : Library
library = record {
  lock_ok = true;
  initialized = true;
  sessions = record zero_session { in_use = true } ∷ replicate 7 zero_session;
  slots = replicate 16 zero_slot;
  keys = replicate 64 zero_key;
}

-- The data joined stand for their digest.
unfoldable plain : ℕ → List (List ℕ) → List ℕ
plain mech pieces = joined pieces

plain_joins : (m : ℕ) (ps : List (List ℕ)) → plain m ps ≡ plain m (joined ps ∷ [])
unfolding plain joined
plain_joins m ps = sym (append-nil (joined ps))

-- CKM_SHA256.
abbrev mech : ℕ
mech = 0x250

abbrev two_pieces : List (List ℕ)
two_pieces = (1 ∷ 2 ∷ []) ∷ (3 ∷ []) ∷ []

digest_final-digest_example :
    ((digest_final plain 1 true
        (some 32)
        (update_all 1 two_pieces (digest_init 1 (some mech) library).1)).0
      ≡ (digest plain 1
          (some (joined two_pieces))
          true
          (some 32)
          (digest_init 1 (some mech) library).1).0)
    × ((digest plain 1
          (some (joined two_pieces))
          true
          (some 32)
          (digest_init 1 (some mech) library).1).0
        ≡ ok (signature (plain mech (joined two_pieces ∷ []))))
unfolding joined mech_digest_output_size digest_init knows_digest session_get
digest_final-digest_example =
    digest_final-digest plain library 1 mech 32 two_pieces plain_joins refl refl (omega arith)
      (omega arith)
