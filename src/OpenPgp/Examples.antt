-- ===== src/OpenPgp/Examples.antt =====
-- The theorems on the OpenPGP card at concrete inputs.
use wolf_p.Prelude.{ℕ, ◌≡◌, ◌≤◌, ◌↔◌, some, List, [], ◌∷◌, ◌++◌, length, arith, ok}
use wolf_p.Card.{send_retry}
use wolf_p.Card.Canned.{canned, with_replies}
use wolf_p.OpenPgp.{pgp_card, sign, sign_cmd}
use wolf_p.OpenPgp.Laws.{pgp_sign_iff}

abbrev hash : List ℕ
hash = 1 ∷ 2 ∷ 3 ∷ []

abbrev signature : List ℕ
signature = 9 ∷ 8 ∷ []

-- The card corrects Le first.
abbrev replies : List (List ℕ)
replies = (0x6C ∷ 2 ∷ []) ∷ (signature ++ (0x90 ∷ 0 ∷ [])) ∷ []

pgp_sign_iff_example :
    (sign canned (some (with_replies 0 replies)) (some hash) (some 64)
      ≡ (ok signature, some (with_replies 2 [])))
    ↔ ((send_retry canned pgp_card (sign_cmd hash) (with_replies 0 replies)
          ≡ (ok (signature ++ (0x90 ∷ 0x00 ∷ [])), with_replies 2 []))
        × (length signature ≤ 64))
pgp_sign_iff_example =
    pgp_sign_iff canned (with_replies 0 replies) (with_replies 2 []) hash signature 64 (omega arith)
      (omega arith)

abbrev wrong_pw : ℕ
wrong_pw = 0x63

abbrev zero_left : ℕ
zero_left = 0xC0
