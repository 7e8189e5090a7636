-- ===== src/Piv/Cert/Examples.antt =====
-- The theorems on certificates at concrete inputs.
use wolf_p.Prelude.{ℕ, ◌≡◌, ◌≢◌, refl, true, none, some, List, [], ◌∷◌, ◌++◌, arith, ok}
use wolf_p.Ccid.{exchange}
use wolf_p.Ccid.Frames.{data_block}
use wolf_p.Card.{send}
use wolf_p.Card.Canned.{canned, with_replies}
use wolf_p.Piv.Tlv.{ber_len_encode}
use wolf_p.Piv.Tlv.Laws.{tlv}
use wolf_p.Piv.Apdu.{piv_card}
use wolf_p.Piv.Cert.{cert_tag, get_data_cmd, attest_cmd, get_cert, attest}
use wolf_p.Piv.Cert.Laws.{reading_ends}
use wolf_p.Piv.Cert.Chunks.{Serves, last_piece, piece, container, get_cert-Serves}

abbrev cert : List ℕ
cert = 1 ∷ 2 ∷ 3 ∷ []

-- Its container 53 05 70 03 01 02 03 in three replies.
abbrev first : List ℕ
first = 0x53 ∷ 5 ∷ 0x70 ∷ []

abbrev second : List ℕ
second = 3 ∷ 1 ∷ []

abbrev third : List ℕ
third = 2 ∷ 3 ∷ []

abbrev last_reply : List (List ℕ)
last_reply = (third ++ (0x90 ∷ 0 ∷ [])) ∷ []

abbrev next_replies : List (List ℕ)
next_replies = (second ++ (0x61 ∷ 2 ∷ [])) ∷ last_reply

abbrev replies : List (List ℕ)
replies = (first ++ (0x61 ∷ 4 ∷ [])) ∷ next_replies

abbrev auth_tag : List ℕ
auth_tag = 0x5F ∷ 0xC1 ∷ 0x05 ∷ []

first_sent :
    send canned piv_card (get_data_cmd auth_tag) (with_replies 0 replies)
    ≡ (ok (first ++ (0x61 ∷ 4 ∷ [])), with_replies 1 next_replies)
unfolding send exchange data_block canned
first_sent = refl

attest_sent :
    send canned piv_card (attest_cmd 0x9A) (with_replies 0 replies)
    ≡ (ok (first ++ (0x61 ∷ 4 ∷ [])), with_replies 1 next_replies)
unfolding send exchange data_block canned
attest_sent = refl

served : Serves canned (with_replies 1 next_replies) (second ∷ third ∷ []) (with_replies 3 [])
unfolding send exchange data_block canned
served = piece second 2 (omega arith) refl (last_piece third refl)

get_cert-Serves_example :
    get_cert canned true (some (with_replies 0 replies)) 0x9A (some 100)
    ≡ (some (ok cert), some (with_replies 3 []))
unfolding container tlv ber_len_encode cert_tag
get_cert-Serves_example =
    get_cert-Serves canned 0x9A 100 4 auth_tag first cert [] (with_replies 0 replies)
      (with_replies 1 next_replies) (with_replies 3 []) (second ∷ third ∷ []) refl first_sent served
      refl (omega arith) (omega arith)

reading_ends_example :
    ((get_cert canned true (some (with_replies 0 replies)) 0x9A (some 100)).0 ≢ none)
    × ((attest canned true (some (with_replies 0 replies)) 0x9A (some 100)).0 ≢ none)
reading_ends_example = reading_ends canned true (some (with_replies 0 replies)) 0x9A (some 100)
