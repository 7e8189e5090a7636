-- ===== src/Piv/Examples.antt =====
-- The theorems on PIV at concrete inputs.
use wolf_p.Prelude.{
  ℕ, ◌+◌, ◌-◌, ◌≤◌, ◌≡◌, refl, some, List, [], ◌∷◌, ◌++◌, length, take, drop, arith, ok, bind, inl,
  ap,
}
use wolf_p.Ccid.{exchange}
use wolf_p.Ccid.Frames.{data_block}
use wolf_p.Card.{send, send_retry}
use wolf_p.Card.Canned.{canned, with_replies}
use wolf_p.Piv.Tlv.{ber_len_encode, ber_len_decode}
use wolf_p.Piv.Tlv.Laws.{tlv}
use wolf_p.Piv.Apdu.{piv_card, piv_get_sw}
use wolf_p.Piv.Auth.{sign, tag_challenge, tag_exponent}
use wolf_p.Piv.Auth.Laws.{template}
use wolf_p.Piv.Auth.Reply.{dat_reply, auth_bytes, sign_answered, sign_sound}
use wolf_p.Piv.Select.{select, aid, check_fci, scan_start, scan, scan_step, scan_result}
use wolf_p.Piv.Select.Laws.{HasAid, select_sound}
use wolf_p.Piv.Keygen.{find_pubkey, copy_pubkey, room}
use wolf_p.Piv.Keygen.Laws.{pubkey_reply, pubkey_reply_read}

abbrev digest : List ℕ
digest = 1 ∷ 2 ∷ 3 ∷ []

abbrev answer : List ℕ
answer = 9 ∷ 8 ∷ 7 ∷ []

abbrev answer_reply : List ℕ
unfolding dat_reply tlv ber_len_encode
answer_reply = dat_reply answer []

sent :
    send_retry canned piv_card
      (auth_bytes tag_challenge 0x9C 0x11 digest)
      (with_replies 0 (answer_reply ∷ []))
    ≡ (ok (dat_reply answer []), with_replies 1 [])
unfolding send_retry send exchange data_block template tlv dat_reply answer_reply canned piv_get_sw
sent = refl

sign_answered_example :
    sign canned (some (with_replies 0 (answer_reply ∷ []))) 0x9C 0x11 (some digest) (some 64)
    ≡ (ok answer, some (with_replies 1 []))
unfolding tlv ber_len_encode
sign_answered_example =
    sign_answered canned 0x9C 0x11 64 digest answer [] (with_replies 0 (answer_reply ∷ []))
      (with_replies 1 []) (omega arith) (omega arith) (omega arith) sent

agreed :
    send_retry canned piv_card
      (auth_bytes tag_exponent 0x9D 0x11 digest)
      (with_replies 0 (answer_reply ∷ []))
    ≡ (ok (dat_reply answer []), with_replies 1 [])
unfolding send_retry send exchange data_block template tlv dat_reply answer_reply canned piv_get_sw
agreed = refl

sign_answered_run :
    sign canned (some (with_replies 0 (answer_reply ∷ []))) 0x9C 0x11 (some digest) (some 64)
    ≡ (ok answer, some (with_replies 1 []))
unfolding tlv ber_len_encode
sign_answered_run =
    sign_answered canned 0x9C 0x11 64 digest answer [] (with_replies 0 (answer_reply ∷ []))
      (with_replies 1 []) (omega arith) (omega arith) (omega arith) sent

sign_sound_example :
    (resp : List ℕ) × (j : ℕ) × ((send_retry canned piv_card
        (auth_bytes tag_challenge 0x9C 0x11 digest)
        (with_replies 0 (answer_reply ∷ []))).0
      ≡ ok resp)
    × (piv_get_sw resp ≡ (0x90, 0x00))
    × (answer ≡ take 3 (drop j resp))
    × (j + 3 ≤ length resp - 2)
    × (3 ≤ 64)
unfolding tlv ber_len_encode
sign_sound_example =
    sign_sound canned 0x9C 0x11 64 digest answer (with_replies 0 (answer_reply ∷ []))
      (ap (λ r. r.0) sign_answered_run)

-- An answer to SELECT with the PIV identifier.
abbrev fci : List ℕ
fci = 0x6F ∷ 13 ∷ 0x84 ∷ 11 ∷ aid ++ (0x90 ∷ 0 ∷ [])

select_sound_example : HasAid fci 15 × (piv_get_sw fci ≡ (0x90, 0x00))
unfolding send exchange data_block canned select check_fci scan_start scan scan_step scan_result
    piv_get_sw ber_len_decode
select_sound_example =
    select_sound canned (with_replies 0 (fci ∷ [])) fci refl (omega arith) (inl refl) refl

abbrev pin : List ℕ
pin = 0x31 ∷ 0x32 ∷ 0x33 ∷ 0x34 ∷ []

abbrev wrong_pin : ℕ
wrong_pin = 0x63

abbrev two_left : ℕ
two_left = 0xC2

-- An outer length of 0 is taken for a key of three bytes.
pubkey_reply_read_example :
    bind
      (find_pubkey (pubkey_reply 0 0x86 answer []))
      (copy_pubkey (room 65) (pubkey_reply 0 0x86 answer []))
    ≡ ok answer
unfolding ber_len_encode
pubkey_reply_read_example =
    pubkey_reply_read 0 0x86 65 answer [] (omega arith) (omega arith) (omega arith) (omega arith)
