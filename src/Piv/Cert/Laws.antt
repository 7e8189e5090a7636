-- ===== src/Piv/Cert/Laws.antt =====
-- GET RESPONSE chaining in src/wp11_proto_piv.c: its end and its buffer.
use wolf_p.Prelude.{
  ℕ, zero, suc, ◌+◌, ◌-◌, ◌≤◌, ◌<◌, ◌≡◌, ◌≢◌, Bool, Option, none, some, List, length, length-append,
  length-take, arith, Result-cases, ok, ◌⊎◌, inl, inr, Option-cases,
}
use wolf_p.Ccid.{Transport, Ctx}
use wolf_p.Card.{send}
use wolf_p.Piv.Apdu.{piv_card, piv_get_sw, body}
use wolf_p.Piv.Cert.{
  cert_max_len, first_chunk, next_chunk, chain, read_object, get_cert, attest, get_response_cmd,
  cert_tag, get_data_cmd, attest_cmd,
}

length-body : (chunk : List ℕ) → length (body chunk) ≡ length chunk - 2
length-body chunk = omega (arith, length-take (length chunk - 2) chunk)

first_chunk_fits :
    (chunk accum : List ℕ) → first_chunk chunk ≡ ok accum → length accum ≤ cert_max_len
unfolding first_chunk
first_chunk_fits chunk accum e = ground (arith, length-body chunk)

-- An accepted chunk fits the buffer, and one that announces more is not empty.
next_chunk_grows :
    (accum chunk accum' : List ℕ)
    → next_chunk accum chunk ≡ ok accum'
    → (length accum' ≤ cert_max_len)
      × (((piv_get_sw chunk).0 ≢ 0x61) ⊎ (length accum < length accum'))
unfolding next_chunk
next_chunk_grows accum chunk accum' e = (
  ground (arith, length-append accum (body chunk), length-body chunk),
  ground (arith, length-append accum (body chunk), length-body chunk),
)

module _ {W : Type 0} (t : Transport W) where
  chain_stops :
      (fuel : ℕ) (accum : List ℕ) (last : ℕ × ℕ) (c : Ctx W)
      → 0 < fuel
      → last.0 ≢ 0x61
      → (chain t fuel accum last c).0 ≢ none
  unfolding chain
  chain_stops zero accum last c h n = absurd (omega arith)
  chain_stops (suc fuel) accum last c h n = ground arith

  -- With fuel for the room left in the buffer the chain ends, whatever the card answers.
  pub chain-ne-none :
      (fuel : ℕ) (accum : List ℕ) (last : ℕ × ℕ) (c : Ctx W)
      → cert_max_len + 1 < fuel + length accum
      → length accum ≤ cert_max_len
      → (chain t fuel accum last c).0 ≢ none
  unfolding chain
  chain-ne-none zero accum last c h k = absurd (omega arith)
  chain-ne-none (suc fuel) accum last c h k =
      elim (Result-cases (send t piv_card get_response_cmd c).0) [
        | inr (bad, fails) ↦ ground arith
        | inl (chunk, got) ↦ elim (Result-cases (next_chunk accum chunk)) [
          | inr (bad, refused) ↦ ground arith
          | inl (accum', taken) ↦
              let c' = (send t piv_card get_response_cmd c).1 in
              let (fits, grows) = next_chunk_grows accum chunk accum' taken in
              let rest : (chain t fuel accum' (piv_get_sw chunk) c').0 ≢ none = elim grows [
                | inl last_one ↦
                    chain_stops fuel accum' (piv_get_sw chunk) c' (omega arith) last_one
                | inr more ↦ chain-ne-none fuel accum' (piv_get_sw chunk) c' (omega arith) fits
              ] in
              ground arith
        ]
      ]

  read_object-ne-none : (cmd : List ℕ) (c : Ctx W) → (read_object t cmd c).0 ≢ none
  unfolding read_object
  read_object-ne-none cmd c = elim (Result-cases (send t piv_card cmd c).0) [
    | inr (bad, fails) ↦ ground arith
    | inl (chunk, got) ↦ elim (Result-cases (first_chunk chunk)) [
      | inr (bad, refused) ↦ ground arith
      | inl (accum, taken) ↦
          let c' = (send t piv_card cmd c).1 in
          let fits = first_chunk_fits chunk accum taken in
          let rest =
            chain-ne-none (cert_max_len + 2) accum (piv_get_sw chunk) c' (omega arith) fits in
          ground arith
    ]
  ]

  -- Reading a certificate and reading an attestation both end with a result, for every card,
  -- context, slot and buffer, whether or not there is memory: the loops cannot run for ever.
  pub reading_ends :
      (room : Bool) (ccid : Option (Ctx W)) (slot : ℕ) (cap : Option ℕ)
      → ((get_cert t room ccid slot cap).0 ≢ none) × ((attest t room ccid slot cap).0 ≢ none)
  unfolding get_cert attest
  reading_ends room ccid slot none = (ground arith, ground arith)
  reading_ends room none slot (some cap) = (ground arith, ground arith)
  reading_ends room (some c) slot (some cap) = (
    elim (Option-cases (cert_tag slot)) [
      | inl unknown ↦ ground arith
      | inr (tag, known) ↦ ground (arith, read_object-ne-none (get_data_cmd tag) c)
    ],
    ground (arith, read_object-ne-none (attest_cmd slot) c),
  )

  length-chain :
      (fuel : ℕ) (accum obj : List ℕ) (last : ℕ × ℕ) (c : Ctx W)
      → length accum ≤ cert_max_len
      → (chain t fuel accum last c).0 ≡ some (ok obj)
      → length obj ≤ cert_max_len
  unfolding chain
  length-chain zero accum obj last c h e = absurd (ground arith)
  length-chain (suc fuel) accum obj last c h e =
      elim (Result-cases (send t piv_card get_response_cmd c).0) [
        | inr (bad, fails) ↦ ground arith
        | inl (chunk, got) ↦ elim (Result-cases (next_chunk accum chunk)) [
          | inr (bad, refused) ↦ ground arith
          | inl (accum', taken) ↦
              let c' = (send t piv_card get_response_cmd c).1 in
              ground (
                arith,
                (next_chunk_grows accum chunk accum' taken).0,
                length-chain fuel accum' obj (piv_get_sw chunk) c',
              )
        ]
      ]

  -- The buffer of 4096 bytes is never overrun: an object that is read is at most that long.
  pub length-read_object :
      (cmd obj : List ℕ) (c : Ctx W)
      → (read_object t cmd c).0 ≡ some (ok obj)
      → length obj ≤ cert_max_len
  unfolding read_object
  length-read_object cmd obj c e = elim (Result-cases (send t piv_card cmd c).0) [
    | inr (bad, fails) ↦ ground arith
    | inl (chunk, got) ↦ elim (Result-cases (first_chunk chunk)) [
      | inr (bad, refused) ↦ ground arith
      | inl (accum, taken) ↦
          let c' = (send t piv_card cmd c).1 in
          let fits = first_chunk_fits chunk accum taken in
          ground (arith, length-chain (cert_max_len + 2) accum obj (piv_get_sw chunk) c' fits)
    ]
  ]
