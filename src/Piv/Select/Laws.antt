-- ===== src/Piv/Select/Laws.antt =====
-- The applet check of wp11_piv_select in src/wp11_proto_piv.c.
use wolf_p.Prelude.{
  ℕ, zero, suc, ◌+◌, ◌-◌, ◌≤◌, ◌<◌, ◌≡◌, ◌≢◌, refl, true, Bool-cases, Option, none, some, List, [],
  ◌∷◌, length, get_or, take, drop, arith, Result-cases, ok, err, ◌⊎◌, inl, inr, Option-cases, leb,
}
use wolf_p.Ccid.{Transport, Ctx}
use wolf_p.Card.{send}
use wolf_p.Piv.Tlv.{ber_len_decode}
use wolf_p.Piv.Apdu.{piv_card, piv_get_sw}
use wolf_p.Piv.Select.{
  aid, aid_len, select_cmd, same_bytes, found, scan_step, scan, scan_start, check_fci, select,
}

same_bytes-eq : (xs ys : List ℕ) → same_bytes xs ys ≡ true → xs ≡ ys
same_bytes-eq [] [] e = refl
same_bytes-eq [] (y ∷ ys) e = cc
same_bytes-eq (x ∷ xs) [] e = cc
same_bytes-eq (x ∷ xs) (y ∷ ys) e = ground (arith, same_bytes-eq xs ys)

-- The element 84 with the PIV application's identifier lies in the first `n` bytes.
abbrev pub HasAid : List ℕ → ℕ → Type 0
HasAid resp n =
    (q p : ℕ) × (get_or resp q 0 ≡ 0x84)
    × (q < p)
    × (take aid_len (drop p resp) ≡ aid)
    × (p + aid_len ≤ n)

scan_step_moves : (resp : List ℕ) (n pos pos' : ℕ) → scan_step resp n pos ≡ ok pos' → pos < pos'
unfolding scan_step
scan_step_moves resp n pos pos' e =
    elim (Option-cases (ber_len_decode (drop (pos + 1) resp) (n - (pos + 1)))) [
      | inl fails ↦ ground arith
      | inr ((v, k), reads) ↦ ground arith
    ]

scan_step_found : (resp : List ℕ) (n pos : ℕ) → scan_step resp n pos ≡ err found → HasAid resp n
unfolding scan_step
scan_step_found resp n pos e =
    elim (Option-cases (ber_len_decode (drop (pos + 1) resp) (n - (pos + 1)))) [
      | inl fails ↦ absurd (ground arith)
      | inr ((v, k), reads) ↦ (
        pos,
        pos + 1 + k,
        ground arith,
        omega arith,
        same_bytes-eq (take aid_len (drop (pos + 1 + k) resp)) aid (ground arith),
        ground arith,
      )
    ]

-- A round for each byte is enough for the scan to end.
pub scan-ne-none :
    (fuel : ℕ) (resp : List ℕ) (n pos : ℕ) → n < fuel + pos → 0 < fuel → scan fuel resp n pos ≢ none
unfolding scan
scan-ne-none zero resp n pos h k = absurd (omega arith)
scan-ne-none (suc fuel) resp n pos h k = elim (Bool-cases (leb (pos + 1) n)) [
  | inr stop ↦ ground arith
  | inl go ↦ elim (Result-cases (scan_step resp n pos)) [
    | inr (s, ends) ↦ ground arith
    | inl (pos', on) ↦
        let moves = scan_step_moves resp n pos pos' on in
        let rest = scan-ne-none fuel resp n pos' (omega arith) in ground arith
  ]
]

scan_found :
    (fuel : ℕ) (resp : List ℕ) (n pos : ℕ) → scan fuel resp n pos ≡ some found → HasAid resp n
unfolding scan
scan_found zero resp n pos e = absurd (ground arith)
scan_found (suc fuel) resp n pos e = elim (Bool-cases (leb (pos + 1) n)) [
  | inr stop ↦ absurd (ground arith)
  | inl go ↦ elim (Result-cases (scan_step resp n pos)) [
    | inr (s, ends) ↦ scan_step_found resp n pos (ground arith)
    | inl (pos', on) ↦ scan_found fuel resp n pos' (ground arith)
  ]
]

check_fci-ne-none : (resp : List ℕ) → check_fci resp ≢ none
unfolding check_fci
check_fci-ne-none resp =
    let n = length resp - 2 in ground (arith, scan-ne-none (suc n) resp n (scan_start resp n).1)

scan_start_fci :
    (resp : List ℕ) (n : ℕ)
    → (get_or resp 0 0 ≡ 0x6F) ⊎ (get_or resp 0 0 ≡ 0x61)
    → (scan_start resp n).0 ≡ true
unfolding scan_start
scan_start_fci resp n fci = ground arith

check_fci_sound :
    (resp : List ℕ)
    → 2 < length resp
    → (get_or resp 0 0 ≡ 0x6F) ⊎ (get_or resp 0 0 ≡ 0x61)
    → check_fci resp ≡ some (ok tt)
    → HasAid resp (length resp - 2)
unfolding check_fci
check_fci_sound resp long fci e =
    let n = length resp - 2 in
    let start : (scan_start resp n).0 ≡ true = scan_start_fci resp n fci in
    scan_found (suc n) resp n (scan_start resp n).1 (ground arith)

module _ {W : Type 0} (t : Transport W) where
  -- Selecting ends with a result for every card and context.
  pub select-ne-none : (ccid : Option (Ctx W)) → (select t ccid).0 ≢ none
  unfolding select
  select-ne-none none = ground arith
  select-ne-none (some c) = elim (Result-cases (send t piv_card select_cmd c).0) [
    | inr (bad, fails) ↦ ground arith
    | inl (resp, got) ↦ ground (arith, check_fci-ne-none resp)
  ]

  -- If the card's reply has more than a status word and begins with an FCI template, and the
  -- selection succeeds, then the reply contains tag 84 and, further on and before the status
  -- word, the PIV application's identifier, and its status word is 90 00.
  pub select_sound :
      (c : Ctx W) (resp : List ℕ)
      → (send t piv_card select_cmd c).0 ≡ ok resp
      → 2 < length resp
      → (get_or resp 0 0 ≡ 0x6F) ⊎ (get_or resp 0 0 ≡ 0x61)
      → (select t (some c)).0 ≡ some (ok tt)
      → HasAid resp (length resp - 2) × (piv_get_sw resp ≡ (0x90, 0x00))
  unfolding select
  select_sound c resp got long fci e =
      let checked : check_fci resp ≡ some (ok tt) = ground arith in
      (check_fci_sound resp long fci checked, ground arith)
