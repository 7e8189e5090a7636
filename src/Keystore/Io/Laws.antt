-- ===== src/Keystore/Io/Laws.antt =====
-- read_all and write_all of src/wp11_keystore.c with a system that goes on.
use wolf_p.Prelude.{
  ℕ, suc, ◌-◌, ◌≡◌, refl, sym, ap, ◌∙◌, Option, none, some, List, [], ◌∷◌, ◌++◌, length,
  length-append, take, drop, take-append-drop, arith, Result, ok,
}
use mathlib.Core.List.{append_assoc, append-nil}
use wolf_p.Keystore.Io.{
  Exit, ReadRet, got, read_interrupted, read_all, SysRet, value, interrupted, failed, Disk, World,
  write_from, write_all, system_call, best_effort, with_code, clean_up, write_temp, publish, save,
}

-- Answers to `read` that deliver some bytes, in pieces and with interruptions.
pub data Delivers : List ReadRet → List ℕ → Type 0 where
  delivered : {answers : List ReadRet} → Delivers answers []
  delayed :
      {answers : List ReadRet} {bytes : List ℕ}
      → Delivers answers bytes
      → Delivers (read_interrupted ∷ answers) bytes
  piece :
      {answers : List ReadRet} {bytes : List ℕ} (b : ℕ) (bs : List ℕ)
      → Delivers answers bytes
      → Delivers (got (b ∷ bs) ∷ answers) ((b ∷ bs) ++ bytes)

-- read_all ends with exactly the bytes that the system delivers, in whatever pieces they come and
-- however often it is interrupted.
pub read_all-Delivers :
    {answers : List ReadRet} {bytes : List ℕ}
    → Delivers answers bytes
    → read_all (length bytes) answers ≡ ok bytes
unfolding read_all
read_all-Delivers delivered = refl
read_all-Delivers (delayed {bytes = []} d) = refl
read_all-Delivers (delayed {bytes = b ∷ bs} d) = read_all-Delivers d
read_all-Delivers (piece {bytes = bytes} b bs d) =
    let count : length (bs ++ bytes) - length bs ≡ length bytes =
      omega (arith, length-append bs bytes) in
    ground (arith, count, read_all-Delivers d)

-- Answers to `write` that take some bytes, in pieces and with interruptions, and the answers behind.
pub data Takes : List SysRet → List ℕ → List SysRet → Type 0 where
  taken : {answers : List SysRet} → Takes answers [] answers
  put_off :
      {answers behind : List SysRet} {b : ℕ} {bs : List ℕ}
      → Takes answers (b ∷ bs) behind
      → Takes (interrupted ∷ answers) (b ∷ bs) behind
  part :
      {answers behind : List SysRet} (n b : ℕ) (bs : List ℕ)
      → Takes answers (drop n bs) behind
      → Takes (value (suc n) ∷ answers) (b ∷ bs) behind

-- A success that leaves these answers and contents.
abbrev wrote : List SysRet → Option (List ℕ) → List ℕ → Result Exit (Unit {0}) × World
wrote answers target temp =
    (ok tt, record { answers = answers; disk = record { target = target; temp = some temp } })

-- The whole of the bytes goes behind what the file holds.
write_from-Takes :
    {answers behind : List SysRet} {bytes : List ℕ} (target : Option (List ℕ)) (before : List ℕ)
    → Takes answers bytes behind
    → write_from bytes answers (record { target = target; temp = some before })
      ≡ wrote behind target (before ++ bytes)
unfolding write_from
write_from-Takes target before (taken {answers = answers}) =
    ap (wrote answers target) (sym (append-nil before))
write_from-Takes target before (put_off t) = write_from-Takes target before t
write_from-Takes target before (part {behind = behind} n b bs t) =
    let whole : (before ++ (b ∷ take n bs)) ++ drop n bs ≡ before ++ (b ∷ bs) =
      append_assoc before (b ∷ take n bs) (drop n bs)
      ∙ ap (λ x. before ++ (b ∷ x)) (take-append-drop n bs) in
    write_from-Takes target (before ++ (b ∷ take n bs)) t ∙ ap (wrote behind target) whole

-- If the system opens the temporary file, takes the three parts in whatever pieces, syncs and
-- renames, a save succeeds, and the keystore's path holds the parts joined.
pub save-Takes :
    {a b c behind : List SysRet} (hdr ct tag : List ℕ) (d : Disk) (opened synced renamed : ℕ)
    (closed : SysRet)
    → Takes a hdr b
    → Takes b ct c
    → Takes c tag (value synced ∷ closed ∷ value renamed ∷ behind)
    → save hdr ct tag (record { answers = value opened ∷ a; disk = d }) ≡ (
      ok tt,
      record {
        answers = behind;
        disk = record { target = some (hdr ++ (ct ++ tag)); temp = none };
      },
    )
unfolding save write_temp publish clean_up with_code system_call best_effort write_all
save-Takes hdr ct tag d opened synced renamed (value n) ha hb hc = ground (
  arith,
  write_from-Takes d.target [] ha,
  write_from-Takes d.target hdr hb,
  write_from-Takes d.target (hdr ++ ct) hc,
  append_assoc hdr ct tag,
)
save-Takes hdr ct tag d opened synced renamed interrupted ha hb hc = ground (
  arith,
  write_from-Takes d.target [] ha,
  write_from-Takes d.target hdr hb,
  write_from-Takes d.target (hdr ++ ct) hc,
  append_assoc hdr ct tag,
)
save-Takes hdr ct tag d opened synced renamed failed ha hb hc = ground (
  arith,
  write_from-Takes d.target [] ha,
  write_from-Takes d.target hdr hb,
  write_from-Takes d.target (hdr ++ ct) hc,
  append_assoc hdr ct tag,
)
