-- ===== src/Keystore/Io/Atomic.antt =====
-- What a save of src/wp11_keystore.c leaves wherever it stops.
use wolf_p.Prelude.{
  ℕ, zero, suc, ◌≡◌, refl, sym, ap, ◌∙◌, Option, some, List, [], ◌∷◌, ◌++◌, take, drop,
  take-append-drop, arith, Result, ok, err, Call, then_do, ◌>>=◌, lift, ◌≢◌, ◌⊎◌, inl, inr, subst,
}
use mathlib.Core.List.{append_assoc, append-nil}
use wolf_p.Keystore.{KsErr, io}
use wolf_p.Keystore.Io.{
  Exit, killed, returns, SysRet, value, interrupted, failed, Disk, World, write_from, write_all,
  system_call, best_effort, no_change, rename_temp, unlink_temp, with_code, clean_up, write_temp,
  publish, save,
}

-- However a write ends, it leaves the keystore's path alone; after a success the file has grown by
-- the bytes.
record Grown (target : Option (List ℕ)) (temp : List ℕ) (out : Result Exit (Unit {0}) × World)
    : Type 0 where
  kept : out.1.disk.target ≡ target
  grown : out.0 ≡ ok tt → out.1.disk.temp ≡ some temp

write_from-Grown :
    (bytes : List ℕ) (answers : List SysRet) (target : Option (List ℕ)) (before : List ℕ)
    → Grown target
        (before ++ bytes)
        (write_from bytes answers (record { target = target; temp = some before }))
unfolding write_from
write_from-Grown [] answers target before = record {
  kept = refl;
  grown = λ e. ap some (sym (append-nil before));
}
write_from-Grown (b ∷ bs) [] target before = record {
  kept = refl;
  grown = λ e. absurd (ground arith);
}
write_from-Grown (b ∷ bs) (interrupted ∷ answers) target before =
    write_from-Grown (b ∷ bs) answers target before
write_from-Grown (b ∷ bs) (failed ∷ answers) target before = record {
  kept = refl;
  grown = λ e. absurd (ground arith);
}
write_from-Grown (b ∷ bs) (value zero ∷ answers) target before = record {
  kept = refl;
  grown = λ e. absurd (ground arith);
}
write_from-Grown (b ∷ bs) (value (suc n) ∷ answers) target before =
    let whole : (before ++ (b ∷ take n bs)) ++ drop n bs ≡ before ++ (b ∷ bs) =
      append_assoc before (b ∷ take n bs) (drop n bs)
      ∙ ap (λ x. before ++ (b ∷ x)) (take-append-drop n bs) in
    subst
      (λ t. Grown target t (
        write_from (drop n bs) answers
          (record { target = target; temp = some (before ++ (b ∷ take n bs)) })))
      whole (write_from-Grown (drop n bs) answers target (before ++ (b ∷ take n bs)))

abbrev Adds : List ℕ → Call World Exit (Unit {0}) → Type 0
Adds bytes m =
    (answers : List SysRet) (target : Option (List ℕ)) (t : List ℕ)
    → Grown target (t ++ bytes)
        (m (record { answers = answers; disk = record { target = target; temp = some t } }))

write_all-Adds : (bytes : List ℕ) → Adds bytes (write_all bytes)
unfolding write_all
write_all-Adds bytes answers target t = write_from-Grown bytes answers target t

sync-Adds : Adds [] (system_call no_change)
unfolding system_call
sync-Adds [] target t = record { kept = refl; grown = λ e. absurd (ground arith) }
sync-Adds (value n ∷ answers) target t = record {
  kept = refl;
  grown = λ e. ap some (sym (append-nil t));
}
sync-Adds (interrupted ∷ answers) target t = record {
  kept = refl;
  grown = λ e. absurd (ground arith);
}
sync-Adds (failed ∷ answers) target t = record { kept = refl; grown = λ e. absurd (ground arith) }

-- One call behind another.
then-Adds :
    (a b : List ℕ) (m n : Call World Exit (Unit {0}))
    → Adds a m
    → Adds b n
    → Adds (a ++ b) (m >>= (λ u. n))
then-Adds a b m n h k answers target t =
    behind (m (record { answers = answers; disk = record { target = target; temp = some t } }))
      (h answers target t)
  where
    behind :
        (r : Result Exit (Unit {0}) × World)
        → Grown target (t ++ a) r
        → Grown target (t ++ (a ++ b)) (then_do r (λ u. n))
    behind (err e, w) g = record { kept = g.kept; grown = λ x. absurd (ground arith) }
    behind (ok u, w) g =
        let disk : record { target = target; temp = some (t ++ a) } ≡ w.disk =
          ground (arith, g.kept, g.grown refl) in
        subst (λ d. Grown target (t ++ (a ++ b)) (n (record { answers = w.answers; disk = d })))
          disk
          (subst
            (λ x. Grown target x (
              n (record {
                answers = w.answers;
                disk = record { target = target; temp = some (t ++ a) };
              })))
            (append_assoc t a b) (k w.answers target (t ++ a)))

write_temp-Adds : (hdr ct tag : List ℕ) → Adds (hdr ++ (ct ++ (tag ++ []))) (write_temp hdr ct tag)
unfolding write_temp
write_temp-Adds hdr ct tag =
    then-Adds hdr (ct ++ (tag ++ [])) (write_all hdr) _ (write_all-Adds hdr) (
      then-Adds ct (tag ++ []) (write_all ct) _ (write_all-Adds ct)
        (then-Adds tag [] (write_all tag) _ (write_all-Adds tag) sync-Adds))

-- A call whose answer is not looked at keeps the target if its change does.
best_effort_kept :
    (change : Disk → Disk) (answers : List SysRet) (d : Disk)
    → ((e : Disk) → (change e).target ≡ e.target)
    → (best_effort change (record { answers = answers; disk = d })).1.disk.target ≡ d.target
unfolding best_effort
best_effort_kept change [] d h = refl
best_effort_kept change (value n ∷ answers) d h = h d
best_effort_kept change (interrupted ∷ answers) d h = refl
best_effort_kept change (failed ∷ answers) d h = refl

-- The cleanup of an error.
removing_kept :
    (w : World)
    → ((best_effort no_change >>= λ u. best_effort unlink_temp) w).1.disk.target ≡ w.disk.target
removing_kept w =
    behind (best_effort no_change w) (best_effort_kept no_change w.answers w.disk (λ e. refl))
  where
    behind :
        (r : Result Exit (Unit {0}) × World)
        → r.1.disk.target ≡ w.disk.target
        → (then_do r (λ u. best_effort unlink_temp)).1.disk.target ≡ w.disk.target
    behind (err e, w') h = h
    behind (ok u, w') h = best_effort_kept unlink_temp w'.answers w'.disk (λ e. refl) ∙ h

-- What an error and its cleanup leave.
with_code_kept :
    (code : KsErr) (r : Result Exit (Unit {0}) × World)
    → (with_code code r).1.disk.target ≡ r.1.disk.target
unfolding with_code
with_code_kept code (ok u, w) = refl
with_code_kept code (err e, w) = refl

with_code_fails : (code : KsErr) (r : Result Exit (Unit {0}) × World) → (with_code code r).0 ≢ ok tt
unfolding with_code
with_code_fails code (ok u, w) e = ground arith
with_code_fails code (err x, w) e = ground arith

clean_up_keeps :
    (target : Option (List ℕ)) (t : List ℕ) (r : Result Exit (Unit {0}) × World)
    → Grown target t r
    → Grown target t (clean_up (best_effort no_change) r)
unfolding clean_up
clean_up_keeps target t (ok u, w) g = g
clean_up_keeps target t (err killed, w) g = g
clean_up_keeps target t (err (returns code), w) g =
    let removed = (best_effort no_change >>= λ u. best_effort unlink_temp) w in
    record {
      kept = with_code_kept code removed ∙ removing_kept w ∙ g.kept;
      grown = λ e. absurd (with_code_fails code removed e);
    }

-- How a save may end.
abbrev Ends : Option (List ℕ) → List ℕ → Result Exit (Unit {0}) × World → Type 0
Ends target t r =
    ((r.0 ≢ ok tt) × (r.1.disk.target ≡ target)) ⊎ ((r.0 ≡ ok tt) × (r.1.disk.target ≡ some t))

unlinked-Ends :
    (code : KsErr) (answers : List SysRet) (target : Option (List ℕ)) (t : List ℕ)
    → Ends target t (
        with_code code (
          best_effort unlink_temp
            (record { answers = answers; disk = record { target = target; temp = some t } })))
unlinked-Ends code answers target t = inl (
  with_code_fails code _,
  with_code_kept code _
      ∙ best_effort_kept unlink_temp answers (record { target = target; temp = some t })
          (λ e. refl),
)

renamed-Ends :
    (answers : List SysRet) (target : Option (List ℕ)) (t : List ℕ)
    → Ends target t (
        clean_up (lift (ok tt)) (
          system_call rename_temp
            (record { answers = answers; disk = record { target = target; temp = some t } })))
unfolding clean_up system_call
renamed-Ends [] target t = inl (λ e. ground arith, refl)
renamed-Ends (value n ∷ answers) target t = inr (refl, refl)
renamed-Ends (interrupted ∷ answers) target t = unlinked-Ends io answers target t
renamed-Ends (failed ∷ answers) target t = unlinked-Ends io answers target t

publish-Ends :
    (answers : List SysRet) (target : Option (List ℕ)) (t : List ℕ)
    → Ends target t (
        clean_up (lift (ok tt)) (
          publish (record { answers = answers; disk = record { target = target; temp = some t } })))
unfolding publish best_effort clean_up
publish-Ends [] target t = inl (λ e. ground arith, refl)
publish-Ends (value n ∷ answers) target t = renamed-Ends answers target t
publish-Ends (interrupted ∷ answers) target t = renamed-Ends answers target t
publish-Ends (failed ∷ answers) target t = renamed-Ends answers target t

-- What follows the writing of the parts.
written-Ends :
    (target : Option (List ℕ)) (t : List ℕ) (r : Result Exit (Unit {0}) × World)
    → Grown target t r
    → Ends target t (then_do r (λ u w. clean_up (lift (ok tt)) (publish w)))
written-Ends target t (err e, w) g = inl (λ x. ground arith, g.kept)
written-Ends target t (ok u, w) g =
    let disk : record { target = target; temp = some t } ≡ w.disk =
      ground (arith, g.kept, g.grown refl) in
    subst
      (λ d.
        Ends target t
          (clean_up (lift (ok tt)) (publish (record { answers = w.answers; disk = d }))))
      disk (publish-Ends w.answers target t)

save-Ends :
    (hdr ct tag : List ℕ) (answers : List SysRet) (d : Disk)
    → Ends d.target (hdr ++ (ct ++ tag)) (save hdr ct tag (record { answers = answers; disk = d }))
unfolding save system_call
save-Ends hdr ct tag [] d = inl (λ e. ground arith, refl)
save-Ends hdr ct tag (interrupted ∷ answers) d = inl (λ e. ground arith, refl)
save-Ends hdr ct tag (failed ∷ answers) d = inl (λ e. ground arith, refl)
save-Ends hdr ct tag (value n ∷ answers) d =
    let start : World = record {
      answers = answers;
      disk = record { target = d.target; temp = some [] };
    } in
    let whole : hdr ++ (ct ++ (tag ++ [])) ≡ hdr ++ (ct ++ tag) =
      ap (λ x. hdr ++ (ct ++ x)) (append-nil tag) in
    subst
      (λ t. Ends d.target t (save hdr ct tag (record { answers = value n ∷ answers; disk = d })))
      whole
      (written-Ends d.target (hdr ++ (ct ++ (tag ++ [])))
        (clean_up (best_effort no_change) (write_temp hdr ct tag start))
        (clean_up_keeps d.target (hdr ++ (ct ++ (tag ++ []))) (write_temp hdr ct tag start)
          (write_temp-Adds hdr ct tag answers d.target [])))

-- Wherever a save fails or is killed, the keystore's path holds what it held; where it succeeds, the
-- path holds the three parts joined: never a part of the new file.
pub save_atomic :
    (hdr ct tag : List ℕ) (w : World)
    → (((save hdr ct tag w).0 ≢ ok tt) × ((save hdr ct tag w).1.disk.target ≡ w.disk.target))
      ⊎ (((save hdr ct tag w).0 ≡ ok tt)
          × ((save hdr ct tag w).1.disk.target ≡ some (hdr ++ (ct ++ tag))))
save_atomic hdr ct tag w = save-Ends hdr ct tag w.answers w.disk
