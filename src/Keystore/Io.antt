-- ===== src/Keystore/Io.antt =====
-- The system calls of src/wp11_keystore.c: the loops read_all and write_all, and how
-- wp11_keystore_create replaces a file. What the system answers is a parameter, the list of the
-- answers in order; where the list ends, the process is killed.
pub mod Laws
pub mod Atomic
use wolf_p.Prelude.{
  ℕ, zero, suc, ◌-◌, Option, none, some, List, [], ◌∷◌, ◌++◌, length, take, drop, Result, ok, err,
  bind, Call, ◌>>=◌, lift,
}
use wolf_p.Keystore.{KsErr, io, truncated}

-- How a function comes to its end too early: the process is killed, or a code is returned.
pub data Exit : Type 0 where
  killed : Exit
  returns : KsErr → Exit

-- What `read` answers: bytes (none at the end of the file), EINTR or another error.
pub data ReadRet : Type 0 where
  got : List ℕ → ReadRet
  read_interrupted read_failed : ReadRet

-- `read_all` of `len` bytes.
unfoldable pub read_all : ℕ → List ReadRet → Result Exit (List ℕ)
read_all zero answers = ok []
read_all (suc n) [] = err killed
read_all (suc n) (read_interrupted ∷ answers) = read_all (suc n) answers
read_all (suc n) (read_failed ∷ answers) = err (returns io)
read_all (suc n) (got [] ∷ answers) = err (returns truncated)
read_all (suc n) (got (b ∷ bs) ∷ answers) =
    bind (read_all (n - length bs) answers) λ more. ok ((b ∷ bs) ++ more)

-- What another system call answers: its value, EINTR or another error.
pub data SysRet : Type 0 where
  value : ℕ → SysRet
  interrupted failed : SysRet

-- The contents of the two paths that a save touches, the keystore's and the one with ".tmp".
pub record Disk : Type 0 where
  pub target : Option (List ℕ)
  pub temp : Option (List ℕ)

pub record World : Type 0 where
  pub answers : List SysRet
  pub disk : Disk

abbrev pub append_temp : List ℕ → Disk → Disk
append_temp bytes d = elim d.temp [ none ↦ d | some t ↦ record d { temp = some (t ++ bytes) } ]

-- `write_all` on the temporary file.
unfoldable pub write_from : List ℕ → List SysRet → Disk → Result Exit (Unit {0}) × World
write_from [] answers d = (ok tt, record { answers = answers; disk = d })
write_from (b ∷ bs) [] d = (err killed, record { answers = []; disk = d })
write_from (b ∷ bs) (interrupted ∷ answers) d = write_from (b ∷ bs) answers d
write_from (b ∷ bs) (failed ∷ answers) d =
    (err (returns io), record { answers = answers; disk = d })
write_from (b ∷ bs) (value zero ∷ answers) d =
    (err (returns io), record { answers = answers; disk = d })
write_from (b ∷ bs) (value (suc n) ∷ answers) d =
    write_from (drop n bs) answers (append_temp (b ∷ take n bs) d)

unfoldable pub write_all : List ℕ → Call World Exit (Unit {0})
write_all bytes w = write_from bytes w.answers w.disk

-- A call that changes the disk if it succeeds.
unfoldable pub system_call : (Disk → Disk) → Call World Exit (Unit {0})
system_call change w = elim w.answers [
  | [] ↦ (err killed, w)
  | a ∷ more ↦ elim a [
    | value n ↦ (ok tt, record { answers = more; disk = change w.disk })
    | interrupted ↦ (err (returns io), record w { answers = more })
    | failed ↦ (err (returns io), record w { answers = more })
  ]
]

-- A call whose answer is not looked at.
unfoldable pub best_effort : (Disk → Disk) → Call World Exit (Unit {0})
best_effort change w = elim w.answers [
  | [] ↦ (err killed, w)
  | a ∷ more ↦ elim a [
    | value n ↦ (ok tt, record { answers = more; disk = change w.disk })
    | interrupted ↦ (ok tt, record w { answers = more })
    | failed ↦ (ok tt, record w { answers = more })
  ]
]

-- open with O_CREAT | O_TRUNC, the calls that leave both contents alone, rename, and unlink.
abbrev pub create_temp : Disk → Disk
create_temp d = record d { temp = some [] }

abbrev pub no_change : Disk → Disk
no_change d = d

abbrev pub rename_temp : Disk → Disk
rename_temp d = elim d.temp [ none ↦ d | some t ↦ record { target = some t; temp = none } ]

abbrev pub unlink_temp : Disk → Disk
unlink_temp d = record d { temp = none }

-- The `cleanup` of a save that failed, with the file open or not.
unfoldable pub with_code : KsErr → Result Exit (Unit {0}) × World → Result Exit (Unit {0}) × World
with_code code (ok u, w) = (err (returns code), w)
with_code code (err e, w) = (err e, w)

unfoldable pub clean_up :
    Call World Exit (Unit {0}) → Result Exit (Unit {0}) × World → Result Exit (Unit {0}) × World
clean_up closing (ok u, w) = (ok u, w)
clean_up closing (err killed, w) = (err killed, w)
clean_up closing (err (returns code), w) =
    with_code code ((closing >>= λ u. best_effort unlink_temp) w)

unfoldable pub write_temp : List ℕ → List ℕ → List ℕ → Call World Exit (Unit {0})
write_temp hdr ct tag = do
  u ← write_all hdr
  u ← write_all ct
  u ← write_all tag
  system_call no_change

-- The file is closed, then renamed.
unfoldable pub publish : Call World Exit (Unit {0})
publish = do u ← best_effort no_change; system_call rename_temp

-- The part of `wp11_keystore_create` that writes the file.
unfoldable pub save : List ℕ → List ℕ → List ℕ → Call World Exit (Unit {0})
save hdr ct tag = do
  u ← system_call create_temp
  u ← λ w. clean_up (best_effort no_change) (write_temp hdr ct tag w)
  λ w. clean_up (lift (ok tt)) (publish w)
