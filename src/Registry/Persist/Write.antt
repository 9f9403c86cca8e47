-- ===== src/Registry/Persist/Write.antt =====
-- internal/registry/persist.go: the system calls of `save`. What json.MarshalIndent gives and which
-- calls fail are arguments; a file that is not synced may hold anything after a crash.
use haigosmart.Base.{
  ℕ, ◌≡◌, List, [], ◌∷◌, Bool, true, false, Option, none, some, arith, take, if◌then◌else◌, ◌⊎◌,
  All, Result, ok, err,
}

pub record Written : Type 0 where
  pub content : List ℕ
  pub synced : Bool

-- The registry's path, and the temporary file in its directory.
pub record Disk : Type 0 where
  pub target : Option Written
  pub temporary : Option Written

pub data Call : Type 0 where
  mkdir_all create_temp write sync close rename remove : Call

pub data SaveError : Type 0 where
  encoding creating_directory creating_temporary writing_temporary : SaveError
  syncing_temporary closing_temporary replacing : SaveError

abbrev pub with_temp : Disk → List ℕ → Bool → Disk
with_temp d content synced = record d {
  temporary = some (record { content = content; synced = synced });
}

-- The deferred os.Remove, whose error is ignored.
abbrev pub removed : (Call → Bool) → Disk → Disk
removed fails d = if fails remove then d else record d { temporary = none }

-- The disks after the calls that change it, and the result. A failed write has written n bytes.
unfoldable pub save_file :
    (Call → Bool) → ℕ → Option (List ℕ) → Disk → List Disk × Result SaveError (Unit {0})
save_file fails n none d = ([], err encoding)
save_file fails n (some bytes) d =
    let created = with_temp d [] false in
    let partial = with_temp d (take n bytes) false in
    let full = with_temp d bytes false in
    let durable = with_temp d bytes true in
    if fails mkdir_all
    then ([], err creating_directory)
    else if fails create_temp
    then ([], err creating_temporary)
    else if fails write
    then (created ∷ partial ∷ removed fails partial ∷ [], err writing_temporary)
    else if fails sync
    then (created ∷ full ∷ removed fails full ∷ [], err syncing_temporary)
    else if fails close
    then (created ∷ full ∷ durable ∷ removed fails durable ∷ [], err closing_temporary)
    else if fails rename
    then (created ∷ full ∷ durable ∷ removed fails durable ∷ [], err replacing)
    else (
      created ∷ full ∷ durable ∷ record { target = durable.temporary; temporary = none } ∷ [],
      ok tt,
    )

-- The disk after all the calls.
abbrev pub last_disk : Disk → List Disk → Disk
last_disk d [] = d
last_disk d (e ∷ es) = last_disk e es

-- The registry's path holds what it held, or all of the new file, synced.
abbrev pub IsWhole : Disk → List ℕ → Disk → Type 0
IsWhole d bytes e =
    (e.target ≡ d.target) ⊎ (e.target ≡ some (record { content = bytes; synced = true }))

abbrev pub Outcome : Disk → List ℕ → Disk → Result SaveError (Unit {0}) → Type 0
Outcome d bytes e (ok u) = e.target ≡ some (record { content = bytes; synced = true })
Outcome d bytes e (err reason) = e.target ≡ d.target

-- Whichever calls fail, and wherever a crash stops it, a save leaves at the registry's path either
-- what was there or all of the new file, synced; it is the new file exactly if save returns no error.
pub save_file-IsWhole :
    (fails : Call → Bool) (n : ℕ) (bytes : List ℕ) (d : Disk)
    → All (IsWhole d bytes) (save_file fails n (some bytes) d).0
      × Outcome d bytes
          (last_disk d (save_file fails n (some bytes) d).0)
          (save_file fails n (some bytes) d).1
unfolding save_file
save_file-IsWhole fails n bytes d = ground arith
