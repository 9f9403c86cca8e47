-- ===== src/Examples/Storage.antt =====
-- A registry with one bulb, saved.
use haigosmart.Base.{◌≡◌, refl, [], ◌∷◌, Bool, true, false, none, some, ok, arith, All}
use haigosmart.Base.Text.{Str, is_empty}
use haigosmart.Bulb.{Bulb}
use haigosmart.Registry.{Registry, find}
use haigosmart.Registry.Persist.{load, holds, file_of}
use haigosmart.Registry.Persist.Reload.{reloaded}
use haigosmart.Registry.Persist.Snapshot.{load-file_of}
use haigosmart.Registry.Persist.Store.{
  State, writing, opened, schedule, to_flush, flush, changes, fires, flushes, snapshots, saves,
  Orderly, start, next,
}
use haigosmart.Registry.Persist.Store.Settled.{settled}
use haigosmart.Registry.Persist.Store.Drained.{drained}
use haigosmart.Registry.Persist.Write.{
  Call, mkdir_all, create_temp, write, sync, close, rename, remove, Disk, save_file, IsWhole,
  Outcome, last_disk, save_file-IsWhole,
}
use haigosmart.Examples.Bulbs.{one_bulb, only, one_bulb-IsValid, one_bulb-NamesUnique}

named : (k : Str) (b : Bulb) → find one_bulb k ≡ some b → is_empty k ≡ false
unfolding is_empty
named k b e = let (same, key) = only k b e in rw key refl

load-file_of_example :
    (r' : Registry) × (load (holds (file_of one_bulb)) ≡ ok r')
    × ((k : Str) → find r' k ≡ reloaded (find one_bulb k))
load-file_of_example = load-file_of one_bulb one_bulb-IsValid one_bulb-NamesUnique named

abbrev changed : Registry
changed = record one_bulb { saves = 2 }

abbrev scheduled : State
scheduled = schedule (record (opened one_bulb) { registry = changed })

abbrev flushed : State
flushed = flush (to_flush scheduled) 0

abbrev copied : State
copied = record flushed { saving = writing changed ∷ [] }

abbrev saved : State
saved = record copied { saving = []; disk = changed }

run_scheduled : Orderly (opened one_bulb) scheduled
run_scheduled = next start (changes (opened one_bulb) changed (omega arith)) (omega arith)

run_saved : Orderly (opened one_bulb) saved
run_saved =
    next
      (next
        (next (next run_scheduled (fires scheduled refl) (omega arith))
          (flushes (to_flush scheduled) 0 (omega arith)) (omega arith))
        (snapshots flushed [] [] refl) (omega arith))
      (saves copied [] [] changed refl) (omega arith)

settled_example : saved.disk.saves ≡ saved.registry.saves
settled_example = settled one_bulb saved run_saved refl refl refl refl

drained_example :
    (t : State) × Orderly (opened one_bulb) t
    × (t.registry ≡ changed)
    × (t.timer ≡ false)
    × (t.waiting ≡ 0)
    × (t.saving ≡ [])
    × (t.disk.saves ≡ 2)
drained_example = drained one_bulb scheduled run_scheduled refl

abbrev full_disk : Call → Bool
full_disk write = true
full_disk mkdir_all = false
full_disk create_temp = false
full_disk sync = false
full_disk close = false
full_disk rename = false
full_disk remove = false

abbrev old : Disk
old = record { target = some (record { content = 1 ∷ []; synced = true }); temporary = none }

save_file-IsWhole_example :
    All (IsWhole old (7 ∷ 8 ∷ [])) (save_file full_disk 1 (some (7 ∷ 8 ∷ [])) old).0
    × Outcome old
        (7 ∷ 8 ∷ [])
        (last_disk old (save_file full_disk 1 (some (7 ∷ 8 ∷ [])) old).0)
        (save_file full_disk 1 (some (7 ∷ 8 ∷ [])) old).1
save_file-IsWhole_example = save_file-IsWhole full_disk 1 (7 ∷ 8 ∷ []) old
