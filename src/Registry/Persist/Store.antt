-- ===== src/Registry/Persist/Store.antt =====
-- internal/registry/persist.go: when the store writes. The timer's callback, Close and the operations
-- of the registry run concurrently: a step is what one of them does between two holds of a lock.
pub mod Settled
pub mod Drained
use haigosmart.Base.{
  ℕ, ◌+◌, ◌≤◌, ◌<◌, ◌≡◌, refl, List, [], ◌∷◌, ◌++◌, Bool, true, false, arith, length, if◌then◌else◌,
  ◌⊎◌, inl, inr, Bool-cases,
}
use haigosmart.Registry.{Registry}

-- A call of `save`: before its snapshot, and with it.
pub data Save : Type 0 where
  starting : Save
  writing : Registry → Save

-- `waiting` counts the calls of Flush that have not yet taken the lock, and `disk` is the registry
-- whose file was last renamed into place.
pub record State : Type 0 where
  pub registry : Registry
  pub pending : Bool
  pub timer : Bool
  pub waiting : ℕ
  pub saving : List Save
  pub disk : Registry
  pub failures : ℕ

-- What Load returns, with the file that it has read.
abbrev pub opened : Registry → State
opened r = record {
  registry = r;
  pending = false;
  timer = false;
  waiting = 0;
  saving = [];
  disk = r;
  failures = 0;
}

-- An armed timer is left alone.
abbrev pub schedule : State → State
schedule s = record s { pending = true; timer = true }

-- The callback clears the timer and goes on to Flush, as Close does.
abbrev pub to_flush : State → State
to_flush s = record s { timer = false; waiting = s.waiting + 1 }

-- Flush, while it holds the lock, with one call less that waits.
abbrev pub flush : State → ℕ → State
flush s n = record s {
  pending = false;
  waiting = n;
  saving = if s.pending then starting ∷ s.saving else s.saving;
}

pub data Step : State → State → Type 0 where
  changes :
      (s : State) (r : Registry)
      → r.saves ≡ s.registry.saves + 1
      → Step s (schedule (record s { registry = r }))
  keeps :
      (s : State) (r : Registry) → r.saves ≡ s.registry.saves → Step s (record s { registry = r })
  fires : (s : State) → s.timer ≡ true → Step s (to_flush s)
  closes : (s : State) → Step s (to_flush s)
  flushes : (s : State) (n : ℕ) → s.waiting ≡ n + 1 → Step s (flush s n)
  snapshots :
      (s : State) (before after : List Save)
      → s.saving ≡ before ++ starting ∷ after
      → Step s (record s { saving = before ++ writing s.registry ∷ after })
  saves :
      (s : State) (before after : List Save) (r : Registry)
      → s.saving ≡ before ++ writing r ∷ after
      → Step s (record s { saving = before ++ after; disk = r })
  fails :
      (s : State) (before after : List Save) (r : Registry)
      → s.saving ≡ before ++ writing r ∷ after
      → Step s (record s { saving = before ++ after; failures = s.failures + 1 })

-- The steps from s on in which no two saves overlap.
pub data Orderly (s : State) : State → Type 0 where
  start : Orderly s s
  next : {t u : State} → Orderly s t → Step t u → length u.saving ≤ 1 → Orderly s u

-- What the saves under way will leave on disk is the registry as it is.
abbrev pub IsCovered : Registry → Registry → List Save → Type 0
IsCovered disk registry [] = disk.saves ≡ registry.saves
IsCovered disk registry (starting ∷ more) = Unit
IsCovered disk registry (writing r ∷ more) = r.saves ≡ registry.saves

-- A pending change has a call of Flush ahead of it, and any other change is being saved.
abbrev pub IsDue : State → Bool → Type 0
IsDue s true = (s.timer ≡ true) ⊎ (0 < s.waiting)
IsDue s false = IsCovered s.disk s.registry s.saving
