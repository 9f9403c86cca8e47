-- ===== src/Registry/Persist/Store/Settled.antt =====
-- internal/registry/persist.go: what is on disk when the store has nothing left to do.
use haigosmart.Base.{
  ◌≤◌, ◌≡◌, refl, sym, ◌∙◌, List, [], ◌∷◌, ◌++◌, Bool, true, false, arith, length, length-append,
  if◌then◌else◌, inl, inr,
}
use haigosmart.Registry.{Registry}
use haigosmart.Registry.Persist.Store.{
  Save, starting, writing, State, opened, to_flush, Step, changes, keeps, fires, closes, flushes,
  snapshots, saves, fails, Orderly, start, next, IsCovered, IsDue,
}

record IsSafe (s : State) : Type 0 where
  single : length s.saving ≤ 1
  due : s.failures ≡ 0 → IsDue s s.pending

-- The one save under way is the one that a step picks.
alone :
    (before after : List Save) (j : Save) (all : List Save)
    → all ≡ before ++ j ∷ after
    → length all ≤ 1
    → (before ≡ []) × (after ≡ [])
alone [] [] j all e h = (refl, refl)
alone [] (k ∷ after) j all e h =
    let h' : length (j ∷ k ∷ after) ≤ 1 = rw e at h in absurd (omega arith)
alone (k ∷ before) after j all e h =
    let h' : length (k ∷ (before ++ j ∷ after)) ≤ 1 = rw e at h in
    absurd (omega (arith, length-append before (j ∷ after)))

IsDue-map :
    (s u : State) (pending : Bool)
    → (IsDue s true → IsDue u true)
    → (IsDue s false → IsDue u false)
    → IsDue s pending
    → IsDue u pending
IsDue-map s u true f g h = f h
IsDue-map s u false f g h = g h

IsCovered-kept :
    (disk r r' : Registry) (saving : List Save)
    → r'.saves ≡ r.saves
    → IsCovered disk r saving
    → IsCovered disk r' saving
IsCovered-kept disk r r' [] e h = h ∙ sym e
IsCovered-kept disk r r' (starting ∷ more) e h = tt
IsCovered-kept disk r r' (writing w ∷ more) e h = h ∙ sym e

IsCovered-flushed :
    (s : State) (pending : Bool)
    → IsDue s pending
    → IsCovered s.disk s.registry (if pending then starting ∷ s.saving else s.saving)
IsCovered-flushed s true h = tt
IsCovered-flushed s false h = h

IsDue-kept : {s u : State} → Step s u → IsSafe s → u.failures ≡ 0 → IsDue u u.pending
IsDue-kept (changes s r e) v z = inl refl
IsDue-kept (keeps s r e) v z =
    IsDue-map s (record s { registry = r }) s.pending (λ h. h)
      (IsCovered-kept s.disk s.registry r s.saving e) (v.due z)
IsDue-kept (fires s e) v z =
    IsDue-map s (to_flush s) s.pending (λ h. inr (omega arith)) (λ h. h) (v.due z)
IsDue-kept (closes s) v z =
    IsDue-map s (to_flush s) s.pending (λ h. inr (omega arith)) (λ h. h) (v.due z)
IsDue-kept (flushes s n e) v z = IsCovered-flushed s s.pending (v.due z)
IsDue-kept (snapshots s before after e) v z =
    let (b, a) = alone before after starting s.saving e v.single in
    IsDue-map s (record s { saving = before ++ writing s.registry ∷ after }) s.pending (λ h. h)
      (λ h. rw b refl) (v.due z)
IsDue-kept (saves s before after r e) v z =
    let (b, a) = alone before after (writing r) s.saving e v.single in
    let only : s.saving ≡ writing r ∷ [] = rw (b, a) at e in
    IsDue-map s (record s { saving = before ++ after; disk = r }) s.pending (λ h. h)
      (λ h. rw (b, a) (rw only at h)) (v.due z)
IsDue-kept (fails s before after r e) v z = absurd (omega arith)

Orderly-IsSafe : {s u : State} → IsSafe s → Orderly s u → IsSafe u
Orderly-IsSafe v start = v
Orderly-IsSafe v (next run step one) = record {
  single = one;
  due = IsDue-kept step (Orderly-IsSafe v run);
}

opened-IsSafe : (r : Registry) → IsSafe (opened r)
opened-IsSafe r = record { single = omega arith; due = λ z. refl }

pub Orderly-single : (r : Registry) (s : State) → Orderly (opened r) s → length s.saving ≤ 1
Orderly-single r s run = (Orderly-IsSafe (opened-IsSafe r) run).single

-- When a store that Load opened has no timer armed and no call of Flush or save under way, and no save
-- has failed or overlapped another, the file on disk has every change that scheduled a save.
pub settled :
    (r : Registry) (s : State)
    → Orderly (opened r) s
    → s.failures ≡ 0
    → s.timer ≡ false
    → s.waiting ≡ 0
    → s.saving ≡ []
    → s.disk.saves ≡ s.registry.saves
settled r s run none_failed no_timer none_waiting none_saving =
    let v = Orderly-IsSafe (opened-IsSafe r) run in go s.pending (v.due none_failed)
  where
    go : (pending : Bool) → IsDue s pending → s.disk.saves ≡ s.registry.saves
    go true (inl armed) = cc
    go true (inr waits) = absurd (omega arith)
    go false h = rw none_saving at h
