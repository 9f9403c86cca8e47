-- ===== src/Registry/Persist/Store/Drained.antt =====
-- internal/registry/persist.go: the store comes to rest once the registry stops changing.
use haigosmart.Base.{
  ℕ, zero, suc, ◌+◌, ◌≤◌, ◌≡◌, refl, ◌∙◌, List, [], ◌∷◌, Bool, true, false, arith, length,
  if◌then◌else◌,
}
use haigosmart.Registry.{Registry}
use haigosmart.Registry.Persist.Store.{
  Save, starting, writing, State, opened, to_flush, flush, fires, flushes, snapshots, saves,
  Orderly, next,
}
use haigosmart.Registry.Persist.Store.Settled.{settled, Orderly-single}

-- A state with no save under way that s leads to, with the registry left as it is.
record Paused (o s : State) (timer : Bool) (waiting : ℕ) : Type 0 where
  reached : State
  run : Orderly o reached
  done : reached.saving ≡ []
  same_registry : reached.registry ≡ s.registry
  same_failures : reached.failures ≡ s.failures
  same_timer : reached.timer ≡ timer
  same_waiting : reached.waiting ≡ waiting

finish :
    (o s : State) (saving : List Save)
    → s.saving ≡ saving
    → length saving ≤ 1
    → Orderly o s
    → Paused o s s.timer s.waiting
finish o s [] e h run = record {
  reached = s;
  run = run;
  done = e;
  same_registry = refl;
  same_failures = refl;
  same_timer = refl;
  same_waiting = refl;
}
finish o s (writing r ∷ []) e h run = record {
  reached = record s { saving = []; disk = r };
  run = next run (saves s [] [] r e) (omega arith);
  done = refl;
  same_registry = refl;
  same_failures = refl;
  same_timer = refl;
  same_waiting = refl;
}
finish o s (starting ∷ []) e h run =
    let t = record s { saving = writing s.registry ∷ [] } in
    record {
      reached = record t { saving = []; disk = s.registry };
      run =
          next (next run (snapshots s [] [] e) (omega arith)) (saves t [] [] s.registry refl)
            (omega arith);
      done = refl;
      same_registry = refl;
      same_failures = refl;
      same_timer = refl;
      same_waiting = refl;
    }
finish o s (j ∷ k ∷ more) e h run = absurd (omega arith)

-- Each waiting call of Flush saves, or finds nothing to save.
take_turns :
    (n : ℕ) (o s : State) → s.waiting ≡ n → s.saving ≡ [] → Orderly o s → Paused o s s.timer 0
take_turns zero o s w e run = record {
  reached = s;
  run = run;
  done = e;
  same_registry = refl;
  same_failures = refl;
  same_timer = refl;
  same_waiting = w;
}
take_turns (suc n) o s w e run =
    let one : length (flush s n).saving ≤ 1 = few s.pending in
    let p =
      finish o (flush s n) (flush s n).saving refl one (next run (flushes s n (omega arith)) one) in
    let q = take_turns n o p.reached (p.same_waiting ∙ refl) p.done p.run in
    record {
      reached = q.reached;
      run = q.run;
      done = q.done;
      same_registry = q.same_registry ∙ p.same_registry;
      same_failures = q.same_failures ∙ p.same_failures;
      same_timer = q.same_timer ∙ p.same_timer;
      same_waiting = q.same_waiting;
    }
  where
    few : (pending : Bool) → length (if pending then starting ∷ s.saving else s.saving) ≤ 1
    few true = rw e (omega arith)
    few false = rw e (omega arith)

-- The timer, if it is armed, fires.
ring :
    (o s : State) (timer : Bool)
    → s.timer ≡ timer
    → s.saving ≡ []
    → Orderly o s
    → Paused o s false (if timer then s.waiting + 1 else s.waiting)
ring o s false e none run = record {
  reached = s;
  run = run;
  done = none;
  same_registry = refl;
  same_failures = refl;
  same_timer = e;
  same_waiting = refl;
}
ring o s true e none run = record {
  reached = to_flush s;
  run = next run (fires s e) (rw none (omega arith));
  done = none;
  same_registry = refl;
  same_failures = refl;
  same_timer = refl;
  same_waiting = refl;
}

-- From every state that a store opened by Load reaches without a failed or an overlapping save, steps
-- that leave the registry as it is reach one where no timer is armed, no Flush or save is under way,
-- and the file on disk has every change that scheduled a save.
pub drained :
    (r : Registry) (s : State)
    → Orderly (opened r) s
    → s.failures ≡ 0
    → (t : State) × Orderly (opened r) t
      × (t.registry ≡ s.registry)
      × (t.timer ≡ false)
      × (t.waiting ≡ 0)
      × (t.saving ≡ [])
      × (t.disk.saves ≡ s.registry.saves)
drained r s run none_failed =
    let o = opened r in
    let p = finish o s s.saving refl (Orderly-single r s run) run in
    let q = ring o p.reached p.reached.timer refl p.done p.run in
    let u = take_turns q.reached.waiting o q.reached refl q.done q.run in
    let t = u.reached in
    let kept : t.registry ≡ s.registry = u.same_registry ∙ q.same_registry ∙ p.same_registry in
    let quiet : t.timer ≡ false = u.same_timer ∙ q.same_timer in
    let fine : t.failures ≡ 0 = u.same_failures ∙ q.same_failures ∙ p.same_failures ∙ none_failed in
    let stored = settled r t u.run fine quiet u.same_waiting u.done in
    (t, u.run, kept, quiet, u.same_waiting, u.done, rw kept at stored)
