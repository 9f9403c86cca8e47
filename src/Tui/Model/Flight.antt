-- ===== src/Tui/Model/Flight.antt =====
-- internal/tui/model.go: the commands that run beside the loop.
use haigosmart.Base.{
  ℕ, zero, suc, ◌+◌, ◌≡◌, refl, sym, ap, ◌∙◌, List, [], ◌∷◌, ◌++◌, Bool, Option, none, some, arith,
  length, length-append, Option-cases, Bool-cases, inl, inr,
}
use haigosmart.Base.Int.{ℤ, pos, negsuc, ◌+ℤ◌, ◌-ℤ◌}
use haigosmart.Base.Text.{Str, is_empty, trim_space}
use haigosmart.Tui.{Prompt, enter, recall}
use haigosmart.Tui.Model.{
  Model, Key, Command, run_command, wait_for_event, quit_program, window_size, event, result,
  key_press, other, interrupt, enter_key, up, down, page_up, page_down, edit, new, quit, submit,
  handle_key, update,
}

-- The loop with the goroutines of its commands: `running` are those that have not reported, and
-- `issued` all the lines that were ever run.
pub record Loop : Type 0 where
  pub model : Model
  pub running : List Str
  pub issued : List Str

-- What comes to the loop: a message that is no result, or the result of the running command at a
-- position. Nothing comes from a command that does not run.
pub data Input : Type 0 where
  sized : ℤ → Input
  happened : Str → Input
  pressed : Key → Input
  edited : Str → Input
  finished : ℕ → Bool → Str → Str → Input

unfoldable pub start_command : Loop → Model × Option Command → Loop
start_command l (m, some (run_command line)) = record {
  model = m;
  running = l.running ++ (line ∷ []);
  issued = l.issued ++ (line ∷ []);
}
start_command l (m, some wait_for_event) = record l { model = m }
start_command l (m, some quit_program) = record l { model = m }
start_command l (m, none) = record l { model = m }

-- The list without the element at a position, if there is one.
unfoldable pub taken_out : List Str → ℕ → Option (List Str)
taken_out [] n = none
taken_out (x ∷ xs) zero = some xs
taken_out (x ∷ xs) (suc n) = elim (taken_out xs n) [ none ↦ none | some ys ↦ some (x ∷ ys) ]

unfoldable pub step : Loop → Input → Loop
unfolding start_command taken_out update
step l (sized height) = start_command l (update l.model (window_size height))
step l (happened line) = start_command l (update l.model (event line))
step l (pressed k) = start_command l (update l.model (key_press k))
step l (edited value) = start_command l (update l.model (other value))
step l (finished n quits text line) = elim (taken_out l.running n) [
  | none ↦ l
  | some rest ↦
      start_command (record l { running = rest }) (update l.model (result quits text line))
]

unfoldable pub run : List Input → Loop → Loop
unfolding step
run [] l = l
run (i ∷ is) l = run is (step l i)

-- The count on the screen is that of the commands that run; every line of the history was run, in its
-- order; and the context is cancelled exactly where the program quits.
pub record IsInStep (l : Loop) : Type 0 where
  pub counted : l.model.in_flight ≡ pos (length l.running)
  pub every_line : l.issued ≡ l.model.prompt.history
  pub cancels : l.model.cancelled ≡ l.model.quitting

length-taken_out :
    (xs : List Str) (n : ℕ) {ys : List Str} → taken_out xs n ≡ some ys → length xs ≡ suc (length ys)
unfolding taken_out
length-taken_out [] n h = absurd (cc)
length-taken_out (x ∷ xs) zero h = ground arith
length-taken_out (x ∷ xs) (suc n) {ys} h = elim (Option-cases (taken_out xs n)) [
  | inl e ↦ let wrong : none ≡ some ys = rw e at h in absurd (cc)
  | inr (zs, e) ↦
      let same : some (x ∷ zs) ≡ some ys = rw e at h in
      let eq : x ∷ zs ≡ ys = cc in omega (arith, length-taken_out xs n e, ap length eq)
]

recall-history : (p : Prompt) (d : ℤ) → (recall p d).history ≡ p.history
unfolding recall
recall-history p d = ground arith

-- A model that differs in nothing that the invariant speaks of.
abbrev Alike : Model → Model → Type 0
Alike a b =
    (b.in_flight ≡ a.in_flight)
    × (b.prompt.history ≡ a.prompt.history)
    × (b.cancelled ≡ a.cancelled)
    × (b.quitting ≡ a.quitting)

Alike-IsInStep :
    (l : Loop) (m : Model) → Alike l.model m → IsInStep l → IsInStep (record l { model = m })
Alike-IsInStep l m (flight, history, cancelled, quitting) h = record {
  counted = flight ∙ h.counted;
  every_line = h.every_line ∙ sym history;
  cancels = cancelled ∙ (h.cancels ∙ sym quitting);
}

enter-none : (p q : Prompt) → enter p ≡ (q, none) → q.history ≡ p.history
unfolding enter
enter-none p q same = elim (Bool-cases (is_empty (trim_space p.input))) [
  | inl e ↦
      let out : (record p { input = [] }, none) ≡ (q, none) = rw (enter, e) at same in
      let eq : record p { input = [] } ≡ q = cc in ap (λ (r : Prompt). r.history) (sym eq)
  | inr e ↦
      let out : (
        record { history = p.history ++ trim_space p.input ∷ []; position = negsuc 0; input = [] },
        some (trim_space p.input),
      )
          ≡ (q, none) =
        rw (enter, e) at same in
      absurd (cc)
]

enter-some :
    (p q : Prompt) (line : Str) → enter p ≡ (q, some line) → q.history ≡ p.history ++ (line ∷ [])
unfolding enter
enter-some p q line same = elim (Bool-cases (is_empty (trim_space p.input))) [
  | inl e ↦
      let out : (record p { input = [] }, none) ≡ (q, some line) = rw (enter, e) at same in
      absurd (cc)
  | inr e ↦
      let told : Prompt = record {
        history = p.history ++ trim_space p.input ∷ [];
        position = negsuc 0;
        input = [];
      } in
      let out : (told, some (trim_space p.input)) ≡ (q, some line) = rw (enter, e) at same in
      let eq : told ≡ q = cc in
      let word : trim_space p.input ≡ line = cc in
      ap (λ (r : Prompt). r.history) (sym eq) ∙ ap (λ (w : Str). p.history ++ (w ∷ [])) word
]

one_more : (a : ℤ) (n : ℕ) → a ≡ pos n → a +ℤ pos 1 ≡ pos (n + 1)
unfolding ◌+ℤ◌
one_more a n h = rw h (ground arith)

submit-IsInStep :
    (l : Loop) (out : Prompt × Option Str)
    → out ≡ enter l.model.prompt
    → IsInStep l
    → IsInStep (start_command l (submit l.model out))
unfolding start_command submit
submit-IsInStep l (p, none) same h =
    Alike-IsInStep l (record l.model { prompt = p })
      (refl, enter-none l.model.prompt p (sym same), refl, refl) h
submit-IsInStep l (p, some line) same h = record {
  counted =
      one_more l.model.in_flight (length l.running) h.counted
      ∙ ap pos (sym (length-append l.running (line ∷ [])));
  every_line =
      ap (λ (ls : List Str). ls ++ (line ∷ [])) h.every_line
      ∙ sym (enter-some l.model.prompt p line (sym same));
  cancels = h.cancels;
}

pressed-IsInStep :
    (l : Loop) (k : Key) → IsInStep l → IsInStep (start_command l (handle_key l.model k))
unfolding start_command handle_key quit
pressed-IsInStep l interrupt h = record {
  counted = h.counted;
  every_line = h.every_line;
  cancels = refl;
}
pressed-IsInStep l enter_key h = submit-IsInStep l (enter l.model.prompt) refl h
pressed-IsInStep l up h =
    Alike-IsInStep l (record l.model { prompt = recall l.model.prompt (pos 1) })
      (refl, recall-history l.model.prompt (pos 1), refl, refl) h
pressed-IsInStep l down h =
    Alike-IsInStep l (record l.model { prompt = recall l.model.prompt (negsuc 0) })
      (refl, recall-history l.model.prompt (negsuc 0), refl, refl) h
pressed-IsInStep l page_up h = Alike-IsInStep l _ (refl, refl, refl, refl) h
pressed-IsInStep l page_down h = Alike-IsInStep l _ (refl, refl, refl, refl) h
pressed-IsInStep l (edit value) h = Alike-IsInStep l _ (refl, refl, refl, refl) h

one_less : (a : ℤ) (n : ℕ) → a ≡ pos (suc n) → a -ℤ pos 1 ≡ pos n
unfolding ◌-ℤ◌
one_less a n h = rw h (ground arith)

landed-IsInStep :
    (l : Loop) (rest : List Str) (quits : Bool) (text line : Str)
    → length l.running ≡ suc (length rest)
    → IsInStep l
    → IsInStep
        (start_command (record l { running = rest }) (update l.model (result quits text line)))
unfolding start_command update quit
landed-IsInStep l rest quits text line size h =
    let count : l.model.in_flight -ℤ pos 1 ≡ pos (length rest) =
      one_less l.model.in_flight (length rest) (h.counted ∙ ap pos size) in
    elim (Bool-cases quits) [
      | inl e ↦ rw e (record { counted = count; every_line = h.every_line; cancels = refl })
      | inr e ↦ elim (Bool-cases (is_empty text)) [
        | inl f ↦
            rw (e, f) (record { counted = count; every_line = h.every_line; cancels = h.cancels })
        | inr f ↦
            rw (e, f) (record { counted = count; every_line = h.every_line; cancels = h.cancels })
      ]
    ]

step-IsInStep : (l : Loop) (i : Input) → IsInStep l → IsInStep (step l i)
unfolding step start_command update
step-IsInStep l (sized height) h = Alike-IsInStep l _ (refl, refl, refl, refl) h
step-IsInStep l (happened line) h = Alike-IsInStep l _ (refl, refl, refl, refl) h
step-IsInStep l (pressed k) h = pressed-IsInStep l k h
step-IsInStep l (edited value) h = Alike-IsInStep l _ (refl, refl, refl, refl) h
step-IsInStep l (finished n quits text line) h = elim (Option-cases (taken_out l.running n)) [
  | inl e ↦ rw (step, e) h
  | inr (rest, e) ↦
      rw (step, e) (landed-IsInStep l rest quits text line (length-taken_out l.running n e) h)
]

run-IsInStep_from : (inputs : List Input) (l : Loop) → IsInStep l → IsInStep (run inputs l)
unfolding run
run-IsInStep_from [] l h = h
run-IsInStep_from (i ∷ is) l h = run-IsInStep_from is (step l i) (step-IsInStep l i h)

-- Whatever messages come, in whatever order, and whichever command reports first: the screen counts
-- the commands that run, every line of the history has been run once and in its order, and the
-- program is cancelled exactly where it quits.
pub run-IsInStep :
    (inputs : List Input) (ready : Str)
    → IsInStep (run inputs (record { model = new ready; running = []; issued = [] }))
unfolding run new
run-IsInStep inputs ready =
    run-IsInStep_from inputs (record { model = new ready; running = []; issued = [] })
      (record { counted = refl; every_line = refl; cancels = refl })
