-- ===== src/Examples/Display.antt =====
-- A feed for two lines, and a terminal at which one command is entered.
use haigosmart.Base.{◌≡◌, true, List, [], ◌∷◌, length, min}
use haigosmart.Base.Int.{pos, negsuc}
use haigosmart.Base.Text.{codes}
use haigosmart.Tui.{new_feed, visible, Prompt}
use haigosmart.Tui.Model.{new, enter_key}
use haigosmart.Tui.Model.Flight.{IsInStep, run, run-IsInStep, edited, pressed, finished}
use haigosmart.Tui.Scrollback.{
  Operation, op_add, op_scroll, op_resize, run_all, added, Shows, run_all-newest,
}

abbrev session : List Operation
session =
    op_add (codes "one")
    ∷ op_add (codes "two")
    ∷ op_resize (pos 1)
    ∷ op_add (codes "three")
    ∷ op_scroll (negsuc 4)
    ∷ []

run_all-newest_example :
    let f = run_all (new_feed 2) session in
    Shows 2 (added session) f × (length (visible f) ≡ min f.height (length f.lines))
run_all-newest_example = run_all-newest 2 session

abbrev prompt : Prompt
prompt = record { history = codes "list" ∷ []; position = negsuc 0; input = [] }

run-IsInStep_example : IsInStep (
    run
      (edited (codes "list") ∷ pressed enter_key ∷ finished 0 true (codes "bye") [] ∷ [])
      (record { model = new (codes "ready"); running = []; issued = [] }))
run-IsInStep_example =
    run-IsInStep (edited (codes "list") ∷ pressed enter_key ∷ finished 0 true (codes "bye") [] ∷ [])
      (codes "ready")
