-- ===== src/Tui/Model.antt =====
-- internal/tui/model.go: the messages of the terminal interface. What the prompt makes of a key that
-- edits it is in the message.
pub mod Flight
use haigosmart.Base.{
  ℕ, suc, ◌+◌, ◌-◌, ◌/◌, List, [], ◌∷◌, ◌++◌, Bool, true, false, not, Option, none, some, ltb, ◌==◌,
  if◌then◌else◌, length,
}
use haigosmart.Base.Int.{ℤ, pos, negsuc, ◌+ℤ◌, ◌-ℤ◌}
use haigosmart.Base.Text.{Str, codes, is_empty}
use haigosmart.Tui.{Feed, new_feed, resize, add, scroll, visible_feed_lines, Prompt, enter, recall}

pub record Model : Type 0 where
  pub feed : Feed
  pub prompt : Prompt
  pub height : ℤ
  pub in_flight : ℤ
  pub quitting : Bool
  pub cancelled : Bool

abbrev pub feed_capacity : ℕ
feed_capacity = 500

-- `ready` is the first line of the feed.
unfoldable pub new : Str → Model
unfolding add
new ready = record {
  feed = add (new_feed feed_capacity) ready;
  prompt = record { history = []; position = negsuc 0; input = [] };
  height = pos 0;
  in_flight = pos 0;
  quitting = false;
  cancelled = false;
}

pub data Key : Type 0 where
  interrupt enter_key up down page_up page_down : Key
  edit : Str → Key

-- An event and a result come with the line that they are shown as.
pub data Message : Type 0 where
  window_size : ℤ → Message
  event : Str → Message
  result : Bool → Str → Str → Message
  key_press : Key → Message
  other : Str → Message

pub data Command : Type 0 where
  wait_for_event quit_program : Command
  run_command : Str → Command

unfoldable pub quit : Model → Model × Option Command
quit m = (record m { quitting = true; cancelled = true }, some quit_program)

-- The line of the enter key, and the command that runs it.
unfoldable pub submit : Model → Prompt × Option Str → Model × Option Command
unfolding add
submit m (p, none) = (record m { prompt = p }, none)
submit m (p, some line) = (
  record m { prompt = p; feed = add m.feed (codes "> " ++ line); in_flight = m.in_flight +ℤ pos 1 },
  some (run_command line),
)

unfoldable pub handle_key : Model → Key → Model × Option Command
unfolding quit submit enter recall scroll
handle_key m interrupt = quit m
handle_key m enter_key = submit m (enter m.prompt)
handle_key m up = (record m { prompt = recall m.prompt (pos 1) }, none)
handle_key m down = (record m { prompt = recall m.prompt (negsuc 0) }, none)
handle_key m page_up =
    let half = visible_feed_lines m.height / 2 in
    (record m { feed = scroll m.feed (pos 0 -ℤ pos half) }, none)
handle_key m page_down =
    (record m { feed = scroll m.feed (pos (visible_feed_lines m.height / 2)) }, none)
handle_key m (edit value) = (record m { prompt = record m.prompt { input = value } }, none)

unfoldable pub update : Model → Message → Model × Option Command
unfolding handle_key quit resize visible_feed_lines add is_empty
update m (window_size height) =
    (record m { height = height; feed = resize m.feed (pos (visible_feed_lines height)) }, none)
update m (event line) = (record m { feed = add m.feed line }, some wait_for_event)
update m (result quits text line) =
    let landed : Model = record m { in_flight = m.in_flight -ℤ pos 1 } in
    if quits
    then quit landed
    else if is_empty text
    then (landed, none)
    else (record landed { feed = add landed.feed line }, none)
update m (key_press k) = handle_key m k
update m (other value) = (record m { prompt = record m.prompt { input = value } }, none)
