-- ===== src/Tui.antt =====
-- internal/tui: the terminal's feed of lines (feed.go), and the recall of earlier commands (model.go).
-- Rendering and the keys that edit the prompt are not modelled.
pub mod Scrollback
pub mod Recall
pub mod Model
use haigosmart.Base.{
  ℕ, ◌+◌, ◌-◌, ◌<◌, List, [], ◌∷◌, ◌++◌, Bool, true, false, not, ◌&&◌, Option, none, some, ltb,
  ◌==◌, if◌then◌else◌, length, take, drop, get_elem?,
}
use haigosmart.Base.Int.{ℤ, pos, negsuc, ◌-ℤ◌, ltb_ℤ, leb_ℤ, pos_part}
use haigosmart.Base.Text.{Str, split, trim_space, is_empty}

-- The offset is never negative, as each change of it is clamped.
pub record Feed : Type 0 where
  pub lines : List Str
  pub capacity : ℕ
  pub height : ℕ
  pub offset : ℕ
  pub evicted : ℕ

abbrev pub new_feed : ℕ → Feed
new_feed capacity = record { lines = []; capacity = capacity; height = 20; offset = 0; evicted = 0 }

-- max(len(f.lines)-f.height, 0) is the subtraction of ℕ.
unfoldable pub clamp_offset : Feed → ℤ → Feed
clamp_offset f offset =
    let max_offset = length f.lines - f.height in
    record f {
      offset =
          if ltb_ℤ (pos max_offset) offset
          then max_offset
          else if ltb_ℤ offset (pos 0)
          then 0
          else pos_part offset;
    }

unfoldable pub resize : Feed → ℤ → Feed
unfolding clamp_offset
resize f height =
    clamp_offset (record f { height = if ltb_ℤ height (pos 1) then 1 else pos_part height })
      (pos f.offset)

-- The oldest lines go when there are more than the capacity.
abbrev pub appended : Feed → List Str → Feed
appended f new =
    let lines = f.lines ++ new in
    let over = length lines - f.capacity in
    if ltb 0 over
    then record f { lines = drop over lines; evicted = f.evicted + over }
    else record f { lines = lines }

unfoldable pub add : Feed → Str → Feed
unfolding split clamp_offset
add f line =
    let f' = appended f (split 10 line) in
    if ltb 0 f'.offset then clamp_offset f' (pos f'.offset) else f'

unfoldable pub scroll : Feed → ℤ → Feed
unfolding clamp_offset
scroll f delta = clamp_offset f (pos f.offset -ℤ delta)

-- f.lines[start:end]
unfoldable pub visible : Feed → List Str
visible f =
    let end = length f.lines - f.offset in
    let start = end - f.height in take (end - start) (drop start f.lines)

unfoldable pub visible_feed_lines : ℤ → ℕ
visible_feed_lines height = if ltb_ℤ height (pos 4) then 1 else pos_part height - 3

-- The command history and the prompt; the position is -1 on the prompt itself.
pub record Prompt : Type 0 where
  pub history : List Str
  pub position : ℤ
  pub input : Str

-- history[i], which is in range wherever it is read.
abbrev pub entry : List Str → ℕ → Str
entry history i = elim (get_elem? history i) [ none ↦ [] | some line ↦ line ]

-- The enter key: the command to run, if there is one.
unfoldable pub enter : Prompt → Prompt × Option Str
unfolding trim_space is_empty
enter p =
    let line = trim_space p.input in
    if is_empty line
    then (record p { input = [] }, none)
    else (record { history = p.history ++ line ∷ []; position = negsuc 0; input = [] }, some line)

-- 1 is older, -1 is newer.
unfoldable pub moved : Prompt → ℤ → ℤ
unfolding ◌-ℤ◌
moved p direction =
    if ltb_ℤ p.position (pos 0) && ltb_ℤ (pos 0) direction
    then pos (length p.history) -ℤ pos 1
    else if leb_ℤ (pos 0) p.position
    then p.position -ℤ direction
    else p.position

unfoldable pub recall : Prompt → ℤ → Prompt
recall p direction =
    let position = moved p direction in
    let last = length p.history - 1 in
    if length p.history == 0
    then p
    else if ltb_ℤ position (pos 0)
    then record p { position = negsuc 0; input = [] }
    else if leb_ℤ (pos (length p.history)) position
    then record p { position = pos last; input = entry p.history last }
    else record p { position = position; input = entry p.history (pos_part position) }
