-- ===== src/Tui/Scrollback.antt =====
-- internal/tui/feed.go: the feed after any lines, scrolling and resizing.
use haigosmart.Base.{
  ℕ, ◌+◌, ◌-◌, ◌≤◌, ◌<◌, ◌≡◌, refl, sym, ap, ◌∙◌, List, [], ◌∷◌, ◌++◌, ltb, if◌then◌else◌, length,
  drop, length-append, length-drop, length-take, drop-drop, drop-append, min, arith, Bool-cases,
  inl, inr,
}
use mathlib.Core.List.{append-nil, append_assoc}
use haigosmart.Base.Int.{ℤ, pos, ◌-ℤ◌, ltb_ℤ, pos_part}
use haigosmart.Base.Text.{Str, split}
use haigosmart.Tui.{Feed, new_feed, clamp_offset, resize, appended, add, scroll, visible}

pub data Operation : Type 0 where
  op_add : Str → Operation
  op_scroll op_resize : ℤ → Operation

unfoldable pub run : Feed → Operation → Feed
run f (op_add line) = add f line
run f (op_scroll delta) = scroll f delta
run f (op_resize height) = resize f height

unfoldable pub run_all : Feed → List Operation → Feed
unfolding run
run_all f [] = f
run_all f (o ∷ os) = run_all (run f o) os

unfoldable pub lines_of : Operation → List Str
unfolding split
lines_of (op_add line) = split 10 line
lines_of (op_scroll delta) = []
lines_of (op_resize height) = []

-- All the lines that were added, in order.
unfoldable pub added : List Operation → List Str
added [] = []
added (o ∷ os) = lines_of o ++ added os

-- The feed f shows the newest of all lines, as many as it has room for, and a full window of them.
pub record Shows (capacity : ℕ) (all : List Str) (f : Feed) : Type 0 where
  pub same_capacity : f.capacity ≡ capacity
  pub newest : f.lines ≡ drop f.evicted all
  pub counted : f.evicted + length f.lines ≡ length all
  pub filled : length f.lines ≡ min capacity (length all)
  pub in_range : f.offset ≤ length f.lines - f.height
  pub some_height : 1 ≤ f.height

appended-Shows :
    (capacity : ℕ) (all new : List Str) (f : Feed)
    → Shows capacity all f
    → let f' = appended f new in
      (f'.capacity ≡ capacity)
      × (f'.lines ≡ drop f'.evicted (all ++ new))
      × (f'.evicted + length f'.lines ≡ length (all ++ new))
      × (length f'.lines ≡ min capacity (length (all ++ new)))
      × (f'.offset ≡ f.offset)
      × (f'.height ≡ f.height)
      × (length f.lines ≤ length f'.lines)
appended-Shows capacity all new f s =
    let lines = f.lines ++ new in
    let over = length lines - f.capacity in
    let joined : lines ≡ drop f.evicted (all ++ new) =
      ap (λ l. l ++ new) s.newest
      ∙ sym (drop-append f.evicted all new (omega (arith, s.counted))) in
    let both = length-append f.lines new in
    let every = length-append all new in
    let kept = length-drop over lines in
    elim (Bool-cases (ltb 0 over)) [
      | inl full ↦
          let positive : 0 < over = ground arith in
          rw full (
            s.same_capacity,
            ap (λ l. drop over l) joined ∙ drop-drop f.evicted over (all ++ new),
            omega (arith, s.counted),
            omega (arith, s.same_capacity, s.counted, s.filled),
            refl,
            refl,
            omega (arith, s.same_capacity, s.filled),
          )
      | inr fits ↦
          let enough : over ≤ 0 = ground arith in
          rw fits (
            s.same_capacity,
            joined,
            omega (arith, s.counted),
            omega (arith, s.same_capacity, s.counted, s.filled),
            refl,
            refl,
            omega arith,
          )
    ]

clamp_offset-range : (f : Feed) (z : ℤ) → (clamp_offset f z).offset ≤ length f.lines - f.height
unfolding clamp_offset
clamp_offset-range f z = ground arith

-- Clamping an offset into a feed whose lines are right.
clamp_offset-Shows :
    (capacity : ℕ) (all : List Str) (f : Feed) (z : ℤ)
    → f.capacity ≡ capacity
    → f.lines ≡ drop f.evicted all
    → f.evicted + length f.lines ≡ length all
    → length f.lines ≡ min capacity (length all)
    → 1 ≤ f.height
    → Shows capacity all (clamp_offset f z)
clamp_offset-Shows capacity all f z c n k b h =
    unfold clamp_offset in
    record {
      same_capacity = c;
      newest = n;
      counted = k;
      filled = b;
      in_range = clamp_offset-range f z;
      some_height = h;
    }

add-Shows :
    (capacity : ℕ) (all : List Str) (f : Feed) (line : Str)
    → Shows capacity all f
    → Shows capacity (all ++ split 10 line) (add f line)
unfolding add
add-Shows capacity all f line s =
    let (c, n, k, b, same, height, more) = appended-Shows capacity all (split 10 line) f s in
    let f' = appended f (split 10 line) in
    elim (Bool-cases (ltb 0 f'.offset)) [
      | inl back ↦
          rw (add, back)
            (clamp_offset-Shows capacity (all ++ split 10 line) f' (pos f'.offset) c n k b
              (rw height s.some_height))
      | inr bottom ↦
          rw (add, bottom)
            (record {
              same_capacity = c;
              newest = n;
              counted = k;
              filled = b;
              in_range = ground arith;
              some_height = rw height s.some_height;
            })
    ]

run-Shows :
    (capacity : ℕ) (all : List Str) (f : Feed) (o : Operation)
    → Shows capacity all f
    → Shows capacity (all ++ lines_of o) (run f o)
unfolding run lines_of scroll resize
run-Shows capacity all f (op_add line) s = add-Shows capacity all f line s
run-Shows capacity all f (op_scroll delta) s = rw append-nil (
    clamp_offset-Shows capacity all f (pos f.offset -ℤ delta) s.same_capacity s.newest s.counted
      s.filled s.some_height)
run-Shows capacity all f (op_resize height) s = rw append-nil (
    clamp_offset-Shows capacity all
      (record f { height = if ltb_ℤ height (pos 1) then 1 else pos_part height }) (pos f.offset)
      s.same_capacity s.newest s.counted s.filled (ground arith))

run_all-Shows :
    (capacity : ℕ) (all : List Str) (f : Feed) (os : List Operation)
    → Shows capacity all f
    → Shows capacity (all ++ added os) (run_all f os)
unfolding run_all added
run_all-Shows capacity all f [] s = rw append-nil s
run_all-Shows capacity all f (o ∷ os) s =
    rw (← append_assoc all (lines_of o) (added os))
      (run_all-Shows capacity (all ++ lines_of o) (run f o) os (run-Shows capacity all f o s))

visible_full :
    (f : Feed)
    → f.offset ≤ length f.lines - f.height
    → length (visible f) ≡ min f.height (length f.lines)
unfolding visible
visible_full f h =
    let end = length f.lines - f.offset in
    let start = end - f.height in
    omega (arith, length-take (end - start) (drop start f.lines), length-drop start f.lines)

-- After any lines, scrolling and resizing, the feed holds the newest lines of all that were added, as
-- many as its capacity or all of them, and has counted the others; the window that is rendered is full, or shows
-- all lines where there are fewer than its height.
pub run_all-newest :
    (capacity : ℕ) (os : List Operation)
    → let f = run_all (new_feed capacity) os in
      Shows capacity (added os) f × (length (visible f) ≡ min f.height (length f.lines))
run_all-newest capacity os =
    let s = run_all-Shows capacity [] (new_feed capacity) os (record {
      same_capacity = refl;
      newest = refl;
      counted = omega arith;
      filled = omega arith;
      in_range = omega arith;
      some_height = omega arith;
    }) in
    (s, visible_full (run_all (new_feed capacity) os) s.in_range)
