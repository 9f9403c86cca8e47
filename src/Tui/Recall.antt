-- ===== src/Tui/Recall.antt =====
-- internal/tui/model.go: where the recall of earlier commands can stand.
use haigosmart.Base.{
  ℕ, zero, suc, ◌-◌, ◌<◌, ◌≡◌, refl, ◌⊎◌, List, [], ◌∷◌, false, ◌==◌, length, get_elem?, some,
  arith, inl, inr, Bool-cases,
}
use haigosmart.Base.Int.{ℤ, pos, negsuc, ltb_ℤ, leb_ℤ, pos_part}
use haigosmart.Base.Text.{Str}
use haigosmart.Tui.{Prompt, moved, recall, entry}

-- On the prompt itself, or on an entry of the history, which is shown.
abbrev pub IsPlaced : Prompt → Type 0
IsPlaced p =
    (p.position ≡ negsuc 0)
    ⊎ ((i : ℕ) × (p.position ≡ pos i) × (get_elem? p.history i ≡ some p.input))

get_elem?-some :
    (history : List Str) (i : ℕ) → i < length history → get_elem? history i ≡ some (entry history i)
get_elem?-some [] i h = absurd (omega arith)
get_elem?-some (x ∷ xs) zero h = refl
get_elem?-some (x ∷ xs) (suc i) h = get_elem?-some xs i (omega arith)

not_negative : (z : ℤ) → ltb_ℤ z (pos 0) ≡ false → z ≡ pos (pos_part z)
not_negative z h = ground arith

below : (n : ℕ) (z : ℤ) → leb_ℤ (pos n) z ≡ false → ltb_ℤ z (pos 0) ≡ false → pos_part z < n
below n z h g = ground arith

-- Wherever the recall stood, and whichever way it goes, with a history it then stands on the prompt,
-- or on an entry of the history, which the prompt shows.
pub recall-IsPlaced :
    (p : Prompt) (direction : ℤ) → 0 < length p.history → IsPlaced (recall p direction)
unfolding recall
recall-IsPlaced p direction some_history =
    let position = moved p direction in
    let n = length p.history in
    let some_lines : (n == 0) ≡ false = ground arith in
    elim (Bool-cases (ltb_ℤ position (pos 0))) [
      | inl before ↦ rw (recall, some_lines, before) (inl refl)
      | inr there ↦ elim (Bool-cases (leb_ℤ (pos n) position)) [
        | inl behind ↦
            rw (recall, some_lines, there, behind)
              (inr (n - 1, refl, get_elem?-some p.history (n - 1) (omega arith)))
        | inr inside ↦
            rw (recall, some_lines, there, inside)
              (inr (
                pos_part position,
                not_negative position there,
                get_elem?-some p.history (pos_part position) (below n position inside there),
              ))
      ]
    ]
