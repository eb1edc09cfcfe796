-- ===== src/Tests/Styling.antt =====
-- Runs over a short line.
use acter.Prelude.{◌+◌, ◌-◌, ◌≡◌, false, true, none, List, [], ◌∷◌, ltb, if◌then◌else◌, arith}
use acter.Entity.{Style, StyleRun}
use acter.Runs.{slice_runs, join_runs, utf16_count}
use acter.Runs.Styles.{style_at, style_at-slice_runs}
use acter.Runs.Joins.{style_at-join_runs, style_at-join_runs-slice_runs}

abbrev bold : Style
bold = record {
  fg = none;
  bg = none;
  bold = true;
  dim = false;
  italic = false;
  underline = false;
  inverse = false;
  strike = false;
}

abbrev first_two : List StyleRun
first_two = record { start = 0; len = 2; style = bold } ∷ []

style_at-slice_runs_example :
    style_at (slice_runs first_two 1 3) 0
    ≡ (if ltb 0 (3 - 1) then style_at first_two (1 + 0) else none)
style_at-slice_runs_example = style_at-slice_runs first_two 4 1 3 0 (omega arith) (omega arith, tt)

style_at-join_runs_example : style_at (join_runs first_two (b'a' ∷ b'b' ∷ []) first_two) 3 ≡ (
    if ltb 3 (utf16_count (b'a' ∷ b'b' ∷ []))
    then style_at first_two 3
    else style_at first_two (3 - utf16_count (b'a' ∷ b'b' ∷ [])))
unfolding utf16_count
style_at-join_runs_example =
    style_at-join_runs first_two (b'a' ∷ b'b' ∷ []) first_two 2 3 (omega arith) (omega arith, tt)
      (omega arith, tt)

style_at-join_runs-slice_runs_example :
    style_at
      (join_runs
        (slice_runs first_two 0 (utf16_count (b'a' ∷ [])))
        (b'a' ∷ [])
        (slice_runs first_two (utf16_count (b'a' ∷ [])) 4))
      1
    ≡ style_at first_two 1
unfolding utf16_count
style_at-join_runs-slice_runs_example =
    style_at-join_runs-slice_runs first_two (b'a' ∷ []) 4 1 (omega arith) (omega arith)
      (omega arith, tt)
