-- ===== src/Actor/Render/Coalesce.antt =====
-- Coalescing what waits for the render tick changes no row of the buffer.
use acter.Runs.{join_runs, utf16_count}
use acter.Prelude.{Bool, List, [], ◌∷◌, ◌++◌, Text, ◌==◌, if◌then◌else◌, ℕ, ◌+◌}
use acter.Entity.{LineId, LineRevision, StyleRun}
use acter.Actor.{Rendered}

-- A row of the buffer: its text, the styles over it, and whether it is a prompt.
pub record Shown : Type 0 where
  pub text : Text
  pub runs : List StyleRun
  pub prompt : Bool

show_as : LineRevision → Rendered → Shown → Shown
show_as LineRevision.appended x v = record {
  text = v.text ++ x.text;
  runs = join_runs v.runs v.text x.runs;
  prompt = x.prompt;
}
show_as _ x v = record { text = x.text; runs = x.runs; prompt = x.prompt }

-- What one output does to its row: an append extends it, anything else replaces it.
pub show : Rendered → Shown → Shown
unfolding show_as
show x v = show_as x.revision x v

-- What a list of outputs leaves in the row `row` of the buffer, which held `v`.
pub shown : LineId → List Rendered → Shown → Shown
shown row [] v = v
shown row (x ∷ rest) v = shown row rest (if x.line == row then show x v else v)

-- The code units of a list of outputs, all rows together
unfoldable pub units : List Rendered → ℕ
units [] = 0
units (x ∷ rest) = utf16_count x.text + units rest

abbrev shown_one : LineId → Rendered → Shown → Shown
shown_one row x v = if x.line == row then show x v else v

-- The output `r` with the append `x` merged into it
abbrev merged_with : Rendered → Rendered → Rendered
merged_with x r = record r {
  runs = join_runs r.runs r.text x.runs;
  text = r.text ++ x.text;
  prompt = x.prompt;
}
