-- ===== src/Actor/Render.antt =====
-- `ActiveCommand::render`: rows wait for the render tick, and what they show is coalesced.
pub mod Coalesce
use acter.Prelude.{Option, none, some, List, [], ◌∷◌, ◌++◌, ◌==◌, if◌then◌else◌}
use acter.Entity.{LineId, LineRevision}
use acter.Runs.{join_runs}
use acter.Actor.{Rendered}

-- The append to `unrendered.last_mut()`, and `none` where the last row is another.
unfoldable pub append_to_last : Rendered → List Rendered → Option (List Rendered)
append_to_last x [] = none
append_to_last x (r ∷ []) =
    if r.line == x.line
    then some (
        record r {
          runs = join_runs r.runs r.text x.runs;
          text = r.text ++ x.text;
          prompt = x.prompt;
        }
        ∷ [])
    else none
append_to_last x (r ∷ s ∷ rest) = elim (append_to_last x (s ∷ rest)) [
  | some grown ↦ some (r ∷ grown)
  | none ↦ none
]

-- `retain(|pending| pending.line != line)`
unfoldable pub without_row : LineId → List Rendered → List Rendered
without_row row [] = []
without_row row (r ∷ rest) =
    let others = without_row row rest in if r.line == row then others else r ∷ others

render_as : LineRevision → Rendered → List Rendered → List Rendered
unfolding append_to_last without_row
render_as LineRevision.appended x pending = elim (append_to_last x pending) [
  | some grown ↦ grown
  | none ↦ pending ++ x ∷ []
]
render_as _ x pending = without_row x.line pending ++ x ∷ []

unfoldable pub render : Rendered → List Rendered → List Rendered
unfolding render_as
render x pending = render_as x.revision x pending
