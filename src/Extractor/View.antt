-- ===== src/Extractor/View.antt =====
-- `View`: the grid by absolute rows, which run from `oldest` to `bottom`.
use acter.Prelude.{
  ℕ, ◌+◌, ◌-◌, suc, zero, Bool, false, not, ◌&&◌, List, [], ◌∷◌, leb, if◌then◌else◌,
}
use acter.Pacing.{trim_end}
use acter.Runs.{slice_runs, utf16_len}
use acter.Session.Text.{is_empty_text}
use acter.Extractor.{Styled, no_line, push, Cell, Grid}

pub record View : Type 0 where
  pub grid : Grid
  pub history : ℕ
  pub oldest : ℕ
  pub top : ℕ
  pub bottom : ℕ
  pub cursor : ℕ
  pub alternate : Bool

-- `View::of`
unfoldable pub view_of : Grid → ℕ → View
view_of grid base = record {
  grid = grid;
  history = grid.history;
  oldest = base;
  top = base + grid.history;
  bottom = base + grid.history + grid.screen_lines - 1;
  cursor = base + grid.history + grid.cursor_line;
  alternate = grid.alternate;
}

unfoldable pub is_saturated : View → ℕ → Bool
is_saturated v staging_rows = not v.alternate && leb staging_rows v.history

push_cells : List Cell → Styled → Styled
unfolding push
push_cells [] line = line
push_cells (c ∷ cs) line =
    push_cells cs (if c.is_spacer then line else push c.characters c.style line)

last_wraps : List Cell → Bool
last_wraps [] = false
last_wraps (c ∷ []) = c.wraps
last_wraps (c ∷ d ∷ ds) = last_wraps (d ∷ ds)

-- `line_of` and the row it names
abbrev pub cells_of : View → ℕ → List Cell
cells_of v row = v.grid.rows (row - v.oldest)

-- `read_row`: the row's characters, and whether it wraps into the next.
unfoldable pub read_row : View → ℕ → Styled → Styled × Bool
unfolding push_cells last_wraps
read_row v row line = (push_cells (cells_of v row) line, last_wraps (cells_of v row))

-- The loop of `read_line`, with the rows that are left below `last`.
unfoldable pub read_rows : View → ℕ → ℕ → Styled → Styled × ℕ
unfolding read_row
read_rows v zero last line = ((read_row v last line).0, last)
read_rows v (suc left) last line =
    let (longer, wraps) = read_row v last line in
    let further = read_rows v left (suc last) longer in if wraps then further else (longer, last)

abbrev pub trimmed : Styled → Styled
trimmed line =
    let text = trim_end line.text in
    record { text = text; runs = slice_runs line.runs 0 (utf16_len text) }

-- `read_line`: the logical line, and the row it ends on.
unfoldable pub read_line : View → ℕ → Styled × ℕ
unfolding read_rows slice_runs utf16_len trim_end
read_line v row =
    let (line, last) = read_rows v (v.bottom - row) row no_line in (trimmed line, last)

unfoldable pub row_is_blank : View → ℕ → Bool
unfolding read_row trim_end
row_is_blank v row = is_empty_text (trim_end (read_row v row no_line).0.text)
