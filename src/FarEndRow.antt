-- ===== src/FarEndRow.antt =====
-- The row the far end redrew in answer to a key, and the caret in it: crates/acter-core/src/policies/far_end_row.rs.
pub mod Inside
pub mod Words
use acter.Prelude.{
  ℕ, zero, suc, ◌+◌, ◌-◌, ◌≤◌, ◌<◌, ◌≡◌, Bool, true, false, not, ◌&&◌, Option, some, none, List, [],
  ◌∷◌, ◌++◌, ltb, leb, ◌==◌, if◌then◌else◌, arith, Text, length, drop, replicate, seq_eq,
}
use acter.Entity.{LineId}
use acter.Pacing.{is_whitespace, trim_end}

pub record RowChange : Type 0 where
  pub line : LineId
  pub before : Text
  pub after : Text

-- `column` is `u16` in `Anchor` and in `Caret`.
pub record Anchor : Type 0 where
  pub line : LineId
  pub column : ℕ

pub record Caret : Type 0 where
  pub column : ℕ
  pub row : ℕ

pub record Keystroke : Type 0 where
  pub changed : List RowChange
  pub anchor : Option Anchor
  pub was : Option Caret
  pub now : Option Caret
  pub held : Text

pub data FarEndAnswer : Type 0 where
  row : Text → ℕ → FarEndAnswer
  detached : Text → FarEndAnswer
  caret : ℕ → FarEndAnswer
  nothing : FarEndAnswer

-- The characters of a text that are not whitespace, counted.
unfoldable pub weight : Text → ℕ
weight [] = 0
weight (c ∷ cs) = let rest = weight cs in if is_whitespace c then rest else suc rest

unfoldable pub gained_content : RowChange → Bool
gained_content change = ltb (weight change.before) (weight change.after)

unfoldable pub from_column : Text → ℕ → Text
from_column text column = drop column text

unfoldable pub caret_in : Text → ℕ → Option Caret → ℕ
caret_in text anchor (some c) = c.column - anchor
caret_in text anchor none = length text

unfoldable pub padded : Text → ℕ → Text
padded text at = text ++ replicate (at - length text) b' '

-- `changed.iter().find(|change| change.line == anchor.line)`
unfoldable pub find_line : LineId → List RowChange → Option RowChange
find_line wanted [] = none
find_line wanted (change ∷ rest) =
    let later = find_line wanted rest in if change.line == wanted then some change else later

unfoldable pub find_gained : List RowChange → Option RowChange
unfolding gained_content
find_gained [] = none
find_gained (change ∷ rest) =
    let later = find_gained rest in if gained_content change then some change else later

unfoldable pub anchor_column : Option Anchor → ℕ
anchor_column none = 0
anchor_column (some anchor) = anchor.column

unfoldable pub anchored_change : Option Anchor → List RowChange → Option RowChange
unfolding find_line
anchored_change none changed = none
anchored_change (some anchor) changed = find_line anchor.line changed

unfoldable pub rewritten_row : Text → ℕ → Option Caret → FarEndAnswer
unfolding from_column caret_in padded
rewritten_row after column now =
    let text = from_column after column in
    let at = caret_in text column now in FarEndAnswer.row (padded text at) at

-- The caret moved along its row to the character `at` of the line.
unfoldable pub moved_caret : Text → ℕ → FarEndAnswer
unfolding trim_end padded
moved_caret held at =
    let held_row = trim_end held in
    let text = if leb (length held_row) at then padded held_row at else held in
    if seq_eq text held then FarEndAnswer.caret at else FarEndAnswer.row text at

unfoldable pub unchanged_rows : ℕ → Text → Option Caret → Option Caret → FarEndAnswer
unfolding moved_caret
unchanged_rows column held (some was) (some now) =
    if was.row == now.row && not (was.column == now.column)
    then moved_caret held (now.column - column)
    else FarEndAnswer.nothing
unchanged_rows column held _ _ = FarEndAnswer.nothing

-- The answer when the anchored row did not change.
unfoldable pub unanchored : Keystroke → Option RowChange → FarEndAnswer
unfolding anchor_column unchanged_rows
unanchored key (some change) = FarEndAnswer.detached change.after
unanchored key none = unchanged_rows (anchor_column key.anchor) key.held key.was key.now

unfoldable pub answer : Keystroke → Option RowChange → FarEndAnswer
unfolding anchor_column rewritten_row find_gained unanchored
answer key (some change) = rewritten_row change.after (anchor_column key.anchor) key.now
answer key none = unanchored key (find_gained key.changed)

unfoldable pub far_end_row : Keystroke → FarEndAnswer
unfolding anchored_change answer
far_end_row key = answer key (anchored_change key.anchor key.changed)
