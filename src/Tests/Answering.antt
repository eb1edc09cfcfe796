-- ===== src/Tests/Answering.antt =====
-- A space typed at the end of a command line, and a completed one.
use acter.Prelude.{some, [], ◌∷◌}
use acter.FarEndRow.{Keystroke, far_end_row}
use acter.FarEndRow.Inside.{IsInside, far_end_row-IsInside}
use acter.FarEndRow.Words.{ComesFrom, far_end_row-ComesFrom}

abbrev space_typed : Keystroke
space_typed = record {
  changed = [];
  anchor = some (record { line = 4; column = 2 });
  was = some (record { column = 4; row = 7 });
  now = some (record { column = 5; row = 7 });
  held = b'l' ∷ b's' ∷ [];
}

abbrev completed : Keystroke
completed = record {
  changed =
      record { line = 4; before = b'$' ∷ b' ' ∷ b'l' ∷ []; after = b'$' ∷ b' ' ∷ b'l' ∷ b's' ∷ [] }
      ∷ [];
  anchor = some (record { line = 4; column = 2 });
  was = some (record { column = 3; row = 7 });
  now = some (record { column = 5; row = 7 });
  held = b'l' ∷ [];
}

far_end_row-IsInside_example : IsInside space_typed.held (far_end_row space_typed)
far_end_row-IsInside_example = far_end_row-IsInside space_typed

far_end_row-ComesFrom_example : ComesFrom completed (far_end_row completed)
far_end_row-ComesFrom_example = far_end_row-ComesFrom completed
