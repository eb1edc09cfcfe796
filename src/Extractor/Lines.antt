-- ===== src/Extractor/Lines.antt =====
-- The operations of the map of tracked lines.
pub mod Live
use acter.Prelude.{
  ℕ, Bool, true, false, ◌&&◌, Option, none, some, List, [], ◌∷◌, ltb, leb, ◌==◌, if◌then◌else◌,
}
use acter.Extractor.{Tracked, Entry, LineMap}

unfoldable pub find : ℕ → LineMap → Option Tracked
find row [] = none
find row (e ∷ es) = let later = find row es in if e.row == row then some e.tracked else later

unfoldable pub remove : ℕ → LineMap → LineMap
remove row [] = []
remove row (e ∷ es) = let rest = remove row es in if e.row == row then rest else e ∷ rest

-- Before the first row that is larger.
unfoldable pub put : ℕ → Tracked → LineMap → LineMap
put row t [] = record { row = row; tracked = t } ∷ []
put row t (e ∷ es) =
    let rest = put row t es in
    if ltb row e.row then record { row = row; tracked = t } ∷ e ∷ es else e ∷ rest

-- `insert`
unfoldable pub insert : ℕ → Tracked → LineMap → LineMap
unfolding put remove
insert row t lines = put row t (remove row lines)
