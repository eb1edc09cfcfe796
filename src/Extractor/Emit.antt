-- ===== src/Extractor/Emit.antt =====
-- `emit_line` and what it calls. `Do` is a method: the extractor after it, and the items it pushes.
pub mod Reader
pub mod Moves
pub mod Swallow
pub mod Below
pub mod Shown
pub mod Current
use acter.Prelude.{
  ℕ, ◌+◌, ◌-◌, suc, zero, Bool, true, false, not, ◌&&◌, ◌||◌, Option, none, some, List, [], ◌∷◌,
  ◌++◌, Text, ltb, leb, ◌==◌, if◌then◌else◌, seq_eq,
}
use acter.Entity.{LineId, LineRevision, Style, StyleRun, TerminalItem}
use acter.Runs.{slice_runs, utf16_len, same_style}
use acter.Session.Text.{strip_prefix}
use acter.Extractor.{Styled, no_line, Tracked, Entry, LineMap, Extractor, item}
use acter.Extractor.Lines.{find, remove, insert}
use acter.Extractor.View.{View, read_line}

abbrev pub Do : Type 0
Do = Extractor → Extractor × List TerminalItem

infixl 5 ◌>>◌
abbrev pub ◌>>◌ : Do → Do → Do
◌>>◌ m k e = let (f, items) = m e in let (g, later) = k f in (g, items ++ later)

abbrev pub skip : Do
skip e = (e, [])

abbrev pub emit : LineId → Styled → LineRevision → Do
emit id line revision e = (e, item id line revision ∷ [])

abbrev pub given : (Extractor → Do) → Do
given f e = f e e

abbrev pub track : ℕ → Tracked → Do
track row t e = (record e { lines = insert row t e.lines }, [])

abbrev pub forget : ℕ → Do
forget row e = (record e { lines = remove row e.lines }, [])

-- `mint`: the id is that of the extractor before.
abbrev pub mint : Do
mint e = (record e { next_id = suc e.next_id }, [])

abbrev same_run : StyleRun → StyleRun → Bool
same_run a b = a.start == b.start && a.len == b.len && same_style a.style b.style

-- The derived `==` on runs.
unfoldable pub same_runs : List StyleRun → List StyleRun → Bool
unfolding same_style
same_runs [] [] = true
same_runs (a ∷ as') (b ∷ bs) = same_run a b && same_runs as' bs
same_runs _ _ = false

abbrev pub is_empty : Text → Bool
is_empty [] = true
is_empty (c ∷ cs) = false

-- `revise`, once the text is known to start as before or not
unfoldable pub revise_from : Option Text → LineId → Styled → Styled → Do
unfolding slice_runs utf16_len same_runs
revise_from none id was now = emit id now LineRevision.rewritten
revise_from (some delta) id was now =
    if same_runs (slice_runs now.runs 0 (utf16_len was.text)) was.runs
    then (if is_empty delta
        then skip
        else emit id
            (record {
              text = delta;
              runs = slice_runs now.runs (utf16_len was.text) (utf16_len now.text);
            })
            LineRevision.appended)
    else emit id now LineRevision.rewritten

unfoldable pub revise : LineId → Styled → Styled → Do
unfolding revise_from strip_prefix
revise id was now = revise_from (strip_prefix was.text now.text) id was now

-- Whether a row lies after the first and not after the second.
abbrev pub is_between : ℕ → ℕ → ℕ → Bool
is_between row last key = ltb row key && leb key last

abbrev pub gone_items : Tracked → List TerminalItem
gone_items t = elim t.id [ none ↦ [] | some id ↦ item id no_line LineRevision.settled ∷ [] ]

unfoldable pub swallow : ℕ → ℕ → LineMap → LineMap × List TerminalItem
swallow row last [] = ([], [])
swallow row last (e ∷ es) =
    let (rest, items) = swallow row last es in
    if is_between row last e.row then (rest, gone_items e.tracked ++ items) else (e ∷ rest, items)

-- `absorb`: rows swallowed as continuations settle empty.
unfoldable pub absorb : ℕ → ℕ → Do
unfolding swallow
absorb row last e =
    let (lines, items) = swallow row last e.lines in (record e { lines = lines }, items)

-- What a row below takes from the one under it, or the fresh line where there is none.
abbrev pub taken_or : LineId → Option (LineId × Styled) → Tracked
taken_or fresh none = record { id = some fresh; emitted = no_line }
taken_or fresh (some (id, emitted)) = record { id = some id; emitted = emitted }

-- One row, from what the rows under it leave to it.
abbrev pub hand_step :
    Bool
    → ℕ
    → Option LineId
    → Styled
    → LineId
    → Option (LineId × Styled) × LineMap
    → Option (LineId × Styled) × LineMap
hand_step is_below row none s fresh (taken, rest) =
    (taken, record { row = row; tracked = record { id = none; emitted = s } } ∷ rest)
hand_step true row (some id) s fresh (taken, rest) =
    (some (id, s), record { row = row; tracked = taken_or fresh taken } ∷ rest)
hand_step false row (some id) s fresh (taken, rest) =
    (taken, record { row = row; tracked = record { id = some id; emitted = s } } ∷ rest)

-- Every live line below `last` takes the id and the text of the next; the first one's are returned.
unfoldable pub hand_down : ℕ → LineId → LineMap → Option (LineId × Styled) × LineMap
hand_down last fresh [] = (none, [])
hand_down last fresh (e ∷ es) =
    hand_step (ltb last e.row) e.row e.tracked.id e.tracked.emitted fresh (hand_down last fresh es)

-- A line that was never shown, `settled` where it has left the screen.
unfoldable pub start_line : ℕ → Styled → Bool → Do
start_line row line settled = given λ e.
    mint
    >> (if settled
        then emit e.next_id line LineRevision.settled
        else emit e.next_id line LineRevision.appended
          >> track row (record { id = some e.next_id; emitted = line }))

-- A line that is shown as `shown` under `id`.
unfoldable pub show_line : ℕ → LineId → Styled → Styled → Bool → Do
unfolding revise insert
show_line row id shown line settled =
    if settled
    then emit id line LineRevision.settled
    else revise id shown line >> track row (record { id = some id; emitted = line })

-- The match on `take_place_below`
unfoldable pub take_place : ℕ → Styled → Bool → Option (LineId × Styled) × LineMap → Do
unfolding start_line show_line
take_place row line settled (none, lines) = start_line row line settled
take_place row line settled (some (id, shown), lines) =
    given (λ e.
      (λ f. (record f { lines = lines }, []))
      >> mint
      >> emit e.next_id no_line LineRevision.appended)
    >> show_line row id shown line settled

-- The arm of a line that is new on its row
unfoldable pub new_line : ℕ → ℕ → Styled → Bool → Do
unfolding absorb take_place hand_down
new_line row last line settled =
    absorb row last >> given λ e. take_place row line settled (hand_down last e.next_id e.lines)

-- The `match` of `emit_line` on what was on the row
unfoldable pub place : ℕ → ℕ → Styled → Bool → Option Tracked → Do
unfolding show_line new_line insert
place row last line settled none = new_line row last line settled
place row last line settled (some t) = elim t.id [
  | some id ↦ show_line row id t.emitted line settled
  | none ↦
      if seq_eq t.emitted.text line.text
      then (if settled then skip else track row t)
      else new_line row last line settled
]

abbrev pub raise_floor : Bool → ℕ → Do
raise_floor true floor e = (record e { scan_floor = floor }, [])
raise_floor false floor e = (e, [])

-- `emit_line` of the line read; it ends on `last`.
unfoldable pub emit_read : View → ℕ → Styled × ℕ → Do
unfolding place absorb find remove
emit_read v row (line, last) =
    let settled = ltb last v.top in
    given (λ e. forget row >> place row last line settled (find row e.lines))
    >> absorb row last
    >> raise_floor settled (suc last)

unfoldable pub emit_line : View → ℕ → Do
unfolding emit_read read_line
emit_line v row = emit_read v row (read_line v row)
