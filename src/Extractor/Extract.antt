-- ===== src/Extractor/Extract.antt =====
-- `extract` and the other operations that the engine calls.
pub mod Read
use acter.Prelude.{
  ℕ, ◌+◌, ◌-◌, suc, zero, min, max, Bool, true, false, not, ◌&&◌, ◌||◌, Option, none, some, List,
  [], ◌∷◌, ◌++◌, Text, ltb, leb, ◌==◌, if◌then◌else◌,
}
use acter.Entity.{LineId, LineRevision, TerminalItem}
use acter.Extractor.{Styled, no_line, Tracked, Entry, LineMap, Extractor, Grid, item, new}
use acter.Extractor.Lines.{find}
use acter.Extractor.View.{View, view_of, is_saturated, read_line, row_is_blank}
use acter.Extractor.Emit.{Do, ◌>>◌, skip, emit, given, mint, emit_line}

abbrev pub record_item : Option LineId → Styled → List TerminalItem → List TerminalItem
record_item none emitted items = items
record_item (some id) emitted items = item id emitted LineRevision.settled ∷ items

unfoldable pub record_items : LineMap → List TerminalItem
record_items [] = []
record_items (e ∷ es) = record_item e.tracked.id e.tracked.emitted (record_items es)

unfoldable pub settle_from_record : Do
unfolding record_items
settle_from_record e = (record e { lines = [] }, record_items e.lines)

abbrev is_tracked : Option Tracked → Bool
is_tracked none = false
is_tracked (some t) = true

-- The loop of `scan_end`, from `end` down to the floor
unfoldable pub scan_end_from : View → ℕ → LineMap → ℕ → Option ℕ
unfolding find row_is_blank
scan_end_from v floor lines zero =
    if is_tracked (find 0 lines) || not (row_is_blank v 0) then some 0 else none
scan_end_from v floor lines (suc end) =
    let higher = scan_end_from v floor lines end in
    if is_tracked (find (suc end) lines) || not (row_is_blank v (suc end))
    then some (suc end)
    else if suc end == floor
    then none
    else higher

unfoldable pub scan_end : View → Extractor → Option ℕ
unfolding scan_end_from
scan_end v e = scan_end_from v e.scan_floor e.lines v.bottom

-- The `while` of `extract`, for at most `turns` turns
unfoldable pub scan : ℕ → View → ℕ → ℕ → Do
unfolding emit_line read_line
scan zero v row end = skip
scan (suc turns) v row end =
    let rest = scan turns v (suc (read_line v row).1) end in
    if leb row end then emit_line v row >> rest else skip

abbrev pub scan_to : View → Option ℕ → Do
scan_to v none = skip
scan_to v (some end) = given λ e. scan (suc end - e.scan_floor) v e.scan_floor end

abbrev pub set_floor : ℕ → Do
set_floor floor e = (record e { scan_floor = floor }, [])

abbrev pub add_base : ℕ → Do
add_base history e = (record e { base = e.base + history }, [])

-- `reclaim`; `clear_screen` drops the history that is added to `base`.
unfoldable pub reclaim : ℕ → ℕ → Do
reclaim history top =
    given λ e. if history == 0 || ltb e.scan_floor top then skip else add_base history

-- The first half of `extract`; `gap` is `SCROLLBACK_GAP`, where the history is full
unfoldable pub lose : Text → View → Do
unfolding settle_from_record
lose gap v =
    settle_from_record
    >> given (λ e. mint >> emit e.next_id (record { text = gap; runs = [] }) LineRevision.settled)
    >> set_floor v.oldest

unfoldable pub extract_view : Text → View → Do
unfolding lose is_saturated scan_end scan reclaim
extract_view gap v =
    given (λ e. if is_saturated v e.staging_rows then lose gap v else skip)
    >> given (λ e. set_floor (max (min e.scan_floor v.cursor) v.oldest))
    >> given (λ e. scan_to v (scan_end v e))
    >> reclaim v.history v.top

unfoldable pub extract : Text → Grid → Do
unfolding extract_view view_of
extract gap grid = given λ e. extract_view gap (view_of grid e.base)

abbrev pub settle_step :
    ℕ → Option LineId → Styled → Styled → LineMap × List TerminalItem → LineMap × List TerminalItem
settle_step row none emitted line (rest, items) =
    (record { row = row; tracked = record { id = none; emitted = emitted } } ∷ rest, items)
settle_step row (some id) emitted line (rest, items) = (
  record { row = row; tracked = record { id = none; emitted = line } } ∷ rest,
  item id line LineRevision.settled ∷ items,
)

-- The loop of `settle_block`; `settle_and_forget` sends the same items.
unfoldable pub settle_all : View → LineMap → LineMap × List TerminalItem
unfolding read_line
settle_all v [] = ([], [])
settle_all v (e ∷ es) =
    settle_step e.row e.tracked.id e.tracked.emitted (read_line v e.row).0 (settle_all v es)

unfoldable pub settle_block : Grid → Do
unfolding settle_all view_of
settle_block grid e =
    let (lines, items) = settle_all (view_of grid e.base) e.lines in
    (record e { lines = lines }, items)

unfoldable pub settle_and_forget : Grid → Do
unfolding settle_all view_of
settle_and_forget grid e = (record e { lines = [] }, (settle_all (view_of grid e.base) e.lines).1)

unfoldable pub reanchor : Grid → Do
unfolding view_of
reanchor grid = given λ e. set_floor (view_of grid e.base).cursor

unfoldable pub reanchor_to_top : Grid → Do
unfolding view_of
reanchor_to_top grid = given λ e. set_floor (view_of grid e.base).top

-- What the engine calls of the extractor.
pub data Call : Type 0 where
  extracted block_settled forgotten anchored anchored_to_top : Grid → Call

unfoldable pub perform : Text → Call → Do
unfolding extract settle_block settle_and_forget reanchor reanchor_to_top
perform gap (Call.extracted grid) = extract gap grid
perform gap (Call.block_settled grid) = settle_block grid
perform gap (Call.forgotten grid) = settle_and_forget grid
perform gap (Call.anchored grid) = reanchor grid
perform gap (Call.anchored_to_top grid) = reanchor_to_top grid

unfoldable pub perform_all : Text → List Call → Do
unfolding perform
perform_all gap [] = skip
perform_all gap (c ∷ cs) = perform gap c >> perform_all gap cs
