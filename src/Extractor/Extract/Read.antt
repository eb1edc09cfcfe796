-- ===== src/Extractor/Extract/Read.antt =====
-- What a reader has after any calls, and that a scan ends.
use acter.Prelude.{
  ◌≡◌, inl, inr, refl, sym, ap, ◌∙◌, ℕ, zero, suc, ◌+◌, ◌-◌, ◌==◌, ◌||◌, ◌≤◌, min, max, true, false,
  Bool-cases, Option, none, some, List, [], ◌∷◌, ◌++◌, Text, ltb, leb, arith,
}
use acter.Entity.{LineId, LineRevision, TerminalItem}
use acter.Extractor.{Styled, no_line, LineMap, Extractor, Grid, item, new}
use acter.Extractor.Lines.Live.{OnId, AllIds, Other, Distinct, AllIds-map}
use acter.Extractor.View.{View, view_of, is_saturated, read_line, read_rows, read_row}
use acter.Extractor.Emit.{start_line, emit_line}
use acter.Extractor.Emit.Reader.{
  Reader, read_item, read_all, read_other, Reads, IsShown, Keeps, Keeps->>, Keeps-skip, Keeps-given,
  Keeps-if,
}
use acter.Extractor.Emit.Moves.{Keeps-start_line}
use acter.Extractor.Emit.Shown.{Keeps-emit_line}
use acter.Extractor.Extract.{
  record_item, record_items, settle_from_record, scan_end, scan, scan_to, set_floor, add_base,
  reclaim, lose, extract_view, extract, settle_step, settle_all, settle_block, settle_and_forget,
  reanchor, reanchor_to_top, Call, perform, perform_all,
}

record_item-others :
    (o : Option LineId) (s : Styled) (items : List TerminalItem) (x : LineId) (r : Reader)
    → OnId (Other x) o s.text
    → ((r : Reader) → read_all items r x ≡ r x)
    → read_all (record_item o s items) r x ≡ r x
unfolding read_all
record_item-others none s items x r h k = k r
record_item-others (some id) s items x r h k =
    k (read_item (item id s LineRevision.settled) r)
    ∙ read_other id x s LineRevision.settled r (λ q. h (sym q))

record_items-others :
    (lines : LineMap) (x : LineId) (r : Reader)
    → AllIds (Other x) lines
    → read_all (record_items lines) r x ≡ r x
unfolding AllIds record_items read_all
record_items-others [] x r h = refl
record_items-others (e ∷ es) x r (h, hs) =
    record_item-others e.tracked.id e.tracked.emitted (record_items es) x r h
      (λ r. record_items-others es x r hs)

-- An id that is not given out yet is of no line.
unused :
    (e : Extractor) (r : Reader) (x : LineId)
    → e.next_id ≤ x
    → IsShown r e
    → AllIds (Other x) e.lines
unused e r x le h =
    AllIds-map (Reads e.next_id r) (Other x) e.lines (λ j t k q. absurd (omega (arith, k.0, q, le)))
      h.rows

Keeps-settle_from_record : Keeps settle_from_record
unfolding settle_from_record AllIds Distinct
Keeps-settle_from_record = record {
  at = λ r e h. record {
    rows = tt;
    distinct = tt;
    fresh = λ x le. record_items-others e.lines x r (unused e r x le h) ∙ h.fresh x le;
  };
}

settle_step-others :
    (row : ℕ) (o : Option LineId) (s line : Styled) (p : LineMap × List TerminalItem) (x : LineId)
    (r : Reader)
    → OnId (Other x) o s.text
    → ((r : Reader) → read_all p.1 r x ≡ r x)
    → read_all (settle_step row o s line p).1 r x ≡ r x
unfolding read_all
settle_step-others row none s line (rest, items) x r h k = k r
settle_step-others row (some id) s line (rest, items) x r h k =
    k (read_item (item id line LineRevision.settled) r)
    ∙ read_other id x line LineRevision.settled r (λ q. h (sym q))

settle_all-others :
    (v : View) (lines : LineMap) (x : LineId) (r : Reader)
    → AllIds (Other x) lines
    → read_all (settle_all v lines).1 r x ≡ r x
unfolding AllIds settle_all read_all
settle_all-others v [] x r h = refl
settle_all-others v (e ∷ es) x r (h, hs) =
    settle_step-others e.row e.tracked.id e.tracked.emitted (read_line v e.row).0 (settle_all v es)
      x r h (λ r. settle_all-others v es x r hs)

settle_step-AllIds :
    (P : LineId → Text → Type 0) (row : ℕ) (o : Option LineId) (s line : Styled)
    (p : LineMap × List TerminalItem)
    → AllIds P p.0 × Distinct p.0
    → AllIds P (settle_step row o s line p).0 × Distinct (settle_step row o s line p).0
unfolding AllIds Distinct
settle_step-AllIds P row none s line (rest, items) (h, k) = ((tt, h), (tt, k))
settle_step-AllIds P row (some id) s line (rest, items) (h, k) = ((tt, h), (tt, k))

-- Once a block has settled no line is live.
settle_all-AllIds :
    (P : LineId → Text → Type 0) (v : View) (lines : LineMap)
    → AllIds P (settle_all v lines).0 × Distinct (settle_all v lines).0
unfolding AllIds Distinct settle_all
settle_all-AllIds P v [] = (tt, tt)
settle_all-AllIds P v (e ∷ es) =
    settle_step-AllIds P e.row e.tracked.id e.tracked.emitted (read_line v e.row).0
      (settle_all v es) (settle_all-AllIds P v es)

pub Keeps-settle_block : (grid : Grid) → Keeps (settle_block grid)
unfolding settle_block
Keeps-settle_block grid = record {
  at = λ r e h.
      let v = view_of grid e.base in
      let (rows, distinct) =
        settle_all-AllIds (Reads e.next_id (read_all (settle_all v e.lines).1 r)) v e.lines in
      record {
        rows = rows;
        distinct = distinct;
        fresh = λ x le. settle_all-others v e.lines x r (unused e r x le h) ∙ h.fresh x le;
      };
}

pub Keeps-settle_and_forget : (grid : Grid) → Keeps (settle_and_forget grid)
unfolding settle_and_forget AllIds Distinct
Keeps-settle_and_forget grid = record {
  at = λ r e h. record {
    rows = tt;
    distinct = tt;
    fresh = λ x le.
        settle_all-others (view_of grid e.base) e.lines x r (unused e r x le h) ∙ h.fresh x le;
  };
}

Keeps-set_floor : (floor : ℕ) → Keeps (set_floor floor)
unfolding read_all
Keeps-set_floor floor = record {
  at = λ r e h. record { rows = h.rows; distinct = h.distinct; fresh = h.fresh };
}

Keeps-add_base : (history : ℕ) → Keeps (add_base history)
unfolding read_all
Keeps-add_base history = record {
  at = λ r e h. record { rows = h.rows; distinct = h.distinct; fresh = h.fresh };
}

Keeps-reclaim : (history top : ℕ) → Keeps (reclaim history top)
unfolding reclaim
Keeps-reclaim history top =
    Keeps-given
      (λ e. Keeps-if (history == 0 || ltb e.scan_floor top) Keeps-skip (Keeps-add_base history))

Keeps-scan : (turns : ℕ) (v : View) (row end : ℕ) → Keeps (scan turns v row end)
unfolding scan
Keeps-scan zero v row end = Keeps-skip
Keeps-scan (suc turns) v row end =
    Keeps-if (leb row end)
      (Keeps->> (Keeps-emit_line v row) (Keeps-scan turns v (suc (read_line v row).1) end))
      Keeps-skip

Keeps-scan_to : (v : View) (o : Option ℕ) → Keeps (scan_to v o)
Keeps-scan_to v none = Keeps-skip
Keeps-scan_to v (some end) =
    Keeps-given (λ e. Keeps-scan (suc end - e.scan_floor) v e.scan_floor end)

Keeps-lose : (gap : Text) (v : View) → Keeps (lose gap v)
unfolding lose start_line
Keeps-lose gap v =
    Keeps->>
      (Keeps->> Keeps-settle_from_record
        (Keeps-start_line 0 (record { text = gap; runs = [] }) true))
      (Keeps-set_floor v.oldest)

pub Keeps-extract : (gap : Text) (grid : Grid) → Keeps (extract gap grid)
unfolding extract extract_view
Keeps-extract gap grid = Keeps-given (λ f.
    let v = view_of grid f.base in
    Keeps->>
      (Keeps->>
        (Keeps->>
          (Keeps-given
            (λ e. Keeps-if (is_saturated v e.staging_rows) (Keeps-lose gap v) Keeps-skip))
          (Keeps-given (λ e. Keeps-set_floor (max (min e.scan_floor v.cursor) v.oldest))))
        (Keeps-given (λ e. Keeps-scan_to v (scan_end v e))))
      (Keeps-reclaim v.history v.top))

pub Keeps-reanchor : (grid : Grid) → Keeps (reanchor grid)
unfolding reanchor
Keeps-reanchor grid = Keeps-given (λ e. Keeps-set_floor (view_of grid e.base).cursor)

pub Keeps-reanchor_to_top : (grid : Grid) → Keeps (reanchor_to_top grid)
unfolding reanchor_to_top
Keeps-reanchor_to_top grid = Keeps-given (λ e. Keeps-set_floor (view_of grid e.base).top)

Keeps-perform : (gap : Text) (c : Call) → Keeps (perform gap c)
unfolding perform
Keeps-perform gap (Call.extracted grid) = Keeps-extract gap grid
Keeps-perform gap (Call.block_settled grid) = Keeps-settle_block grid
Keeps-perform gap (Call.forgotten grid) = Keeps-settle_and_forget grid
Keeps-perform gap (Call.anchored grid) = Keeps-reanchor grid
Keeps-perform gap (Call.anchored_to_top grid) = Keeps-reanchor_to_top grid

Keeps-perform_all : (gap : Text) (calls : List Call) → Keeps (perform_all gap calls)
unfolding perform_all
Keeps-perform_all gap [] = Keeps-skip
Keeps-perform_all gap (c ∷ cs) = Keeps->> (Keeps-perform gap c) (Keeps-perform_all gap cs)

abbrev pub nothing : Reader
nothing x = none

pub new-IsShown : (staging_rows : ℕ) → IsShown nothing (new staging_rows)
unfolding new AllIds Distinct
new-IsShown staging_rows = record { rows = tt; distinct = tt; fresh = λ x le. refl }

-- After any calls of the engine, whatever the grids: a reader who appends, or replaces, the text of
-- the line that each item names has of every live line the text that the extractor last recorded for
-- its row; no two rows share an id; and no item has named an id that is not given out yet.
pub perform_all-IsShown :
    (gap : Text) (staging_rows : ℕ) (calls : List Call)
    → IsShown
        (read_all (perform_all gap calls (new staging_rows)).1 nothing)
        (perform_all gap calls (new staging_rows)).0
perform_all-IsShown gap staging_rows calls =
    (Keeps-perform_all gap calls).at nothing (new staging_rows) (new-IsShown staging_rows)

last-read_rows : (v : View) (left last : ℕ) (line : Styled) → last ≤ (read_rows v left last line).1
unfolding read_rows
last-read_rows v zero last line = omega arith
last-read_rows v (suc left) last line = elim (Bool-cases (read_row v last line).1) [
  | inl wraps ↦ rw wraps (omega (arith, last-read_rows v left (suc last) (read_row v last line).0))
  | inr ends ↦ rw ends (omega arith)
]

-- A line ends on its row or below.
last-read_line : (v : View) (row : ℕ) → row ≤ (read_line v row).1
unfolding read_line
last-read_line v row = last-read_rows v (v.bottom - row) row no_line

past_end : (row end : ℕ) → suc end ≤ row → leb row end ≡ false
past_end row end h = ground (arith, h)

scan_enough :
    (n m : ℕ) (v : View) (row end : ℕ) (e : Extractor)
    → suc end ≤ row + n
    → suc end ≤ row + m
    → scan n v row end e ≡ scan m v row end e
unfolding scan
scan_enough zero zero v row end e h k = refl
scan_enough zero (suc m) v row end e h k = rw (past_end row end (omega (arith, h))) refl
scan_enough (suc n) zero v row end e h k = rw (past_end row end (omega (arith, k))) refl
scan_enough (suc n) (suc m) v row end e h k = elim (Bool-cases (leb row end)) [
  | inl within ↦ rw within (
      ap (λ p. (p.0, (emit_line v row e).1 ++ p.1))
        (scan_enough n m v (suc (read_line v row).1) end (emit_line v row e).0
          (omega (arith, h, last-read_line v row)) (omega (arith, k, last-read_line v row))))
  | inr past ↦ rw past refl
]

-- The loop over the rows ends: the turns that it is given, one for each row from the first to the
-- last, are enough, for with any more of them it does the same.
pub scan_more :
    (extra : ℕ) (v : View) (row end : ℕ) (e : Extractor)
    → scan (suc end - row + extra) v row end e ≡ scan (suc end - row) v row end e
scan_more extra v row end e =
    scan_enough (suc end - row + extra) (suc end - row) v row end e (omega arith) (omega arith)
