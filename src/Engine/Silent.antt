-- ===== src/Engine/Silent.antt =====
-- `extract` and the settling operations send lines only.
use acter.Prelude.{
  ◌≡◌, refl, ℕ, suc, zero, Option, none, some, [], ◌∷◌, Text, ltb, leb, min, max, ◌-◌, ◌==◌, ◌||◌,
  arith,
}
use acter.Entity.{LineRevision}
use acter.Extractor.{Styled, LineMap, Grid}
use acter.Extractor.View.{View, view_of, is_saturated, read_line}
use acter.Extractor.Emit.{◌>>◌, emit, given, mint, emit_line}
use acter.Extractor.Extract.{
  record_items, settle_from_record, scan_end, scan, scan_to, reclaim, lose, extract_view, extract,
  settle_all, settle_block, settle_and_forget,
}
use acter.Engine.Quiet.{
  signals_of, IsQuiet, IsQuiet-skip, IsQuiet->>, IsQuiet-given, IsQuiet-if, IsQuiet-emit_read,
  IsQuiet-set_floor, IsQuiet-add_base,
}

IsQuiet-scan : (turns : ℕ) (v : View) (row end : ℕ) → IsQuiet (scan turns v row end)
unfolding scan emit_line
IsQuiet-scan zero v row end = IsQuiet-skip
IsQuiet-scan (suc turns) v row end =
    IsQuiet-if (leb row end)
      (IsQuiet->> (IsQuiet-emit_read v row (read_line v row))
        (IsQuiet-scan turns v (suc (read_line v row).1) end))
      IsQuiet-skip

IsQuiet-scan_to : (v : View) (o : Option ℕ) → IsQuiet (scan_to v o)
IsQuiet-scan_to v none = IsQuiet-skip
IsQuiet-scan_to v (some end) =
    IsQuiet-given (λ e. IsQuiet-scan (suc end - e.scan_floor) v e.scan_floor end)

record_items-signals : (lines : LineMap) → signals_of (record_items lines) ≡ []
unfolding record_items signals_of
record_items-signals [] = refl
record_items-signals (e ∷ es) = ground (arith, record_items-signals es)

IsQuiet-settle_from_record : IsQuiet settle_from_record
unfolding settle_from_record
IsQuiet-settle_from_record = record { at = λ e. record_items-signals e.lines }

IsQuiet-told :
    (line : Styled) → IsQuiet (given λ e. mint >> emit e.next_id line LineRevision.settled)
unfolding signals_of
IsQuiet-told line = record { at = λ e. refl }

IsQuiet-lose : (gap : Text) (v : View) → IsQuiet (lose gap v)
unfolding lose
IsQuiet-lose gap v =
    IsQuiet->>
      (IsQuiet->> IsQuiet-settle_from_record (IsQuiet-told (record { text = gap; runs = [] })))
      (IsQuiet-set_floor v.oldest)

IsQuiet-reclaim : (history top : ℕ) → IsQuiet (reclaim history top)
unfolding reclaim
IsQuiet-reclaim history top =
    IsQuiet-given (λ e.
      IsQuiet-if (history == 0 || ltb e.scan_floor top) IsQuiet-skip (IsQuiet-add_base history))

pub IsQuiet-extract : (gap : Text) (grid : Grid) → IsQuiet (extract gap grid)
unfolding extract extract_view
IsQuiet-extract gap grid = IsQuiet-given (λ f.
    let v = view_of grid f.base in
    IsQuiet->>
      (IsQuiet->>
        (IsQuiet->>
          (IsQuiet-given
            (λ e. IsQuiet-if (is_saturated v e.staging_rows) (IsQuiet-lose gap v) IsQuiet-skip))
          (IsQuiet-given (λ e. IsQuiet-set_floor (max (min e.scan_floor v.cursor) v.oldest))))
        (IsQuiet-given (λ e. IsQuiet-scan_to v (scan_end v e))))
      (IsQuiet-reclaim v.history v.top))

settle_all-signals : (v : View) (lines : LineMap) → signals_of (settle_all v lines).1 ≡ []
unfolding settle_all signals_of
settle_all-signals v [] = refl
settle_all-signals v (e ∷ es) = ground (arith, settle_all-signals v es)

pub IsQuiet-settle_block : (grid : Grid) → IsQuiet (settle_block grid)
unfolding settle_block
IsQuiet-settle_block grid = record { at = λ e. settle_all-signals (view_of grid e.base) e.lines }

pub IsQuiet-settle_and_forget : (grid : Grid) → IsQuiet (settle_and_forget grid)
unfolding settle_and_forget
IsQuiet-settle_and_forget grid = record {
  at = λ e. settle_all-signals (view_of grid e.base) e.lines;
}
