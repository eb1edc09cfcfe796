-- ===== src/Engine/Quiet.antt =====
-- The extractor sends lines only: the markers and the screen switches are the engine's.
use acter.Prelude.{
  ◌≡◌, refl, ◌∙◌, ap, ℕ, suc, Bool, true, false, Option, none, some, List, [], ◌∷◌, ◌++◌, Text, ltb,
  seq_eq, if◌then◌else◌, arith,
}
use acter.Entity.{LineId, LineRevision, TerminalItem}
use acter.Runs.{slice_runs, utf16_len}
use acter.Session.Text.{strip_prefix}
use acter.Extractor.{Styled, no_line, Tracked, LineMap, Extractor}
use acter.Extractor.Lines.{find}
use acter.Extractor.View.{View}
use acter.Extractor.Emit.{
  Do, ◌>>◌, skip, emit, given, track, forget, mint, is_empty, same_runs, revise_from, revise,
  swallow, absorb, hand_down, start_line, show_line, take_place, new_line, place, raise_floor,
  emit_read,
}
use acter.Extractor.Extract.{set_floor, add_base}
use acter.Engine.{Signal}

-- The signals among the items, in their order
unfoldable pub signals_of : List TerminalItem → List Signal
signals_of [] = []
signals_of (TerminalItem.line id text revision runs ∷ items) = signals_of items
signals_of (TerminalItem.marker m ∷ items) = Signal.marker m ∷ signals_of items
signals_of (TerminalItem.screen_changed s ∷ items) = Signal.screen_changed s ∷ signals_of items

pub signals_of-append :
    (xs ys : List TerminalItem) → signals_of (xs ++ ys) ≡ signals_of xs ++ signals_of ys
unfolding signals_of
signals_of-append [] ys = refl
signals_of-append (TerminalItem.line id text revision runs ∷ xs) ys = signals_of-append xs ys
signals_of-append (TerminalItem.marker m ∷ xs) ys =
    ap (λ t. Signal.marker m ∷ t) (signals_of-append xs ys)
signals_of-append (TerminalItem.screen_changed s ∷ xs) ys =
    ap (λ t. Signal.screen_changed s ∷ t) (signals_of-append xs ys)

pub record IsQuiet (m : Do) : Type 0 where
  pub at : (e : Extractor) → signals_of (m e).1 ≡ []

pub IsQuiet-skip : IsQuiet skip
unfolding signals_of
IsQuiet-skip = record { at = λ e. refl }

IsQuiet-emit : (id : LineId) (line : Styled) (v : LineRevision) → IsQuiet (emit id line v)
unfolding signals_of
IsQuiet-emit id line v = record { at = λ e. refl }

pub IsQuiet->> : {m k : Do} → IsQuiet m → IsQuiet k → IsQuiet (m >> k)
IsQuiet->> {m} {k} h h' = record {
  at = λ e. signals_of-append (m e).1 (k (m e).0).1 ∙ rw (h.at e, h'.at (m e).0) refl;
}

pub IsQuiet-given : {f : Extractor → Do} → ((e : Extractor) → IsQuiet (f e)) → IsQuiet (given f)
IsQuiet-given h = record { at = λ e. (h e).at e }

pub IsQuiet-if : {m k : Do} (b : Bool) → IsQuiet m → IsQuiet k → IsQuiet (if b then m else k)
IsQuiet-if true h h' = h
IsQuiet-if false h h' = h'

pub IsQuiet-track : (row : ℕ) (t : Tracked) → IsQuiet (track row t)
unfolding signals_of
IsQuiet-track row t = record { at = λ e. refl }

IsQuiet-forget : (row : ℕ) → IsQuiet (forget row)
unfolding signals_of
IsQuiet-forget row = record { at = λ e. refl }

IsQuiet-mint : IsQuiet mint
unfolding signals_of
IsQuiet-mint = record { at = λ e. refl }

pub IsQuiet-set_floor : (floor : ℕ) → IsQuiet (set_floor floor)
unfolding signals_of
IsQuiet-set_floor floor = record { at = λ e. refl }

pub IsQuiet-add_base : (history : ℕ) → IsQuiet (add_base history)
unfolding signals_of
IsQuiet-add_base history = record { at = λ e. refl }

IsQuiet-revise_from :
    (o : Option Text) (id : LineId) (was now : Styled) → IsQuiet (revise_from o id was now)
unfolding revise_from
IsQuiet-revise_from none id was now = IsQuiet-emit id now LineRevision.rewritten
IsQuiet-revise_from (some delta) id was now =
    IsQuiet-if (same_runs (slice_runs now.runs 0 (utf16_len was.text)) was.runs)
      (IsQuiet-if (is_empty delta) IsQuiet-skip (
        IsQuiet-emit id
          (record {
            text = delta;
            runs = slice_runs now.runs (utf16_len was.text) (utf16_len now.text);
          })
          LineRevision.appended))
      (IsQuiet-emit id now LineRevision.rewritten)

IsQuiet-show_line :
    (row : ℕ) (id : LineId) (shown line : Styled) (settled : Bool)
    → IsQuiet (show_line row id shown line settled)
unfolding show_line revise
IsQuiet-show_line row id shown line settled =
    IsQuiet-if settled (IsQuiet-emit id line LineRevision.settled) (
      IsQuiet->> (IsQuiet-revise_from (strip_prefix shown.text line.text) id shown line)
        (IsQuiet-track row (record { id = some id; emitted = line })))

IsQuiet-start_line :
    (row : ℕ) (line : Styled) (settled : Bool) → IsQuiet (start_line row line settled)
unfolding start_line
IsQuiet-start_line row line settled = IsQuiet-given (λ e. IsQuiet->> IsQuiet-mint (
    IsQuiet-if settled (IsQuiet-emit e.next_id line LineRevision.settled) (
      IsQuiet->> (IsQuiet-emit e.next_id line LineRevision.appended)
        (IsQuiet-track row (record { id = some e.next_id; emitted = line })))))

IsQuiet-blank :
    (lines : LineMap)
    → IsQuiet (
        given λ e.
          (λ f. (record f { lines = lines }, []))
          >> mint
          >> emit e.next_id no_line LineRevision.appended)
unfolding signals_of
IsQuiet-blank lines = record { at = λ e. refl }

IsQuiet-take_place :
    (row : ℕ) (line : Styled) (settled : Bool) (p : Option (LineId × Styled) × LineMap)
    → IsQuiet (take_place row line settled p)
unfolding take_place signals_of
IsQuiet-take_place row line settled (none, lines) = IsQuiet-start_line row line settled
IsQuiet-take_place row line settled (some (id, shown), lines) =
    IsQuiet->> (IsQuiet-blank lines) (IsQuiet-show_line row id shown line settled)

swallow-signals : (row last : ℕ) (lines : LineMap) → signals_of (swallow row last lines).1 ≡ []
unfolding swallow signals_of
swallow-signals row last [] = refl
swallow-signals row last (e ∷ es) = ground (arith, swallow-signals row last es)

IsQuiet-absorb : (row last : ℕ) → IsQuiet (absorb row last)
unfolding absorb
IsQuiet-absorb row last = record { at = λ e. swallow-signals row last e.lines }

IsQuiet-new_line :
    (row last : ℕ) (line : Styled) (settled : Bool) → IsQuiet (new_line row last line settled)
unfolding new_line
IsQuiet-new_line row last line settled =
    IsQuiet->> (IsQuiet-absorb row last)
      (IsQuiet-given (λ e. IsQuiet-take_place row line settled (hand_down last e.next_id e.lines)))

place-IsQuiet :
    (row last : ℕ) (line : Styled) (settled : Bool) (o : Option LineId) (s : Styled)
    → IsQuiet (place row last line settled (some (record { id = o; emitted = s })))
unfolding place
place-IsQuiet row last line settled (some id) s = IsQuiet-show_line row id s line settled
place-IsQuiet row last line settled none s =
    IsQuiet-if (seq_eq s.text line.text)
      (IsQuiet-if settled IsQuiet-skip (IsQuiet-track row (record { id = none; emitted = s })))
      (IsQuiet-new_line row last line settled)

IsQuiet-place :
    (row last : ℕ) (line : Styled) (settled : Bool) (o : Option Tracked)
    → IsQuiet (place row last line settled o)
unfolding place
IsQuiet-place row last line settled none = IsQuiet-new_line row last line settled
IsQuiet-place row last line settled (some t) = place-IsQuiet row last line settled t.id t.emitted

IsQuiet-raise_floor : (b : Bool) (floor : ℕ) → IsQuiet (raise_floor b floor)
IsQuiet-raise_floor true floor = IsQuiet-set_floor floor
IsQuiet-raise_floor false floor = IsQuiet-skip

pub IsQuiet-emit_read : (v : View) (row : ℕ) (p : Styled × ℕ) → IsQuiet (emit_read v row p)
unfolding emit_read
IsQuiet-emit_read v row (line, last) =
    IsQuiet->>
      (IsQuiet->>
        (IsQuiet-given (λ e.
          IsQuiet->> (IsQuiet-forget row)
            (IsQuiet-place row last line (ltb last v.top) (find row e.lines))))
        (IsQuiet-absorb row last))
      (IsQuiet-raise_floor (ltb last v.top) (suc last))
