-- ===== src/Tests/Extracting.antt =====
-- A screen of two rows, on which a prompt is drawn and a line typed after it.
use acter.Prelude.{◌≡◌, refl, ℕ, zero, suc, ◌+◌, ◌-◌, false, some, List, [], ◌∷◌, map, Text, ltb}
use acter.Extractor.{Grid, Cell, Tracked, Extractor, default_style, new}
use acter.Extractor.Lines.{find}
use acter.Extractor.Lines.Live.{OnId}
use acter.Extractor.View.{View, view_of, read_line}
use acter.Extractor.Emit.{emit_line}
use acter.Extractor.Emit.Reader.{Reader, read_all, IsShown}
use acter.Extractor.Emit.Current.{emit_line-OnId}
use acter.Extractor.Extract.{Call, perform_all, scan}
use acter.Extractor.Extract.Read.{nothing, perform_all-IsShown, scan_more}

abbrev cells : Text → List Cell
cells =
    map λ c. record { characters = c ∷ []; is_spacer = false; wraps = false; style = default_style }

abbrev first_row : Text → ℕ → List Cell
first_row text zero = cells text
first_row text (suc row) = cells (b' ' ∷ [])

abbrev screen : Text → Grid
screen text = record {
  history = 0;
  screen_lines = 2;
  cursor_line = 0;
  alternate = false;
  rows = first_row text;
}

abbrev prompted : Grid
prompted = screen (b'>' ∷ [])

abbrev typed : Grid
typed = screen (b'>' ∷ b'l' ∷ [])

abbrev gap : Text
gap = b'.' ∷ []

abbrev calls : List Call
calls = Call.extracted prompted ∷ Call.extracted typed ∷ []

perform_all-IsShown_example :
    IsShown
      (read_all (perform_all gap calls (new 100)).1 nothing)
      (perform_all gap calls (new 100)).0
perform_all-IsShown_example = perform_all-IsShown gap 100 calls

abbrev before : Extractor
before = (perform_all gap (Call.extracted prompted ∷ []) (new 100)).0

abbrev reader : Reader
reader = read_all (perform_all gap (Call.extracted prompted ∷ []) (new 100)).1 nothing

abbrev view : View
view = view_of typed 0

on_screen : ltb (read_line view 0).1 view.top ≡ false
unfolding view_of read_line
on_screen = refl

emit_line-OnId_example :
    (t : Tracked) × (find 0 (emit_line view 0 before).0.lines ≡ some t)
    × (t.emitted.text ≡ (read_line view 0).0.text)
    × OnId
        (λ id u. read_all (emit_line view 0 before).1 reader id ≡ some (read_line view 0).0.text)
        t.id
        t.emitted.text
emit_line-OnId_example =
    emit_line-OnId view 0 reader before (perform_all-IsShown gap 100 (Call.extracted prompted ∷ []))
      on_screen

scan_more_example : scan (suc 1 - 0 + 3) view 0 1 before ≡ scan (suc 1 - 0) view 0 1 before
scan_more_example = scan_more 3 view 0 1 before
