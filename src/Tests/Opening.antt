-- ===== src/Tests/Opening.antt =====
-- An engine whose emulator shows, on the first of two rows, every byte that it was fed, and whose parser
-- calls the sniffer with OSC 133;D at a bell.
use acter.Prelude.{
  ◌≡◌, refl, none, ℕ, zero, suc, false, List, [], ◌∷◌, ◌++◌, map, Text, ◌==◌, if◌then◌else◌,
}
use acter.Extractor.{Grid, Cell, default_style}
use acter.Extractor.Emit.Reader.{read_all, IsShown}
use acter.Extractor.Extract.Read.{nothing}
use acter.Engine.{Emulator, Handled, Signal, new_engine, noticed, unhandled_osc}
use acter.Engine.Quiet.{signals_of}
use acter.Engine.Told.{sniffed}
use acter.Engine.Order.{bytes_of, signals_of-use_all}
use acter.Entity.{Osc133Marker}
use acter.Sniffer.{parse_osc133}
use acter.Engine.Reads.{Use, use_all, use_all-IsShown}

abbrev cells : Text → List Cell
cells =
    map λ c. record { characters = c ∷ []; is_spacer = false; wraps = false; style = default_style }

abbrev row_of : Text → ℕ → List Cell
row_of text zero = cells text
row_of text (suc row) = cells (b' ' ∷ [])

abbrev screen : Text → Grid
screen text = record {
  history = 0;
  screen_lines = 2;
  cursor_line = 0;
  alternate = false;
  rows = row_of text;
}

abbrev heard : ℕ → List Handled
heard byte =
    if byte == 7 then Handled.osc ((b'1' ∷ b'3' ∷ b'3' ∷ []) ∷ (b'D' ∷ []) ∷ []) ∷ [] else []

abbrev emulator : Emulator
emulator = record {
  Term = Text;
  Parser = Unit;
  feed = λ bytes term. term ++ bytes;
  grid_of = screen;
  clear_saved = λ term. term;
  resize = λ columns screen_lines term. term;
  sniff = λ byte parser. (parser, heard byte);
  start = λ columns screen_lines staging_rows. [];
  fresh = tt;
}

abbrev gap : Text
gap = b'.' ∷ []

abbrev uses : List (Use emulator gap)
uses =
    Use.advanced (b'l' ∷ b's' ∷ 7 ∷ b'>' ∷ []) ∷ Use.resized 80 24 ∷ Use.advanced (b'x' ∷ []) ∷ []

use_all-IsShown_example :
    let (a, items) = use_all emulator gap uses (new_engine emulator gap 80 24) in
    IsShown (read_all a.pending (read_all items nothing)) a.extractor
use_all-IsShown_example = use_all-IsShown emulator gap 80 24 uses

signals_of-use_all_example :
    signals_of (use_all emulator gap uses (new_engine emulator gap 80 24)).1
    ≡ (sniffed emulator gap tt (bytes_of emulator gap uses)).1
signals_of-use_all_example = signals_of-use_all emulator gap 80 24 uses

-- One marker, the end of a command, is returned.
marker_found :
    (sniffed emulator gap tt (bytes_of emulator gap uses)).1
    ≡ Signal.marker (Osc133Marker.command_end none) ∷ []
unfolding sniffed bytes_of noticed unhandled_osc parse_osc133
marker_found = refl
