-- ===== src/Engine.antt =====
-- The terminal engine, crates/acter-term/src/alacritty_engine.rs, and the signals of sniffer.rs. The
-- emulator and the parser of the sniffer are parameters: what bytes, a resize and a cleared history
-- make of a terminal with its parser, the grid that a terminal has, and which methods of the sniffer
-- the parser calls at one more byte.
pub mod Placed
pub mod Reads
pub mod Quiet
pub mod Silent
pub mod Told
pub mod Order
use acter.Prelude.{
  ℕ, max, Bool, true, false, Option, none, some, List, [], ◌∷◌, ◌++◌, Text, ◌==◌, if◌then◌else◌,
}
use acter.Entity.{Osc133Marker, Screen, TerminalItem}
use acter.Sniffer.{parse_osc133}
use acter.Extractor.{Extractor, Grid, new}
use acter.Extractor.Emit.{Do, ◌>>◌, skip}
use acter.Extractor.Extract.{extract, settle_block, settle_and_forget, reanchor, reanchor_to_top}

pub data Signal : Type 0 where
  marker : Osc133Marker → Signal
  screen_changed : Screen → Signal

-- `PrivateMode`: the one that `swaps_screen`, and every other
pub data PrivateMode : Type 0 where
  swap_screen_and_set_restore_cursor other_mode : PrivateMode

abbrev pub swaps_screen : PrivateMode → Bool
swaps_screen PrivateMode.swap_screen_and_set_restore_cursor = true
swaps_screen PrivateMode.other_mode = false

-- The methods of `Handler` that the sniffer has; every other method does nothing.
pub data Handled : Type 0 where
  osc : List (List ℕ) → Handled
  mode_set mode_unset : PrivateMode → Handled

unfoldable marked : Option Osc133Marker → List Signal
marked none = []
marked (some m) = Signal.marker m ∷ []

unfoldable pub unhandled_osc : List (List ℕ) → List Signal
unfolding parse_osc133 marked
unhandled_osc params = marked (parse_osc133 params)

unfoldable pub set_private_mode : PrivateMode → List Signal
set_private_mode mode =
    if swaps_screen mode then Signal.screen_changed Screen.alternate ∷ [] else []

unfoldable pub unset_private_mode : PrivateMode → List Signal
unset_private_mode mode = if swaps_screen mode then Signal.screen_changed Screen.normal ∷ [] else []

-- The signals that the parser's calls leave in the sniffer
unfoldable pub noticed : List Handled → List Signal
unfolding unhandled_osc set_private_mode unset_private_mode
noticed [] = []
noticed (Handled.osc params ∷ calls) = unhandled_osc params ++ noticed calls
noticed (Handled.mode_set mode ∷ calls) = set_private_mode mode ++ noticed calls
noticed (Handled.mode_unset mode ∷ calls) = unset_private_mode mode ++ noticed calls

-- `STAGING_ROWS`
abbrev pub staging : ℕ
staging = 10_000

pub record Emulator : Type 1 where
  pub Term : Type 0
  pub Parser : Type 0
  pub feed : List ℕ → Term → Term
  pub grid_of : Term → Grid
  pub clear_saved : Term → Term
  pub resize : ℕ → ℕ → Term → Term
  pub sniff : ℕ → Parser → Parser × List Handled
  -- A terminal of that many columns, lines and rows of history, and a parser that read nothing
  pub start : ℕ → ℕ → ℕ → Term
  pub fresh : Parser

-- A marker that ends a command settles its lines.
abbrev pub marker_settles : Osc133Marker → Grid → Do
marker_settles (Osc133Marker.command_end exit) grid = settle_block grid
marker_settles _ grid = skip

abbrev pub anchoring : Option Screen → Grid → Do
anchoring none grid = skip
anchoring (some Screen.alternate) grid = reanchor_to_top grid
anchoring (some Screen.normal) grid = reanchor grid

-- `gap` is what `extract` tells of lost output.
module _ (em : Emulator) (gap : Text) where
  pub record Engine : Type 0 where
    pub term : em.Term
    pub parser : em.Parser
    pub extractor : Extractor
    pub pending : List TerminalItem

  unfoldable pub with_staging_rows : ℕ → ℕ → ℕ → Engine
  unfolding new
  with_staging_rows columns screen_lines staging_rows = record {
    term = em.start (max columns 1) (max screen_lines 1) staging_rows;
    parser = em.fresh;
    extractor = new staging_rows;
    pending = [];
  }

  abbrev pub new_engine : ℕ → ℕ → Engine
  new_engine columns screen_lines = with_staging_rows columns screen_lines staging

  -- The extractor's method on the engine, with the grid of its terminal
  abbrev pub extracting : Do → Engine → Engine × List TerminalItem
  extracting m a = let (e, items) = m a.extractor in (record a { extractor = e }, items)

  abbrev pub cleared : Bool → em.Term → em.Term
  cleared true term = term
  cleared false term = em.clear_saved term

  -- `extractor.extract`, which clears the history that it reclaims
  unfoldable pub extract_now : Engine → Engine × List TerminalItem
  unfolding extract
  extract_now a =
      let (e, items) = extract gap (em.grid_of a.term) a.extractor in
      (record a { extractor = e; term = cleared (e.base == a.extractor.base) a.term }, items)

  -- `place`, with the screen that the engine switches to
  unfoldable pub place :
      Signal → Option Screen → Engine → (Engine × List TerminalItem) × Option Screen
  unfolding settle_block settle_and_forget
  place (Signal.marker m) renumbered a =
      let (b, items) = extracting (marker_settles m (em.grid_of a.term)) a in
      ((b, items ++ TerminalItem.marker m ∷ []), renumbered)
  place (Signal.screen_changed screen) renumbered a =
      let (b, items) = extracting (settle_and_forget (em.grid_of a.term)) a in
      ((b, items ++ TerminalItem.screen_changed screen ∷ []), some screen)

  unfoldable pub place_all :
      List Signal → Option Screen → Engine → (Engine × List TerminalItem) × Option Screen
  unfolding place
  place_all [] renumbered a = ((a, []), renumbered)
  place_all (s ∷ ss) renumbered a =
      let ((b, items), screen) = place s renumbered a in
      let ((c, later), last) = place_all ss screen b in ((c, items ++ later), last)

  abbrev pub feeding : List ℕ → Engine → Engine
  feeding bytes a = record a { term = em.feed bytes a.term }

  -- A byte that completes a sequence with signals, after the bytes of its segment
  unfoldable pub signalled : List ℕ → ℕ → List Signal → Engine → Engine × List TerminalItem
  unfolding extract_now place_all reanchor reanchor_to_top
  signalled segment byte signals a =
      let (b, printed) = extract_now (feeding segment a) in
      let ((c, placed), renumbered) = place_all signals none b in
      let d = feeding (byte ∷ []) c in
      let (f, none_of) = extracting (anchoring renumbered (em.grid_of d.term)) d in
      (f, printed ++ (placed ++ none_of))

  -- The loop of `advance`; `segment` is what was not yet fed to the terminal.
  unfoldable pub advance_from : List ℕ → List ℕ → Engine → Engine × List TerminalItem
  unfolding signalled extract_now noticed
  advance_from segment [] a = extract_now (feeding segment a)
  advance_from segment (byte ∷ bytes) a =
      let (parser, calls) = em.sniff byte a.parser in
      let sniffed = record a { parser = parser } in
      elim (noticed calls) [
        | [] ↦ advance_from (segment ++ byte ∷ []) bytes sniffed
        | s ∷ ss ↦
            let (b, items) = signalled segment byte (s ∷ ss) sniffed in
            let (c, later) = advance_from [] bytes b in (c, items ++ later)
      ]

  unfoldable pub advance : List ℕ → Engine → Engine × List TerminalItem
  unfolding advance_from
  advance bytes a =
      let (b, items) = advance_from [] bytes (record a { pending = [] }) in (b, a.pending ++ items)

  unfoldable pub resize : ℕ → ℕ → Engine → Engine
  unfolding settle_and_forget reanchor
  resize columns screen_lines a =
      let (b, items) = extracting (settle_and_forget (em.grid_of a.term)) a in
      let c = record b { term = em.resize (max columns 1) (max screen_lines 1) b.term } in
      let (d, none_of) = extracting (reanchor (em.grid_of c.term)) c in
      record d { pending = a.pending ++ items }
