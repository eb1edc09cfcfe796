-- ===== src/Extractor.antt =====
-- Line extraction and line identity, crates/acter-term/src/alacritty_engine/extractor.rs. `Grid` is
-- what the code reads of the emulator's grid: how many rows of history there are, the screen, and the
-- cells of each row, the oldest first. An extraction returns its items in place of pushing them.
pub mod Lines
pub mod View
pub mod Emit
pub mod Extract
use acter.Prelude.{
  ℕ, ◌+◌, ◌-◌, ◌%◌, suc, zero, Bool, true, false, not, ◌&&◌, ◌||◌, Option, none, some, List, [],
  ◌∷◌, ◌++◌, Text, ltb, ◌==◌, if◌then◌else◌,
}
use acter.Entity.{LineId, LineRevision, Style, StyleRun, TerminalItem, u32_size}
use acter.Runs.{same_style, slice_runs, utf16_len}

pub record Styled : Type 0 where
  pub text : Text
  pub runs : List StyleRun

-- The derived default.
abbrev pub no_line : Styled
no_line = record { text = []; runs = [] }

-- The derived default, which is the default style.
abbrev pub default_style : Style
default_style = record {
  fg = none;
  bg = none;
  bold = false;
  dim = false;
  italic = false;
  underline = false;
  inverse = false;
  strike = false;
}

-- `runs.last_mut()` is the last element of the list.
push_run : ℕ → ℕ → Style → List StyleRun → List StyleRun
push_run start len style [] = record { start = start; len = len; style = style } ∷ []
push_run start len style (last ∷ []) =
    if same_style last.style style && (last.start + last.len) % u32_size == start
    then record last { len = (last.len + len) % u32_size } ∷ []
    else last ∷ record { start = start; len = len; style = style } ∷ []
push_run start len style (r ∷ s ∷ runs) = r ∷ push_run start len style (s ∷ runs)

-- `Styled::push`
unfoldable pub push : List ℕ → Style → Styled → Styled
unfolding push_run utf16_len
push characters style s =
    let start = utf16_len s.text in
    let text = s.text ++ characters in
    let len = utf16_len text - start in
    record {
      text = text;
      runs =
          if same_style style default_style || len == 0
          then s.runs
          else push_run start len style s.runs;
    }

-- `id` is `none` once the line has settled.
pub record Tracked : Type 0 where
  pub id : Option LineId
  pub emitted : Styled

pub record Entry : Type 0 where
  pub row : ℕ
  pub tracked : Tracked

-- `BTreeMap`, in the order of its rows.
abbrev pub LineMap : Type 0
LineMap = List Entry

pub record Extractor : Type 0 where
  pub staging_rows : ℕ
  pub next_id : LineId
  pub base : ℕ
  pub scan_floor : ℕ
  pub lines : LineMap

unfoldable pub new : ℕ → Extractor
new staging_rows = record {
  staging_rows = staging_rows;
  next_id = 0;
  base = 0;
  scan_floor = 0;
  lines = [];
}

-- `cell.c` with its zero-width characters; `is_spacer` is either of the two flags of wide characters,
-- and `style` what `style_of` makes of the cell.
pub record Cell : Type 0 where
  pub characters : List ℕ
  pub is_spacer : Bool
  pub wraps : Bool
  pub style : Style

pub record Grid : Type 0 where
  pub history : ℕ
  pub screen_lines : ℕ
  pub cursor_line : ℕ
  pub alternate : Bool
  pub rows : ℕ → List Cell

-- `item`
abbrev pub item : LineId → Styled → LineRevision → TerminalItem
item id line revision = TerminalItem.line id line.text revision line.runs
