-- ===== src/Entity.antt =====
-- The values of crates/acter-core/src/entities that the policies read: line identity and revision,
-- styles, OSC 133 markers, the items of a terminal engine's stream and the session's state.
use acter.Prelude.{ℕ, ◌^◌, Bool, true, false, Option, List, Text, ℤ}

abbrev pub u32_size : ℕ
u32_size = 2 ^ 32

abbrev pub usize_size : ℕ
usize_size = 2 ^ 64

-- `LineId(u64)`
abbrev pub LineId : Type 0
LineId = ℕ

-- `ExitCode(i32)`
abbrev pub ExitCode : Type 0
ExitCode = ℤ

pub data LineRevision : Type 0 where
  appended rewritten settled : LineRevision

pub data Screen : Type 0 where
  normal alternate : Screen

pub data Colour : Type 0 where
  named : ℕ → Colour
  indexed : ℕ → Colour
  rgb : ℕ → ℕ → ℕ → Colour

pub record Style : Type 0 where
  pub fg : Option Colour
  pub bg : Option Colour
  pub bold : Bool
  pub dim : Bool
  pub italic : Bool
  pub underline : Bool
  pub inverse : Bool
  pub strike : Bool

-- `start` and `len` are `u32`.
pub record StyleRun : Type 0 where
  pub start : ℕ
  pub len : ℕ
  pub style : Style

pub data Osc133Marker : Type 0 where
  prompt_start command_start output_start : Osc133Marker
  command_end : Option ExitCode → Osc133Marker

pub data TerminalItem : Type 0 where
  line : LineId → Text → LineRevision → List StyleRun → TerminalItem
  marker : Osc133Marker → TerminalItem
  screen_changed : Screen → TerminalItem

pub data ShellMarkers : Type 0 where
  full prompt_and_command_line prompt_command_line_and_exit_code : ShellMarkers

abbrev pub marks_output_start : ShellMarkers → Bool
marks_output_start ShellMarkers.full = true
marks_output_start _ = false

abbrev pub reports_exit_code : ShellMarkers → Bool
reports_exit_code ShellMarkers.prompt_and_command_line = false
reports_exit_code _ = true
