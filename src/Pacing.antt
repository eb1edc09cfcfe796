-- ===== src/Pacing.antt =====
-- The auto-read pacing policy, crates/acter-core/src/policies/autoread.rs, over the state and the
-- numbers of entities/pacing_state.rs. A `Duration` is a count of nanoseconds.
pub mod Measure
pub mod Guard
pub mod Deadlines
pub mod Outcomes
use acter.Prelude.{
  ℕ, zero, suc, ◌+◌, ◌-◌, ◌*◌, ◌%◌, min, Bool, true, false, not, ◌&&◌, ◌||◌, Option, none, some,
  List, [], ◌∷◌, Text, length, ltb, leb, ◌==◌, if◌then◌else◌,
}
use acter.Entity.{u32_size}

abbrev pub Duration : Type 0
Duration = ℕ

pub record PacingState : Type 0 where
  pub consecutive_auto_reads : ℕ
  pub patience_fired : Bool
  pub babble_tripped : Bool
  pub last_output_at : Duration
  pub continuous_since : Duration

pub record PacingConfig : Type 0 where
  pub quiescence : Duration
  pub patience : Duration
  pub max_lines : ℕ
  pub max_chars : ℕ
  pub babble_limit : ℕ
  pub integration_grace : Duration
  pub far_end_settle : Duration
  pub render_tick : Duration

abbrev pub from_millis : ℕ → Duration
from_millis n = n * 1_000_000

-- `PacingState::default()`
abbrev pub fresh : PacingState
fresh = record {
  consecutive_auto_reads = 0;
  patience_fired = false;
  babble_tripped = false;
  last_output_at = 0;
  continuous_since = 0;
}

-- `PacingConfig::default()`
abbrev pub default_config : PacingConfig
default_config = record {
  quiescence = from_millis 500;
  patience = from_millis 10_000;
  max_lines = 25;
  max_chars = 2000;
  babble_limit = 3;
  integration_grace = from_millis 5000;
  far_end_settle = from_millis 30;
  render_tick = from_millis 50;
}

pub record TextSize : Type 0 where
  pub lines : ℕ
  pub chars : ℕ

pub data ReadMode : Type 0 where
  auto too_big quiet : ReadMode

pub data PacingAction : Type 0 where
  nothing still_running output_continues : PacingAction
  flush : ReadMode → PacingAction

pub record PacingOutcome : Type 0 where
  pub action : PacingAction
  pub wake_after : Option Duration

abbrev pub newline : ℕ
newline = 10

abbrev pub carriage_return : ℕ
carriage_return = 13

-- `char::is_whitespace`: the White_Space property.
unfoldable pub is_whitespace : ℕ → Bool
is_whitespace c =
    (leb 0x9 c && leb c 0xd)
    || (c == 0x20)
    || (c == 0x85)
    || (c == 0xa0)
    || (c == 0x1680)
    || (leb 0x2000 c && leb c 0x200a)
    || (c == 0x2028)
    || (c == 0x2029)
    || (c == 0x202f)
    || (c == 0x205f)
    || (c == 0x3000)

push_char : ℕ → List Text → List Text
push_char c [] = (c ∷ []) ∷ []
push_char c (l ∷ ls) = (c ∷ l) ∷ ls

abbrev starts_newline : Text → Bool
starts_newline [] = false
starts_newline (c ∷ cs) = c == newline

-- `str::lines`: split after each line feed, which goes with a carriage return in front of it.
unfoldable pub lines : Text → List Text
unfolding push_char
lines [] = []
lines (c ∷ cs) =
    let rest = lines cs in
    if c == newline
    then [] ∷ rest
    else if (c == carriage_return) && starts_newline cs
    then rest
    else push_char c rest

unfoldable pub prepend_unless_blank : ℕ → Text → Text
prepend_unless_blank c [] = if is_whitespace c then [] else c ∷ []
prepend_unless_blank c (d ∷ ds) = c ∷ d ∷ ds

-- `str::trim_end`
unfoldable pub trim_end : Text → Text
unfolding prepend_unless_blank
trim_end [] = []
trim_end (c ∷ cs) = prepend_unless_blank c (trim_end cs)

unfoldable pub trimmed_chars : List Text → ℕ
trimmed_chars [] = 0
trimmed_chars (l ∷ ls) = length (trim_end l) + trimmed_chars ls

unfoldable pub measure : Text → TextSize
measure text =
    let rows = lines text in
    record { lines = length rows; chars = trimmed_chars rows + (length rows - 1) }

abbrev pub verdict : TextSize → PacingConfig → ReadMode
verdict size config =
    if ltb config.max_lines size.lines || ltb config.max_chars size.chars then too_big else auto

abbrev pub is_empty : TextSize → Bool
is_empty size = (size.lines == 0) && (size.chars == 0)

unfoldable pub next_wake : PacingState → PacingConfig → Duration → Duration
next_wake state config at =
    let quiescence = config.quiescence - (at - state.last_output_at) in
    if state.patience_fired
    then quiescence
    else min quiescence (config.patience - (at - state.continuous_since))

unfoldable pub on_output :
    PacingState → PacingConfig → TextSize → Duration → Bool → PacingState × PacingOutcome
on_output state config size at follow_mode =
    if is_empty size
    then (
      state,
      record {
        action = nothing;
        wake_after = if follow_mode then none else some (next_wake state config at);
      },
    )
    else (let since =
          if follow_mode || leb config.quiescence (at - state.last_output_at)
          then at
          else state.continuous_since in
        let next = record state { last_output_at = at; continuous_since = since } in
        if follow_mode
        then (next, record { action = flush auto; wake_after = none })
        else (next, record { action = nothing; wake_after = some (next_wake next config at) }))

-- the `match` of `flush_with_babble_guard`; `verdict` never returns `quiet`, its `unreachable!` arm
guarded : ReadMode → PacingState → PacingConfig → PacingState × PacingAction
guarded too_big state config = (record state { consecutive_auto_reads = 0 }, flush too_big)
guarded auto state config =
    if leb config.babble_limit state.consecutive_auto_reads
    then (record state { babble_tripped = true }, output_continues)
    else (
      record state { consecutive_auto_reads = (state.consecutive_auto_reads + 1) % u32_size },
      flush auto,
    )
guarded quiet state config = (state, nothing)

unfoldable pub flush_with_babble_guard :
    PacingState → PacingConfig → TextSize → PacingState × PacingAction
unfolding guarded
flush_with_babble_guard state config unspoken =
    if is_empty unspoken
    then (state, nothing)
    else if state.babble_tripped
    then (state, flush quiet)
    else guarded (verdict unspoken config) state config

unfoldable pub on_wake :
    PacingState → PacingConfig → TextSize → Duration → PacingState × PacingOutcome
unfolding flush_with_babble_guard
on_wake state config unspoken at =
    let gap = at - state.last_output_at in
    if leb config.quiescence gap
    then (let (next, action) = flush_with_babble_guard state config unspoken in
        (next, record { action = action; wake_after = none }))
    else (let remaining = some (config.quiescence - gap) in
        if not state.patience_fired && leb config.patience (at - state.continuous_since)
        then (
          record state { patience_fired = true },
          record { action = still_running; wake_after = remaining },
        )
        else (state, record { action = nothing; wake_after = remaining }))

unfoldable pub on_command_end : PacingState → PacingConfig → TextSize → PacingState × PacingOutcome
on_command_end state config unspoken = (
  state,
  record {
    action = if is_empty unspoken then nothing else flush (verdict unspoken config);
    wake_after = none;
  },
)
