-- ===== src/Actor.antt =====
-- The per-session loop, crates/acter-core/src/controllers/session_actor.rs: its inputs and its state.
-- `Render` has what a command has not yet rendered, `Step` the handling of an input or a deadline and
-- `Turn` the loop with its two timers.
pub mod Render
pub mod Step
pub mod Turn
use acter.Prelude.{ℕ, Bool, true, false, Option, none, some, List, [], Text}
use acter.Entity.{LineId, LineRevision, StyleRun, ExitCode}
use acter.SessionState.{SessionState, ConnectionState, Mode, initial}
use acter.Pacing.{Duration, PacingState, PacingConfig, fresh}
use acter.Unspoken.{UnspokenText, empty}
use acter.Event.{CommandId}

pub data SessionInput : Type 0 where
  command_started : CommandId → Option Text → SessionInput
  output : LineId → LineRevision → Text → Bool → Bool → List StyleRun → SessionInput
  far_end_line : Option Text → ℕ → Bool → SessionInput
  prompt_drawn : Text → SessionInput
  connection : ConnectionState → SessionInput
  command_ended : CommandId → Option ExitCode → SessionInput
  command_interrupted : CommandId → SessionInput
  markers_observed grace_period_expired : SessionInput
  follow_mode self_talk : Bool → SessionInput
  alt_screen_entered alt_screen_left : SessionInput

pub data Wake : Type 0 where
  unchanged clear : Wake
  after : Duration → Wake

pub record Requests : Type 0 where
  pub render : Wake
  pub pacing : Wake

abbrev pub no_requests : Requests
no_requests = record { render = Wake.unchanged; pacing = Wake.unchanged }

pub record Rendered : Type 0 where
  pub line : LineId
  pub revision : LineRevision
  pub text : Text
  pub prompt : Bool
  pub runs : List StyleRun

pub record ActiveCommand : Type 0 where
  pub id : CommandId
  pub started_at : Duration
  pub pacing : PacingState
  pub unrendered : List Rendered
  pub unspoken : UnspokenText
  pub render_armed : Bool
  pub last_line : Option LineId

-- `ActiveCommand::new`
abbrev pub new_command : CommandId → Duration → ActiveCommand
new_command id started_at = record {
  id = id;
  started_at = started_at;
  pacing = fresh;
  unrendered = [];
  unspoken = empty;
  render_armed = false;
  last_line = none;
}

pub record SessionActor : Type 0 where
  pub config : PacingConfig
  pub session : SessionState
  pub follow_mode : Bool
  pub self_talk : Bool
  pub active : Option ActiveCommand
  pub requests : Requests

-- `SessionActor::new`
abbrev pub new : PacingConfig → SessionActor
new config = record {
  config = config;
  session = initial Mode.non_interactive;
  follow_mode = false;
  self_talk = false;
  active = none;
  requests = no_requests;
}
