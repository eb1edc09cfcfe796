-- ===== src/Event.antt =====
-- The backend-to-frontend event envelope, crates/acter-core/src/entities/protocol_events.rs.
use acter.Prelude.{ℕ, Bool, Option, List, Text}
use acter.Entity.{LineId, LineRevision, StyleRun, ExitCode}
use acter.SessionState.{ConnectionState}

-- `CommandId(u32)`
abbrev pub CommandId : Type 0
CommandId = ℕ

pub data Announcement : Type 0 where
  read_aloud : Text → Announcement
  too_big : ℕ → Announcement
  still_running output_continues : Announcement
  failed : ExitCode → Announcement

pub data SessionEvent : Type 0 where
  command_started : CommandId → Option Text → SessionEvent
  output : CommandId → LineId → LineRevision → Text → Bool → List StyleRun → SessionEvent
  command_finished : CommandId → SessionEvent
  prompt_drawn : Text → SessionEvent
  command_interrupted : CommandId → SessionEvent
  integration_unavailable alt_screen_entered alt_screen_left : SessionEvent
  title_changed : Text → SessionEvent
  far_end_line : Option Text → ℕ → Bool → SessionEvent
  connection_changed : ConnectionState → SessionEvent
  announce : CommandId → Announcement → SessionEvent
