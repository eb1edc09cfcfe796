-- ===== src/SessionState.antt =====
-- Session-scoped state, crates/acter-core/src/entities/session_state.rs, and the enums of
-- entities/protocol_common.rs. The equality tests are the derived `==`.
use acter.Prelude.{Bool, true, false, ◌&&◌}
use acter.Entity.{Screen}

pub data Mode : Type 0 where
  non_interactive interactive : Mode

pub data ConnectionState : Type 0 where
  connecting connected reconnecting disconnected : ConnectionState

pub data Integration : Type 0 where
  pending integrated unintegrated : Integration

pub record SessionState : Type 0 where
  pub mode : Mode
  pub integration : Integration
  pub screen : Screen

-- `SessionState::new`
abbrev pub initial : Mode → SessionState
initial m = record { mode = m; integration = Integration.pending; screen = Screen.normal }

abbrev pub integration_markers_observed : Integration → Integration
integration_markers_observed Integration.pending = Integration.integrated
integration_markers_observed Integration.unintegrated = Integration.integrated
integration_markers_observed Integration.integrated = Integration.integrated

abbrev pub integration_grace_period_expired : Integration → Integration
integration_grace_period_expired Integration.pending = Integration.unintegrated
integration_grace_period_expired i = i

abbrev pub markers_observed : SessionState → SessionState
markers_observed s = record s { integration = integration_markers_observed s.integration }

abbrev pub grace_period_expired : SessionState → SessionState
grace_period_expired s = record s { integration = integration_grace_period_expired s.integration }

toggled : Mode → Mode
toggled Mode.non_interactive = Mode.interactive
toggled Mode.interactive = Mode.non_interactive

unfoldable pub mode_toggled : SessionState → SessionState
unfolding toggled
mode_toggled s = record s { mode = toggled s.mode }

abbrev pub alt_screen_entered : SessionState → SessionState
alt_screen_entered s = record s { screen = Screen.alternate }

abbrev pub alt_screen_left : SessionState → SessionState
alt_screen_left s = record s { screen = Screen.normal }

abbrev pub mode_eq : Mode → Mode → Bool
mode_eq Mode.non_interactive Mode.non_interactive = true
mode_eq Mode.interactive Mode.interactive = true
mode_eq _ _ = false

abbrev pub integration_eq : Integration → Integration → Bool
integration_eq Integration.pending Integration.pending = true
integration_eq Integration.integrated Integration.integrated = true
integration_eq Integration.unintegrated Integration.unintegrated = true
integration_eq _ _ = false

abbrev pub screen_eq : Screen → Screen → Bool
screen_eq Screen.normal Screen.normal = true
screen_eq Screen.alternate Screen.alternate = true
screen_eq _ _ = false

abbrev pub session_eq : SessionState → SessionState → Bool
session_eq s t =
    mode_eq s.mode t.mode
    && integration_eq s.integration t.integration
    && screen_eq s.screen t.screen
