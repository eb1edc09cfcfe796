-- ===== src/Session.antt =====
-- The session service, crates/acter-core/src/services/session.rs: the window's side in `Service`, and
-- the pump that owns the transport in the other modules.
pub mod Text
pub mod Echo
pub mod Rows
pub mod Pump
pub mod Sink
pub mod Service
