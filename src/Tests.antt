-- ===== src/Tests.antt =====
-- The theorems at concrete inputs.
mod Tracking
mod Styling
mod Pace
mod Acting
mod Typing
mod Answering
mod Connecting
mod Pumping
mod Extracting
mod Opening
