-- ===== src/Lib.antt =====
-- Acter: a terminal for screen readers. A shell's output is cut into rows, rows are cut into command
-- blocks, and the session decides what goes to the buffer and what is spoken, and when.
--
-- The parts, with the file of each, its code under crates/acter-core/src unless another crate is
-- named:
--
--   Entity        entities/terminal_item.rs, osc133.rs, shell_markers.rs, style_run.rs (the types)
--   Sniffer       crates/acter-term/src/alacritty_engine/sniffer.rs: parse_osc133, exit_code
--   Extractor     crates/acter-term/src/alacritty_engine/extractor.rs: Extractor.View is View,
--                 Extractor.Emit emit_line and what it calls, Extractor.Extract the operations that
--                 the engine calls
--   Engine        crates/acter-term/src/alacritty_engine.rs: AlacrittyEngine::advance and resize, with
--                 the methods of Handler that sniffer.rs has
--   Tracker       policies/boundary_tracker.rs: BoundaryTracker::observe and what it calls
--   Runs          entities/style_run.rs: slice_runs, join_runs, utf16_len
--   Pacing        policies/autoread.rs and entities/pacing_state.rs: measure, verdict, on_output,
--                 on_wake, on_command_end
--   Unspoken      entities/unspoken_text.rs: UnspokenText
--   SessionState  entities/session_state.rs; Event: entities/protocol_events.rs
--   Actor         controllers/session_actor.rs: the inputs and the state; Actor.Render is
--                 ActiveCommand::render, Actor.Step the methods of SessionActor, Actor.Turn the loop
--                 of SessionActor::run with its two timers
--   Keys          policies/key_bytes.rs and policies/keybindings.rs
--   FarEndRow     policies/far_end_row.rs
--   Conversation  services/conversation.rs: ask, answer and the reading of the answers
--   Session       services/session.rs: Session.Pump is Pump with its loop, by the methods on blocks,
--                 output, the far end's line and one event; Session.Text what it uses of str;
--                 Session.Service is SessionService, Session.Service.Whole the session with the
--                 actor, Session.Sink is AttachedSink
--
-- The sniffer's markers and the engine's rows are the items that the tracker labels; the pump turns
-- the tracker's events into the actor's inputs; the actor asks the pacing policy what to say, holds
-- what it has not said in an UnspokenText, and sends events. Keys and FarEndRow are what a typed key
-- sends and what its answer shows.
--
-- Correspondence. A `&mut self` method is a function from a state to a state; events that the code
-- sends or returns are a list. A method of SessionActor is an `Act`, a function from the actor to the
-- actor and the events sent, composed by `>>`; the sink is that list and the clock is an argument.
-- A timer is the time at which it is due, and `Runs` is any sequence of turns, each with an input or
-- with a timer that is due. Characters are Unicode scalar values, a text is a list of them, and
-- durations count nanoseconds. `str::lines`, `str::trim_end` and `char::len_utf16` are written out
-- as the standard library documents them.
--
-- The thread of a connection that asks and the window that answers interleave in any order: `Call` is
-- one step of either. A question is known by the number of its channel.
--
-- A method of Pump is a `Do`, a function from the pump to the pump and its effects in order: bytes
-- written, inputs sent, interrupts. The engine is what it makes of one read (`Advanced`: the items, the
-- replies, the cursor and the modes), and `char::is_alphanumeric` a field of the pump. A turn of the
-- pump, a turn of the actor and a call of the window are each one step of a `Whole` session, in any
-- order; `submit_command` is two steps, since the pump may take the line before the call says that a
-- command runs. Text lengths in bytes are those of UTF-8. Ids and the running flag, which the code
-- shares by atomics, are the pump's.
--
-- A method of Extractor returns the items that the code pushes; the grid of the emulator is `Grid`, an
-- argument of each call, and a panic on a row outside of it is not modelled. The map of lines is a
-- list in the order of its rows. The loop over the rows has one turn for each row that is left.
--
-- The emulator and the parser of the sniffer (alacritty_terminal, vte) are a parameter of Engine, with
-- no hypothesis: what bytes and a resize make of a terminal, its grid, and the methods of Handler
-- that a byte calls.
--
-- Bounds. Code units of runs wrap at 2 ^ 32 (`u32_size`) where the code adds u32 and casts; the
-- babble counter is a u32; character counts saturate at 2 ^ 64 (`usize_size`). Every loop of the
-- program is structural, or has its number of turns as an argument (`scan`). `print_digits`
-- prints up to one digit more than its fuel, and the fuel is the number itself.
--
-- Not modelled: the connection service; the replies, the cursor, the screen and the modes that the
-- terminal engine reads off the emulator; the transports, shell discovery and the window, which are
-- I/O or other components; serialisation.
mod Prelude
pub mod Entity
pub mod Runs
pub mod Pacing
pub mod Unspoken
pub mod SessionState
pub mod Event
pub mod Actor
pub mod Keys
pub mod FarEndRow
pub mod Sniffer
pub mod Tracker
pub mod Conversation
pub mod Session
pub mod Extractor
pub mod Engine
mod Tests
