-- ===== src/Session/Service.antt =====
-- `SessionService`: what the window calls, and the queue of requests to the pump. The pump's loop
-- holds the id counter and the running flag that the two share.
pub mod Whole
use acter.Prelude.{
  ℕ, Bool, true, false, not, ◌&&◌, Option, none, some, List, [], ◌∷◌, ◌++◌, Text, ltb, length,
  if◌then◌else◌,
}
use acter.Entity.{ShellMarkers}
use acter.SessionState.{Integration}
use acter.Event.{CommandId}
use acter.Pacing.{PacingConfig}
use acter.Keys.{KeyPress, TerminalModes, LineOwner, SessionIntent, Binding, binding_for}
use acter.Tracker
use acter.Session.Echo.{no_echo}
use acter.Session.Pump.{Cursor, FarEndLine, Pump, mint}
use acter.Session.Pump.Output.{is_far_end}
use acter.Session.Pump.Turn.{Request, Loop}

-- `REQUESTS`
abbrev pub queue_size : ℕ
queue_size = 64

pub data SubmitAck : Type 0 where
  accepted : CommandId → SubmitAck
  not_connected : SubmitAck

pub data KeyAck : Type 0 where
  unbound applied nothing_to_act_on unsupported : KeyAck

-- `setup` is the line of the setup.
pub record ShellFacts : Type 0 where
  pub markers : ShellMarkers
  pub eof : Option (List ℕ)
  pub discards_line : Option ℕ
  pub setup : Option Text

pub record Service : Type 0 where
  pub loop : Loop
  pub inbox : List Request
  pub far_end_line : Bool
  pub eof : Option (List ℕ)

-- The derived default.
abbrev pub no_far_end_line : FarEndLine
no_far_end_line = record {
  owner = LineOwner.local;
  anchor = none;
  awaiting_prompt = false;
  changed = [];
  watching = false;
  was = none;
  printed = [];
  held = [];
  left = none;
}

unfoldable pub new_pump : (ℕ → Bool) → Cursor → TerminalModes → PacingConfig → ShellFacts → Pump
new_pump alphanumeric cursor modes config shell = record {
  is_alphanumeric = alphanumeric;
  engine_cursor = cursor;
  modes = modes;
  tracker = Tracker.new shell.markers;
  grace = config.integration_grace;
  quiescence = config.quiescence;
  far_end_settle = config.far_end_settle;
  next_id = 1;
  running = false;
  integration = Integration.pending;
  drawing = none;
  standing = none;
  spoken = false;
  setup = shell.setup;
  self_talk = none;
  discards_line = shell.discards_line;
  markers = shell.markers;
  submitted = [];
  echo = no_echo;
  opened = none;
  interrupted = false;
  cleared_at_idle = false;
  unshown = false;
  lines = [];
  held = none;
  row = [];
  cursor = none;
  pending_row = none;
  far_end = no_far_end_line;
}

-- `SessionService::start`
unfoldable pub start : (ℕ → Bool) → Cursor → TerminalModes → PacingConfig → ShellFacts → Service
unfolding new_pump
start alphanumeric cursor modes config shell = record {
  loop = record {
    pump = new_pump alphanumeric cursor modes config shell;
    grace_timer = none;
    settled_timer = none;
    stopped = false;
  };
  inbox = [];
  far_end_line = false;
  eof = shell.eof;
}

-- `requests.try_send`: refused where the queue is full or the pump is gone.
unfoldable pub try_send : Request → Service → Bool × Service
try_send r s =
    if not s.loop.stopped && ltb (length s.inbox) queue_size
    then (true, record s { inbox = s.inbox ++ r ∷ [] })
    else (false, s)

abbrev pub with_pump : (Pump → Pump) → Service → Service
with_pump f s = record s { loop = record s.loop { pump = f s.loop.pump } }

-- `submit_command` up to `try_send`, with whether the line was taken
unfoldable pub begin_submit : Text → Service → (SubmitAck × Bool) × Service
unfolding try_send
begin_submit line s =
    let id = s.loop.pump.next_id in
    let (taken, t) = try_send (Request.submit id line) (with_pump mint s) in
    ((SubmitAck.accepted id, taken), t)

-- `running.store(true)`
abbrev pub say_running : Service → Service
say_running = with_pump λ p. record p { running = true }

unfoldable pub submit_command : Text → Service → SubmitAck × Service
unfolding begin_submit
submit_command line s =
    let ((ack, taken), t) = begin_submit line s in (ack, if taken then say_running t else t)

abbrev pub owner : Service → LineOwner
owner s = if s.far_end_line then LineOwner.far_end else LineOwner.local

abbrev pub ack_of : Bool × Service → KeyAck × Service
ack_of (true, s) = (KeyAck.applied, s)
ack_of (false, s) = (KeyAck.nothing_to_act_on, s)

abbrev pub send_eof : Option (List ℕ) → Service → KeyAck × Service
send_eof none s = (KeyAck.unsupported, s)
send_eof (some bytes) s = ack_of (try_send (Request.eof bytes) s)

-- The `match` of `send_key`
unfoldable pub send_bound : Binding → KeyPress → Service → KeyAck × Service
unfolding try_send
send_bound Binding.unbound press s = (KeyAck.unbound, s)
send_bound Binding.to_far_end press s = ack_of (try_send (Request.key press) s)
send_bound (Binding.intent SessionIntent.interrupt) press s =
    if s.loop.pump.running
    then ack_of (try_send Request.interrupt s)
    else (KeyAck.nothing_to_act_on, s)
send_bound (Binding.intent SessionIntent.eof) press s = send_eof s.eof s

unfoldable pub send_key : KeyPress → Service → KeyAck × Service
unfolding send_bound binding_for
send_key press s = send_bound (binding_for press (owner s)) press s

-- The result of `try_send` is not looked at.
unfoldable pub set_line_owner : LineOwner → Service → Service
unfolding try_send
set_line_owner who s = (try_send (Request.owner who) (record s { far_end_line = is_far_end who })).1

unfoldable pub paste : Text → Service → Service
unfolding try_send
paste text s = (try_send (Request.paste_text text) s).1
