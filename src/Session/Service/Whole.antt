-- ===== src/Session/Service/Whole.antt =====
-- A whole session: the window's calls, the turns of the pump and of the actor, and a sink attached, in
-- any order. `facts` is the channel from the pump to the actor; `claims` counts the calls of
-- `submit_command` that were taken and have not yet said that a command runs.
pub mod Tracks
pub mod Same
pub mod Heard
use acter.Prelude.{
  ℕ, ◌+◌, ◌-◌, ◌<◌, ◌≡◌, Bool, true, false, Option, none, some, List, [], ◌∷◌, ◌++◌, Text,
  if◌then◌else◌,
}
use acter.Pacing.{Duration, PacingConfig}
use acter.Event.{SessionEvent}
use acter.Keys.{KeyPress, TerminalModes, LineOwner}
use acter.Actor.{SessionInput}
use acter.Actor.Turn
use acter.Session.Sink.{AttachedSink, detached, Sent, attach, send_all}
use acter.Session.Pump.{Advanced, Cursor, Effect}
use acter.Session.Pump.Turn.{Request, Woke, CanFire, turn}
use acter.Session.Service.{
  ShellFacts, Service, start, begin_submit, say_running, send_key, set_line_owner, paste,
}

pub record Whole : Type 0 where
  pub service : Service
  pub claims : ℕ
  pub facts : List SessionInput
  pub actor : Turn.Loop
  pub sink : AttachedSink
  pub received : Sent

unfoldable pub starting : (ℕ → Bool) → Cursor → TerminalModes → PacingConfig → ShellFacts → Whole
unfolding start
starting alphanumeric cursor modes config shell = record {
  service = start alphanumeric cursor modes config shell;
  claims = 0;
  facts = [];
  actor = Turn.start config;
  sink = detached;
  received = [];
}

-- What the effects put in the channel.
unfoldable pub inputs_of : List Effect → List SessionInput
inputs_of [] = []
inputs_of (Effect.send input ∷ es) = input ∷ inputs_of es
inputs_of (_ ∷ es) = inputs_of es

-- One turn of the pump, for something it woke for.
unfoldable pub pump_turn : Woke → Duration → Whole → Whole
unfolding turn inputs_of
pump_turn w now s =
    let (loop, sent) = turn w now s.service.loop in
    record s { service = record s.service { loop = loop }; facts = s.facts ++ inputs_of sent }

-- One turn of the actor, and the sink takes its events.
unfoldable pub actor_turn : Turn.Woke → Duration → Whole → Whole
unfolding Turn.turn send_all
actor_turn w now s =
    let (loop, events) = Turn.turn w now s.actor in
    let (sink, sent) = send_all events s.sink in
    record s { actor = loop; sink = sink; received = s.received ++ sent }

abbrev pub submitting : Text → Whole → Whole
submitting line s =
    let ((ack, taken), service) = begin_submit line s.service in
    record s { service = service; claims = if taken then s.claims + 1 else s.claims }

-- What the pump may wake for without a request: a read, or a timer that is due.
abbrev pub is_request : Woke → Bool
is_request (Woke.asked o) = true
is_request w = false

abbrev pub is_input : Turn.Woke → Bool
is_input (Turn.Woke.input i) = true
is_input w = false

abbrev pub with_service : (Service → Service) → Whole → Whole
with_service f s = record s { service = f s.service }

abbrev pub take_request : List Request → Whole → Whole
take_request rest s = record s { service = record s.service { inbox = rest } }

abbrev pub attaching : ℕ → Whole → Whole
attaching id s =
    let (sink, sent) = attach id s.sink in record s { sink = sink; received = s.received ++ sent }

-- One step of a session; a turn of the pump is one step of its own.
pub data Step : Whole → Whole → Type 0 where
  submitted : {s : Whole} (line : Text) → Step s (submitting line s)
  claimed :
      {s : Whole}
      → 0 < s.claims
      → Step s (record (with_service say_running s) { claims = s.claims - 1 })
  keyed : {s : Whole} (press : KeyPress) → Step s (with_service (λ t. (send_key press t).1) s)
  owned : {s : Whole} (who : LineOwner) → Step s (with_service (set_line_owner who) s)
  pasted : {s : Whole} (text : Text) → Step s (with_service (paste text) s)
  woken :
      {s : Whole} (w : Woke) (now : Duration)
      → s.service.loop.stopped ≡ false
      → is_request w ≡ false
      → CanFire w now s.service.loop
      → Step s (pump_turn w now s)
  served :
      {s : Whole} (r : Request) (rest : List Request) (now : Duration)
      → s.service.loop.stopped ≡ false
      → s.service.inbox ≡ r ∷ rest
      → Step s (pump_turn (Woke.asked (some r)) now (take_request rest s))
  told :
      {s : Whole} (i : SessionInput) (rest : List SessionInput) (now : Duration)
      → s.facts ≡ i ∷ rest
      → Step s (actor_turn (Turn.Woke.input i) now (record s { facts = rest }))
  ticked :
      {s : Whole} (w : Turn.Woke) (now : Duration)
      → is_input w ≡ false
      → Turn.CanFire w now s.actor
      → Step s (actor_turn w now s)
  attached : {s : Whole} (id : ℕ) → Step s (attaching id s)

-- Any number of steps.
pub data Reaches : Whole → Whole → Type 0 where
  here : {s : Whole} → Reaches s s
  next : {s t u : Whole} → Reaches s t → Step t u → Reaches s u
