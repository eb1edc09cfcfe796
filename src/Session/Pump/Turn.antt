-- ===== src/Session/Pump/Turn.antt =====
-- The loop of `Pump::run`: one turn takes a read, a request or the deadline of an armed timer. A timer
-- is the time at which it is due.
use acter.Prelude.{
  ℕ, ◌+◌, ◌≤◌, ◌≡◌, Bool, true, false, not, ◌&&◌, Option, none, some, List, [], ◌∷◌, ◌++◌, Text,
  if◌then◌else◌,
}
use acter.SessionState.{ConnectionState, integration_grace_period_expired}
use acter.Event.{CommandId}
use acter.Pacing.{Duration}
use acter.Actor.{SessionInput}
use acter.Keys.{KeyPress, LineOwner}
use acter.Tracker.{BoundaryTracker, BoundaryEvent, observe}
use acter.Session.Pump.{
  set_integration, set_self_talk, set_spoken, Advanced, Pump, Effect, Do, ◌>>◌, skip, emit, tell,
  modify, given, when, is_some, is_nonempty, settle_running, mint,
}
use acter.Session.Pump.Output.{is_far_end}
use acter.Session.Pump.Blocks.{submit_line}
use acter.Session.Pump.FarEnd.{line_owner, far_end_key, paste, far_end_settled}
use acter.Session.Pump.Line.{prompt_finished, events}

-- `Request`, with `Key`, `Owner` and `Paste`
pub data Request : Type 0 where
  submit : CommandId → Text → Request
  interrupt : Request
  eof : List ℕ → Request
  key : KeyPress → Request
  owner : LineOwner → Request
  paste_text : Text → Request

unfoldable pub advance : Advanced → BoundaryTracker → Pump → Pump
advance read tracker p = record p { tracker = tracker; engine_cursor = read.at; modes = read.modes }

unfoldable pub feed_seen : Advanced → BoundaryTracker × List BoundaryEvent → Do
unfolding advance events prompt_finished
feed_seen read (tracker, seen) =
    modify (advance read tracker)
    >> events seen
    >> prompt_finished
    >> when (is_nonempty read.replies) (emit (Effect.write read.replies))

unfoldable pub feed : Advanced → Do
unfolding observe feed_seen
feed read = given λ p. feed_seen read (observe p.tracker read.items)

unfoldable pub begin_self_talk : CommandId → Do
begin_self_talk id =
    modify (λ p. mint (record p { setup = none; self_talk = some id }))
    >> tell (SessionInput.self_talk true)

unfoldable pub set_up_with : Option Text → Do
unfolding begin_self_talk submit_line
set_up_with none = skip
set_up_with (some line) = given λ p. begin_self_talk p.next_id >> submit_line p.next_id line true

unfoldable pub set_up : Do
unfolding set_up_with
set_up = given λ p. when (is_some p.cursor) (set_up_with p.setup)

unfoldable pub interrupted_by_user : Do
interrupted_by_user p = (record p { interrupted = true }, Effect.interrupt ∷ [])

-- `Pump::request`
unfoldable pub request : Request → Do
unfolding submit_line interrupted_by_user far_end_key line_owner paste
request (Request.submit id line) = submit_line id line false
request Request.interrupt = interrupted_by_user
request (Request.eof bytes) = emit (Effect.write bytes)
request (Request.key press) = far_end_key press
request (Request.owner who) = line_owner who
request (Request.paste_text text) = paste text

unfoldable pub grace_expired : Do
grace_expired =
    given (λ p. set_integration (integration_grace_period_expired p.integration))
    >> tell SessionInput.grace_period_expired
    >> given λ p.
      when (is_some p.self_talk) (set_self_talk none >> tell (SessionInput.self_talk false))
      >> settle_running

-- The first read of a session says that it is connected.
unfoldable pub connect : Do
connect = given λ p.
    when (not p.spoken)
      (set_spoken true >> tell (SessionInput.connection ConnectionState.connected))

unfoldable pub read_bytes : Advanced → Do
unfolding connect feed set_up
read_bytes read = connect >> feed read >> set_up

-- `stopped` once the loop is left.
pub record Loop : Type 0 where
  pub pump : Pump
  pub grace_timer : Option Duration
  pub settled_timer : Option Duration
  pub stopped : Bool

-- `Woke`; `none` is a channel that is closed.
pub data Woke : Type 0 where
  read : Option Advanced → Woke
  asked : Option Request → Woke
  grace settled : Woke

abbrev pub settle_wait : Pump → Duration
settle_wait p =
    if p.far_end.watching && not p.far_end.awaiting_prompt then p.far_end_settle else p.quiescence

unfoldable pub turn : Woke → Duration → Loop → Loop × List Effect
unfolding read_bytes request grace_expired far_end_settled
turn (Woke.read none) now l = (
  record l { stopped = true },
  Effect.send (SessionInput.connection ConnectionState.disconnected) ∷ [],
)
turn (Woke.read (some advanced)) now l =
    let (p, sent) = read_bytes advanced l.pump in
    (
      record l {
        pump = p;
        grace_timer = if l.pump.spoken then l.grace_timer else some (now + l.pump.grace);
        settled_timer =
            if is_far_end p.far_end.owner then some (now + settle_wait p) else l.settled_timer;
      },
      sent,
    )
turn (Woke.asked none) now l = (record l { stopped = true }, [])
turn (Woke.asked (some what)) now l =
    let (p, sent) = request what l.pump in (record l { pump = p }, sent)
turn Woke.grace now l =
    let (p, sent) = grace_expired l.pump in (record l { pump = p; grace_timer = none }, sent)
turn Woke.settled now l =
    let (p, sent) = far_end_settled l.pump in (record l { pump = p; settled_timer = none }, sent)

-- A timer fires only while it is armed, and not before it is due; the loop goes on until it stops.
abbrev pub CanFire : Woke → Duration → Loop → Type 0
CanFire Woke.grace now l = (due : Duration) × (l.grace_timer ≡ some due) × (due ≤ now)
CanFire Woke.settled now l = (due : Duration) × (l.settled_timer ≡ some due) × (due ≤ now)
CanFire _ now l = Unit

-- The turns of a pump, with all its effects. Between two turns the service may mint an id, and say
-- that a command runs.
pub data Runs : Loop → Loop → List Effect → Type 0 where
  here : {l : Loop} → Runs l l []
  next :
      {l m n : Loop} {sent : List Effect} (w : Woke) (now : Duration)
      → Runs l m sent
      → m.stopped ≡ false
      → CanFire w now m
      → n ≡ (turn w now m).0
      → {all : List Effect} → all ≡ sent ++ (turn w now m).1
      → Runs l n all
  minted :
      {l m n : Loop} {sent : List Effect}
      → Runs l m sent
      → n ≡ record m { pump = mint m.pump }
      → Runs l n sent
  claimed :
      {l m n : Loop} {sent : List Effect}
      → Runs l m sent
      → n ≡ record m { pump = record m.pump { running = true } }
      → Runs l n sent
