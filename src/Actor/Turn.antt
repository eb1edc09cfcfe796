-- ===== src/Actor/Turn.antt =====
-- The loop of `SessionActor::run`: one turn takes an input, or the deadline of an armed timer, and
-- then arms or drops the two timers as the actor asked. A timer is the time it is due.
pub mod Armed
pub mod Owing
pub mod Paced
pub mod Protocol
pub mod Conforms
pub mod Ending
pub mod Commands
use acter.Prelude.{ℕ, ◌+◌, ◌≤◌, ◌≡◌, Bool, true, false, Option, none, some, List, [], ◌∷◌, ◌++◌}
use acter.Pacing.{Duration, PacingConfig}
use acter.Event.{SessionEvent}
use acter.Actor.{SessionInput, Wake, no_requests, SessionActor, new}
use acter.Actor.Step.{handle, wake_render, wake_pacing}

pub record Loop : Type 0 where
  pub actor : SessionActor
  pub render_timer : Option Duration
  pub pacing_timer : Option Duration

abbrev pub start : PacingConfig → Loop
start config = record { actor = new config; render_timer = none; pacing_timer = none }

pub data Woke : Type 0 where
  input : SessionInput → Woke
  render pacing : Woke

-- The free function `apply` on a timer.
unfoldable pub apply_timer : Option Duration → Wake → Duration → Option Duration
apply_timer timer Wake.unchanged now = timer
apply_timer timer Wake.clear now = none
apply_timer timer (Wake.after d) now = some (now + d)

-- `take_requests` and the two calls of `apply` at the end of a turn.
unfoldable pub take_requests : Loop → Duration → Loop
unfolding apply_timer
take_requests l now = record l {
  actor = record l.actor { requests = no_requests };
  render_timer = apply_timer l.render_timer l.actor.requests.render now;
  pacing_timer = apply_timer l.pacing_timer l.actor.requests.pacing now;
}

unfoldable pub act : Woke → Duration → Loop → Loop × List SessionEvent
act (Woke.input i) now l = let (a, sent) = handle i now l.actor in (record l { actor = a }, sent)
act Woke.render now l =
    let (a, sent) = wake_render l.actor in (record l { actor = a; render_timer = none }, sent)
act Woke.pacing now l =
    let (a, sent) = wake_pacing now l.actor in (record l { actor = a; pacing_timer = none }, sent)

unfoldable pub turn : Woke → Duration → Loop → Loop × List SessionEvent
unfolding act take_requests
turn w now l = let (m, sent) = act w now l in (take_requests m now, sent)

-- A timer fires only while it is armed, and not before it is due.
abbrev pub CanFire : Woke → Duration → Loop → Type 0
CanFire (Woke.input i) now l = Unit
CanFire Woke.render now l = (due : Duration) × (l.render_timer ≡ some due) × (due ≤ now)
CanFire Woke.pacing now l = (due : Duration) × (l.pacing_timer ≡ some due) × (due ≤ now)

-- The turns of a session, with what each sends.
pub data Runs : Loop → Loop → List SessionEvent → Type 0 where
  here : {l : Loop} → Runs l l []
  next :
      {l m n : Loop} {sent : List SessionEvent} (w : Woke) (now : Duration)
      → Runs l m sent
      → CanFire w now m
      → n ≡ (turn w now m).0
      → {all : List SessionEvent} → all ≡ sent ++ (turn w now m).1
      → Runs l n all
