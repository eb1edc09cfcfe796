-- ===== src/Actor/Turn/Paced.antt =====
-- No text waits to be spoken for a wake that never comes.
use acter.Prelude.{◌≡◌, ◌≢◌, refl, ap, Bool, true, false, Option, none, some, List, arith}
use acter.Pacing.{Duration, PacingConfig, is_empty}
use acter.Event.{SessionEvent}
use acter.Actor.{SessionInput, Wake, no_requests, ActiveCommand}
use acter.Unspoken.{size}
use acter.Actor.Step.{handle, wake_render, wake_pacing}
use acter.Actor.Turn.{Loop, start, Woke, take_requests, turn, Runs, here, next}
use acter.Actor.Turn.Owing.{Owes, IsOwing, handle-IsOwing, wake_render-IsOwing, wake_pacing-IsOwing}

abbrev is_armed : Option Duration → Bool
is_armed none = false
is_armed (some due) = true

-- What holds between two turns, out of follow mode.
record IsPacing (l : Loop) : Type 0 where
  calm : l.actor.requests ≡ no_requests
  unfollowed : l.actor.follow_mode ≡ false
  armed : Owes (is_armed l.pacing_timer) Wake.unchanged l.actor.active

take_requests-IsPacing :
    (l : Loop) (now : Duration)
    → IsOwing (is_armed l.pacing_timer) l.actor
    → IsPacing (take_requests l now)
unfolding take_requests
take_requests-IsPacing l now h = ground arith

IsOwing-of : (l : Loop) → IsPacing l → IsOwing (is_armed l.pacing_timer) l.actor
IsOwing-of l h = record { unfollowed = h.unfollowed; owes = rw h.calm h.armed }

turn-IsPacing :
    (w : Woke) (now : Duration) (l : Loop)
    → w ≢ Woke.input (SessionInput.follow_mode true)
    → IsPacing l
    → IsPacing (turn w now l).0
unfolding turn
turn-IsPacing (Woke.input i) now l n h =
    take_requests-IsPacing (record l { actor = (handle i now l.actor).0 }) now
      (handle-IsOwing (is_armed l.pacing_timer) i now l.actor (λ e. n (ap Woke.input e))
        (IsOwing-of l h))
turn-IsPacing Woke.render now l n h =
    take_requests-IsPacing (record l { actor = (wake_render l.actor).0; render_timer = none }) now
      (wake_render-IsOwing (is_armed l.pacing_timer) l.actor (IsOwing-of l h))
turn-IsPacing Woke.pacing now l n h =
    take_requests-IsPacing (record l { actor = (wake_pacing now l.actor).0; pacing_timer = none })
      now (wake_pacing-IsOwing false now l.actor h.unfollowed)

-- No turn turns follow mode on.
unfoldable pub Unfollowed : {l m : Loop} {sent : List SessionEvent} → Runs l m sent → Type 0
Unfollowed here = Unit
Unfollowed (next w now r fires e all) =
    (w ≢ Woke.input (SessionInput.follow_mode true)) × Unfollowed r

Runs-IsPacing :
    {l m : Loop} {sent : List SessionEvent}
    → IsPacing l
    → (r : Runs l m sent) → Unfollowed r
    → IsPacing m
unfolding Unfollowed
Runs-IsPacing h here u = h
Runs-IsPacing h (next {m = m} w now r fires e all) u =
    rw e (turn-IsPacing w now m u.0 (Runs-IsPacing h r u.1))

start-IsPacing : (config : PacingConfig) → IsPacing (start config)
start-IsPacing config = record { calm = refl; unfollowed = refl; armed = tt }

timer_of :
    (l : Loop) (c : ActiveCommand)
    → Owes (is_armed l.pacing_timer) Wake.unchanged l.actor.active
    → l.actor.active ≡ some c
    → is_empty (size c.unspoken) ≡ false
    → c.pacing.babble_tripped ≡ false
    → (due : Duration) × (l.pacing_timer ≡ some due)
timer_of l c h e waiting free =
    let paid : Owes (is_armed l.pacing_timer) Wake.unchanged (some c) = rw e at h in
    ground (arith, paid waiting free)

-- Over any turns of a session in which follow mode is not turned on, whatever else the inputs, the
-- deadlines and the times: when the loop goes back to waiting with text of the running command not
-- yet spoken, and the babble guard of the command has not tripped, the pacing timer is armed.
pub Runs-paced :
    (config : PacingConfig) (l : Loop) (sent : List SessionEvent) (c : ActiveCommand)
    (r : Runs (start config) l sent)
    → Unfollowed r
    → l.actor.active ≡ some c
    → is_empty (size c.unspoken) ≡ false
    → c.pacing.babble_tripped ≡ false
    → (due : Duration) × (l.pacing_timer ≡ some due)
Runs-paced config l sent c r u e waiting free =
    timer_of l c (Runs-IsPacing (start-IsPacing config) r u).armed e waiting free
