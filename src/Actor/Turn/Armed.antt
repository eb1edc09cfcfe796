-- ===== src/Actor/Turn/Armed.antt =====
-- No row waits for a tick that never comes.
use acter.Prelude.{
  ◌-◌, ◌≡◌, ◌≢◌, refl, Bool, true, false, Option, Option-cases, inl, inr, Text, none, some, List,
  [], arith,
}
use acter.Entity.{LineId}
use acter.Pacing.{
  on_output, on_wake, measure, Duration, PacingConfig, PacingAction, nothing, flush, still_running,
  output_continues,
}
use acter.Event.{SessionEvent, Announcement}
use acter.Actor.{SessionInput, Wake, no_requests, ActiveCommand, Rendered, SessionActor}
use acter.Unspoken.{push, size}
use acter.Actor.Step.{
  separated, Act, skip, send, ◌>>◌, with_active, announce, apply, flush_render, handle, wake_render,
  wake_pacing, render_output, speak_output, wake_from, request_pacing,
}
use acter.Actor.Turn.{Loop, start, Woke, take_requests, turn, Runs, here, next}

-- Whether a timer is armed once a wake request is applied to it.
abbrev armed_after : Wake → Bool → Bool
armed_after Wake.unchanged b = b
armed_after Wake.clear b = false
armed_after (Wake.after d) b = true

abbrev Waits : Bool → Wake → Option ActiveCommand → Type 0
Waits b w none = Unit
Waits b w (some c) =
    (c.unrendered ≢ [] → c.render_armed ≡ true) × (c.render_armed ≡ true → armed_after w b ≡ true)

-- What holds of the actor inside a turn, `b` telling whether the render timer is armed.
record IsWaiting (b : Bool) (a : SessionActor) : Type 0 where
  waits : Waits b a.requests.render a.active

record Keeps (b : Bool) (m : Act) : Type 0 where
  at : (a : SessionActor) → IsWaiting b a → IsWaiting b (m a).0

module _ {b : Bool} where
  Keeps->> : {m k : Act} → Keeps b m → Keeps b k → Keeps b (m >> k)
  Keeps->> km kk = record { at = λ a h. kk.at _ (km.at a h) }

  Keeps-skip : Keeps b skip
  Keeps-skip = record { at = λ a h. h }

  Keeps-send : (e : SessionEvent) → Keeps b (send e)
  Keeps-send e = record { at = λ a h. h }

  Keeps-announce : (said : Announcement) → Keeps b (announce said)
  unfolding announce
  Keeps-announce said = record { at = λ a h. ground arith }

  Keeps-flush_render : Keeps b flush_render
  unfolding flush_render
  Keeps-flush_render = record { at = λ a h. ground arith }

  Keeps-request_pacing : (w : Wake) → Keeps b (request_pacing w)
  Keeps-request_pacing w = record { at = λ a h. ground arith }

  Keeps-apply : (action : PacingAction) → Keeps b (apply action)
  unfolding apply
  Keeps-apply nothing = record { at = λ a h. ground arith }
  Keeps-apply still_running = record { at = λ a h. ground arith }
  Keeps-apply output_continues = record { at = λ a h. ground arith }
  Keeps-apply (flush mode) = record { at = λ a h. ground arith }

Keeps-with_active :
    (b : Bool) (f : ActiveCommand → Act)
    → ((c : ActiveCommand) (a : SessionActor)
        → a.active ≡ some c
        → IsWaiting b a
        → IsWaiting b (f c a).0)
    → Keeps b (with_active f)
Keeps-with_active b f k = record {
  at = λ a h. elim (Option-cases a.active) [
    | inl e ↦ rw (e, with_active) h
    | inr (c, e) ↦ rw (e, with_active) (k c a e h)
  ];
}

render_output-Keeps : (b : Bool) (x : Rendered) → Keeps b (render_output x)
unfolding render_output
render_output-Keeps b x = record { at = λ a h. ground arith }

-- The command goes on with the same rows waiting.
adopt :
    (b : Bool) (c d : ActiveCommand) (a : SessionActor)
    → a.active ≡ some c
    → IsWaiting b a
    → d.unrendered ≡ c.unrendered
    → d.render_armed ≡ c.render_armed
    → IsWaiting b (record a { active = some d })
adopt b c d a e h u r = ground arith

speak_output-Keeps :
    (b : Bool) (row : LineId) (text : Text) (now : Duration) → Keeps b (speak_output row text now)
unfolding speak_output
speak_output-Keeps b row text now = Keeps-with_active b _ λ c a e h.
    let said = separated c.last_line row text in
    let (pacing, outcome) =
      on_output c.pacing a.config (measure said) (now - c.started_at) a.follow_mode in
    let d = record c {
      last_line = some row;
      unspoken = push c.unspoken said a.config;
      pacing = pacing;
    } in
    (Keeps->> (Keeps-apply outcome.action) (Keeps-request_pacing (wake_from outcome.wake_after))).at
      (record a { active = some d }) (adopt b c d a e h refl refl)

handle-Keeps : (b : Bool) (i : SessionInput) (now : Duration) → Keeps b (handle i now)
unfolding handle
handle-Keeps b (SessionInput.command_started id l) now = record { at = λ a h. ground arith }
handle-Keeps b (SessionInput.output row revision text true prompt runs) now = record {
  at = λ a h. (Keeps->> (render_output-Keeps b _) (speak_output-Keeps b row text now)).at a h;
}
handle-Keeps b (SessionInput.output row revision text false prompt runs) now = record {
  at = λ a h. ground arith;
}
handle-Keeps b (SessionInput.command_ended id exit) now = record { at = λ a h. ground arith }
handle-Keeps b (SessionInput.command_interrupted id) now = record { at = λ a h. ground arith }
handle-Keeps b (SessionInput.far_end_line t c x) now = record { at = λ a h. ground arith }
handle-Keeps b _ now = record { at = λ a h. ground arith }

wake_render-IsWaiting : (a : SessionActor) → IsWaiting false (wake_render a).0
unfolding wake_render
wake_render-IsWaiting a = ground arith

wake_pacing-Keeps : (b : Bool) (now : Duration) → Keeps b (wake_pacing now)
unfolding wake_pacing
wake_pacing-Keeps b now = Keeps-with_active b _ λ c a e h.
    let (pacing, outcome) = on_wake c.pacing a.config (size c.unspoken) (now - c.started_at) in
    let d = record c { pacing = pacing } in
    (Keeps->> (Keeps-apply outcome.action) (Keeps-request_pacing (wake_from outcome.wake_after))).at
      (record a { active = some d }) (adopt b c d a e h refl refl)

abbrev is_armed : Option Duration → Bool
is_armed none = false
is_armed (some due) = true

-- What holds between two turns: rows that wait have armed the render tick, and its timer runs.
pub record IsTicking (l : Loop) : Type 0 where
  pub calm : l.actor.requests ≡ no_requests
  pub armed : Waits (is_armed l.render_timer) Wake.unchanged l.actor.active

take_requests-IsTicking :
    (l : Loop) (now : Duration)
    → IsWaiting (is_armed l.render_timer) l.actor
    → IsTicking (take_requests l now)
unfolding take_requests
take_requests-IsTicking l now h = ground arith

turn-IsTicking : (w : Woke) (now : Duration) (l : Loop) → IsTicking l → IsTicking (turn w now l).0
unfolding turn
turn-IsTicking (Woke.input i) now l h =
    take_requests-IsTicking (record l { actor = (handle i now l.actor).0 }) now
      ((handle-Keeps (is_armed l.render_timer) i now).at l.actor
        (record { waits = rw h.calm h.armed }))
turn-IsTicking Woke.render now l h =
    take_requests-IsTicking (record l { actor = (wake_render l.actor).0; render_timer = none }) now
      (wake_render-IsWaiting l.actor)
turn-IsTicking Woke.pacing now l h =
    take_requests-IsTicking (record l { actor = (wake_pacing now l.actor).0; pacing_timer = none })
      now
      ((wake_pacing-Keeps (is_armed l.render_timer) now).at l.actor
        (record { waits = rw h.calm h.armed }))

timer_of :
    (l : Loop) (c : ActiveCommand)
    → Waits (is_armed l.render_timer) Wake.unchanged l.actor.active
    → l.actor.active ≡ some c
    → c.unrendered ≢ []
    → (due : Duration) × (l.render_timer ≡ some due)
timer_of l c h e waiting =
    let (armed, runs) : Waits (is_armed l.render_timer) Wake.unchanged (some c) = rw e at h in
    ground (arith, runs, armed waiting)

Runs-IsTicking : {l m : Loop} {sent : List SessionEvent} → IsTicking l → Runs l m sent → IsTicking m
Runs-IsTicking h here = h
Runs-IsTicking h (next {m = m} w now r fires e all) =
    rw e (turn-IsTicking w now m (Runs-IsTicking h r))

start-IsTicking : (config : PacingConfig) → IsTicking (start config)
start-IsTicking config = record { calm = refl; armed = tt }

-- Over any turns of a session, whatever the inputs, the deadlines and the times: when the loop goes
-- back to waiting with output of the running command not yet rendered, the render timer is armed.
pub Runs-armed :
    (config : PacingConfig) (l : Loop) (sent : List SessionEvent) (c : ActiveCommand)
    → Runs (start config) l sent
    → l.actor.active ≡ some c
    → c.unrendered ≢ []
    → (due : Duration) × (l.render_timer ≡ some due)
Runs-armed config l sent c r e waiting =
    timer_of l c (Runs-IsTicking (start-IsTicking config) r).armed e waiting
