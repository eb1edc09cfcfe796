-- ===== src/Actor/Step/Hush.antt =====
-- While Acter talks to itself it announces nothing else.
use acter.Prelude.{
  ◌⊎◌, ◌-◌, ◌≡◌, refl, Bool, true, false, Option, Option-cases, inl, inr, Text, none, some, List,
  [], ◌∷◌, ◌++◌, if◌then◌else◌, arith,
}
use acter.Entity.{LineId, ExitCode}
use acter.Pacing.{
  Duration, PacingAction, nothing, flush, ReadMode, quiet, still_running, output_continues, measure,
  on_output, on_wake, on_command_end,
}
use acter.Unspoken.{push, size}
use acter.SessionState.{SessionState, grace_period_expired, alt_screen_entered, alt_screen_left}
use acter.Event.{CommandId, SessionEvent, Announcement}
use acter.Actor.{SessionInput, ActiveCommand, Rendered, SessionActor, Wake}
use acter.Actor.Step.{
  Act, skip, send, ◌>>◌, with_active, aside, apply, apply_action, apply_flush, rendered_events,
  flush_render, speak_unspoken, separated, render_output, speak_output, close_active, announce_exit,
  retire, changed, handle, wake_pacing, wake_from, request_pacing, command_ended,
  command_interrupted,
}

-- Nothing is announced but failures.
pub only_failures : List SessionEvent → Bool
only_failures [] = true
only_failures (SessionEvent.announce id (Announcement.failed code) ∷ es) = only_failures es
only_failures (SessionEvent.announce id said ∷ es) = false
only_failures (_ ∷ es) = only_failures es

only_failures-append :
    (xs ys : List SessionEvent)
    → only_failures xs ≡ true
    → only_failures ys ≡ true
    → only_failures (xs ++ ys) ≡ true
unfolding only_failures
only_failures-append [] ys h k = k
only_failures-append (SessionEvent.announce id (Announcement.failed code) ∷ es) ys h k =
    only_failures-append es ys h k
only_failures-append (SessionEvent.announce id (Announcement.read_aloud t) ∷ es) ys h k = cc
only_failures-append (SessionEvent.announce id (Announcement.too_big n) ∷ es) ys h k = cc
only_failures-append (SessionEvent.announce id Announcement.still_running ∷ es) ys h k = cc
only_failures-append (SessionEvent.announce id Announcement.output_continues ∷ es) ys h k = cc
only_failures-append (_ ∷ es) ys h k = only_failures-append es ys h k

only_failures-rendered :
    (id : CommandId) (rows : List Rendered) → only_failures (rendered_events id rows) ≡ true
unfolding only_failures rendered_events
only_failures-rendered id [] = refl
only_failures-rendered id (r ∷ rows) = only_failures-rendered id rows

-- The method says nothing but failures while Acter talks to itself, and does not stop that.
record Hushed (m : Act) : Type 0 where
  at :
      (a : SessionActor)
      → a.self_talk ≡ true
      → (only_failures (m a).1 ≡ true) × ((m a).0.self_talk ≡ true)

Hushed->> : {m k : Act} → Hushed m → Hushed k → Hushed (m >> k)
Hushed->> {m} {k} hm hk = record {
  at = λ a h.
      let (quiet_m, still) = hm.at a h in
      let (quiet_k, after) = hk.at (m a).0 still in
      (only_failures-append (m a).1 (k (m a).0).1 quiet_m quiet_k, after);
}

Hushed-with_active :
    (f : ActiveCommand → Act)
    → ((c : ActiveCommand) (a : SessionActor)
        → a.active ≡ some c
        → a.self_talk ≡ true
        → (only_failures (f c a).1 ≡ true) × ((f c a).0.self_talk ≡ true))
    → Hushed (with_active f)
unfolding only_failures
Hushed-with_active f k = record {
  at = λ a h. elim (Option-cases a.active) [
    | inl e ↦ rw (e, with_active) (refl, h)
    | inr (c, e) ↦ rw (e, with_active) (k c a e h)
  ];
}

Hushed-flush_render : Hushed flush_render
unfolding flush_render
Hushed-flush_render = Hushed-with_active _ λ c a e h. (only_failures-rendered c.id c.unrendered, h)

Hushed-send : (e : SessionEvent) → only_failures (e ∷ []) ≡ true → Hushed (send e)
Hushed-send e k = record { at = λ a h. (k, h) }

Hushed-quiet : Hushed (apply_flush quiet)
unfolding apply_flush only_failures
Hushed-quiet =
    Hushed->> Hushed-flush_render (Hushed-with_active (speak_unspoken quiet) (λ c a e h. (refl, h)))

aside_of :
    (b : Bool) (a : SessionActor) (mode : ReadMode)
    → b ≡ true
    → apply_action (aside b (flush mode)) a ≡ apply_flush quiet a
unfolding apply_action aside
aside_of true a mode h = refl
aside_of false a mode h = cc

Hushed-apply : (action : PacingAction) → Hushed (apply action)
unfolding apply only_failures
Hushed-apply nothing = record { at = λ a h. ground arith }
Hushed-apply still_running = record { at = λ a h. ground arith }
Hushed-apply output_continues = record { at = λ a h. ground arith }
Hushed-apply (flush mode) = record {
  at = λ a h. rw (aside_of a.self_talk a mode h) (Hushed-quiet.at a h);
}

Hushed-skip : Hushed skip
unfolding only_failures
Hushed-skip = record { at = λ a h. (refl, h) }

Hushed-if : (b : Bool) {m : Act} → Hushed m → Hushed (if b then m else skip)
Hushed-if true h = h
Hushed-if false h = Hushed-skip

Hushed-announce_exit : (exit : Option ExitCode) → Hushed (announce_exit exit)
unfolding announce_exit only_failures
Hushed-announce_exit none = record { at = λ a h. (refl, h) }
Hushed-announce_exit (some code) = record { at = λ a h. ground arith }

Hushed-retire : Hushed retire
unfolding retire only_failures
Hushed-retire = record { at = λ a h. (refl, h) }

Hushed-request_pacing : (w : Wake) → Hushed (request_pacing w)
unfolding only_failures
Hushed-request_pacing w = record { at = λ a h. (refl, h) }

Hushed-close_active :
    (terminal : SessionEvent) (c : ActiveCommand)
    → only_failures (terminal ∷ []) ≡ true
    → Hushed (close_active terminal c)
unfolding close_active
Hushed-close_active terminal c k = record {
  at = λ a h.
      let (pacing, outcome) = on_command_end c.pacing a.config (size c.unspoken) in
      (Hushed->> (Hushed->> Hushed-flush_render (Hushed-apply outcome.action))
          (Hushed-send terminal k)).at
        (record a { active = some (record c { pacing = pacing }) }) h;
}

Hushed-render_output : (x : Rendered) → Hushed (render_output x)
unfolding render_output only_failures
Hushed-render_output x = record { at = λ a h. ground arith }

Hushed-speak_output :
    (row : LineId) (text : Text) (now : Duration) → Hushed (speak_output row text now)
unfolding speak_output
Hushed-speak_output row text now = Hushed-with_active _ λ c a e h.
    let said = separated c.last_line row text in
    let (pacing, outcome) =
      on_output c.pacing a.config (measure said) (now - c.started_at) a.follow_mode in
    (Hushed->> (Hushed-apply outcome.action)
        (Hushed-request_pacing (wake_from outcome.wake_after))).at
      (record a {
        active = some (record c {
          last_line = some row;
          unspoken = push c.unspoken said a.config;
          pacing = pacing;
        });
      })
      h

Hushed-changed :
    (f : SessionState → SessionState) (e : SessionEvent)
    → only_failures (e ∷ []) ≡ true
    → Hushed (λ a. changed (f a.session) e a)
unfolding changed only_failures
Hushed-changed f e k = record { at = λ a h. ground arith }

Hushed-wake_pacing : (now : Duration) → Hushed (wake_pacing now)
unfolding wake_pacing
Hushed-wake_pacing now = Hushed-with_active _ λ c a e h.
    let (pacing, outcome) = on_wake c.pacing a.config (size c.unspoken) (now - c.started_at) in
    (Hushed->> (Hushed-apply outcome.action)
        (Hushed-request_pacing (wake_from outcome.wake_after))).at
      (record a { active = some (record c { pacing = pacing }) }) h

Hushed-ended : (id : CommandId) (exit : Option ExitCode) → Hushed (command_ended id exit)
unfolding command_ended
Hushed-ended id exit = Hushed-with_active _ λ c a e h.
    (Hushed->>
        (Hushed->>
          (Hushed-close_active (SessionEvent.command_finished id) c (unfold only_failures in refl))
          (Hushed-announce_exit exit))
        Hushed-retire).at
      a h

Hushed-interrupted : (id : CommandId) → Hushed (command_interrupted id)
unfolding command_interrupted
Hushed-interrupted id = Hushed-with_active _ λ c a e h.
    (Hushed->>
        (Hushed-close_active (SessionEvent.command_interrupted id) c (unfold only_failures in refl))
        Hushed-retire).at
      a h

-- While Acter talks to itself, no input makes the actor announce anything but a failure: no output
-- is read, no size told, no patience or babble announced; and it goes on talking to itself until
-- the input that ends it.
pub handle-only_failures :
    (i : SessionInput) (now : Duration) (a : SessionActor)
    → a.self_talk ≡ true
    → (only_failures (handle i now a).1 ≡ true)
      × (((handle i now a).0.self_talk ≡ true) ⊎ (i ≡ SessionInput.self_talk false))
unfolding handle only_failures
handle-only_failures (SessionInput.command_started id l) now a h = (refl, inl h)
handle-only_failures (SessionInput.output row revision text spoken prompt runs) now a h =
    let (q, t) =
      (Hushed->> (Hushed-render_output _) (Hushed-if spoken (Hushed-speak_output row text now))).at
        a h in
    (q, inl t)
handle-only_failures (SessionInput.command_ended id exit) now a h =
    let (q, t) = (Hushed-ended id exit).at a h in (q, inl t)
handle-only_failures (SessionInput.command_interrupted id) now a h =
    let (q, t) = (Hushed-interrupted id).at a h in (q, inl t)
handle-only_failures (SessionInput.far_end_line t c x) now a h =
    let (q, t) =
      (Hushed->> Hushed-flush_render (Hushed-send (SessionEvent.far_end_line t c x) refl)).at a h in
    (q, inl t)
handle-only_failures (SessionInput.self_talk true) now a h = (refl, inl refl)
handle-only_failures (SessionInput.self_talk false) now a h = (refl, inr refl)
handle-only_failures SessionInput.grace_period_expired now a h =
    let (q, t) =
      (Hushed-changed grace_period_expired SessionEvent.integration_unavailable refl).at a h in
    (q, inl t)
handle-only_failures SessionInput.alt_screen_entered now a h =
    let (q, t) = (Hushed-changed alt_screen_entered SessionEvent.alt_screen_entered refl).at a h in
    (q, inl t)
handle-only_failures SessionInput.alt_screen_left now a h =
    let (q, t) = (Hushed-changed alt_screen_left SessionEvent.alt_screen_left refl).at a h in
    (q, inl t)
handle-only_failures _ now a h = (refl, inl h)

-- Nor does a pacing deadline.
pub wake_pacing-only_failures :
    (now : Duration) (a : SessionActor)
    → a.self_talk ≡ true
    → (only_failures (wake_pacing now a).1 ≡ true) × ((wake_pacing now a).0.self_talk ≡ true)
wake_pacing-only_failures now a h = (Hushed-wake_pacing now).at a h
