-- ===== src/Actor/Step/Kept.antt =====
-- Which command is active, and whether Acter talks to itself, changes only where an input says so.
use acter.Prelude.{
  ◌≡◌, refl, sym, ap, ◌∙◌, ◌-◌, Bool, true, false, Option, Option-cases, inl, inr, Text, none, some,
  if◌then◌else◌, arith,
}
use acter.Entity.{LineId, ExitCode}
use acter.Pacing.{
  Duration, PacingAction, nothing, flush, ReadMode, quiet, auto, too_big, still_running,
  output_continues, measure, on_output, on_wake, on_command_end,
}
use acter.Unspoken.{UnspokenText, push, size, last_line, take}
use acter.SessionState.{SessionState}
use acter.Event.{CommandId, SessionEvent, Announcement}
use acter.Actor.{ActiveCommand, Rendered, SessionActor, Wake}
use acter.Actor.Step.{
  Act, skip, send, ◌>>◌, with_active, aside, apply, apply_action, apply_flush, read_text, speak,
  announce, flush_render, speak_unspoken, is_unintegrated, separated, render_output, speak_output,
  output, close_active, announce_exit, retire, changed, wake_pacing, wake_render, disarmed,
  wake_from, request_pacing, command_ended, command_interrupted,
}

abbrev pub active_id : Option ActiveCommand → Option CommandId
active_id none = none
active_id (some c) = some c.id

abbrev pub Same : SessionActor → SessionActor → Type 0
Same a b = (active_id b.active ≡ active_id a.active) × (b.self_talk ≡ a.self_talk)

Same-trans : (a b c : SessionActor) → Same a b → Same b c → Same a c
Same-trans a b c (i, t) (i', t') = (i' ∙ i, t' ∙ t)

pub record Keeps (m : Act) : Type 0 where
  pub at : (a : SessionActor) → Same a (m a).0

Keeps->> : {m k : Act} → Keeps m → Keeps k → Keeps (m >> k)
Keeps->> {m} {k} km kk = record {
  at = λ a. Same-trans a (m a).0 (k (m a).0).0 (km.at a) (kk.at (m a).0);
}

Keeps-with_active :
    (f : ActiveCommand → Act)
    → ((c : ActiveCommand) (a : SessionActor) → a.active ≡ some c → Same a (f c a).0)
    → Keeps (with_active f)
Keeps-with_active f k = record {
  at = λ a. elim (Option-cases a.active) [
    | inl e ↦ rw (e, with_active) (ap active_id e, refl)
    | inr (c, e) ↦ let (i, t) = k c a e in rw (e, with_active) (i ∙ ap active_id e, t)
  ];
}

Keeps-skip : Keeps skip
Keeps-skip = record { at = λ a. (refl, refl) }

Keeps-send : (e : SessionEvent) → Keeps (send e)
Keeps-send e = record { at = λ a. (refl, refl) }

Keeps-if : (b : Bool) {m : Act} → Keeps m → Keeps (if b then m else skip)
Keeps-if true h = h
Keeps-if false h = Keeps-skip

Keeps-announce : (said : Announcement) → Keeps (announce said)
unfolding announce
Keeps-announce said = record { at = λ a. ground arith }

Keeps-flush_render : Keeps flush_render
unfolding flush_render
Keeps-flush_render = record { at = λ a. ground arith }

Keeps-read_text : (t : Option Text) → Keeps (read_text t)
unfolding read_text
Keeps-read_text none = Keeps-skip
Keeps-read_text (some t) = Keeps-announce (Announcement.read_aloud t)

Keeps-speak : (mode : ReadMode) (b : Bool) (u : UnspokenText) → Keeps (speak mode b u)
unfolding speak
Keeps-speak quiet b u = Keeps-skip
Keeps-speak auto b u = Keeps-read_text u.text
Keeps-speak too_big b u = Keeps->> (Keeps-announce _) (Keeps-if b (Keeps-read_text (last_line u)))

Keeps-apply_flush : (mode : ReadMode) → Keeps (apply_flush mode)
unfolding apply_flush speak_unspoken
Keeps-apply_flush mode = Keeps->> Keeps-flush_render (
    Keeps-with_active (speak_unspoken mode) λ c a e.
      let b = record a { active = some (record c { unspoken = (take c.unspoken).1 }) } in
      let (i, t) = (Keeps-speak mode (is_unintegrated a.session.integration) c.unspoken).at b in
      (i ∙ sym (ap active_id e), t))

Keeps-apply_action : (action : PacingAction) → Keeps (apply_action action)
unfolding apply_action
Keeps-apply_action nothing = Keeps-skip
Keeps-apply_action still_running = Keeps-announce _
Keeps-apply_action output_continues = Keeps-announce _
Keeps-apply_action (flush mode) = Keeps-apply_flush mode

pub Keeps-apply : (action : PacingAction) → Keeps (apply action)
unfolding apply
Keeps-apply action = record { at = λ a. (Keeps-apply_action (aside a.self_talk action)).at a }

Keeps-request_pacing : (w : Wake) → Keeps (request_pacing w)
Keeps-request_pacing w = record { at = λ a. (refl, refl) }

Keeps-render_output : (x : Rendered) → Keeps (render_output x)
unfolding render_output
Keeps-render_output x = record { at = λ a. ground arith }

-- Going on with the same command under another record of it.
Keeps-adopt :
    {m : Act} (c d : ActiveCommand) (a : SessionActor)
    → Keeps m
    → a.active ≡ some c
    → d.id ≡ c.id
    → Same a (m (record a { active = some d })).0
Keeps-adopt c d a km e same =
    let (i, t) = km.at (record a { active = some d }) in
    (i ∙ ap some same ∙ sym (ap active_id e), t)

Keeps-speak_output :
    (row : LineId) (text : Text) (now : Duration) → Keeps (speak_output row text now)
unfolding speak_output
Keeps-speak_output row text now = Keeps-with_active _ λ c a e.
    let said = separated c.last_line row text in
    let (pacing, outcome) =
      on_output c.pacing a.config (measure said) (now - c.started_at) a.follow_mode in
    let d = record c {
      last_line = some row;
      unspoken = push c.unspoken said a.config;
      pacing = pacing;
    } in
    Keeps-adopt c d a
      (Keeps->> (Keeps-apply outcome.action) (Keeps-request_pacing (wake_from outcome.wake_after)))
      e refl

pub Keeps-output : (x : Rendered) (b : Bool) (now : Duration) → Keeps (output x b now)
unfolding output
Keeps-output x b now =
    Keeps->> (Keeps-render_output x) (Keeps-if b (Keeps-speak_output x.line x.text now))

pub Keeps-wake_pacing : (now : Duration) → Keeps (wake_pacing now)
unfolding wake_pacing
Keeps-wake_pacing now = Keeps-with_active _ λ c a e.
    let (pacing, outcome) = on_wake c.pacing a.config (size c.unspoken) (now - c.started_at) in
    Keeps-adopt c (record c { pacing = pacing }) a
      (Keeps->> (Keeps-apply outcome.action) (Keeps-request_pacing (wake_from outcome.wake_after)))
      e refl

pub Keeps-wake_render : Keeps wake_render
unfolding wake_render disarmed
Keeps-wake_render = record {
  at = λ a.
      let (i, t) = Keeps-flush_render.at (record a { active = disarmed a.active }) in
      elim (Option-cases a.active) [
        | inl e ↦ ground (arith, e, i, t)
        | inr (c, e) ↦ ground (arith, e, i, t)
      ];
}

pub Keeps-far_end_line : (e : SessionEvent) → Keeps (flush_render >> send e)
Keeps-far_end_line e = Keeps->> Keeps-flush_render (Keeps-send e)

pub Keeps-changed :
    (f : SessionState → SessionState) (e : SessionEvent) → Keeps (λ a. changed (f a.session) e a)
unfolding changed
Keeps-changed f e = record { at = λ a. ground arith }

-- What ends a command leaves none active; the self-talk goes on.
abbrev Ends : Act → SessionActor → Type 0
Ends m a = (active_id (m a).0.active ≡ none) × ((m a).0.self_talk ≡ a.self_talk)

Ends->>retire :
    (m : Act) (a : SessionActor) → (m a).0.self_talk ≡ a.self_talk → Ends (m >> retire) a
unfolding retire
Ends->>retire m a h = (refl, h)

talks-close_active :
    (terminal : SessionEvent) (c : ActiveCommand) (a : SessionActor)
    → (close_active terminal c a).0.self_talk ≡ a.self_talk
unfolding close_active
talks-close_active terminal c a =
    let (pacing, outcome) = on_command_end c.pacing a.config (size c.unspoken) in
    ((Keeps->> (Keeps->> Keeps-flush_render (Keeps-apply outcome.action)) (Keeps-send terminal)).at
      (record a { active = some (record c { pacing = pacing }) })).1

Keeps-announce_exit : (exit : Option ExitCode) → Keeps (announce_exit exit)
unfolding announce_exit announce
Keeps-announce_exit none = Keeps-skip
Keeps-announce_exit (some code) = record { at = λ a. ground arith }

pub Ends-command_ended :
    (id : CommandId) (exit : Option ExitCode) (a : SessionActor) → Ends (command_ended id exit) a
unfolding command_ended
Ends-command_ended id exit a = elim (Option-cases a.active) [
  | inl e ↦ rw (e, with_active) (ap active_id e, refl)
  | inr (c, e) ↦
      let close = close_active (SessionEvent.command_finished id) c in
      rw (e, with_active)
        (Ends->>retire (close >> announce_exit exit) a (
          ((Keeps-announce_exit exit).at (close a).0).1
          ∙ talks-close_active (SessionEvent.command_finished id) c a))
]

pub Ends-command_interrupted : (id : CommandId) (a : SessionActor) → Ends (command_interrupted id) a
unfolding command_interrupted
Ends-command_interrupted id a = elim (Option-cases a.active) [
  | inl e ↦ rw (e, with_active) (ap active_id e, refl)
  | inr (c, e) ↦
      rw (e, with_active)
        (Ends->>retire (close_active (SessionEvent.command_interrupted id) c) a
          (talks-close_active (SessionEvent.command_interrupted id) c a))
]
