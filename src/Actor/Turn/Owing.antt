-- ===== src/Actor/Turn/Owing.antt =====
-- What each method of the actor asks of the pacing timer while text waits to be spoken.
use acter.Prelude.{
  ◌-◌, ◌≡◌, ◌≢◌, ◌⊎◌, refl, ◌∙◌, Bool, true, false, Option, Option-cases, inl, inr, Text, none,
  some, [], arith,
}
use acter.Entity.{LineId}
use acter.Pacing.{
  on_output, on_wake, measure, Duration, PacingState, PacingOutcome, PacingAction, is_empty,
  nothing, flush, still_running, output_continues, auto, too_big, quiet, ReadMode,
}
use acter.Actor.{SessionInput, Wake, ActiveCommand, Rendered, SessionActor}
use acter.Pacing.Outcomes.{on_output-asks, Woken, on_wake-Woken, again, spoken, idle, held}
use acter.Unspoken.{push, take, size, empty}
use acter.Actor.Step.{
  separated, ◌>>◌, with_active, apply, handle, wake_render, wake_pacing, render_output,
  speak_output, wake_from, request_pacing,
}

abbrev pub armed_after : Wake → Bool → Bool
armed_after Wake.unchanged b = b
armed_after Wake.clear b = false
armed_after (Wake.after d) b = true

-- Text that the babble guard does not hold back waits only for a wake that is asked for.
abbrev pub Owes : Bool → Wake → Option ActiveCommand → Type 0
Owes b w none = Unit
Owes b w (some c) =
    is_empty (size c.unspoken) ≡ false → c.pacing.babble_tripped ≡ false → armed_after w b ≡ true

-- What holds of the actor inside a turn, `b` telling whether the pacing timer is armed.
pub record IsOwing (b : Bool) (a : SessionActor) : Type 0 where
  pub unfollowed : a.follow_mode ≡ false
  pub owes : Owes b a.requests.pacing a.active

is_empty-size-empty : is_empty (size empty) ≡ true
unfolding size
is_empty-size-empty = ground arith

apply-follow_mode :
    (action : PacingAction) (a : SessionActor) → (apply action a).0.follow_mode ≡ a.follow_mode
unfolding apply
apply-follow_mode nothing a = ground arith
apply-follow_mode still_running a = ground arith
apply-follow_mode output_continues a = ground arith
apply-follow_mode (flush mode) a = ground arith

asked : (b : Bool) (d : Duration) (o : Option ActiveCommand) → Owes b (Wake.after d) o
asked b d none = tt
asked b d (some c) = λ h k. refl

-- A wake asked for pays for everything.
asked-IsOwing :
    (b : Bool) (d : Duration) (o : Option Duration) (a : SessionActor)
    → o ≡ some d
    → a.follow_mode ≡ false
    → IsOwing b (request_pacing (wake_from o) a).0
asked-IsOwing b d o a e h = record { unfollowed = h; owes = rw e (asked b d a.active) }

-- Nothing is left to speak, or the babble guard holds it back.
abbrev Rests : Option ActiveCommand → Type 0
Rests none = Unit
Rests (some c) = (is_empty (size c.unspoken) ≡ true) ⊎ (c.pacing.babble_tripped ≡ true)

rested : (b : Bool) (w : Wake) (o : Option ActiveCommand) → Rests o → Owes b w o
rested b w none h = tt
rested b w (some c) (inl h) = λ k. absurd (ground (arith, h, k))
rested b w (some c) (inr h) = λ k l. absurd (ground (arith, h, l))

apply-flush :
    (mode : ReadMode) (a : SessionActor) (c : ActiveCommand)
    → a.active ≡ some c
    → (apply (flush mode) a).0.active ≡ some (record c { unrendered = []; unspoken = empty })
unfolding apply take
apply-flush quiet a c e = ground (arith, e)
apply-flush auto a c e = ground (arith, e)
apply-flush too_big a c e = ground (arith, e)

Rests-flush :
    (mode : ReadMode) (a : SessionActor) (c : ActiveCommand)
    → a.active ≡ some c
    → Rests (apply (flush mode) a).0.active
Rests-flush mode a c e = rw (apply-flush mode a c e) (inl is_empty-size-empty)

speak_output-IsOwing :
    (b : Bool) (row : LineId) (text : Text) (now : Duration) (a : SessionActor)
    → IsOwing b a
    → IsOwing b (speak_output row text now a).0
unfolding speak_output
speak_output-IsOwing b row text now a h = elim (Option-cases a.active) [
  | inl e ↦ rw (e, with_active) h
  | inr (c, e) ↦
      (let said = separated c.last_line row text in
        let (pacing, outcome) =
          on_output c.pacing a.config (measure said) (now - c.started_at) a.follow_mode in
        let d = record c {
          last_line = some row;
          unspoken = push c.unspoken said a.config;
          pacing = pacing;
        } in
        let next_actor = record a { active = some d } in
        let found =
          on_output-asks a.config c.pacing (measure said) (now - c.started_at) a.follow_mode
            h.unfollowed in
        rw (e, with_active)
          (asked-IsOwing b found.0 outcome.wake_after (apply outcome.action next_actor).0 found.1
            (apply-follow_mode outcome.action next_actor ∙ h.unfollowed)))
]

render_output-IsOwing :
    (b : Bool) (x : Rendered) (a : SessionActor) → IsOwing b a → IsOwing b (render_output x a).0
unfolding render_output
render_output-IsOwing b x a h = ground arith

pub handle-IsOwing :
    (b : Bool) (i : SessionInput) (now : Duration) (a : SessionActor)
    → i ≢ SessionInput.follow_mode true
    → IsOwing b a
    → IsOwing b (handle i now a).0
unfolding handle
handle-IsOwing b (SessionInput.command_started id l) now a n h = ground (arith, is_empty-size-empty)
handle-IsOwing b (SessionInput.output row revision text true prompt runs) now a n h =
    let x : Rendered = record {
      line = row;
      revision = revision;
      text = text;
      prompt = prompt;
      runs = runs;
    } in
    speak_output-IsOwing b row text now (render_output x a).0 (render_output-IsOwing b x a h)
handle-IsOwing b (SessionInput.output row revision text false prompt runs) now a n h = ground arith
handle-IsOwing b (SessionInput.command_ended id exit) now a n h = ground arith
handle-IsOwing b (SessionInput.command_interrupted id) now a n h = ground arith
handle-IsOwing b (SessionInput.far_end_line t c x) now a n h = ground arith
handle-IsOwing b _ now a n h = ground arith

pub wake_render-IsOwing : (b : Bool) (a : SessionActor) → IsOwing b a → IsOwing b (wake_render a).0
unfolding wake_render
wake_render-IsOwing b a h = ground arith

apply-unspoken :
    (action : PacingAction) (a : SessionActor)
    → (action ≡ nothing) ⊎ (action ≡ output_continues)
    → (apply action a).0.active ≡ a.active
unfolding apply
apply-unspoken action a h = ground (arith, h)

Woken-IsOwing :
    (b : Bool) (a : SessionActor) (c : ActiveCommand) (s : PacingState) (o : PacingOutcome)
    → a.follow_mode ≡ false
    → Woken (size c.unspoken) s o
    → IsOwing b
        ((apply o.action >> request_pacing (wake_from o.wake_after))
          (record a { active = some (record c { pacing = s }) })).0
Woken-IsOwing b a c s o h (again d e) =
    let m = record a { active = some (record c { pacing = s }) } in
    asked-IsOwing b d o.wake_after (apply o.action m).0 e (apply-follow_mode o.action m ∙ h)
Woken-IsOwing b a c s o h (spoken mode e) =
    let m = record a { active = some (record c { pacing = s }) } in
    record {
      unfollowed = apply-follow_mode o.action m ∙ h;
      owes =
          rested b (wake_from o.wake_after) (apply o.action m).0.active
            (rw e (Rests-flush mode m (record c { pacing = s }) refl));
    }
Woken-IsOwing b a c s o h (idle left e) =
    let m = record a { active = some (record c { pacing = s }) } in
    record {
      unfollowed = apply-follow_mode o.action m ∙ h;
      owes =
          rested b (wake_from o.wake_after) (apply o.action m).0.active
            (rw (apply-unspoken o.action m (inl e)) (inl left));
    }
Woken-IsOwing b a c s o h (held tripped e) =
    let m = record a { active = some (record c { pacing = s }) } in
    record {
      unfollowed = apply-follow_mode o.action m ∙ h;
      owes =
          rested b (wake_from o.wake_after) (apply o.action m).0.active
            (rw (apply-unspoken o.action m (inr e)) (inr tripped));
    }

pub wake_pacing-IsOwing :
    (b : Bool) (now : Duration) (a : SessionActor)
    → a.follow_mode ≡ false
    → IsOwing b (wake_pacing now a).0
unfolding wake_pacing
wake_pacing-IsOwing b now a h = elim (Option-cases a.active) [
  | inl e ↦ rw (e, with_active) (record { unfollowed = h; owes = rw e tt })
  | inr (c, e) ↦
      (let at = now - c.started_at in
        let (s, o) = on_wake c.pacing a.config (size c.unspoken) at in
        rw (e, with_active)
          (Woken-IsOwing b a c s o h (on_wake-Woken a.config c.pacing (size c.unspoken) at)))
]
