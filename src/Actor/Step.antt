-- ===== src/Actor/Step.antt =====
-- Handling one input or one deadline. `Act` is a method that may send events: `now` is what the
-- clock says while it runs.
pub mod Speech
pub mod Hush
pub mod Kept
use acter.Prelude.{
  ℕ, ◌+◌, ◌-◌, min, Bool, true, false, not, ◌&&◌, ◌||◌, Option, none, some, List, [], ◌∷◌, ◌++◌,
  Text, ◌==◌, if◌then◌else◌, is_zero, map,
}
use acter.Entity.{LineId, LineRevision, StyleRun, ExitCode, u32_size}
use acter.SessionState.{
  SessionState, Integration, session_eq, markers_observed, grace_period_expired, alt_screen_entered,
  alt_screen_left,
}
use acter.Pacing.{
  Duration, ReadMode, auto, too_big, quiet, PacingAction, nothing, still_running, output_continues,
  flush, PacingOutcome, measure, newline, on_output, on_wake, on_command_end,
}
use acter.Unspoken.{UnspokenText, size, push, last_line, take}
use acter.Event.{CommandId, Announcement, SessionEvent}
use acter.Actor.{SessionInput, Wake, Requests, Rendered, ActiveCommand, new_command, SessionActor}
use acter.Actor.Render.{render}

abbrev pub Act : Type 0
Act = SessionActor → SessionActor × List SessionEvent

infixl 5 ◌>>◌
abbrev pub ◌>>◌ : Act → Act → Act
◌>>◌ m k a = let (b, sent) = m a in let (c, later) = k b in (c, sent ++ later)

abbrev pub skip : Act
skip a = (a, [])

abbrev pub send : SessionEvent → Act
send e a = (a, e ∷ [])

abbrev pub with_active : (ActiveCommand → Act) → Act
with_active f a = elim a.active [ none ↦ (a, []) | some c ↦ f c a ]

abbrev rendered_event : CommandId → Rendered → SessionEvent
rendered_event id r = SessionEvent.output id r.line r.revision r.text r.prompt r.runs

unfoldable pub rendered_events : CommandId → List Rendered → List SessionEvent
rendered_events id [] = []
rendered_events id (r ∷ rest) = rendered_event id r ∷ rendered_events id rest

-- An empty list is left alone and sends nothing.
unfoldable pub flush_render : Act
unfolding rendered_events
flush_render = with_active λ c a.
    (record a { active = some (record c { unrendered = [] }) }, rendered_events c.id c.unrendered)

unfoldable pub announce : Announcement → Act
announce said = with_active λ c. send (SessionEvent.announce c.id said)

unfoldable pub aside : Bool → PacingAction → PacingAction
aside false action = action
aside true (flush mode) = flush quiet
aside true _ = nothing

unfoldable pub is_unintegrated : Integration → Bool
is_unintegrated Integration.unintegrated = true
is_unintegrated _ = false

unfoldable pub read_text : Option Text → Act
unfolding announce
read_text none = skip
read_text (some text) = announce (Announcement.read_aloud text)

-- The `match mode` of `apply`, over what was unspoken.
unfoldable pub speak : ReadMode → Bool → UnspokenText → Act
unfolding announce read_text is_unintegrated
speak quiet unintegrated u = skip
speak auto unintegrated u = read_text u.text
speak too_big unintegrated u =
    announce (Announcement.too_big (min (size u).lines (u32_size - 1)))
    >> (if unintegrated then read_text (last_line u) else skip)

unfoldable pub speak_unspoken : ReadMode → ActiveCommand → Act
unfolding speak is_unintegrated
speak_unspoken mode c a =
    speak mode (is_unintegrated a.session.integration) c.unspoken
      (record a { active = some (record c { unspoken = (take c.unspoken).1 }) })

unfoldable pub apply_flush : ReadMode → Act
unfolding flush_render speak_unspoken
apply_flush mode = flush_render >> with_active (speak_unspoken mode)

unfoldable pub apply_action : PacingAction → Act
unfolding apply_flush announce
apply_action nothing = skip
apply_action (flush mode) = apply_flush mode
apply_action still_running = announce Announcement.still_running
apply_action output_continues = announce Announcement.output_continues

unfoldable pub apply : PacingAction → Act
unfolding apply_action aside
apply action a = apply_action (aside a.self_talk action) a

abbrev pub wake_from : Option Duration → Wake
wake_from (some d) = Wake.after d
wake_from none = Wake.clear

abbrev pub request_pacing : Wake → Act
request_pacing w a = (record a { requests = record a.requests { pacing = w } }, [])

abbrev pub request_render : Wake → Act
request_render w a = (record a { requests = record a.requests { render = w } }, [])

unfoldable pub command_started : CommandId → Option Text → Duration → Act
command_started id command_line now a = (
  record a { active = some (new_command id now) },
  SessionEvent.command_started id command_line ∷ [],
)

is_appended : LineRevision → Bool
is_appended LineRevision.appended = true
is_appended _ = false

is_nonempty : Text → Bool
is_nonempty [] = false
is_nonempty (c ∷ cs) = true

-- The first half of `output`: the row waits for the render tick, which is armed once.
unfoldable pub render_output : Rendered → Act
unfolding is_appended is_nonempty
render_output x = with_active λ c a.
    if not (is_appended x.revision) || is_nonempty x.text
    then (let d = record c { unrendered = render x c.unrendered; render_armed = true } in
        let b = record a { active = some d } in
        if c.render_armed then (b, []) else request_render (Wake.after a.config.render_tick) b)
    else (a, [])

unfoldable pub separated : Option LineId → LineId → Text → Text
separated none row text = text
separated (some last) row text = if last == row then text else newline ∷ text

-- The second half of `output`, for spoken text.
unfoldable pub speak_output : LineId → Text → Duration → Act
unfolding separated apply
speak_output row text now = with_active λ c a.
    let said = separated c.last_line row text in
    let at = now - c.started_at in
    let (pacing, outcome) = on_output c.pacing a.config (measure said) at a.follow_mode in
    let d = record c {
      last_line = some row;
      unspoken = push c.unspoken said a.config;
      pacing = pacing;
    } in
    (apply outcome.action >> request_pacing (wake_from outcome.wake_after))
      (record a { active = some d })

unfoldable pub output : Rendered → Bool → Duration → Act
unfolding render_output speak_output
output x spoken now = render_output x >> (if spoken then speak_output x.line x.text now else skip)

-- `close` of a running command
unfoldable pub close_active : SessionEvent → ActiveCommand → Act
unfolding flush_render apply
close_active terminal c a =
    let (pacing, outcome) = on_command_end c.pacing a.config (size c.unspoken) in
    (flush_render >> apply outcome.action >> send terminal)
      (record a { active = some (record c { pacing = pacing }) })

unfoldable pub retire : Act
retire a =
    (record a { active = none; requests = record { render = Wake.clear; pacing = Wake.clear } }, [])

unfoldable pub announce_exit : Option ExitCode → Act
unfolding announce
announce_exit none = skip
announce_exit (some code) = if is_zero code then skip else announce (Announcement.failed code)

unfoldable pub command_ended : CommandId → Option ExitCode → Act
unfolding close_active announce_exit retire
command_ended id exit_code =
    with_active
      λ c. close_active (SessionEvent.command_finished id) c >> announce_exit exit_code >> retire

unfoldable pub command_interrupted : CommandId → Act
unfolding close_active retire
command_interrupted id =
    with_active λ c. close_active (SessionEvent.command_interrupted id) c >> retire

-- A change of the session's state that is told only if it is one.
unfoldable pub changed : SessionState → SessionEvent → Act
changed next e a =
    if session_eq next a.session then (a, []) else (record a { session = next }, e ∷ [])

unfoldable pub handle : SessionInput → Duration → Act
unfolding command_started output command_ended command_interrupted flush_render changed
handle (SessionInput.command_started id command_line) now = command_started id command_line now
handle (SessionInput.output row revision text spoken prompt runs) now =
    output (record { line = row; revision = revision; text = text; prompt = prompt; runs = runs })
      spoken now
handle (SessionInput.command_ended id exit_code) now = command_ended id exit_code
handle (SessionInput.command_interrupted id) now = command_interrupted id
handle (SessionInput.connection state) now = send (SessionEvent.connection_changed state)
handle (SessionInput.prompt_drawn text) now = send (SessionEvent.prompt_drawn text)
handle (SessionInput.far_end_line text caret anchored) now =
    flush_render >> send (SessionEvent.far_end_line text caret anchored)
handle SessionInput.markers_observed now =
    λ a. (record a { session = markers_observed a.session }, [])
handle SessionInput.grace_period_expired now =
    λ a. changed (grace_period_expired a.session) SessionEvent.integration_unavailable a
handle (SessionInput.follow_mode on) now = λ a. (record a { follow_mode = on }, [])
handle (SessionInput.self_talk on) now = λ a. (record a { self_talk = on }, [])
handle SessionInput.alt_screen_entered now =
    λ a. changed (alt_screen_entered a.session) SessionEvent.alt_screen_entered a
handle SessionInput.alt_screen_left now =
    λ a. changed (alt_screen_left a.session) SessionEvent.alt_screen_left a

unfoldable pub disarmed : Option ActiveCommand → Option ActiveCommand
disarmed none = none
disarmed (some c) = some (record c { render_armed = false })

unfoldable pub wake_render : Act
unfolding flush_render disarmed
wake_render a = flush_render (record a { active = disarmed a.active })

unfoldable pub wake_pacing : Duration → Act
unfolding apply
wake_pacing now = with_active λ c a.
    let at = now - c.started_at in
    let (pacing, outcome) = on_wake c.pacing a.config (size c.unspoken) at in
    (apply outcome.action >> request_pacing (wake_from outcome.wake_after))
      (record a { active = some (record c { pacing = pacing }) })
