-- ===== src/Session/Pump/Sound/Line.antt =====
-- The events of the tracker keep to the protocol.
use acter.Prelude.{
  refl, Bool, not, ◌&&◌, ◌||◌, Option, none, some, List, [], ◌∷◌, ◌++◌, Text, if◌then◌else◌, arith,
}
use acter.Entity.{LineId, LineRevision, StyleRun, Screen, reports_exit_code}
use acter.SessionState.{integration_markers_observed}
use acter.Actor.{SessionInput}
use acter.Tracker.{Region, BoundaryEvent, is_prompt}
use acter.Session.Echo.{observe}
use acter.Session.Text.{trim, is_empty_text}
use acter.Session.Rows.{Lines, Due, due, row_text}
use acter.Session.Pump.{Pump, Do, modify, given, is_some, window, wants}
use acter.Session.Pump.Output.{is_far_end, pending_echo, is_recoloured}
use acter.Session.Pump.Line.{
  is_standing, finish_prompt, finish_drawing, prompt_finished, drawn_so_far, redrawn, drawn,
  is_settled, place, dispatch, dispatch_due, note_owed, note_row, new_line, line, forget_standing,
  event, events,
}
use acter.Session.Pump.Protocol.{
  follow, Sound, any, is_open, Sound->>, Sound-skip, Sound-given, Sound-modify,
}
use acter.Session.Pump.Sound.{
  Sound-when, Sound-if, Sound-close, Sound-output, Sound-forget, Sound-set_far_end,
  Sound-set_drawing, Sound-set_standing, Sound-set_echo, Sound-set_cursor, Sound-set_lines,
  Sound-set_integration, Sound-hold, Sound-spill, Sound-recolour,
}
use acter.Session.Pump.Sound.Blocks.{Sound-tell_quiet, Sound-boundary, Sound-block_started}
use acter.Session.Pump.Sound.FarEnd.{Sound-note_change}

Sound-finish_prompt : (drawn : Text) → Sound any (finish_prompt drawn) any
unfolding finish_prompt follow
Sound-finish_prompt drawn = Sound->> (Sound-set_drawing none) (
    Sound-given (λ p.
      Sound-if (is_empty_text (trim drawn) || is_standing drawn p.standing) Sound-skip (
        Sound->> (Sound-set_standing (some drawn))
          (Sound-tell_quiet (SessionInput.prompt_drawn drawn) (λ ph. refl)))))

Sound-finish_drawing : (o : Option Text) → Sound any (finish_drawing o) any
Sound-finish_drawing none = Sound-skip
Sound-finish_drawing (some drawn) = Sound-finish_prompt drawn

pub Sound-prompt_finished : Sound any prompt_finished any
unfolding prompt_finished
Sound-prompt_finished =
    Sound-given
      (λ p. Sound-if (is_prompt p.tracker.region) Sound-skip (Sound-finish_drawing p.drawing))

Sound-drawn :
    (region : Region) (text : Text) (revision : LineRevision)
    → Sound any (drawn region text revision) any
unfolding drawn
Sound-drawn region text revision = Sound-given (λ p. Sound-when (reports_exit_code p.markers) (
    Sound-if (is_prompt region)
      (Sound-given (λ q. Sound-set_drawing (some (redrawn revision (drawn_so_far q.drawing) text))))
      Sound-prompt_finished))

-- Where a block is open, the row may be sent at once.
Sound-if_open :
    {m k : Do} (b : Pump → Bool)
    → Sound is_open m any
    → Sound any k any
    → Sound any (given λ p. if is_some p.opened && b p then m else k) any
Sound-if_open b s t = record { at = λ p v h. ground (arith, s.at p v, t.at p v) }

Sound-place : (id : LineId) (d : Due) → Sound any (place id d) any
unfolding place
Sound-place id d =
    Sound-if_open (λ p. not (pending_echo id p)) (Sound-forget (Sound-output id d))
      (Sound-hold id d)

Sound-dispatch : (region : Region) (id : LineId) (d : Due) → Sound any (dispatch region id d) any
unfolding dispatch
Sound-dispatch region id d = Sound-given (λ p.
    Sound-if (wants p.integration p.markers region) (Sound-place id d) (
      Sound-when (is_far_end p.far_end.owner) (
        Sound-given (λ q.
          Sound-set_far_end (record q.far_end {
            printed = q.far_end.printed ++ record { id = id; due = d } ∷ [];
          })))))

Sound-dispatch_due :
    (region : Region) (id : LineId) (o : Option Due) → Sound any (dispatch_due region id o) any
unfolding dispatch_due
Sound-dispatch_due region id none = Sound-skip
Sound-dispatch_due region id (some d) =
    Sound-dispatch region id (record d { prompt = is_prompt region })

Sound-note_owed :
    (region : Region) (id : LineId) (before text : Text) (revision : LineRevision)
    (owed : Option Due × Lines)
    → Sound any (note_owed region id before text revision owed) any
unfolding note_owed
Sound-note_owed region id before text revision (owed, lines) =
    Sound->> (Sound->> (Sound-set_lines lines) (Sound-note_change id before text revision))
      (Sound-dispatch_due region id owed)

Sound-note_row :
    (region : Region) (id : LineId) (text : Text) (revision : LineRevision) (runs : List StyleRun)
    → Sound any (note_row region id text revision runs) any
unfolding note_row
Sound-note_row region id text revision runs = Sound-given (λ p.
    Sound-note_owed region id (row_text id p.lines) text revision
      (due id text revision runs p.lines))

Sound-new_line :
    (region : Region) (id : LineId) (text : Text) (revision : LineRevision) (runs : List StyleRun)
    → Sound any (new_line region id text revision runs) any
unfolding new_line
Sound-new_line region id text revision runs =
    Sound->>
      (Sound->>
        (Sound->>
          (Sound->>
            (Sound->> (Sound-drawn region text revision)
              (Sound-given (λ p. Sound-set_echo (observe region text revision p.echo))))
            (Sound-given
              (λ p. Sound-set_cursor (if is_settled revision then p.cursor else some id))))
          (Sound-note_row region id text revision runs))
        (Sound-boundary region id text revision))
      (Sound-given (λ p. Sound-when (not (is_some (window p.submitted))) Sound-spill))

Sound-line :
    (region : Region) (id : LineId) (text : Text) (revision : LineRevision) (runs : List StyleRun)
    → Sound any (line region id text revision runs) any
unfolding line
Sound-line region id text revision runs = Sound-given (λ p.
    Sound-if (is_recoloured id text revision p) (Sound-recolour id text runs)
      (Sound-new_line region id text revision runs))

Sound-forget_standing : Sound any (modify forget_standing) any
unfolding forget_standing
Sound-forget_standing = Sound-modify forget_standing (λ p. (refl, refl, refl, refl, λ h. h))

Sound-event : (e : BoundaryEvent) → Sound any (event e) any
unfolding event follow
Sound-event BoundaryEvent.markers_observed =
    Sound->> (Sound-given (λ p. Sound-set_integration (integration_markers_observed p.integration)))
      (Sound-tell_quiet SessionInput.markers_observed (λ ph. refl))
Sound-event BoundaryEvent.block_started = Sound->> Sound-forget_standing Sound-block_started
Sound-event (BoundaryEvent.line region id text revision runs) =
    Sound-line region id text revision runs
Sound-event (BoundaryEvent.block_ended exit) =
    Sound->> Sound-forget_standing (Sound-forget (Sound-close exit))
Sound-event (BoundaryEvent.screen_changed Screen.alternate) =
    Sound-tell_quiet SessionInput.alt_screen_entered (λ ph. refl)
Sound-event (BoundaryEvent.screen_changed Screen.normal) =
    Sound-tell_quiet SessionInput.alt_screen_left (λ ph. refl)

pub Sound-events : (es : List BoundaryEvent) → Sound any (events es) any
unfolding events
Sound-events [] = Sound-skip
Sound-events (e ∷ es) = Sound->> (Sound->> (Sound-event e) Sound-prompt_finished) (Sound-events es)
