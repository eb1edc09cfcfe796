-- ===== src/Session/Pump/Line.antt =====
-- One event of the tracker: the prompt being drawn, and `line`, which sends a row where it belongs.
use acter.Prelude.{
  Bool, true, false, not, ◌&&◌, ◌||◌, Option, none, some, List, [], ◌∷◌, ◌++◌, Text, if◌then◌else◌,
  seq_eq,
}
use acter.Entity.{LineId, LineRevision, StyleRun, Screen, reports_exit_code}
use acter.SessionState.{integration_markers_observed}
use acter.Actor.{SessionInput}
use acter.Tracker.{Region, BoundaryEvent, is_prompt}
use acter.Session.Echo.{observe}
use acter.Session.Text.{trim, is_empty_text}
use acter.Session.Rows.{Lines, Due, due, row_text}
use acter.Session.Pump.{
  set_cursor, set_drawing, set_echo, set_far_end, set_integration, set_lines, set_standing, Pump,
  Do, ◌>>◌, skip, tell, modify, given, when, is_some, close, window, wants,
}
use acter.Session.Pump.Output.{
  is_far_end, output, hold, spill, pending_echo, recolour, is_recoloured,
}
use acter.Session.Pump.Blocks.{block_started, boundary}
use acter.Session.Pump.FarEnd.{note_change}

abbrev pub is_standing : Text → Option Text → Bool
is_standing drawn none = false
is_standing drawn (some standing) = seq_eq standing drawn

unfoldable pub finish_prompt : Text → Do
unfolding trim
finish_prompt drawn =
    set_drawing none
    >> given λ p.
      if is_empty_text (trim drawn) || is_standing drawn p.standing
      then skip
      else set_standing (some drawn) >> tell (SessionInput.prompt_drawn drawn)

abbrev pub finish_drawing : Option Text → Do
finish_drawing none = skip
finish_drawing (some drawn) = finish_prompt drawn

unfoldable pub prompt_finished : Do
unfolding finish_prompt
prompt_finished = given λ p. if is_prompt p.tracker.region then skip else finish_drawing p.drawing

abbrev pub drawn_so_far : Option Text → Text
drawn_so_far none = []
drawn_so_far (some text) = text

abbrev pub redrawn : LineRevision → Text → Text → Text
redrawn LineRevision.appended old text = old ++ text
redrawn _ old text = text

-- `Pump::drawn`
unfoldable pub drawn : Region → Text → LineRevision → Do
unfolding prompt_finished
drawn region text revision = given λ p. when (reports_exit_code p.markers) (
    if is_prompt region
    then given (λ q. set_drawing (some (redrawn revision (drawn_so_far q.drawing) text)))
    else prompt_finished)

abbrev pub is_settled : LineRevision → Bool
is_settled LineRevision.settled = true
is_settled _ = false

-- Into the block, or held back.
unfoldable pub place : LineId → Due → Do
unfolding output hold pending_echo
place id d =
    given λ p. if is_some p.opened && not (pending_echo id p) then output id d else hold id d

-- Where the row goes that is due; the far end's line keeps what is not output until it settles.
unfoldable pub dispatch : Region → LineId → Due → Do
unfolding place wants
dispatch region id d = given λ p.
    if wants p.integration p.markers region
    then place id d
    else when (is_far_end p.far_end.owner) (
        given (λ q.
          set_far_end
            (record q.far_end { printed = q.far_end.printed ++ record { id = id; due = d } ∷ [] })))

unfoldable pub dispatch_due : Region → LineId → Option Due → Do
unfolding dispatch
dispatch_due region id none = skip
dispatch_due region id (some d) = dispatch region id (record d { prompt = is_prompt region })

unfoldable pub note_owed : Region → LineId → Text → Text → LineRevision → Option Due × Lines → Do
unfolding note_change dispatch_due
note_owed region id before text revision (owed, lines) =
    set_lines lines >> note_change id before text revision >> dispatch_due region id owed

-- The row is read before `due` writes it.
unfoldable pub note_row : Region → LineId → Text → LineRevision → List StyleRun → Do
unfolding due row_text note_owed
note_row region id text revision runs =
    given λ p.
      note_owed region id (row_text id p.lines) text revision (due id text revision runs p.lines)

-- `line`, for a row that is not merely recoloured
unfoldable pub new_line : Region → LineId → Text → LineRevision → List StyleRun → Do
unfolding drawn observe note_row boundary window spill
new_line region id text revision runs =
    drawn region text revision
    >> given (λ p. set_echo (observe region text revision p.echo))
    >> given (λ p. set_cursor (if is_settled revision then p.cursor else some id))
    >> note_row region id text revision runs
    >> boundary region id text revision
    >> given λ p. when (not (is_some (window p.submitted))) spill

unfoldable pub line : Region → LineId → Text → LineRevision → List StyleRun → Do
unfolding new_line recolour is_recoloured
line region id text revision runs = given λ p.
    if is_recoloured id text revision p
    then recolour id text runs
    else new_line region id text revision runs

unfoldable pub forget_standing : Pump → Pump
forget_standing p = record p { standing = none }

-- The arms of `feed`.
unfoldable pub event : BoundaryEvent → Do
unfolding forget_standing block_started close line
event BoundaryEvent.markers_observed =
    given (λ p. set_integration (integration_markers_observed p.integration))
    >> tell SessionInput.markers_observed
event BoundaryEvent.block_started = modify forget_standing >> block_started
event (BoundaryEvent.line region id text revision runs) = line region id text revision runs
event (BoundaryEvent.block_ended exit) = modify forget_standing >> close exit
event (BoundaryEvent.screen_changed Screen.alternate) = tell SessionInput.alt_screen_entered
event (BoundaryEvent.screen_changed Screen.normal) = tell SessionInput.alt_screen_left

unfoldable pub events : List BoundaryEvent → Do
unfolding event prompt_finished
events [] = skip
events (e ∷ es) = event e >> prompt_finished >> events es
