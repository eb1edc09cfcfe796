-- ===== src/Tests/Pumping.antt =====
-- A session in which the line "ls" is submitted and echoed.
use acter.Prelude.{
  ◌≡◌, refl, ℕ, true, false, some, none, Bool, List, [], ◌∷◌, ◌++◌, Text, ltb, pos, arith,
}
use acter.Entity.{LineRevision, TerminalItem, ShellMarkers}
use acter.Pacing.{default_config, trim_end, is_whitespace}
use acter.Keys.{TerminalModes}
use acter.SessionState.{ConnectionState}
use acter.Actor.{SessionInput}
use acter.Actor.Turn
use acter.Actor.Step.Kept.{active_id}
use acter.Tracker
use acter.Session.Text.{trim}
use acter.Session.Rows.{Due}
use acter.Session.Pump.{Advanced, Cursor, Pump, Submitted, is_some, window}
use acter.Session.Pump.Output.{hold}
use acter.Session.Pump.Blocks.{adopt}
use acter.Session.Pump.Turn.{Request, Loop, Woke, turn, Runs}
use acter.Session.Pump.Protocol.{IsValid, shown_block}
use acter.Session.Pump.Conforms.{Agrees, Runs-Agrees}
use acter.Session.Pump.Holding.{Conserves, Conserves-hold, Fits, Fits-hold}
use acter.Session.Pump.Adopting.{FirstOf, IsEchoOf, adopt-FirstOf}
use acter.Session.Service.{ShellFacts, start, new_pump, begin_submit, try_send}
use acter.Session.Service.Whole.{
  Whole, starting, Step, Reaches, submitting, take_request, pump_turn, actor_turn, inputs_of,
}
use acter.Session.Service.Whole.Heard.{Reaches-Heard, Reaches-caught_up}

abbrev ls : Text
ls = b'l' ∷ b's' ∷ []

abbrev alphanumeric : ℕ → Bool
alphanumeric = ltb b'@'

abbrev corner : Cursor
corner = record { column = 0; row = 0; visible = true }

abbrev plain : TerminalModes
plain = record { application_cursor_keys = false; bracketed_paste = false }

abbrev shell : ShellFacts
shell = record { markers = ShellMarkers.full; eof = none; discards_line = none; setup = none }

abbrev new_session : Whole
new_session = starting alphanumeric corner plain default_config shell

abbrev prompt_and_echo : Advanced
prompt_and_echo = record {
  items =
      TerminalItem.line 1 (b'>' ∷ b' ' ∷ []) LineRevision.appended []
      ∷ TerminalItem.line 1 ls LineRevision.appended []
      ∷ TerminalItem.line 2 (b'a' ∷ []) LineRevision.appended []
      ∷ [];
  replies = [];
  at = corner;
  modes = plain;
}

abbrev asked : Whole
asked = submitting ls new_session

abbrev served : Whole
served = pump_turn (Woke.asked (some (Request.submit 1 ls))) 5 (take_request [] asked)

abbrev echoed : Whole
echoed = pump_turn (Woke.read (some prompt_and_echo)) 9 served

abbrev from_start : List SessionInput
from_start =
    SessionInput.command_started 1 (some ls)
    ∷ SessionInput.output 2 LineRevision.appended (b'a' ∷ []) true false []
    ∷ []

abbrev from_end : List SessionInput
from_end = SessionInput.command_ended 2 (some (pos 0)) ∷ from_start

abbrev banner : SessionInput
banner = SessionInput.output 1 LineRevision.appended (b'>' ∷ b' ' ∷ ls) true false []

abbrev hear : SessionInput → List SessionInput → Whole → Whole
hear i rest s = actor_turn (Turn.Woke.input i) 10 (record s { facts = rest })

abbrev at_start : Whole
at_start = hear (SessionInput.command_started 2 none) (banner ∷ from_end) (
    hear (SessionInput.connection ConnectionState.connected)
      (SessionInput.command_started 2 none ∷ banner ∷ from_end) echoed)

abbrev at_end : Whole
at_end = hear banner from_end at_start

asked_inbox : asked.service.inbox ≡ Request.submit 1 ls ∷ []
unfolding starting start new_pump begin_submit try_send
asked_inbox = refl

asked_goes : asked.service.loop.stopped ≡ false
unfolding starting start new_pump begin_submit try_send
asked_goes = refl

served_goes : served.service.loop.stopped ≡ false
unfolding starting start new_pump begin_submit try_send pump_turn turn
served_goes = refl

abbrev from_connected : List SessionInput
from_connected =
    SessionInput.connection ConnectionState.connected
    ∷ SessionInput.command_started 2 none
    ∷ banner
    ∷ from_end

echoed_facts : echoed.facts ≡ from_connected
unfolding starting start new_pump begin_submit try_send pump_turn turn inputs_of Tracker.new
    is_whitespace
echoed_facts = refl

Reaches-asked : Reaches new_session asked
Reaches-asked = Reaches.next Reaches.here (Step.submitted ls)

Reaches-served : Reaches new_session served
Reaches-served =
    Reaches.next Reaches-asked
      (Step.served {s = asked} (Request.submit 1 ls) [] 5 asked_goes asked_inbox)

Reaches-echoed : Reaches new_session echoed
Reaches-echoed =
    Reaches.next Reaches-served
      (Step.woken {s = served} (Woke.read (some prompt_and_echo)) 9 served_goes refl tt)

Reaches-end : Reaches new_session at_end
unfolding actor_turn
Reaches-end =
    Reaches.next
      (Reaches.next
        (Reaches.next Reaches-echoed (
          Step.told {s = echoed} (SessionInput.connection ConnectionState.connected)
            (SessionInput.command_started 2 none ∷ banner ∷ from_end) 10 echoed_facts))
        (Step.told (SessionInput.command_started 2 none) (banner ∷ from_end) 10 refl))
      (Step.told banner from_end 10 refl)

Reaches-Heard_example : active_id at_end.actor.actor.active ≡ some 2
unfolding actor_turn
Reaches-Heard_example =
    Reaches-Heard alphanumeric corner plain default_config shell at_end
      (SessionInput.command_ended 2 (some (pos 0))) from_start Reaches-end refl

-- The actor has taken all that the pump sent once it has taken the six inputs.
abbrev at_rest : Whole
at_rest = hear (SessionInput.output 2 LineRevision.appended (b'a' ∷ []) true false []) [] (
    hear (SessionInput.command_started 1 (some ls))
      (SessionInput.output 2 LineRevision.appended (b'a' ∷ []) true false [] ∷ [])
      (hear (SessionInput.command_ended 2 (some (pos 0))) from_start at_end))

Reaches-rest : Reaches new_session at_rest
unfolding actor_turn
Reaches-rest =
    Reaches.next
      (Reaches.next
        (Reaches.next Reaches-end
          (Step.told {s = at_end} (SessionInput.command_ended 2 (some (pos 0))) from_start 10 refl))
        (Step.told (SessionInput.command_started 1 (some ls))
          (SessionInput.output 2 LineRevision.appended (b'a' ∷ []) true false [] ∷ []) 10 refl))
      (Step.told (SessionInput.output 2 LineRevision.appended (b'a' ∷ []) true false []) [] 10 refl)

Reaches-caught_up_example :
    (active_id at_rest.actor.actor.active
      ≡ shown_block at_rest.service.loop.pump.unshown at_rest.service.loop.pump.opened)
    × (at_rest.actor.actor.self_talk ≡ is_some at_rest.service.loop.pump.self_talk)
unfolding actor_turn
Reaches-caught_up_example =
    Reaches-caught_up alphanumeric corner plain default_config shell at_rest Reaches-rest refl

abbrev pump : Pump
pump = new_session.service.loop.pump

abbrev asking : Pump
asking = record pump { submitted = record { id = 1; line = ls; ours = false; minted = false } ∷ [] }

abbrev idle_loop : Loop
idle_loop = record { pump = asking; grace_timer = none; settled_timer = none; stopped = false }

abbrev reading : Woke
reading = Woke.read (some prompt_and_echo)

abbrev row : Due
row = record {
  text = ls;
  revision = LineRevision.appended;
  spoken = true;
  prompt = false;
  runs = [];
}

Conserves-hold_example : Conserves row asking (hold 3 row)
Conserves-hold_example = Conserves-hold 3 row asking refl

Fits-hold_example : Fits (window asking.submitted) (hold 3 row asking).0.held
Fits-hold_example = Fits-hold 3 row asking

abbrev prompt_row : Text
prompt_row = b'>' ∷ b' ' ∷ ls

abbrev typed : Submitted
typed = record { id = 1; line = ls; ours = false; minted = false }

-- The line is found: the row is its echo.
prompt_row-adopts : adopt prompt_row asking ≡ some (typed, [])
unfolding adopt trim_end is_whitespace trim starting start new_pump
prompt_row-adopts = refl

adopt-FirstOf_example :
    FirstOf
      (IsEchoOf asking.is_alphanumeric (trim_end prompt_row))
      asking.submitted
      (adopt prompt_row asking)
adopt-FirstOf_example = adopt-FirstOf prompt_row asking

asking-IsValid : IsValid asking
unfolding starting start new_pump
asking-IsValid = record { unshown_open = λ h. absurd (ground (arith, h)); setup_once = λ h. refl }

abbrev read_turn : Loop
read_turn = (turn reading 9 idle_loop).0

one_turn : Runs idle_loop read_turn ([] ++ (turn reading 9 idle_loop).1)
one_turn = Runs.next reading 9 Runs.here refl tt refl refl

Runs-Agrees_example : Agrees idle_loop ([] ++ (turn reading 9 idle_loop).1) read_turn
Runs-Agrees_example =
    Runs-Agrees idle_loop read_turn ([] ++ (turn reading 9 idle_loop).1) one_turn asking-IsValid
