-- ===== src/Session/Pump.antt =====
-- The state of `Pump` and the methods that open and close command blocks. `Do` is a method: the pump
-- after it, and what it writes to the transport and sends to the actor, in order. The engine and the
-- transport are what they do: `Advanced` is what the engine makes of one read, and a failed write is
-- told by the read channel. `next_id` and `running` are shared with the service.
pub mod Output
pub mod Blocks
pub mod FarEnd
pub mod Line
pub mod Turn
pub mod Protocol
pub mod Sound
pub mod Holding
pub mod Adopting
pub mod Conforms
use acter.Prelude.{
  ℕ, ◌+◌, ◌%◌, max, Bool, true, false, not, ◌&&◌, ◌||◌, Option, none, some, List, [], ◌∷◌, ◌++◌,
  Text, ◌==◌, if◌then◌else◌, ℤ, pos,
}
use acter.Entity.{LineId, ExitCode, TerminalItem, ShellMarkers, reports_exit_code, u32_size}
use acter.SessionState.{Integration}
use acter.Event.{CommandId}
use acter.Pacing.{Duration}
use acter.Actor.{SessionInput}
use acter.Keys.{LineOwner, TerminalModes}
use acter.FarEndRow.{Anchor, Caret, RowChange}
use acter.Tracker.{Region, BoundaryTracker}
use acter.Session.Text.{byte_len, trim}
use acter.Session.Echo.{Echo}
use acter.Session.Rows.{Lines, Due, Held, settle_owed}

pub record Cursor : Type 0 where
  pub column : ℕ
  pub row : ℕ
  pub visible : Bool

-- What `advance` gives for a read, with the replies, the cursor and the modes the engine has then.
pub record Advanced : Type 0 where
  pub items : List TerminalItem
  pub replies : List ℕ
  pub at : Cursor
  pub modes : TerminalModes

pub record Submitted : Type 0 where
  pub id : CommandId
  pub line : Text
  pub ours : Bool
  pub minted : Bool

pub record Printed : Type 0 where
  pub id : LineId
  pub due : Due

pub record FarEndLine : Type 0 where
  pub owner : LineOwner
  pub anchor : Option Anchor
  pub awaiting_prompt : Bool
  pub changed : List RowChange
  pub watching : Bool
  pub was : Option Caret
  pub printed : List Printed
  pub held : Text
  pub left : Option LineId

-- `is_alphanumeric` is `char::is_alphanumeric`, a table of Unicode; `engine_cursor` and `modes` are the
-- engine's; `opened` is the field `open`.
pub record Pump : Type 0 where
  pub is_alphanumeric : ℕ → Bool
  pub engine_cursor : Cursor
  pub modes : TerminalModes
  pub tracker : BoundaryTracker
  pub grace : Duration
  pub quiescence : Duration
  pub far_end_settle : Duration
  pub next_id : CommandId
  pub running : Bool
  pub integration : Integration
  pub drawing : Option Text
  pub standing : Option Text
  pub spoken : Bool
  pub setup : Option Text
  pub self_talk : Option CommandId
  pub discards_line : Option ℕ
  pub markers : ShellMarkers
  pub submitted : List Submitted
  pub echo : Echo
  pub opened : Option CommandId
  pub interrupted : Bool
  pub cleared_at_idle : Bool
  pub unshown : Bool
  pub lines : Lines
  pub held : Option Held
  pub row : Text
  pub cursor : Option LineId
  pub pending_row : Option LineId
  pub far_end : FarEndLine

pub data Effect : Type 0 where
  write : List ℕ → Effect
  send : SessionInput → Effect
  interrupt : Effect

abbrev pub Do : Type 0
Do = Pump → Pump × List Effect

infixl 5 ◌>>◌
abbrev pub ◌>>◌ : Do → Do → Do
◌>>◌ m k p = let (q, sent) = m p in let (r, later) = k q in (r, sent ++ later)

abbrev pub skip : Do
skip p = (p, [])

abbrev pub emit : Effect → Do
emit e p = (p, e ∷ [])

abbrev pub tell : SessionInput → Do
tell input = emit (Effect.send input)

abbrev pub modify : (Pump → Pump) → Do
modify f p = (f p, [])

abbrev pub given : (Pump → Do) → Do
given f p = f p p

abbrev pub when : Bool → Do → Do
when true m = m
when false m = skip

-- An assignment to a field.
abbrev pub set_unshown : Bool → Do
set_unshown value p = (record p { unshown = value }, [])

abbrev pub set_held : Option Held → Do
set_held value p = (record p { held = value }, [])

abbrev pub set_far_end : FarEndLine → Do
set_far_end value p = (record p { far_end = value }, [])

abbrev pub set_integration : Integration → Do
set_integration value p = (record p { integration = value }, [])

abbrev pub set_self_talk : Option CommandId → Do
set_self_talk value p = (record p { self_talk = value }, [])

abbrev pub set_spoken : Bool → Do
set_spoken value p = (record p { spoken = value }, [])

abbrev pub set_drawing : Option Text → Do
set_drawing value p = (record p { drawing = value }, [])

abbrev pub set_standing : Option Text → Do
set_standing value p = (record p { standing = value }, [])

abbrev pub set_echo : Echo → Do
set_echo value p = (record p { echo = value }, [])

abbrev pub set_cursor : Option LineId → Do
set_cursor value p = (record p { cursor = value }, [])

abbrev pub set_submitted : List Submitted → Do
set_submitted value p = (record p { submitted = value }, [])

abbrev pub set_row : Text → Do
set_row value p = (record p { row = value }, [])

abbrev pub set_lines : Lines → Do
set_lines value p = (record p { lines = value }, [])

abbrev pub set_cleared_at_idle : Bool → Do
set_cleared_at_idle value p = (record p { cleared_at_idle = value }, [])

abbrev pub is_some {ℓ} : {A : Type ℓ} → Option A → Bool
is_some none = false
is_some (some a) = true

abbrev pub is_id : ℕ → Option ℕ → Bool
is_id n none = false
is_id n (some m) = m == n

abbrev pub is_nonempty {ℓ} : {A : Type ℓ} → List A → Bool
is_nonempty [] = false
is_nonempty (a ∷ as') = true

-- `Pump::running`
abbrev pub is_running : Pump → Bool
is_running p = (is_some p.opened && not p.unshown) || is_nonempty p.submitted

abbrev pub settle_running : Do
settle_running p = (record p { running = is_running p }, [])

-- `next_id.fetch_add(1)`: the id is that of the pump before.
abbrev pub mint : Pump → Pump
mint p = record p { next_id = (p.next_id + 1) % u32_size }

-- `Pump::open`
unfoldable pub open_shown : CommandId → Option Text → Do
open_shown id command_line p = (
  record p { opened = some id; unshown = false },
  Effect.send (SessionInput.command_started id command_line) ∷ [],
)

unfoldable pub open_unshown : CommandId → Do
open_unshown id p = (record p { opened = some id; unshown = true }, [])

abbrev pub or_zero : Option ExitCode → ExitCode
or_zero none = pos 0
or_zero (some code) = code

-- The ending that `close` sends for a block that was shown.
unfoldable pub ending : CommandId → Option ExitCode → Pump → SessionInput
ending id exit p =
    if not (is_some exit) && p.interrupted
    then SessionInput.command_interrupted id
    else SessionInput.command_ended id (if p.cleared_at_idle then none else some (or_zero exit))

-- `SelfTalk(false)` once the setup's own block has closed
unfoldable pub stop_self_talk : CommandId → Do
stop_self_talk id p =
    if is_id id p.self_talk
    then (record p { self_talk = none }, Effect.send (SessionInput.self_talk false) ∷ [])
    else (p, [])

closed_block : Pump → Pump
unfolding settle_owed
closed_block p = record p {
  opened = none;
  lines = settle_owed p.lines;
  interrupted = false;
  cleared_at_idle = false;
  unshown = false;
}

-- `close` of the block `id`
unfoldable pub closing : CommandId → Option ExitCode → Do
unfolding ending stop_self_talk closed_block
closing id exit = given λ p.
    modify closed_block
    >> when (not p.unshown) (tell (ending id exit p))
    >> stop_self_talk id
    >> settle_running

unfoldable pub close : Option ExitCode → Do
unfolding closing
close exit p = elim p.opened [ none ↦ (p, []) | some id ↦ closing id exit p ]

unfoldable pub longest : List Submitted → ℕ
unfolding byte_len trim
longest [] = 0
longest (s ∷ ss) = max (byte_len (trim s.line)) (longest ss)

-- `Pump::window`
unfoldable pub window : List Submitted → Option ℕ
unfolding longest
window submitted = if longest submitted == 0 then none else some (longest submitted + 1)

-- `Pump::marked`
unfoldable pub marked : ShellMarkers → Region → Bool
marked markers Region.output = true
marked markers Region.prompt = not (reports_exit_code markers)
marked markers _ = false

abbrev pub is_unstructured : Region → Bool
is_unstructured Region.unstructured = true
is_unstructured _ = false

-- `Pump::wants`
unfoldable pub wants : Integration → ShellMarkers → Region → Bool
unfolding marked
wants Integration.unintegrated markers region = is_unstructured region
wants Integration.pending markers region = is_unstructured region || marked markers region
wants Integration.integrated markers region = marked markers region
