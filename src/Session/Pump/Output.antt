-- ===== src/Session/Pump/Output.antt =====
-- How a row reaches the buffer: `output`, `publish`, `hold`, `spill` and `recolour` of the pump.
use acter.Prelude.{
  ℕ, Bool, true, false, not, ◌&&◌, Option, none, some, List, [], ◌∷◌, ◌++◌, Text, ltb, ◌==◌,
  if◌then◌else◌, seq_eq,
}
use acter.Entity.{LineId, LineRevision, StyleRun}
use acter.Event.{CommandId}
use acter.Actor.{SessionInput}
use acter.Keys.{LineOwner}
use acter.FarEndRow.{Anchor}
use acter.Session.Text.{byte_len}
use acter.Session.Rows.{Row, Lines, get, put, Due, Held, held_of, held_due, absorb, recolour_held}
use acter.Session.Pump.{
  set_far_end, set_held, set_unshown, Pump, Printed, FarEndLine, Effect, Do, ◌>>◌, skip, tell,
  modify, given, when, is_some, is_id, is_nonempty, settle_running, mint, open_unshown, window,
}

abbrev pub is_far_end : LineOwner → Bool
is_far_end LineOwner.far_end = true
is_far_end LineOwner.local = false

abbrev pub line_of : Option Anchor → Option LineId
line_of none = none
line_of (some anchor) = some anchor.line

-- `Pump::on_anchor`
abbrev pub on_anchor : LineId → FarEndLine → Bool
on_anchor id f = is_far_end f.owner && is_id id (line_of f.anchor)

-- `lines.get_mut(&id)`, and what `output` sets of it
unfoldable pub show_row : LineId → Option CommandId → Bool → Lines → Lines
unfolding get put
show_row id block prompt lines = elim (get id lines) [
  | none ↦ lines
  | some row ↦ put id (record row { shown = block; prompt = prompt }) lines
]

unfoldable pub started : Option CommandId → Do
started none = skip
started (some id) = tell (SessionInput.command_started id none)

-- The first line with text starts a block that nobody submitted.
unfoldable pub start_shown : Do
unfolding started
start_shown = given λ p. set_unshown false >> started p.opened >> settle_running

unfoldable pub output_row : LineId → Due → Do
unfolding show_row
output_row id d p = (
  record p { lines = show_row id p.opened d.prompt p.lines },
  Effect.send (
        SessionInput.output id d.revision d.text (d.spoken && not (on_anchor id p.far_end)) d.prompt
          d.runs)
      ∷ [],
)

unfoldable pub output : LineId → Due → Do
unfolding start_shown output_row
output id d = given λ p.
    if p.unshown
    then (if is_nonempty d.text then start_shown >> output_row id d else skip)
    else output_row id d

-- A block for text that nobody submitted a line for.
unfoldable pub unclaimed : Do
unfolding open_unshown
unclaimed = given λ p. modify mint >> open_unshown p.next_id >> settle_running

unfoldable pub publish : LineId → Due → Do
unfolding output unclaimed
publish id d = given λ p. when (not (is_some p.opened)) unclaimed >> output id d

-- `spill` of what was held
unfoldable pub spill_held : Option Held → Do
unfolding publish
spill_held none = skip
spill_held (some h) = set_held none >> publish h.line (held_due h)

unfoldable pub spill : Do
unfolding spill_held
spill = given λ p. spill_held p.held

abbrev pub holds : LineId → Option Held → Bool
holds id none = false
holds id (some h) = h.line == id

abbrev pub absorbed : LineId → Due → Option Held → Option Held
absorbed id d none = some (held_of id d)
absorbed id d (some h) = some (absorb d h)

abbrev pub is_over : ℕ → Option Held → Bool
is_over w none = false
is_over w (some h) = ltb w (byte_len h.text)

-- `hold` with a window of `w` bytes
unfoldable pub hold_within : ℕ → LineId → Due → Do
unfolding spill absorb byte_len
hold_within w id d =
    given (λ p. when (not (holds id p.held)) spill)
    >> given (λ p. set_held (absorbed id d p.held))
    >> given (λ p. when (is_over w p.held) spill)

-- `hold` with the window that is open, if one is
unfoldable pub hold_in : Option ℕ → LineId → Due → Do
unfolding hold_within spill publish
hold_in none id d = spill >> publish id d
hold_in (some w) id d = hold_within w id d

unfoldable pub hold : LineId → Due → Do
unfolding hold_in window
hold id d = given λ p. hold_in (window p.submitted) id d

-- `Pump::pending_echo`
unfoldable pub pending_echo : LineId → Pump → Bool
unfolding window
pending_echo id p = is_id id p.pending_row && is_some (window p.submitted)

-- The last `Due` printed for a row.
unfoldable pub last_printed : LineId → List Printed → Option Bool
last_printed id [] = none
last_printed id (x ∷ xs) = elim (last_printed id xs) [
  | some prompt ↦ some prompt
  | none ↦ if x.id == id then some x.due.prompt else none
]

abbrev pub same_block : Option CommandId → Option CommandId → Bool
same_block (some a) (some b) = a == b
same_block _ _ = false

abbrev pub recolouring : Text → Bool → List StyleRun → Due
recolouring text prompt runs = record {
  text = text;
  revision = LineRevision.rewritten;
  spoken = false;
  prompt = prompt;
  runs = runs;
}

unfoldable pub recolour_shown : LineId → Text → List StyleRun → Option Row → Do
recolour_shown id text runs none = skip
recolour_shown id text runs (some row) = given λ p.
    when (same_block p.opened row.shown)
      (tell (SessionInput.output id LineRevision.rewritten text false row.prompt runs))

unfoldable pub recolour_printed : LineId → Text → List StyleRun → Option Bool → Do
unfolding recolour_shown get
recolour_printed id text runs (some prompt) = given (λ p. set_far_end (record p.far_end {
  printed = p.far_end.printed ++ record { id = id; due = recolouring text prompt runs } ∷ [];
}))
recolour_printed id text runs none = given λ p. recolour_shown id text runs (get id p.lines)

unfoldable pub recolour_on : LineId → Text → List StyleRun → Option Held → Do
unfolding recolour_printed recolour_held last_printed
recolour_on id text runs none =
    given λ p. recolour_printed id text runs (last_printed id p.far_end.printed)
recolour_on id text runs (some h) = given λ p.
    if h.line == id
    then set_held (some (recolour_held text runs h))
    else recolour_printed id text runs (last_printed id p.far_end.printed)

unfoldable pub recolour : LineId → Text → List StyleRun → Do
unfolding recolour_on
recolour id text runs = given λ p. recolour_on id text runs p.held

abbrev pub is_rewritten : LineRevision → Bool
is_rewritten LineRevision.rewritten = true
is_rewritten _ = false

abbrev pub has_text : Option Row → Text → Bool
has_text none text = false
has_text (some row) text = seq_eq row.text text

-- `Pump::recoloured`
unfoldable pub is_recoloured : LineId → Text → LineRevision → Pump → Bool
unfolding get
is_recoloured id text revision p = is_rewritten revision && has_text (get id p.lines) text
