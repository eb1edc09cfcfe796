-- ===== src/Session/Pump/Blocks.antt =====
-- How a submitted line and a block of the shell find each other: `submit_line`, `claim`,
-- `block_started`, and `boundary`, which looks for the line's echo on the rows.
use acter.Prelude.{
  ℕ, ◌-◌, Bool, true, false, not, ◌&&◌, ◌||◌, Option, none, some, List, [], ◌∷◌, ◌++◌, Text,
  if◌then◌else◌, seq_eq,
}
use acter.Entity.{LineId, LineRevision}
use acter.Event.{CommandId}
use acter.Pacing.{trim_end}
use acter.Runs.{slice_runs, utf16_len}
use acter.Tracker.{Region, is_prompt, is_command_line}
use acter.Session.Echo.{take}
use acter.Session.Text.{
  byte_len, as_bytes, trim, strip_suffix, last_char, drop_bytes, before_echo, is_empty_text,
}
use acter.Session.Rows.{Held, held_due}
use acter.Session.Pump.{
  set_held, set_row, set_submitted, Pump, Submitted, Effect, Do, ◌>>◌, skip, emit, modify, given,
  when, is_some, is_id, is_nonempty, settle_running, mint, open_shown, open_unshown, close, window,
}
use acter.Session.Pump.Output.{publish}

abbrev pub cancel_byte : Option ℕ → Do
cancel_byte none = skip
cancel_byte (some byte) = emit (Effect.write (byte ∷ []))

-- `cancel_pending_input`
unfoldable pub cancel_pending_input : Do
cancel_pending_input = given λ p.
    when
      ((is_prompt p.tracker.region || is_command_line p.tracker.region)
        && not (is_nonempty p.submitted))
      (cancel_byte p.discards_line)

unfoldable pub queue_line : CommandId → Text → Bool → Pump → Pump
queue_line id line ours p = record p {
  submitted = p.submitted ++ record { id = id; line = line; ours = ours; minted = false } ∷ [];
  pending_row = p.cursor;
}

-- `submit_line`; the line goes out with a carriage return.
unfoldable pub submit_line : CommandId → Text → Bool → Do
unfolding cancel_pending_input queue_line trim as_bytes
submit_line id line ours =
    cancel_pending_input
    >> when (not (is_empty_text (trim line))) (modify (queue_line id line ours))
    >> emit (Effect.write (as_bytes (line ++ 13 ∷ [])))
    >> settle_running

-- `draining` up to the line that was echoed; the queue as it is where no line was.
unfoldable pub drain_to : Text → List Submitted → List Submitted → List Submitted
unfolding trim
drain_to echoed all [] = all
drain_to echoed all (s ∷ ss) =
    let later = drain_to echoed all ss in if seq_eq (trim s.line) echoed then s ∷ ss else later

abbrev pub drained : Option Text → List Submitted → List Submitted
drained none submitted = submitted
drained (some echoed) submitted = drain_to echoed submitted submitted

abbrev pub pop_or_mint : List Submitted → Pump → Submitted × Pump
pop_or_mint (s ∷ ss) p = (s, record p { submitted = ss })
pop_or_mint [] p = (
  record { id = p.next_id; line = []; ours = false; minted = true },
  mint (record p { submitted = [] }),
)

-- `Pump::claim`
unfoldable pub claim : Option Text → Pump → Submitted × Pump
unfolding drain_to
claim echoed p = pop_or_mint (drained echoed p.submitted) p

-- Acter's own line names its block where the shell echoed none.
abbrev pub own_name : Submitted → Option Text
own_name s = if s.ours && not (is_empty_text (trim s.line)) then some s.line else none

abbrev pub or_else : Option Text → Option Text → Option Text
or_else (some t) other = some t
or_else none other = other

unfoldable pub open_claimed : Submitted → Option Text → Do
unfolding open_shown open_unshown
open_claimed s named =
    if s.minted && not (is_some named) then open_unshown s.id else open_shown s.id named

unfoldable pub start_claimed : Option Text → Do
unfolding claim open_claimed
start_claimed echoed = given λ p.
    let (s, q) = claim echoed p in
    modify (λ r. q) >> open_claimed s (or_else echoed (own_name s)) >> settle_running

-- `block_started`, once the echo is taken
unfoldable pub start_block : Option Text → Do
unfolding close start_claimed
start_block echoed = given λ p.
    if is_some p.opened && not (is_nonempty p.submitted)
    then skip
    else close none >> start_claimed echoed

unfoldable pub block_started : Do
unfolding start_block take
block_started p = let (echoed, echo) = take p.echo in start_block echoed (record p { echo = echo })

abbrev pub starts_word : (ℕ → Bool) → Option Text → Bool
starts_word alphanumeric none = false
starts_word alphanumeric (some before) = elim (last_char before) [
  | none ↦ true
  | some c ↦ not (alphanumeric c)
]

-- The test of `echoed`, for a row without its trailing whitespace.
unfoldable pub is_echo : (ℕ → Bool) → Text → Submitted → Bool
unfolding strip_suffix trim last_char
is_echo alphanumeric row s =
    not (is_empty_text (trim s.line)) && starts_word alphanumeric (strip_suffix (trim s.line) row)

-- `echoed`, and `adopt` of what it found: the submission and the ones after it.
unfoldable pub adopt_from : (ℕ → Bool) → Text → List Submitted → Option (Submitted × List Submitted)
unfolding is_echo
adopt_from alphanumeric row [] = none
adopt_from alphanumeric row (s ∷ ss) =
    let later = adopt_from alphanumeric row ss in
    if is_echo alphanumeric row s then some (s, ss) else later

unfoldable pub adopt : Text → Pump → Option (Submitted × List Submitted)
unfolding adopt_from trim_end
adopt row p = adopt_from p.is_alphanumeric (trim_end row) p.submitted

-- The text of `row` that is kept, of at most `w` bytes.
unfoldable pub cut_row : ℕ → Text → Text
unfolding drop_bytes byte_len
cut_row w row = drop_bytes (byte_len row - w) row

unfoldable pub publish_before : Option Text → Held → Do
unfolding publish
publish_before none h = publish h.line (held_due h)
publish_before (some []) h = skip
publish_before (some (c ∷ cs)) h =
    publish h.line
      (record (held_due h) { text = c ∷ cs; runs = slice_runs h.runs 0 (utf16_len (c ∷ cs)) })

-- What was held is the echo; what stands before it on its row still reaches a block.
unfoldable pub drop_held : Option Text → Text → Option Held → Do
unfolding publish_before before_echo trim
drop_held whole line none = skip
drop_held whole line (some h) =
    set_held none >> publish_before (before_echo h.text whole (trim line)) h

unfoldable pub drop_echo : Option Text → Text → Do
unfolding drop_held
drop_echo whole line = given λ p. drop_held whole line p.held

abbrev pub clear_row : Do
clear_row = set_row []

unfoldable pub open_adopted : Option Text → Option (Submitted × List Submitted) → Do
unfolding drop_echo close open_shown
open_adopted whole none = skip
open_adopted whole (some (s, rest)) =
    set_submitted rest
    >> drop_echo whole s.line
    >> close none
    >> open_shown s.id (some s.line)
    >> settle_running
    >> clear_row

-- `boundary` once the row is accumulated
unfoldable pub look_for_echo : ℕ → Option Text → Do
unfolding cut_row adopt open_adopted
look_for_echo w whole =
    given (λ p. set_row (cut_row w p.row)) >> given λ p. open_adopted whole (adopt p.row p)

unfoldable pub boundary_within : ℕ → LineId → Text → LineRevision → Do
unfolding look_for_echo
boundary_within w id text LineRevision.appended =
    given (λ p. set_row (p.row ++ text)) >> look_for_echo w none
boundary_within w id text revision =
    given
      λ p. if is_id id p.pending_row then set_row text >> look_for_echo w (some text) else clear_row

abbrev pub boundary_on : Option ℕ → LineId → Text → LineRevision → Do
boundary_on none id text revision = clear_row
boundary_on (some w) id text revision = boundary_within w id text revision

unfoldable pub boundary : Region → LineId → Text → LineRevision → Do
unfolding boundary_within window
boundary region id text revision = given λ p.
    if is_command_line region then clear_row else boundary_on (window p.submitted) id text revision
