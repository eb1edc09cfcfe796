-- ===== src/Session/Pump/FarEnd.antt =====
-- The line that the far end owns: keys, the anchor, pastes, and what a settled batch says of it.
use acter.Prelude.{
  ℕ, ◌-◌, min, Bool, true, false, not, ◌&&◌, ◌||◌, Option, none, some, List, [], ◌∷◌, ◌++◌, Text,
  ◌==◌, if◌then◌else◌, length, drop, seq_eq,
}
use acter.Entity.{LineId, LineRevision, u32_size}
use acter.Actor.{SessionInput}
use acter.Pacing.{trim_end}
use acter.Keys.{Key, KeyPress, LineOwner, key_bytes}
use acter.FarEndRow.{RowChange, Anchor, Caret, FarEndAnswer, far_end_row}
use acter.Session.Text.{as_bytes, trim, strip_suffix, is_found, is_empty_text}
use acter.Session.Rows.{Row, Lines, get, row_text}
use acter.Session.Pump.{
  set_cleared_at_idle, set_far_end, Pump, Printed, Effect, Do, ◌>>◌, skip, emit, modify, given,
  when, is_id, is_running, settle_running, mint, open_shown, close,
}
use acter.Session.Pump.Output.{is_far_end, line_of, publish}

-- `Pump::caret`
abbrev pub caret : Pump → Option Caret
caret p =
    if p.engine_cursor.visible
    then some (record { column = p.engine_cursor.column; row = p.engine_cursor.row })
    else none

abbrev pub text_from : Option Row → ℕ → Text
text_from none column = []
text_from (some row) column = drop column row.text

-- `Pump::row_from_anchor`
unfoldable pub row_from_anchor : Option Anchor → Lines → Text
unfolding get
row_from_anchor none lines = []
row_from_anchor (some anchor) lines = text_from (get anchor.line lines) anchor.column

abbrev pub kept_text : Option Text → Text → Text
kept_text none old = old
kept_text (some text) old = text

-- `Pump::far_end_line`
unfoldable pub far_end_line : Option Text → ℕ → Bool → Do
far_end_line text at anchored p = (
  record p { far_end = record p.far_end { held = kept_text text p.far_end.held } },
  Effect.send (SessionInput.far_end_line text (min at (u32_size - 1)) anchored) ∷ [],
)

unfoldable pub anchor_at : Option LineId → Do
unfolding far_end_line row_from_anchor
anchor_at none = skip
anchor_at (some line) =
    given (λ p. set_far_end (record p.far_end {
      anchor = some (record { line = line; column = p.engine_cursor.column });
    }))
    >> given λ p. far_end_line (some (row_from_anchor p.far_end.anchor p.lines)) 0 true

unfoldable pub anchor_here : Do
unfolding anchor_at
anchor_here = given λ p. when p.engine_cursor.visible (anchor_at p.cursor)

unfoldable pub line_owner : LineOwner → Do
unfolding anchor_here
line_owner owner =
    given (λ p. set_far_end (record {
      owner = owner;
      anchor = if is_far_end owner then p.far_end.anchor else none;
      awaiting_prompt = false;
      changed = [];
      watching = false;
      was = none;
      printed = [];
      held = [];
      left = none;
    }))
    >> when (is_far_end owner) anchor_here

abbrev pub left_on : Option Anchor → Option LineId → Option LineId
left_on none left = left
left_on (some anchor) left = some anchor.line

-- `Pump::await_prompt`
unfoldable pub await_prompt : Pump → Pump
await_prompt p = record p {
  far_end = record p.far_end {
    left = left_on p.far_end.anchor p.far_end.left;
    anchor = none;
    awaiting_prompt = true;
  };
}

unfoldable pub open_typed : Text → Do
unfolding close open_shown
open_typed line =
    given λ p. modify mint >> close none >> open_shown p.next_id (some line) >> settle_running

unfoldable pub far_end_submitted : Do
unfolding row_from_anchor trim await_prompt open_typed
far_end_submitted = given λ p.
    let line = trim (row_from_anchor p.far_end.anchor p.lines) in
    modify await_prompt >> when (not (is_empty_text line)) (open_typed line)

abbrev pub is_enter : Key → Bool
is_enter Key.enter = true
is_enter _ = false

unfoldable pub far_end_key : KeyPress → Do
unfolding key_bytes far_end_submitted await_prompt
far_end_key key = given λ p.
    let bytes = key_bytes key p.modes in
    let is_interrupt = seq_eq bytes (3 ∷ []) in
    set_cleared_at_idle (is_interrupt && not (is_running p))
    >> (if is_enter key.key then far_end_submitted else when is_interrupt (modify await_prompt))
    >> given (λ q. set_far_end (record q.far_end { was = caret q; changed = []; watching = true }))
    >> emit (Effect.write bytes)

abbrev pub bracket_start : List ℕ
bracket_start = 27 ∷ b'[' ∷ b'2' ∷ b'0' ∷ b'0' ∷ b'~' ∷ []

abbrev pub bracket_end : List ℕ
bracket_end = 27 ∷ b'[' ∷ b'2' ∷ b'0' ∷ b'1' ∷ b'~' ∷ []

unfoldable pub paste : Text → Do
unfolding as_bytes
paste text = given λ p. when (is_far_end p.far_end.owner) (
    emit (
      Effect.write (
        if p.modes.bracketed_paste
        then bracket_start ++ (as_bytes text ++ bracket_end)
        else as_bytes text)))

-- Rows that stay with the field: the cursor's, the command line's and the one that was left.
abbrev pub is_withheld : LineId → Pump → Bool
is_withheld id p =
    is_id id p.cursor || is_id id (line_of p.far_end.anchor) || is_id id p.far_end.left

unfoldable pub publish_all : List Printed → Do
unfolding publish
publish_all [] = skip
publish_all (x ∷ xs) =
    given (λ p. when (not (is_withheld x.id p)) (publish x.id x.due)) >> publish_all xs

-- `Pump::printed`
unfoldable pub publish_printed : Do
unfolding publish_all
publish_printed = given λ p.
    given (λ q. set_far_end (record q.far_end { printed = [] })) >> publish_all p.far_end.printed

unfoldable pub follow_to : LineId → Text → Pump → Pump
unfolding strip_suffix row_text trim_end
follow_to line held p =
    let row = trim_end (row_text line p.lines) in
    if is_found (strip_suffix held row)
    then record p {
      far_end = record p.far_end {
        anchor = some (record { line = line; column = min (length row - length held) 65535 });
      };
    }
    else p

unfoldable pub follow_on : Option LineId → Pump → Pump
unfolding follow_to trim_end
follow_on none p = p
follow_on (some line) p =
    let held = trim_end p.far_end.held in
    if is_id line (line_of p.far_end.anchor) || is_empty_text held then p else follow_to line held p

unfoldable pub follow_cursor : Pump → Pump
unfolding follow_on
follow_cursor p = if p.engine_cursor.visible then follow_on p.cursor p else p

unfoldable pub answer_line : FarEndAnswer → Do
unfolding far_end_line
answer_line (FarEndAnswer.row text at) = far_end_line (some text) at true
answer_line (FarEndAnswer.detached text) = far_end_line (some text) 0 false
answer_line (FarEndAnswer.caret at) = far_end_line none at true
answer_line FarEndAnswer.nothing = skip

unfoldable pub answer_key : List RowChange → Do
unfolding answer_line far_end_row
answer_key changed = given λ p. answer_line (
    far_end_row (record {
      changed = changed;
      anchor = p.far_end.anchor;
      was = p.far_end.was;
      now = caret p;
      held = p.far_end.held;
    }))

-- `far_end_settled`, after what was printed
unfoldable pub settle_batch : Do
unfolding anchor_here follow_cursor answer_key
settle_batch = given λ p.
    let batch = record p.far_end { changed = []; watching = false } in
    if not p.far_end.watching || p.far_end.awaiting_prompt
    then set_far_end (record batch {
      awaiting_prompt = if p.far_end.watching then false else p.far_end.awaiting_prompt;
      left = none;
    })
      >> anchor_here
    else modify (λ q. follow_cursor (record q { far_end = batch })) >> answer_key p.far_end.changed

unfoldable pub far_end_settled : Do
unfolding publish_printed settle_batch
far_end_settled = given λ p. when (is_far_end p.far_end.owner) (publish_printed >> settle_batch)

abbrev pub grown : LineRevision → Text → Text → Text
grown LineRevision.appended before text = before ++ text
grown _ before text = text

unfoldable pub add_change : LineId → Text → Text → List RowChange → List RowChange
add_change id before after [] = record { line = id; before = before; after = after } ∷ []
add_change id before after (c ∷ cs) =
    let rest = add_change id before after cs in
    if c.line == id then record c { after = after } ∷ cs else c ∷ rest

-- `Pump::note_change`
unfoldable pub note_change : LineId → Text → Text → LineRevision → Do
unfolding add_change
note_change id before text revision = given λ p.
    when (is_far_end p.far_end.owner && p.far_end.watching) (
      given (λ q. set_far_end (record q.far_end {
        changed = add_change id before (grown revision before text) q.far_end.changed;
      })))
