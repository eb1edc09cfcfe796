-- ===== src/Session/Pump/Sound/FarEnd.antt =====
-- The methods on the line that the far end owns keep to the protocol.
use acter.Prelude.{
  ◌≡◌, refl, ℕ, Bool, true, false, not, ◌&&◌, ◌||◌, Option, none, some, List, [], ◌∷◌, ◌++◌, Text,
  if◌then◌else◌, arith, seq_eq,
}
use acter.Entity.{LineId, LineRevision}
use acter.Pacing.{trim_end}
use acter.Keys.{KeyPress, LineOwner, key_bytes}
use acter.FarEndRow.{RowChange, FarEndAnswer, far_end_row}
use acter.Session.Text.{as_bytes, trim, is_empty_text}
use acter.Session.Pump.{Pump, Printed, FarEndLine, modify, is_running, mint}
use acter.Session.Pump.Output.{is_far_end}
use acter.Session.Pump.FarEnd.{
  caret, row_from_anchor, far_end_line, anchor_at, anchor_here, line_owner, await_prompt,
  open_typed, far_end_submitted, is_enter, far_end_key, paste, bracket_start, bracket_end,
  is_withheld, publish_all, publish_printed, follow_to, follow_on, follow_cursor, answer_line,
  answer_key, settle_batch, far_end_settled, add_change, note_change, grown,
}
use acter.Session.Pump.Protocol.{
  follow, follow_all, Sound, any, Sound->>, Sound-skip, Sound-given, Sound-modify,
}
use acter.Session.Pump.Sound.{
  Sound-when, Sound-if, Sound-write, Sound-open_shown, Sound-close, Sound-forget, Sound-settled,
  Sound-publish, Sound-set_far_end, Sound-set_cleared_at_idle,
}

Sound-far_end_line :
    (text : Option Text) (at : ℕ) (anchored : Bool) → Sound any (far_end_line text at anchored) any
unfolding far_end_line follow_all follow
Sound-far_end_line text at anchored = record { at = λ p v h. ground arith }

Sound-anchor_at : (o : Option LineId) → Sound any (anchor_at o) any
unfolding anchor_at
Sound-anchor_at none = Sound-skip
Sound-anchor_at (some line) =
    Sound->>
      (Sound-given (λ p. Sound-set_far_end (record p.far_end {
        anchor = some (record { line = line; column = p.engine_cursor.column });
      })))
      (Sound-given
        (λ p. Sound-far_end_line (some (row_from_anchor p.far_end.anchor p.lines)) 0 true))

Sound-anchor_here : Sound any anchor_here any
unfolding anchor_here
Sound-anchor_here = Sound-given (λ p. Sound-when p.engine_cursor.visible (Sound-anchor_at p.cursor))

pub Sound-line_owner : (owner : LineOwner) → Sound any (line_owner owner) any
unfolding line_owner
Sound-line_owner owner =
    Sound->>
      (Sound-given (λ p. Sound-set_far_end (record {
        owner = owner;
        anchor = if is_far_end owner then p.far_end.anchor else none;
        awaiting_prompt = false;
        changed = [];
        watching = false;
        was = none;
        printed = [];
        held = [];
        left = none;
      })))
      (Sound-when (is_far_end owner) Sound-anchor_here)

Sound-await_prompt : Sound any (modify await_prompt) any
unfolding await_prompt
Sound-await_prompt = Sound-modify await_prompt (λ p. (refl, refl, refl, refl, λ h. h))

Sound-open_typed : (line : Text) → Sound any (open_typed line) any
unfolding open_typed
Sound-open_typed line = Sound-given (λ p.
    Sound->>
      (Sound->>
        (Sound->> (Sound-modify mint (λ q. (refl, refl, refl, refl, λ h. h))) (Sound-close none))
        (Sound-open_shown p.next_id (some line)))
      Sound-settled)

Sound-far_end_submitted : Sound any far_end_submitted any
unfolding far_end_submitted
Sound-far_end_submitted = Sound-given (λ p.
    let line = trim (row_from_anchor p.far_end.anchor p.lines) in
    Sound->> Sound-await_prompt (Sound-when (not (is_empty_text line)) (Sound-open_typed line)))

pub Sound-far_end_key : (key : KeyPress) → Sound any (far_end_key key) any
unfolding far_end_key
Sound-far_end_key key = Sound-given (λ p.
    let is_interrupt = seq_eq (key_bytes key p.modes) (3 ∷ []) in
    Sound->>
      (Sound->>
        (Sound->> (Sound-set_cleared_at_idle (is_interrupt && not (is_running p))) (
          Sound-if (is_enter key.key) Sound-far_end_submitted
            (Sound-when is_interrupt Sound-await_prompt)))
        (Sound-given (λ q.
          Sound-set_far_end (record q.far_end { was = caret q; changed = []; watching = true }))))
      (Sound-write (key_bytes key p.modes)))

pub Sound-paste : (text : Text) → Sound any (paste text) any
unfolding paste
Sound-paste text = Sound-given (λ p. Sound-when (is_far_end p.far_end.owner) (
    Sound-write (
      if p.modes.bracketed_paste
      then bracket_start ++ (as_bytes text ++ bracket_end)
      else as_bytes text)))

Sound-publish_all : (printed : List Printed) → Sound any (publish_all printed) any
unfolding publish_all
Sound-publish_all [] = Sound-skip
Sound-publish_all (x ∷ xs) =
    Sound->>
      (Sound-given
        (λ p. Sound-when (not (is_withheld x.id p)) (Sound-forget (Sound-publish x.id x.due))))
      (Sound-publish_all xs)

Sound-publish_printed : Sound any publish_printed any
unfolding publish_printed
Sound-publish_printed = Sound-given (λ p.
    Sound->> (Sound-given (λ q. Sound-set_far_end (record q.far_end { printed = [] })))
      (Sound-publish_all p.far_end.printed))

abbrev SameBlock : (Pump → Pump) → Type 0
SameBlock f =
    (p : Pump)
    → ((f p).opened ≡ p.opened)
      × ((f p).unshown ≡ p.unshown)
      × ((f p).self_talk ≡ p.self_talk)
      × ((f p).setup ≡ p.setup)

follow_to-SameBlock : (line : LineId) (held : Text) → SameBlock (follow_to line held)
unfolding follow_to
follow_to-SameBlock line held p = ground arith

follow_on-SameBlock : (o : Option LineId) → SameBlock (follow_on o)
unfolding follow_on
follow_on-SameBlock none p = (refl, refl, refl, refl)
follow_on-SameBlock (some line) p =
    ground (arith, follow_to-SameBlock line (trim_end p.far_end.held) p)

follow_cursor-SameBlock : SameBlock follow_cursor
unfolding follow_cursor
follow_cursor-SameBlock p = ground (arith, follow_on-SameBlock p.cursor p)

Sound-answer_line : (answer : FarEndAnswer) → Sound any (answer_line answer) any
unfolding answer_line
Sound-answer_line (FarEndAnswer.row text at) = Sound-far_end_line (some text) at true
Sound-answer_line (FarEndAnswer.detached text) = Sound-far_end_line (some text) 0 false
Sound-answer_line (FarEndAnswer.caret at) = Sound-far_end_line none at true
Sound-answer_line FarEndAnswer.nothing = Sound-skip

Sound-answer_key : (changed : List RowChange) → Sound any (answer_key changed) any
unfolding answer_key
Sound-answer_key changed = Sound-given (λ p. Sound-answer_line (
    far_end_row (record {
      changed = changed;
      anchor = p.far_end.anchor;
      was = p.far_end.was;
      now = caret p;
      held = p.far_end.held;
    })))

Sound-follow_with :
    (f : FarEndLine) → Sound any (modify (λ q. follow_cursor (record q { far_end = f }))) any
Sound-follow_with f =
    Sound-modify (λ q. follow_cursor (record q { far_end = f }))
      (λ p.
        let (o, u, t, s) = follow_cursor-SameBlock (record p { far_end = f }) in
        (o, u, t, s, λ h. h))

Sound-settle_batch : Sound any settle_batch any
unfolding settle_batch
Sound-settle_batch = Sound-given (λ p.
    let batch = record p.far_end { changed = []; watching = false } in
    Sound-if (not p.far_end.watching || p.far_end.awaiting_prompt)
      (Sound->>
        (Sound-set_far_end (record batch {
          awaiting_prompt = if p.far_end.watching then false else p.far_end.awaiting_prompt;
          left = none;
        }))
        Sound-anchor_here)
      (Sound->> (Sound-follow_with batch) (Sound-answer_key p.far_end.changed)))

pub Sound-far_end_settled : Sound any far_end_settled any
unfolding far_end_settled
Sound-far_end_settled = Sound-given (λ p.
    Sound-when (is_far_end p.far_end.owner) (Sound->> Sound-publish_printed Sound-settle_batch))

pub Sound-note_change :
    (id : LineId) (before text : Text) (revision : LineRevision)
    → Sound any (note_change id before text revision) any
unfolding note_change
Sound-note_change id before text revision = Sound-given (λ p.
    Sound-when (is_far_end p.far_end.owner && p.far_end.watching) (
      Sound-given (λ q. Sound-set_far_end (record q.far_end {
        changed = add_change id before (grown revision before text) q.far_end.changed;
      }))))
