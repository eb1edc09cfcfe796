-- ===== src/Session/Pump/Sound/Blocks.antt =====
-- The methods that match a submitted line to a block of the shell keep to the protocol.
use acter.Prelude.{
  ◌≡◌, refl, Bool, not, ◌&&◌, Option, none, some, List, [], ◌∷◌, ◌++◌, if◌then◌else◌, arith, ℕ,
  Text,
}
use acter.Entity.{LineId, LineRevision}
use acter.Event.{CommandId}
use acter.Actor.{SessionInput}
use acter.Tracker.{Region, is_command_line}
use acter.Session.Echo.{take}
use acter.Session.Rows.{Held, held_due}
use acter.Session.Pump.{Submitted, ◌>>◌, tell, given, set_row, is_some, is_id, is_nonempty, window}
use acter.Session.Pump.Blocks.{
  submit_line, start_claimed, start_block, block_started, publish_before, drop_held, drop_echo,
  open_adopted, look_for_echo, boundary_within, boundary_on, boundary, cut_row, adopt, clear_row,
  boundary_on,
}
use acter.Session.Pump.Protocol.{
  Phase, follow, follow_all, view, Sound, any, is_closed, Sound->>, Sound-skip, Sound-given,
}
use acter.Session.Pump.Sound.{
  Sound-if, Sound-open_shown, Sound-close, Sound-forget, Sound-settled, Sound-publish,
  Sound-set_held, Sound-set_echo, Sound-set_submitted, Sound-set_row,
}
use acter.Session.Text.{trim, before_echo}
use acter.Runs.{slice_runs, utf16_len}

pub Sound-tell_quiet :
    (input : SessionInput) → ((ph : Phase) → follow ph input ≡ some ph) → Sound any (tell input) any
unfolding follow_all
Sound-tell_quiet input k = record { at = λ p v h. (ground (arith, k (view p)), v, refl) }

pub Sound-submit_line :
    (id : CommandId) (text : Text) (ours : Bool) → Sound any (submit_line id text ours) any
unfolding submit_line follow_all
Sound-submit_line id text ours = record { at = λ p v h. ground arith }

Sound-start_claimed : (echoed : Option Text) → Sound is_closed (start_claimed echoed) any
unfolding start_claimed follow_all follow
Sound-start_claimed echoed = record { at = λ p v h. ground arith }

Sound-start_block : (echoed : Option Text) → Sound any (start_block echoed) any
unfolding start_block
Sound-start_block echoed = Sound-given (λ p.
    Sound-if (is_some p.opened && not (is_nonempty p.submitted)) Sound-skip
      (Sound->> (Sound-close none) (Sound-start_claimed echoed)))

Sound-publish_before : (o : Option Text) (h : Held) → Sound any (publish_before o h) any
unfolding publish_before
Sound-publish_before none h = Sound-forget (Sound-publish h.line (held_due h))
Sound-publish_before (some []) h = Sound-skip
Sound-publish_before (some (c ∷ cs)) h = Sound-forget (
    Sound-publish h.line
      (record (held_due h) { text = c ∷ cs; runs = slice_runs h.runs 0 (utf16_len (c ∷ cs)) }))

Sound-drop_held :
    (whole : Option Text) (text : Text) (o : Option Held) → Sound any (drop_held whole text o) any
unfolding drop_held
Sound-drop_held whole text none = Sound-skip
Sound-drop_held whole text (some h) =
    Sound->> (Sound-set_held none) (Sound-publish_before (before_echo h.text whole (trim text)) h)

Sound-open_adopted :
    (whole : Option Text) (o : Option (Submitted × List Submitted))
    → Sound any (open_adopted whole o) any
unfolding open_adopted drop_echo
Sound-open_adopted whole none = Sound-skip
Sound-open_adopted whole (some (s, rest)) =
    Sound->>
      (Sound->>
        (Sound->>
          (Sound->>
            (Sound->> (Sound-set_submitted rest)
              (Sound-given (λ p. Sound-drop_held whole s.line p.held)))
            (Sound-close none))
          (Sound-open_shown s.id (some s.line)))
        Sound-settled)
      (Sound-set_row [])

Sound-look_for_echo : (w : ℕ) (whole : Option Text) → Sound any (look_for_echo w whole) any
unfolding look_for_echo
Sound-look_for_echo w whole =
    Sound->> (Sound-given (λ p. Sound-set_row (cut_row w p.row)))
      (Sound-given (λ p. Sound-open_adopted whole (adopt p.row p)))

Sound-look_again :
    (w : ℕ) (id : LineId) (text : Text)
    → Sound any
        (given λ p.
          if is_id id p.pending_row then set_row text >> look_for_echo w (some text) else clear_row)
        any
Sound-look_again w id text = Sound-given (λ p.
    Sound-if (is_id id p.pending_row)
      (Sound->> (Sound-set_row text) (Sound-look_for_echo w (some text))) (Sound-set_row []))

Sound-boundary_within :
    (w : ℕ) (id : LineId) (text : Text) (revision : LineRevision)
    → Sound any (boundary_within w id text revision) any
unfolding boundary_within
Sound-boundary_within w id text LineRevision.appended =
    Sound->> (Sound-given (λ p. Sound-set_row (p.row ++ text))) (Sound-look_for_echo w none)
Sound-boundary_within w id text LineRevision.rewritten = Sound-look_again w id text
Sound-boundary_within w id text LineRevision.settled = Sound-look_again w id text

Sound-boundary_on :
    (o : Option ℕ) (id : LineId) (text : Text) (revision : LineRevision)
    → Sound any (boundary_on o id text revision) any
Sound-boundary_on none id text revision = Sound-set_row []
Sound-boundary_on (some w) id text revision = Sound-boundary_within w id text revision

pub Sound-boundary :
    (region : Region) (id : LineId) (text : Text) (revision : LineRevision)
    → Sound any (boundary region id text revision) any
unfolding boundary
Sound-boundary region id text revision = Sound-given (λ p.
    Sound-if (is_command_line region) (Sound-set_row [])
      (Sound-boundary_on (window p.submitted) id text revision))

pub Sound-block_started : Sound any block_started any
unfolding block_started
Sound-block_started =
    Sound-given (λ p. Sound->> (Sound-set_echo (take p.echo).1) (Sound-start_block (take p.echo).0))
