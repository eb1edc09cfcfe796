-- ===== src/Session/Pump/Sound.antt =====
-- Every method of the pump keeps to the protocol: the methods on blocks and on the buffer.
pub mod Blocks
pub mod FarEnd
pub mod Line
pub mod Turn
use acter.Prelude.{
  ◌≡◌, ◌⊎◌, inl, inr, refl, ap, ◌∙◌, Bool, true, false, not, ◌&&◌, ◌||◌, Option, none, some, List,
  [], ◌∷◌, ◌++◌, ◌==◌, if◌then◌else◌, arith, Option-cases, Bool-cases, ℕ, Text, ==_iff,
}
use acter.Entity.{LineId, LineRevision, StyleRun, ExitCode}
use acter.Event.{CommandId}
use acter.Actor.{SessionInput}
use acter.SessionState.{Integration}
use acter.Session.Echo.{Echo}
use acter.Session.Rows.{Lines, Row, Due, Held, held_due, get}
use acter.Session.Pump.{
  set_held, set_far_end, set_integration, set_spoken, set_drawing, set_standing, set_echo,
  set_cursor, set_submitted, set_row, set_lines, set_cleared_at_idle, FarEndLine, Submitted, Pump,
  Printed, Effect, Do, ◌>>◌, skip, emit, tell, modify, given, when, is_some, is_id, is_nonempty,
  settle_running, mint, open_shown, open_unshown, stop_self_talk, closing, close, window, ending,
}
use acter.Session.Pump.Output.{
  output, unclaimed, publish, spill_held, spill, hold_in, holds, is_over, absorbed, hold_within,
  hold, recolour,
}
use acter.Session.Pump.Protocol.{
  Phase, follow, follow_all, view, IsValid, Sound, any, is_closed, is_open, Sound->>, Sound-skip,
  Sound-given, Sound-modify,
}

pub Sound-when : {P : Pump → Bool} {m : Do} (b : Bool) → Sound P m P → Sound P (when b m) P
Sound-when true s = s
Sound-when false s = Sound-skip

pub Sound-if :
    {P Q : Pump → Bool} {m k : Do} (b : Bool)
    → Sound P m Q
    → Sound P k Q
    → Sound P (if b then m else k) Q
Sound-if true s t = s
Sound-if false s t = t

pub Sound-write : {P : Pump → Bool} (bytes : List ℕ) → Sound P (emit (Effect.write bytes)) P
unfolding follow_all
Sound-write bytes = record { at = λ p v h. (refl, v, h) }

pub Sound-settled : {P : Pump → Bool} → Sound P settle_running any
unfolding follow_all
Sound-settled = record {
  at = λ p v h. (refl, record { unshown_open = v.unshown_open; setup_once = v.setup_once }, refl);
}

pub Sound-open_shown :
    (id : CommandId) (line : Option Text) → Sound is_closed (open_shown id line) is_open
unfolding open_shown follow_all follow
Sound-open_shown id line = record { at = λ p v h. ground arith }

pub Sound-open_unshown : (id : CommandId) → Sound is_closed (open_unshown id) is_open
unfolding open_unshown follow_all
Sound-open_unshown id = record { at = λ p v h. ground arith }

pub Sound-close : (exit : Option ExitCode) → Sound any (close exit) is_closed
unfolding close closing follow_all follow
Sound-close exit = record { at = λ p v h. ground arith }

pub Sound-output : (id : LineId) (d : Due) → Sound is_open (output id d) is_open
unfolding output follow_all follow
Sound-output id d = record { at = λ p v h. ground arith }

pub Sound-unclaimed : Sound is_closed unclaimed is_open
unfolding unclaimed follow_all
Sound-unclaimed = record { at = λ p v h. ground arith }

pub Sound-forget : {P Q : Pump → Bool} {m : Do} → Sound P m Q → Sound P m any
Sound-forget s = record { at = λ p v h. let (f, w, g) = s.at p v h in (f, w, refl) }

pub Sound-any : {P Q : Pump → Bool} {m : Do} → Sound any m Q → Sound P m Q
Sound-any s = record { at = λ p v h. s.at p v refl }

pub Sound-publish : (id : LineId) (d : Due) → Sound any (publish id d) is_open
unfolding publish output unclaimed follow_all follow
Sound-publish id d = record { at = λ p v h. ground arith }

-- Assignments to fields that the protocol does not read.
pub Sound-set_held : (value : Option Held) → Sound any (set_held value) any
unfolding follow_all
Sound-set_held value = record {
  at = λ p v h. (refl, record { unshown_open = v.unshown_open; setup_once = v.setup_once }, refl);
}

pub Sound-set_far_end : (value : FarEndLine) → Sound any (set_far_end value) any
unfolding follow_all
Sound-set_far_end value = record {
  at = λ p v h. (refl, record { unshown_open = v.unshown_open; setup_once = v.setup_once }, refl);
}

pub Sound-set_integration : (value : Integration) → Sound any (set_integration value) any
unfolding follow_all
Sound-set_integration value = record {
  at = λ p v h. (refl, record { unshown_open = v.unshown_open; setup_once = v.setup_once }, refl);
}

pub Sound-set_spoken : (value : Bool) → Sound any (set_spoken value) any
unfolding follow_all
Sound-set_spoken value = record {
  at = λ p v h. (refl, record { unshown_open = v.unshown_open; setup_once = v.setup_once }, refl);
}

pub Sound-set_drawing : (value : Option Text) → Sound any (set_drawing value) any
unfolding follow_all
Sound-set_drawing value = record {
  at = λ p v h. (refl, record { unshown_open = v.unshown_open; setup_once = v.setup_once }, refl);
}

pub Sound-set_standing : (value : Option Text) → Sound any (set_standing value) any
unfolding follow_all
Sound-set_standing value = record {
  at = λ p v h. (refl, record { unshown_open = v.unshown_open; setup_once = v.setup_once }, refl);
}

pub Sound-set_echo : (value : Echo) → Sound any (set_echo value) any
unfolding follow_all
Sound-set_echo value = record {
  at = λ p v h. (refl, record { unshown_open = v.unshown_open; setup_once = v.setup_once }, refl);
}

pub Sound-set_cursor : (value : Option LineId) → Sound any (set_cursor value) any
unfolding follow_all
Sound-set_cursor value = record {
  at = λ p v h. (refl, record { unshown_open = v.unshown_open; setup_once = v.setup_once }, refl);
}

pub Sound-set_submitted : (value : List Submitted) → Sound any (set_submitted value) any
unfolding follow_all
Sound-set_submitted value = record {
  at = λ p v h. (refl, record { unshown_open = v.unshown_open; setup_once = v.setup_once }, refl);
}

pub Sound-set_row : (value : Text) → Sound any (set_row value) any
unfolding follow_all
Sound-set_row value = record {
  at = λ p v h. (refl, record { unshown_open = v.unshown_open; setup_once = v.setup_once }, refl);
}

pub Sound-set_cleared_at_idle : (value : Bool) → Sound any (set_cleared_at_idle value) any
unfolding follow_all
Sound-set_cleared_at_idle value = record {
  at = λ p v h. (refl, record { unshown_open = v.unshown_open; setup_once = v.setup_once }, refl);
}

pub Sound-set_lines : (value : Lines) → Sound any (set_lines value) any
unfolding follow_all
Sound-set_lines value = record {
  at = λ p v h. (refl, record { unshown_open = v.unshown_open; setup_once = v.setup_once }, refl);
}

Sound-spill_held : (held : Option Held) → Sound any (spill_held held) any
unfolding spill_held
Sound-spill_held none = Sound-skip
Sound-spill_held (some h) =
    Sound->> (Sound-set_held none) (Sound-forget (Sound-publish h.line (held_due h)))

pub Sound-spill : Sound any spill any
unfolding spill
Sound-spill = Sound-given (λ p. Sound-spill_held p.held)

Sound-hold_within : (w : ℕ) (id : LineId) (d : Due) → Sound any (hold_within w id d) any
unfolding hold_within
Sound-hold_within w id d =
    Sound->>
      (Sound->> (Sound-given (λ p. Sound-when (not (holds id p.held)) Sound-spill))
        (Sound-given (λ p. Sound-set_held (absorbed id d p.held))))
      (Sound-given (λ p. Sound-when (is_over w p.held) Sound-spill))

Sound-hold_in : (w : Option ℕ) (id : LineId) (d : Due) → Sound any (hold_in w id d) any
unfolding hold_in
Sound-hold_in none id d = Sound->> Sound-spill (Sound-forget (Sound-publish id d))
Sound-hold_in (some w) id d = Sound-hold_within w id d

pub Sound-hold : (id : LineId) (d : Due) → Sound any (hold id d) any
unfolding hold
Sound-hold id d = Sound-given (λ p. Sound-hold_in (window p.submitted) id d)

pub Sound-recolour :
    (id : LineId) (text : Text) (runs : List StyleRun) → Sound any (recolour id text runs) any
unfolding recolour follow_all follow
Sound-recolour id text runs = record { at = λ p v h. ground arith }
