-- ===== src/Session/Pump/Sound/Turn.antt =====
-- What one turn of the pump does keeps to the protocol.
use acter.Prelude.{
  inl, inr, refl, ap, Bool, true, false, not, none, some, List, Text, arith, Option-cases,
}
use acter.SessionState.{ConnectionState, integration_grace_period_expired}
use acter.Event.{CommandId}
use acter.Actor.{SessionInput}
use acter.Tracker.{BoundaryTracker, BoundaryEvent, observe}
use acter.Session.Pump.{
  Advanced, Pump, Do, ◌>>◌, tell, given, when, is_some, is_nonempty, settle_running, set_self_talk,
}
use acter.Session.Pump.Turn.{
  Request, advance, feed_seen, feed, begin_self_talk, set_up_with, set_up, interrupted_by_user,
  request, grace_expired, connect, read_bytes,
}
use acter.Session.Pump.Protocol.{
  follow, follow_all, Sound, any, Sound->>, Sound-given, Sound-modify,
}
use acter.Session.Pump.Sound.{Sound-when, Sound-write, Sound-set_integration, Sound-set_spoken}
use acter.Session.Pump.Sound.Blocks.{Sound-tell_quiet, Sound-submit_line}
use acter.Session.Pump.Sound.FarEnd.{Sound-line_owner, Sound-far_end_key, Sound-paste}
use acter.Session.Pump.Sound.Line.{Sound-events, Sound-prompt_finished}

Sound-feed_seen :
    (read : Advanced) (seen : BoundaryTracker × List BoundaryEvent)
    → Sound any (feed_seen read seen) any
unfolding feed_seen advance
Sound-feed_seen read (tracker, seen) =
    Sound->>
      (Sound->>
        (Sound->> (Sound-modify (advance read tracker) (λ p. (refl, refl, refl, refl, λ h. h)))
          (Sound-events seen))
        Sound-prompt_finished)
      (Sound-when (is_nonempty read.replies) (Sound-write read.replies))

Sound-feed : (read : Advanced) → Sound any (feed read) any
unfolding feed
Sound-feed read = Sound-given (λ p. Sound-feed_seen read (observe p.tracker read.items))

abbrev has_setup : Pump → Bool
has_setup p = is_some p.setup

-- The setup is run once, so no other self-talk goes on.
Sound-begin_self_talk : (id : CommandId) → Sound has_setup (begin_self_talk id) any
unfolding begin_self_talk follow_all follow
Sound-begin_self_talk id = record { at = λ p v h. ground (arith, v.setup_once h, v.unshown_open) }

Sound-set_up_with : (line : Text) → Sound has_setup (set_up_with (some line)) any
unfolding set_up_with
Sound-set_up_with line =
    Sound-given
      (λ p. Sound->> (Sound-begin_self_talk p.next_id) (Sound-submit_line p.next_id line true))

Sound-set_up : Sound any set_up any
unfolding set_up set_up_with follow_all
Sound-set_up = record {
  at = λ p v h. elim (Option-cases p.setup) [
    | inl e ↦ ground (arith, e, v)
    | inr (line, e) ↦ ground (arith, e, v, (Sound-set_up_with line).at p v (ap is_some e))
  ];
}

Sound-interrupted_by_user : Sound any interrupted_by_user any
unfolding interrupted_by_user follow_all
Sound-interrupted_by_user = record {
  at = λ p v h. (refl, record { unshown_open = v.unshown_open; setup_once = v.setup_once }, refl);
}

pub Sound-request : (r : Request) → Sound any (request r) any
unfolding request
Sound-request (Request.submit id line) = Sound-submit_line id line false
Sound-request Request.interrupt = Sound-interrupted_by_user
Sound-request (Request.eof bytes) = Sound-write bytes
Sound-request (Request.key press) = Sound-far_end_key press
Sound-request (Request.owner who) = Sound-line_owner who
Sound-request (Request.paste_text text) = Sound-paste text

abbrev stop_talking : Do
stop_talking = given λ p.
    when (is_some p.self_talk) (set_self_talk none >> tell (SessionInput.self_talk false))
    >> settle_running

Sound-stop_talking : Sound any stop_talking any
unfolding follow_all follow
Sound-stop_talking = record { at = λ p v h. ground (arith, v.unshown_open) }

pub Sound-grace_expired : Sound any grace_expired any
unfolding grace_expired follow
Sound-grace_expired =
    Sound->>
      (Sound->>
        (Sound-given (λ p. Sound-set_integration (integration_grace_period_expired p.integration)))
        (Sound-tell_quiet SessionInput.grace_period_expired (λ ph. refl)))
      Sound-stop_talking

Sound-connect : Sound any connect any
unfolding connect follow
Sound-connect = Sound-given (λ p. Sound-when (not p.spoken) (
    Sound->> (Sound-set_spoken true)
      (Sound-tell_quiet (SessionInput.connection ConnectionState.connected) (λ ph. refl))))

pub Sound-read_bytes : (read : Advanced) → Sound any (read_bytes read) any
unfolding read_bytes
Sound-read_bytes read = Sound->> (Sound->> Sound-connect (Sound-feed read)) Sound-set_up
