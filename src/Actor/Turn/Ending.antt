-- ===== src/Actor/Turn/Ending.antt =====
-- A command's ending conforms to the protocol.
use mathlib.Core.List.{append-nil}
use acter.Prelude.{◌∙◌, ◌≡◌, refl, Bool, true, false, Option, none, some, [], ◌∷◌, arith}
use acter.Entity.{ExitCode}
use acter.Pacing.{PacingAction, nothing, flush, still_running, output_continues, on_command_end}
use acter.Unspoken.{size}
use acter.Event.{CommandId, SessionEvent}
use acter.Actor.{ActiveCommand, SessionActor}
use acter.Actor.Step.{◌>>◌, with_active, apply, flush_render, close_active, announce_exit, retire}
use acter.Actor.Turn.Protocol.{Phase, follow, follow_all, follow_all-append, Agrees, Goes}
use acter.Actor.Turn.Conforms.{
  Conforms, Conforms->>, Conforms-with_active, running_of, Conforms-flush_render, Conforms-adopt,
  Conforms-apply,
}

abbrev pub is_some : Option ActiveCommand → Bool
is_some none = false
is_some (some c) = true

pub apply-is_some :
    (action : PacingAction) (a : SessionActor)
    → is_some ((flush_render >> apply action) a).0.active ≡ is_some a.active
unfolding apply
apply-is_some nothing a = ground arith
apply-is_some still_running a = ground arith
apply-is_some output_continues a = ground arith
apply-is_some (flush mode) a = ground arith

pub some_of : (o : Option ActiveCommand) → is_some o ≡ true → (d : ActiveCommand) × (o ≡ some d)
some_of none h = cc
some_of (some d) h = (d, refl)

-- The events that may end a command.
abbrev pub IsEnding : SessionEvent → Type 0
IsEnding terminal = (id : CommandId) → follow (Phase.running id) terminal ≡ some (Phase.ended id)

pub follow_terminal :
    (terminal : SessionEvent) (o : Option Phase) (d : ActiveCommand)
    → IsEnding terminal
    → Goes o (some d)
    → elim o [ none ↦ none | some q ↦ follow_all q (terminal ∷ []) ] ≡ some (Phase.ended d.id)
unfolding follow_all
follow_terminal terminal none d t h = absurd h
follow_terminal terminal (some q) d t h = rw (running_of q d h) (ground (arith, t d.id))

pub closing :
    (c : ActiveCommand) (terminal : SessionEvent) (a : SessionActor) (p : Phase)
    → IsEnding terminal
    → Agrees p (some c)
    → (d : ActiveCommand) × ((close_active terminal c a).0.active ≡ some d)
      × (follow_all p (close_active terminal c a).1 ≡ some (Phase.ended d.id))
unfolding close_active
closing c terminal a p t h =
    let (pacing, outcome) = on_command_end c.pacing a.config (size c.unspoken) in
    let b = record a { active = some (record c { pacing = pacing }) } in
    let word = flush_render >> apply outcome.action in
    let (d, e) = some_of (word b).0.active (apply-is_some outcome.action b) in
    (
      d,
      e,
      follow_all-append p (word b).1 (terminal ∷ [])
          ∙ follow_terminal terminal (follow_all p (word b).1) d t (
              rw e at (
                Conforms-adopt {m = word} c (record c { pacing = pacing }) a p
                  (Conforms->> Conforms-flush_render (Conforms-apply outcome.action)) h refl)),
    )

pub follow_all-announce_exit :
    (exit : Option ExitCode) (b : SessionActor) (d : ActiveCommand)
    → b.active ≡ some d
    → follow_all (Phase.ended d.id) (announce_exit exit b).1 ≡ some (Phase.ended d.id)
unfolding announce_exit follow_all follow
follow_all-announce_exit none b d e = refl
follow_all-announce_exit (some code) b d e = ground arith

-- An ending: the last word, the terminal event, the failure if it is one, and no command is left.
pub Conforms-ending :
    (terminal : SessionEvent) (exit : Option ExitCode)
    → IsEnding terminal
    → Conforms (with_active λ c. close_active terminal c >> announce_exit exit >> retire)
unfolding retire
Conforms-ending terminal exit t =
    Conforms-with_active (λ c. close_active terminal c >> announce_exit exit >> retire)
      (λ c a e p h.
        let (d, e', closed) = closing c terminal a p t h in
        let b = (close_active terminal c a).0 in
        rw append-nil (
          rw (follow_all-append p (close_active terminal c a).1 (announce_exit exit b).1)
            (rw closed (rw (follow_all-announce_exit exit b d e') tt))))
