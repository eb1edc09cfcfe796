-- ===== src/Actor/Step/Speech.antt =====
-- What is spoken is in the buffer first.
use acter.Prelude.{◌≡◌, refl, ap, Bool, true, false, Option, none, some, List, [], ◌∷◌, ◌++◌, arith}
use acter.Pacing.{flush, ReadMode, auto, too_big, quiet}
use acter.Unspoken.{UnspokenText, take}
use acter.Event.{SessionEvent}
use acter.Actor.{ActiveCommand, Rendered, SessionActor}
use acter.Actor.Step.{
  with_active, aside, speak, apply, apply_action, apply_flush, is_unintegrated, rendered_events,
  flush_render, speak_unspoken,
}

-- Announcements and nothing else.
pub announcements : List SessionEvent → Bool
announcements [] = true
announcements (SessionEvent.announce id said ∷ es) = announcements es
announcements (_ ∷ es) = false

pub unrendered_of : Option ActiveCommand → List Rendered
unrendered_of none = []
unrendered_of (some c) = c.unrendered

announcements-speak :
    (mode : ReadMode) (b : Bool) (u : UnspokenText) (a : SessionActor)
    → (announcements (speak mode b u a).1 ≡ true) × ((speak mode b u a).0 ≡ a)
unfolding speak announcements
announcements-speak quiet b u a = ground arith
announcements-speak auto b u a = ground arith
announcements-speak too_big b u a = ground arith

-- What is left of the buffer's backlog and what is sent, once a flush has gone out.
abbrev pub Buffered : ActiveCommand → SessionActor × List SessionEvent → Type 0
Buffered c r =
    (said : List SessionEvent) × (r.1 ≡ rendered_events c.id c.unrendered ++ said)
    × (announcements said ≡ true)
    × (unrendered_of r.0.active ≡ [])

Buffered-speak :
    (mode : ReadMode) (a : SessionActor) (c : ActiveCommand)
    → let b = record a { active = some (record c { unrendered = [] }) } in
      Buffered c (
        (speak_unspoken mode (record c { unrendered = [] }) b).0,
        rendered_events c.id c.unrendered
            ++ (speak_unspoken mode (record c { unrendered = [] }) b).1,
      )
unfolding speak_unspoken unrendered_of
Buffered-speak mode a c =
    let d = record c { unrendered = []; unspoken = (take c.unspoken).1 } in
    let b = record a { active = some d } in
    let (only, same) =
      announcements-speak mode (is_unintegrated a.session.integration) c.unspoken b in
    (
      (speak mode (is_unintegrated a.session.integration) c.unspoken b).1,
      refl,
      only,
      ap (λ (x : SessionActor). unrendered_of x.active) same,
    )

flush_render-some :
    (a : SessionActor) (c : ActiveCommand)
    → a.active ≡ some c
    → flush_render a ≡ (
      record a { active = some (record c { unrendered = [] }) },
      rendered_events c.id c.unrendered,
    )
unfolding flush_render
flush_render-some a c e = rw (e, with_active)

Buffered-flush :
    (mode : ReadMode) (a : SessionActor) (c : ActiveCommand)
    → a.active ≡ some c
    → Buffered c (apply_flush mode a)
unfolding apply_flush
Buffered-flush mode a c e = rw (flush_render-some a c e) (Buffered-speak mode a c)

flush_of :
    (b : Bool) (mode : ReadMode) (a : SessionActor) (c : ActiveCommand)
    → a.active ≡ some c
    → Buffered c (apply_action (aside b (flush mode)) a)
unfolding apply_action aside
flush_of true mode a c e = Buffered-flush quiet a c e
flush_of false mode a c e = Buffered-flush mode a c e

-- Reading a running command's text flushes the rows that wait for the render tick, in their order,
-- before any announcement, sends nothing but these rows and then announcements, and leaves no row
-- waiting: what is spoken is in the buffer before it is spoken.
pub apply-Buffered :
    (mode : ReadMode) (a : SessionActor) (c : ActiveCommand)
    → a.active ≡ some c
    → Buffered c (apply (flush mode) a)
unfolding apply
apply-Buffered mode a c e = flush_of a.self_talk mode a c e
