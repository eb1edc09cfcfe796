-- ===== src/Actor/Turn/Protocol.antt =====
-- The events of a session, read as a protocol of commands.
use acter.Prelude.{
  ◌≡◌, refl, Bool, Option, Option-cases, inl, inr, none, some, List, [], ◌∷◌, ◌++◌, ◌==◌,
  if◌then◌else◌, arith,
}
use acter.Event.{CommandId, SessionEvent, Announcement}
use acter.Actor.{ActiveCommand, Rendered}
use acter.Actor.Step.{rendered_events}

-- No command yet, a command running, or a command ended and no other started.
pub data Phase : Type 0 where
  idle : Phase
  running ended : CommandId → Phase

check : Bool → Phase → Option Phase
check b p = if b then some p else none

announced : CommandId → CommandId → Announcement → Option Phase
unfolding check
announced id of (Announcement.failed code) = check (of == id) (Phase.ended id)
announced id of _ = none

-- Output and announcements name the running command; a command ends only while it runs; once it has
-- ended only its failure is announced.
unfoldable pub follow : Phase → SessionEvent → Option Phase
unfolding check announced
follow p (SessionEvent.command_started id command_line) = some (Phase.running id)
follow (Phase.running id) (SessionEvent.output of row revision text prompt runs) =
    check (of == id) (Phase.running id)
follow _ (SessionEvent.output of row revision text prompt runs) = none
follow (Phase.running id) (SessionEvent.announce of said) = check (of == id) (Phase.running id)
follow (Phase.ended id) (SessionEvent.announce of said) = announced id of said
follow Phase.idle (SessionEvent.announce of said) = none
follow (Phase.running id) (SessionEvent.command_finished of) = some (Phase.ended id)
follow _ (SessionEvent.command_finished of) = none
follow (Phase.running id) (SessionEvent.command_interrupted of) = some (Phase.ended id)
follow _ (SessionEvent.command_interrupted of) = none
follow p _ = some p

unfoldable pub follow_all : Phase → List SessionEvent → Option Phase
unfolding follow
follow_all p [] = some p
follow_all p (e ∷ es) = elim (follow p e) [ none ↦ none | some q ↦ follow_all q es ]

pub follow_all-append :
    (p : Phase) (xs ys : List SessionEvent)
    → follow_all p (xs ++ ys) ≡ elim (follow_all p xs) [ none ↦ none | some q ↦ follow_all q ys ]
unfolding follow_all
follow_all-append p [] ys = refl
follow_all-append p (x ∷ xs) ys = elim (Option-cases (follow p x)) [
  | inl e ↦ ground (arith, e)
  | inr (q, e) ↦ ground (arith, e, follow_all-append q xs ys)
]

pub follow_all-rendered :
    (id : CommandId) (rows : List Rendered)
    → follow_all (Phase.running id) (rendered_events id rows) ≡ some (Phase.running id)
unfolding follow_all rendered_events
follow_all-rendered id [] = refl
follow_all-rendered id (r ∷ rows) = ground (arith, follow_all-rendered id rows)

-- The phase and the actor say the same of the running command.
abbrev pub Agrees : Phase → Option ActiveCommand → Type 0
Agrees (Phase.running id) (some c) = c.id ≡ id
Agrees (Phase.running id) none = ⊥
Agrees p (some c) = ⊥
Agrees p none = Unit

abbrev pub Goes : Option Phase → Option ActiveCommand → Type 0
Goes none o = ⊥
Goes (some q) o = Agrees q o

pub Goes-append :
    (p : Phase) (xs ys : List SessionEvent) (o o' : Option ActiveCommand)
    → Goes (follow_all p xs) o
    → ((q : Phase) → Agrees q o → Goes (follow_all q ys) o')
    → Goes (follow_all p (xs ++ ys)) o'
Goes-append p xs ys o o' h k =
    rw (follow_all-append p xs ys) (elim (Option-cases (follow_all p xs)) [
      | inl e ↦ absurd (rw e at h)
      | inr (q, e) ↦ rw e (k q (rw e at h))
    ])
