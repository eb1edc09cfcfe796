-- ===== src/Actor/Turn/Conforms.antt =====
-- The methods of the actor that go on with a command conform to the protocol.
use acter.Prelude.{
  ◌≡◌, refl, ap, sym, Bool, true, false, Option, Option-cases, inl, inr, Text, none, some, [], ◌∷◌,
  if◌then◌else◌, arith,
}
use acter.Pacing.{
  PacingAction, nothing, flush, ReadMode, auto, too_big, quiet, still_running, output_continues,
}
use acter.Unspoken.{UnspokenText, take, last_line}
use acter.SessionState.{SessionState}
use acter.Event.{SessionEvent, Announcement}
use acter.Actor.{ActiveCommand, SessionActor, Wake}
use acter.Actor.Step.{
  Act, skip, send, ◌>>◌, with_active, announce, aside, speak, apply, apply_action, speak_unspoken,
  is_unintegrated, flush_render, read_text, changed, request_pacing,
}
use acter.Actor.Turn.Protocol.{
  Phase, follow, follow_all, follow_all-rendered, Agrees, Goes, Goes-append,
}

pub record Conforms (m : Act) : Type 0 where
  pub at :
      (a : SessionActor) (p : Phase)
      → Agrees p a.active
      → Goes (follow_all p (m a).1) (m a).0.active

pub Conforms->> : {m k : Act} → Conforms m → Conforms k → Conforms (m >> k)
Conforms->> {m} {k} km kk = record {
  at = λ a p h.
      Goes-append p (m a).1 (k (m a).0).1 (m a).0.active (k (m a).0).0.active (km.at a p h)
        (λ q g. kk.at (m a).0 q g);
}

pub Conforms-with_active :
    (f : ActiveCommand → Act)
    → ((c : ActiveCommand) (a : SessionActor)
        → a.active ≡ some c
        → (p : Phase) → Agrees p (some c)
        → Goes (follow_all p (f c a).1) (f c a).0.active)
    → Conforms (with_active f)
unfolding follow_all
Conforms-with_active f k = record {
  at = λ a p h. elim (Option-cases a.active) [
    | inl e ↦ rw (e, with_active) h
    | inr (c, e) ↦ rw (e, with_active) (k c a e p (rw e at h))
  ];
}

-- A phase that agrees with a running command is that it runs.
pub running_of : (p : Phase) (c : ActiveCommand) → Agrees p (some c) → p ≡ Phase.running c.id
running_of Phase.idle c h = absurd h
running_of (Phase.running id) c h = ap Phase.running (sym h)
running_of (Phase.ended id) c h = absurd h

pub Conforms-skip : Conforms skip
unfolding follow_all
Conforms-skip = record { at = λ a p h. h }

pub Conforms-request_pacing : (w : Wake) → Conforms (request_pacing w)
unfolding follow_all
Conforms-request_pacing w = record { at = λ a p h. h }

pub Conforms-announce : (said : Announcement) → Conforms (announce said)
unfolding announce follow_all
Conforms-announce said = Conforms-with_active _ λ c a e p h. rw (running_of p c h, e) (ground arith)

pub Conforms-flush_render : Conforms flush_render
unfolding flush_render
Conforms-flush_render =
    Conforms-with_active _
      λ c a e p h. rw (running_of p c h) (rw (follow_all-rendered c.id c.unrendered) refl)

-- The events that a session sends at any time.
abbrev pub IsNeutral : SessionEvent → Type 0
IsNeutral e = (p : Phase) → follow p e ≡ some p

pub follow_one : (e : SessionEvent) (p : Phase) → IsNeutral e → follow_all p (e ∷ []) ≡ some p
unfolding follow_all
follow_one e p k = ground (arith, k p)

pub Conforms-send : (e : SessionEvent) → IsNeutral e → Conforms (send e)
Conforms-send e k = record { at = λ a p h. rw (follow_one e p k) h }

pub Conforms-changed :
    (f : SessionState → SessionState) (e : SessionEvent)
    → IsNeutral e
    → Conforms (λ a. changed (f a.session) e a)
unfolding changed follow_all
Conforms-changed f e k = record { at = λ a p h. ground (arith, k p) }

-- Going on with the same command changes nothing for the protocol.
pub Conforms-adopt :
    {m : Act} (c d : ActiveCommand) (a : SessionActor) (p : Phase)
    → Conforms m
    → Agrees p (some c)
    → d.id ≡ c.id
    → Goes
        (follow_all p (m (record a { active = some d })).1)
        (m (record a { active = some d })).0.active
Conforms-adopt c d a p km h same =
    km.at (record a { active = some d }) p (rw (running_of p c h) same)

pub Conforms-read_text : (t : Option Text) → Conforms (read_text t)
unfolding read_text
Conforms-read_text none = Conforms-skip
Conforms-read_text (some t) = Conforms-announce (Announcement.read_aloud t)

pub Conforms-if : (b : Bool) {m : Act} → Conforms m → Conforms (if b then m else skip)
Conforms-if true h = h
Conforms-if false h = Conforms-skip

pub Conforms-speak : (mode : ReadMode) (b : Bool) (u : UnspokenText) → Conforms (speak mode b u)
unfolding speak
Conforms-speak quiet b u = Conforms-skip
Conforms-speak auto b u = Conforms-read_text u.text
Conforms-speak too_big b u =
    Conforms->> (Conforms-announce _) (Conforms-if b (Conforms-read_text (last_line u)))

pub Conforms-apply_action : (action : PacingAction) → Conforms (apply_action action)
unfolding apply_action
Conforms-apply_action nothing = Conforms-skip
Conforms-apply_action still_running = Conforms-announce _
Conforms-apply_action output_continues = Conforms-announce _
Conforms-apply_action (flush mode) = Conforms->> Conforms-flush_render (
    Conforms-with_active (speak_unspoken mode) (λ c a e p h.
      Conforms-adopt c (record c { unspoken = (take c.unspoken).1 }) a p
        (Conforms-speak mode (is_unintegrated a.session.integration) c.unspoken) h refl))

pub Conforms-apply : (action : PacingAction) → Conforms (apply action)
unfolding apply
Conforms-apply action = record {
  at = λ a p h. (Conforms-apply_action (aside a.self_talk action)).at a p h;
}
