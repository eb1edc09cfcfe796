-- ===== src/Session/Service/Whole/Tracks.antt =====
-- The actor and the phase of the protocol say the same of the command that runs.
use acter.Prelude.{
  ◌≡◌, inl, inr, refl, ◌∙◌, Bool, true, false, not, ◌||◌, Option, none, some, List, [], ◌∷◌, ◌++◌,
  arith, Option-cases,
}
use acter.Pacing.{Duration}
use acter.Event.{CommandId, SessionEvent}
use acter.SessionState.{grace_period_expired, alt_screen_entered, alt_screen_left}
use acter.Actor.{SessionInput, SessionActor}
use acter.Actor.Step.{Act, handle, command_started, changed, flush_render, send, ◌>>◌}
use acter.Actor.Step.Kept.{
  active_id, Keeps, Keeps-output, Keeps-far_end_line, Keeps-changed, Ends-command_ended,
  Ends-command_interrupted,
}
use acter.Session.Pump.{Effect, is_some, is_id}
use acter.Session.Pump.Protocol.{Phase, follow, follow_all, check, is_appended_or_settled}
use acter.Session.Service.Whole.{inputs_of}

abbrev pub Tracks : Phase → SessionActor → Type 0
Tracks ph a = (active_id a.active ≡ ph.block) × (a.self_talk ≡ ph.talking)

pub check_of : (b : Bool) (ph next : Phase) → check b ph ≡ some next → (b ≡ true) × (ph ≡ next)
check_of true ph next h = ground (arith, h)
check_of false ph next h = absurd (ground (arith, h))

pub Tracks-to :
    {id : Option CommandId} {talking : Bool} (b : Bool) (ph next : Phase)
    → check b ph ≡ some next
    → (id ≡ ph.block) × (talking ≡ ph.talking)
    → (id ≡ next.block) × (talking ≡ next.talking)
Tracks-to b ph next h k = let (_, e) = check_of b ph next h in rw (← e) k

-- Where the actor keeps its command.
Tracks-kept :
    (ph next : Phase) (m : Act) (a : SessionActor)
    → some ph ≡ some next
    → Tracks ph a
    → Keeps m
    → Tracks next (m a).0
Tracks-kept ph next m a h (i, t) k =
    let (i', t') = k.at a in Tracks-to true ph next h (i' ∙ i, t' ∙ t)

-- An input that the protocol allows takes the actor where it takes the phase.
pub Tracks-handle :
    (ph next : Phase) (input : SessionInput) (now : Duration) (a : SessionActor)
    → follow ph input ≡ some next
    → Tracks ph a
    → Tracks next (handle input now a).0
unfolding follow handle command_started
Tracks-handle ph next (SessionInput.command_started id line) now a h (i, t) =
    Tracks-to (not (is_some ph.block)) (record ph { block = some id }) next h (refl, t)
Tracks-handle ph next (SessionInput.output row revision text spoken prompt runs) now a h (i, t) =
    Tracks-to (is_some ph.block || not (is_appended_or_settled revision || spoken)) ph next h (
      let (i', t') =
        (Keeps-output
            (record { line = row; revision = revision; text = text; prompt = prompt; runs = runs })
            spoken now).at
          a in
      (i' ∙ i, t' ∙ t))
Tracks-handle ph next (SessionInput.command_ended id exit) now a h (i, t) =
    let (gone, talk) = Ends-command_ended id exit a in
    Tracks-to (is_id id ph.block) (record ph { block = none }) next h (gone, talk ∙ t)
Tracks-handle ph next (SessionInput.command_interrupted id) now a h (i, t) =
    let (gone, talk) = Ends-command_interrupted id a in
    Tracks-to (is_id id ph.block) (record ph { block = none }) next h (gone, talk ∙ t)
Tracks-handle ph next (SessionInput.self_talk true) now a h (i, t) =
    Tracks-to (not ph.talking) (record ph { talking = true }) next h (i, refl)
Tracks-handle ph next (SessionInput.self_talk false) now a h (i, t) =
    Tracks-to ph.talking (record ph { talking = false }) next h (i, refl)
Tracks-handle ph next (SessionInput.connection state) now a h k = Tracks-to true ph next h k
Tracks-handle ph next (SessionInput.prompt_drawn text) now a h k = Tracks-to true ph next h k
Tracks-handle ph next (SessionInput.far_end_line text caret anchored) now a h k =
    Tracks-kept ph next (flush_render >> send (SessionEvent.far_end_line text caret anchored)) a h k
      (Keeps-far_end_line (SessionEvent.far_end_line text caret anchored))
Tracks-handle ph next SessionInput.markers_observed now a h k = Tracks-to true ph next h k
Tracks-handle ph next SessionInput.grace_period_expired now a h k =
    Tracks-kept ph next
      (λ b. changed (grace_period_expired b.session) SessionEvent.integration_unavailable b) a h k
      (Keeps-changed grace_period_expired SessionEvent.integration_unavailable)
Tracks-handle ph next (SessionInput.follow_mode on) now a h k = Tracks-to true ph next h k
Tracks-handle ph next SessionInput.alt_screen_entered now a h k =
    Tracks-kept ph next
      (λ b. changed (alt_screen_entered b.session) SessionEvent.alt_screen_entered b) a h k
      (Keeps-changed alt_screen_entered SessionEvent.alt_screen_entered)
Tracks-handle ph next SessionInput.alt_screen_left now a h k =
    Tracks-kept ph next (λ b. changed (alt_screen_left b.session) SessionEvent.alt_screen_left b) a
      h k (Keeps-changed alt_screen_left SessionEvent.alt_screen_left)

-- The channel takes the phase of the actor to what the pump holds.
unfoldable pub follow_facts : Phase → List SessionInput → Option Phase
unfolding follow
follow_facts ph [] = some ph
follow_facts ph (i ∷ rest) = elim (follow ph i) [ none ↦ none | some next ↦ follow_facts next rest ]

pub follow_facts-append :
    (ph mid : Phase) (xs ys : List SessionInput)
    → follow_facts ph xs ≡ some mid
    → follow_facts ph (xs ++ ys) ≡ follow_facts mid ys
unfolding follow_facts
follow_facts-append ph mid [] ys h = ground (arith, h)
follow_facts-append ph mid (i ∷ is) ys h = elim (Option-cases (follow ph i)) [
  | inl e ↦ absurd (ground (arith, h, e))
  | inr (next, e) ↦ ground (arith, h, e, follow_facts-append next mid is ys)
]

pub follow_facts-inputs_of :
    (ph : Phase) (es : List Effect) → follow_facts ph (inputs_of es) ≡ follow_all ph es
unfolding follow_facts inputs_of follow_all
follow_facts-inputs_of ph [] = refl
follow_facts-inputs_of ph (Effect.send i ∷ es) = elim (Option-cases (follow ph i)) [
  | inl e ↦ ground (arith, e)
  | inr (next, e) ↦ ground (arith, e, follow_facts-inputs_of next es)
]
follow_facts-inputs_of ph (Effect.write bytes ∷ es) = follow_facts-inputs_of ph es
follow_facts-inputs_of ph (Effect.interrupt ∷ es) = follow_facts-inputs_of ph es
