-- ===== src/Session/Service/Whole/Heard.antt =====
-- What the pump sends means to the actor what it meant to the pump.
use acter.Prelude.{
  ◌≡◌, inl, inr, refl, ap, ◌∙◌, Bool, true, false, not, ◌||◌, Option, none, some, List, [], ◌∷◌,
  ==_iff, arith, Option-cases, ℕ,
}
use acter.Pacing.{Duration, PacingConfig}
use acter.Keys.{TerminalModes}
use acter.Event.{CommandId}
use acter.Actor.{SessionInput}
use acter.Actor.Step.Kept.{active_id, Keeps-wake_pacing, Keeps-wake_render}
use acter.Session.Pump.{is_some, is_id, Cursor}
use acter.Session.Sink.{attach}
use acter.Session.Pump.Protocol.{Phase, follow, shown_block, view, IsValid, is_appended_or_settled}
use acter.Actor.Turn
use acter.Session.Pump.Turn.{Woke}
use acter.Session.Pump.Conforms.{turn-Agrees}
use acter.Session.Service.{ShellFacts, start, new_pump}
use acter.Session.Service.Whole.{
  submitted, claimed, keyed, owned, pasted, woken, served, told, ticked, attached, is_input, Whole,
  starting, here, next, pump_turn, actor_turn, take_request, Step, Reaches,
}
use acter.Session.Service.Whole.Tracks.{
  Tracks, Tracks-to, Tracks-handle, check_of, follow_facts, follow_facts-append,
  follow_facts-inputs_of,
}
use acter.Session.Service.Whole.Same.{
  SamePump, SamePump-IsValid, view-SamePump, begin_submit-SamePump, SamePump-refl,
  send_key-SamePump, set_line_owner-SamePump, paste-SamePump,
}

-- What holds of a session between two steps.
record IsInStep (s : Whole) : Type 0 where
  phase : Phase
  tracks : Tracks phase s.actor.actor
  agrees : follow_facts phase s.facts ≡ some (view s.service.loop.pump)
  valid : IsValid s.service.loop.pump

-- A step that leaves the channel and the actor as they are.
IsInStep-call :
    (s t : Whole)
    → SamePump s.service.loop.pump t.service.loop.pump
    → t.facts ≡ s.facts
    → t.actor ≡ s.actor
    → IsInStep s
    → IsInStep t
IsInStep-call s t same f e inv = record {
  phase = inv.phase;
  tracks = rw e inv.tracks;
  agrees = rw (f, view-SamePump s.service.loop.pump t.service.loop.pump same) inv.agrees;
  valid = SamePump-IsValid s.service.loop.pump t.service.loop.pump same inv.valid;
}

IsInStep-pump_turn :
    (w : Woke) (now : Duration) (s : Whole) → IsInStep s → IsInStep (pump_turn w now s)
unfolding pump_turn
IsInStep-pump_turn w now s inv =
    let (f, v) = turn-Agrees w now s.service.loop inv.valid in
    record {
      phase = inv.phase;
      tracks = inv.tracks;
      agrees =
          follow_facts-append inv.phase (view s.service.loop.pump) s.facts _ inv.agrees
          ∙ follow_facts-inputs_of (view s.service.loop.pump) _
          ∙ f;
      valid = v;
    }

-- The head of the channel is handled.
IsInStep-told :
    (i : SessionInput) (rest : List SessionInput) (now : Duration) (s : Whole)
    → s.facts ≡ i ∷ rest
    → IsInStep s
    → IsInStep (actor_turn (Turn.Woke.input i) now (record s { facts = rest }))
unfolding follow_facts actor_turn Turn.turn Turn.act Turn.take_requests
IsInStep-told i rest now s e inv = elim (Option-cases (follow inv.phase i)) [
  | inl none_of ↦ absurd (ground (arith, inv.agrees, e, none_of))
  | inr (mid, goes) ↦ record {
    phase = mid;
    tracks = Tracks-handle inv.phase mid i now s.actor.actor goes inv.tracks;
    agrees = ground (arith, inv.agrees, e, goes);
    valid = inv.valid;
  }
]

IsInStep-ticked :
    (w : Turn.Woke) (now : Duration) (s : Whole)
    → is_input w ≡ false
    → IsInStep s
    → IsInStep (actor_turn w now s)
unfolding actor_turn Turn.turn Turn.act Turn.take_requests
IsInStep-ticked (Turn.Woke.input i) now s e inv = absurd (ground (arith, e))
IsInStep-ticked Turn.Woke.render now s e inv = record {
  phase = inv.phase;
  tracks = let (i, t) = Keeps-wake_render.at s.actor.actor in (i ∙ inv.tracks.0, t ∙ inv.tracks.1);
  agrees = inv.agrees;
  valid = inv.valid;
}
IsInStep-ticked Turn.Woke.pacing now s e inv = record {
  phase = inv.phase;
  tracks =
      let (i, t) = (Keeps-wake_pacing now).at s.actor.actor in (i ∙ inv.tracks.0, t ∙ inv.tracks.1);
  agrees = inv.agrees;
  valid = inv.valid;
}

IsInStep-Step : (s t : Whole) → Step s t → IsInStep s → IsInStep t
unfolding attach
IsInStep-Step s t (submitted line) inv =
    IsInStep-call s t (begin_submit-SamePump line s.service) refl refl inv
IsInStep-Step s t (claimed some_claim) inv =
    IsInStep-call s t (record { opened = refl; unshown = refl; self_talk = refl; setup = refl })
      refl refl inv
IsInStep-Step s t (keyed press) inv =
    IsInStep-call s t (send_key-SamePump press s.service) refl refl inv
IsInStep-Step s t (owned who) inv =
    IsInStep-call s t (set_line_owner-SamePump who s.service) refl refl inv
IsInStep-Step s t (pasted text) inv =
    IsInStep-call s t (paste-SamePump text s.service) refl refl inv
IsInStep-Step s t (woken w now go request due) inv = IsInStep-pump_turn w now s inv
IsInStep-Step s t (served r rest now go e) inv =
    IsInStep-pump_turn (Woke.asked (some r)) now (take_request rest s)
      (IsInStep-call s (take_request rest s) (SamePump-refl s.service.loop.pump) refl refl inv)
IsInStep-Step s t (told i rest now e) inv = IsInStep-told i rest now s e inv
IsInStep-Step s t (ticked w now e due) inv = IsInStep-ticked w now s e inv
IsInStep-Step s t (attached id) inv =
    IsInStep-call s t (SamePump-refl s.service.loop.pump) refl refl inv

Reaches-IsInStep : (s t : Whole) → Reaches s t → IsInStep s → IsInStep t
Reaches-IsInStep s t here inv = inv
Reaches-IsInStep s t (next {t = m} r step) inv = IsInStep-Step m t step (Reaches-IsInStep s m r inv)

starting-IsInStep :
    (alphanumeric : ℕ → Bool) (cursor : Cursor) (modes : TerminalModes) (config : PacingConfig)
    (shell : ShellFacts)
    → IsInStep (starting alphanumeric cursor modes config shell)
unfolding starting start new_pump follow_facts
starting-IsInStep alphanumeric cursor modes config shell = record {
  phase = record { block = none; talking = false };
  tracks = (refl, refl);
  agrees = refl;
  valid = record { unshown_open = λ h. absurd (ground (arith, h)); setup_once = λ h. refl };
}

-- What an input takes for granted of the command that is active.
abbrev pub Heard : SessionInput → Option CommandId → Type 0
Heard (SessionInput.command_started id line) o = o ≡ none
Heard (SessionInput.output row revision text spoken prompt runs) o =
    (is_appended_or_settled revision || spoken) ≡ true → is_some o ≡ true
Heard (SessionInput.command_ended id exit) o = o ≡ some id
Heard (SessionInput.command_interrupted id) o = o ≡ some id
Heard _ o = Unit

is_id-some : (id : CommandId) (o : Option CommandId) → is_id id o ≡ true → o ≡ some id
is_id-some id none h = absurd (ground (arith, h))
is_id-some id (some m) h = ap some ((==_iff m id).0 h)

none_of-is_some : (o : Option CommandId) → not (is_some o) ≡ true → o ≡ none
none_of-is_some none h = refl
none_of-is_some (some id) h = absurd (ground (arith, h))

follow-Heard : (ph mid : Phase) (i : SessionInput) → follow ph i ≡ some mid → Heard i ph.block
unfolding follow
follow-Heard ph mid (SessionInput.command_started id line) h =
    none_of-is_some ph.block
      (check_of (not (is_some ph.block)) (record ph { block = some id }) mid h).0
follow-Heard ph mid (SessionInput.output row revision text spoken prompt runs) h = λ shown. ground (
  arith,
  shown,
  (check_of (is_some ph.block || not (is_appended_or_settled revision || spoken)) ph mid h).0,
)
follow-Heard ph mid (SessionInput.command_ended id exit) h =
    is_id-some id ph.block (check_of (is_id id ph.block) (record ph { block = none }) mid h).0
follow-Heard ph mid (SessionInput.command_interrupted id) h =
    is_id-some id ph.block (check_of (is_id id ph.block) (record ph { block = none }) mid h).0
follow-Heard ph mid _ h = tt

IsInStep-Heard :
    (s : Whole) (i : SessionInput) (rest : List SessionInput)
    → IsInStep s
    → s.facts ≡ i ∷ rest
    → Heard i (active_id s.actor.actor.active)
unfolding follow_facts
IsInStep-Heard s i rest inv e = elim (Option-cases (follow inv.phase i)) [
  | inl none_of ↦ absurd (ground (arith, inv.agrees, e, none_of))
  | inr (mid, goes) ↦ rw inv.tracks.0 (follow-Heard inv.phase mid i goes)
]

-- However the calls of the window, the reads, the timers and the turns of the pump and of the actor
-- interleave in a session, the input that the actor takes next fits what it holds: a command starts
-- only when none is active, what ends or interrupts a command names the active one, and output that
-- is not a silent rewrite comes while one is active, so that none of it is dropped.
pub Reaches-Heard :
    (alphanumeric : ℕ → Bool) (cursor : Cursor) (modes : TerminalModes) (config : PacingConfig)
    (shell : ShellFacts) (s : Whole) (i : SessionInput) (rest : List SessionInput)
    → Reaches (starting alphanumeric cursor modes config shell) s
    → s.facts ≡ i ∷ rest
    → Heard i (active_id s.actor.actor.active)
Reaches-Heard alphanumeric cursor modes config shell s i rest r e =
    IsInStep-Heard s i rest
      (Reaches-IsInStep (starting alphanumeric cursor modes config shell) s r
        (starting-IsInStep alphanumeric cursor modes config shell))
      e

IsInStep-caught_up :
    (s : Whole) → IsInStep s → s.facts ≡ [] → Tracks (view s.service.loop.pump) s.actor.actor
unfolding follow_facts
IsInStep-caught_up s inv e =
    Tracks-to true inv.phase (view s.service.loop.pump) (ground (arith, inv.agrees, e)) inv.tracks

-- Whenever the actor of a session has taken all that the pump sent, its active command is the block
-- that the pump holds open and has shown, and it keeps quiet exactly while the pump runs the setup.
pub Reaches-caught_up :
    (alphanumeric : ℕ → Bool) (cursor : Cursor) (modes : TerminalModes) (config : PacingConfig)
    (shell : ShellFacts) (s : Whole)
    → Reaches (starting alphanumeric cursor modes config shell) s
    → s.facts ≡ []
    → (active_id s.actor.actor.active
        ≡ shown_block s.service.loop.pump.unshown s.service.loop.pump.opened)
      × (s.actor.actor.self_talk ≡ is_some s.service.loop.pump.self_talk)
Reaches-caught_up alphanumeric cursor modes config shell s r e =
    IsInStep-caught_up s
      (Reaches-IsInStep (starting alphanumeric cursor modes config shell) s r
        (starting-IsInStep alphanumeric cursor modes config shell))
      e
