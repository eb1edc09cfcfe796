-- ===== src/Session/Pump/Protocol.antt =====
-- The inputs that the pump sends the actor, read as a protocol of blocks.
use acter.Prelude.{
  ◌≡◌, inl, inr, refl, ◌∙◌, Bool, true, false, not, ◌||◌, Option, none, some, List, [], ◌∷◌, ◌++◌,
  arith, Option-cases,
}
use acter.Entity.{LineRevision}
use acter.Event.{CommandId}
use acter.Actor.{SessionInput}
use acter.Session.Pump.{Pump, Effect, Do, ◌>>◌, skip, modify, given, is_some, is_id}

-- The block that is started and not ended, and whether Acter talks to itself.
pub record Phase : Type 0 where
  pub block : Option CommandId
  pub talking : Bool

abbrev pub is_appended_or_settled : LineRevision → Bool
is_appended_or_settled LineRevision.rewritten = false
is_appended_or_settled _ = true

abbrev pub check : Bool → Phase → Option Phase
check true ph = some ph
check false ph = none

-- A block starts only when none is, and ends only as the one that is. Output comes only in a block,
-- but for a row that is rewritten in silence. Self-talk is turned on only when it is off, and off
-- only when it is on.
unfoldable pub follow : Phase → SessionInput → Option Phase
follow ph (SessionInput.command_started id command_line) =
    check (not (is_some ph.block)) (record ph { block = some id })
follow ph (SessionInput.output row revision text spoken prompt runs) =
    check (is_some ph.block || not (is_appended_or_settled revision || spoken)) ph
follow ph (SessionInput.command_ended id exit) =
    check (is_id id ph.block) (record ph { block = none })
follow ph (SessionInput.command_interrupted id) =
    check (is_id id ph.block) (record ph { block = none })
follow ph (SessionInput.self_talk true) = check (not ph.talking) (record ph { talking = true })
follow ph (SessionInput.self_talk false) = check ph.talking (record ph { talking = false })
follow ph _ = some ph

-- Only what is sent to the actor counts.
unfoldable pub follow_all : Phase → List Effect → Option Phase
unfolding follow
follow_all ph [] = some ph
follow_all ph (Effect.send input ∷ es) = elim (follow ph input) [
  | none ↦ none
  | some next ↦ follow_all next es
]
follow_all ph (_ ∷ es) = follow_all ph es

pub follow_all-append :
    (ph mid : Phase) (xs ys : List Effect)
    → follow_all ph xs ≡ some mid
    → follow_all ph (xs ++ ys) ≡ follow_all mid ys
unfolding follow_all
follow_all-append ph mid [] ys h = ground (arith, h)
follow_all-append ph mid (Effect.send input ∷ es) ys h = elim (Option-cases (follow ph input)) [
  | inl e ↦ absurd (ground (arith, h, e))
  | inr (next, e) ↦ ground (arith, h, e, follow_all-append next mid es ys)
]
follow_all-append ph mid (Effect.write bytes ∷ es) ys h = follow_all-append ph mid es ys h
follow_all-append ph mid (Effect.interrupt ∷ es) ys h = follow_all-append ph mid es ys h

abbrev pub shown_block : Bool → Option CommandId → Option CommandId
shown_block true opened = none
shown_block false opened = opened

-- What the actor was told of the pump's state.
abbrev pub view : Pump → Phase
view p = record { block = shown_block p.unshown p.opened; talking = is_some p.self_talk }

-- A block that is not shown is open, and a setup that was not run yet is not being run.
pub record IsValid (p : Pump) : Type 0 where
  pub unshown_open : p.unshown ≡ true → is_some p.opened ≡ true
  pub setup_once : is_some p.setup ≡ true → p.self_talk ≡ none

-- From a valid pump for which `needs` holds, the method sends what the protocol allows and leaves a
-- valid pump for which `gives` holds.
pub record Sound (needs : Pump → Bool) (m : Do) (gives : Pump → Bool) : Type 0 where
  pub at :
      (p : Pump)
      → IsValid p
      → needs p ≡ true
      → (follow_all (view p) (m p).1 ≡ some (view (m p).0))
        × IsValid (m p).0
        × (gives (m p).0 ≡ true)

abbrev pub any : Pump → Bool
any p = true

abbrev pub is_closed : Pump → Bool
is_closed p = not (is_some p.opened)

abbrev pub is_open : Pump → Bool
is_open p = is_some p.opened

pub Sound->> : {P Q R : Pump → Bool} {m k : Do} → Sound P m Q → Sound Q k R → Sound P (m >> k) R
Sound->> {m = m} {k = k} sm sk = record {
  at = λ p v h.
      let (f, w, g) = sm.at p v h in
      let (f', w', g') = sk.at (m p).0 w g in
      (follow_all-append (view p) (view (m p).0) (m p).1 (k (m p).0).1 f ∙ f', w', g');
}

pub Sound-skip : {P : Pump → Bool} → Sound P skip P
unfolding follow_all
Sound-skip = record { at = λ p v h. (refl, v, h) }

pub Sound-given :
    {P Q : Pump → Bool} {f : Pump → Do} → ((p : Pump) → Sound P (f p) Q) → Sound P (given f) Q
Sound-given k = record { at = λ p v h. (k p).at p v h }

-- A change of other fields.
pub Sound-modify :
    {P : Pump → Bool} (f : Pump → Pump)
    → ((p : Pump)
        → ((f p).opened ≡ p.opened)
          × ((f p).unshown ≡ p.unshown)
          × ((f p).self_talk ≡ p.self_talk)
          × ((f p).setup ≡ p.setup)
          × (P p ≡ true → P (f p) ≡ true))
    → Sound P (modify f) P
unfolding follow_all
Sound-modify f same = record {
  at = λ p v h.
      let (o, u, t, s, k) = same p in
      (
        ground (arith, o, u, t),
        record {
          unshown_open = ground (arith, o, u, v.unshown_open);
          setup_once = ground (arith, t, s, v.setup_once);
        },
        k h,
      );
}
