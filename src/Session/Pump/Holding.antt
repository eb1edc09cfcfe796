-- ===== src/Session/Pump/Holding.antt =====
-- What is held back is not lost and not long.
use acter.Prelude.{
  ◌≡◌, refl, sym, ap, ◌∙◌, ℕ, ◌≤◌, Bool, true, false, not, Option, none, some, List, [], ◌∷◌, ◌++◌,
  Text, ltb, arith,
}
use mathlib.Core.List.{append_assoc, append-nil}
use acter.Entity.{LineId, LineRevision}
use acter.Actor.{SessionInput}
use acter.Session.Text.{byte_len}
use acter.Session.Rows.{Due, Held, held_due, absorb, absorb_text}
use acter.Session.Pump.{Pump, Effect, Do, ◌>>◌, given, when, open_unshown, window, set_held}
use acter.Session.Pump.Output.{
  start_shown, started, output, output_row, unclaimed, publish, spill_held, spill, holds, absorbed,
  is_over, hold_within, hold_in, hold,
}

-- The text that is sent to the actor as output.
pub sent_text : List Effect → Text
sent_text [] = []
sent_text (Effect.send (SessionInput.output row revision text spoken prompt runs) ∷ es) =
    text ++ sent_text es
sent_text (_ ∷ es) = sent_text es

sent_text-append : (xs ys : List Effect) → sent_text (xs ++ ys) ≡ sent_text xs ++ sent_text ys
unfolding sent_text
sent_text-append [] ys = refl
sent_text-append (Effect.send (SessionInput.output row revision text spoken prompt runs) ∷ es) ys =
    ap (λ t. text ++ t) (sent_text-append es ys)
    ∙ sym (append_assoc text (sent_text es) (sent_text ys))
sent_text-append (_ ∷ es) ys = sent_text-append es ys

pub held_text : Option Held → Text
held_text none = []
held_text (some h) = h.text

publish_text :
    (id : LineId) (d : Due) (p : Pump)
    → (sent_text (publish id d p).1 ≡ d.text) × ((publish id d p).0.held ≡ p.held)
unfolding publish output output_row unclaimed open_unshown start_shown started sent_text
publish_text id d p = ground (arith, append-nil d.text)

-- What a method sends is `text`, and it holds `held` then.
abbrev Leaves : Text → Option Held → Do → Pump → Type 0
Leaves text held m p = (sent_text (m p).1 ≡ text) × ((m p).0.held ≡ held)

Leaves->> :
    (m k : Do) (p : Pump) (early late : Text) (held held' : Option Held)
    → Leaves early held m p
    → ((q : Pump) → q.held ≡ held → Leaves late held' k q)
    → Leaves (early ++ late) held' (m >> k) p
Leaves->> m k p early late held held' (t, e) next =
    let (t', e') = next (m p).0 e in
    (
      sent_text-append (m p).1 (k (m p).0).1
          ∙ ap (λ x. x ++ sent_text (k (m p).0).1) t
          ∙ ap (λ x. early ++ x) t',
      e',
    )

spill_held_text :
    (o : Option Held) (p : Pump) → p.held ≡ o → Leaves (held_text o) none (spill_held o) p
unfolding spill_held sent_text held_text
spill_held_text none p e = (refl, e)
spill_held_text (some h) p e = publish_text h.line (held_due h) (record p { held = none })

spill_text : (o : Option Held) (p : Pump) → p.held ≡ o → Leaves (held_text o) none spill p
unfolding spill
spill_text o p e = rw (← e) (spill_held_text p.held p refl)

abbrev rest_of : Bool → Option Held → Option Held
rest_of true o = none
rest_of false o = o

abbrev spilt : Bool → Option Held → Text
spilt true o = held_text o
spilt false o = []

when-spill_text :
    (b : Bool) (o : Option Held) (p : Pump)
    → p.held ≡ o
    → Leaves (spilt b o) (rest_of b o) (when b spill) p
unfolding sent_text
when-spill_text true o p e = spill_text o p e
when-spill_text false o p e = (refl, e)

-- What is held once the row is taken in.
abbrev taken : LineId → Due → Option Held → Option Held
taken id d o = absorbed id d (rest_of (not (holds id o)) o)

-- A row is held with what was held of it; another row that was held is sent first, and so is the
-- whole once it is longer than the window.
abbrev sent_by : ℕ → LineId → Due → Option Held → Text
sent_by w id d o =
    spilt (not (holds id o)) o ++ [] ++ spilt (is_over w (taken id d o)) (taken id d o)

abbrev kept_by : ℕ → LineId → Due → Option Held → Option Held
kept_by w id d o = rest_of (is_over w (taken id d o)) (taken id d o)

hold_within_text :
    (w : ℕ) (id : LineId) (d : Due) (o : Option Held) (p : Pump)
    → p.held ≡ o
    → Leaves (sent_by w id d o) (kept_by w id d o) (hold_within w id d) p
unfolding hold_within sent_text
hold_within_text w id d o p e =
    Leaves->>
      (given (λ q. when (not (holds id q.held)) spill)
        >> given (λ q. set_held (absorbed id d q.held)))
      (given (λ q. when (is_over w q.held) spill)) p (spilt (not (holds id o)) o ++ [])
      (spilt (is_over w (taken id d o)) (taken id d o)) (taken id d o) (kept_by w id d o)
      (Leaves->> (given (λ q. when (not (holds id q.held)) spill))
        (given (λ q. set_held (absorbed id d q.held))) p (spilt (not (holds id o)) o) []
        (rest_of (not (holds id o)) o) (taken id d o)
        (rw (← e) (when-spill_text (not (holds id p.held)) p.held p refl))
        (λ q f. (refl, ap (absorbed id d) f)))
      (λ q f. rw (← f) (when-spill_text (is_over w q.held) q.held q refl))

abbrev pub Conserves : Due → Pump → Do → Type 0
Conserves d p m = sent_text (m p).1 ++ held_text (m p).0.held ≡ held_text p.held ++ d.text

rest_text : (b : Bool) (o : Option Held) → spilt b o ++ held_text (rest_of b o) ≡ held_text o
unfolding held_text
rest_text true o = append-nil (held_text o)
rest_text false o = refl

taken_text :
    (id : LineId) (d : Due) (o : Option Held)
    → d.revision ≡ LineRevision.appended
    → held_text (absorbed id d o) ≡ held_text o ++ d.text
unfolding held_text absorb absorb_text
taken_text id d none e = refl
taken_text id d (some h) e = ap (λ r. (absorb_text r d h).text) e

kept_text :
    (w : ℕ) (id : LineId) (d : Due) (o : Option Held)
    → d.revision ≡ LineRevision.appended
    → sent_by w id d o ++ held_text (kept_by w id d o) ≡ held_text o ++ d.text
kept_text w id d o e =
    let early = not (holds id o) in
    let all = taken id d o in
    rw (append-nil (spilt early o)) (
      append_assoc (spilt early o) (spilt (is_over w all) all)
        (held_text (rest_of (is_over w all) all))
      ∙ ap (λ t. spilt early o ++ t)
          (rest_text (is_over w all) all ∙ taken_text id d (rest_of early o) e)
      ∙ sym (append_assoc (spilt early o) (held_text (rest_of early o)) d.text)
      ∙ ap (λ t. t ++ d.text) (rest_text early o))

Conserves-hold_within :
    (w : ℕ) (id : LineId) (d : Due) (p : Pump)
    → d.revision ≡ LineRevision.appended
    → Conserves d p (hold_within w id d)
Conserves-hold_within w id d p e =
    let (t, k) = hold_within_text w id d p.held p refl in
    ap (λ x. x ++ held_text (hold_within w id d p).0.held) t
    ∙ ap (λ x. sent_by w id d p.held ++ held_text x) k
    ∙ kept_text w id d p.held e

Conserves-hold_in :
    (o : Option ℕ) (id : LineId) (d : Due) (p : Pump)
    → d.revision ≡ LineRevision.appended
    → Conserves d p (hold_in o id d)
unfolding hold_in held_text
Conserves-hold_in none id d p e =
    let (t, k) =
      Leaves->> spill (publish id d) p (held_text p.held) d.text none none
        (spill_text p.held p refl) (λ q f. let (t, k) = publish_text id d q in (t, k ∙ f)) in
    ap (λ x. sent_text ((spill >> publish id d) p).1 ++ held_text x) k
    ∙ append-nil (sent_text ((spill >> publish id d) p).1)
    ∙ t
Conserves-hold_in (some w) id d p e = Conserves-hold_within w id d p e

-- Holding back a row that was appended loses none of it and changes no order: what is sent to the
-- actor, with what is held then, is what was held before, with the row's new text.
pub Conserves-hold :
    (id : LineId) (d : Due) (p : Pump)
    → d.revision ≡ LineRevision.appended
    → Conserves d p (hold id d)
unfolding hold
Conserves-hold id d p e = Conserves-hold_in (window p.submitted) id d p e

-- Nothing is held while no line waits for its echo, and never more bytes than the window.
abbrev pub Fits : Option ℕ → Option Held → Type 0
Fits none o = o ≡ none
Fits (some w) none = Unit
Fits (some w) (some h) = byte_len h.text ≤ w

cut-Fits :
    (b : Bool) (w : ℕ) (h : Held) → ltb w (byte_len h.text) ≡ b → Fits (some w) (rest_of b (some h))
cut-Fits true w h e = tt
cut-Fits false w h e = ground (arith, e)

rest-Fits : (w : ℕ) (o : Option Held) → Fits (some w) (rest_of (is_over w o) o)
rest-Fits w none = tt
rest-Fits w (some h) = cut-Fits (ltb w (byte_len h.text)) w h refl

Fits-hold_in : (o : Option ℕ) (id : LineId) (d : Due) (p : Pump) → Fits o (hold_in o id d p).0.held
unfolding hold_in
Fits-hold_in none id d p = (publish_text id d (spill p).0).1 ∙ (spill_text p.held p refl).1
Fits-hold_in (some w) id d p =
    let (_, k) = hold_within_text w id d p.held p refl in rw k (rest-Fits w (taken id d p.held))

-- Once a row is held back, whatever it was, the text held is within the window of the lines that
-- wait for their echo, and nothing is held where none waits.
pub Fits-hold : (id : LineId) (d : Due) (p : Pump) → Fits (window p.submitted) (hold id d p).0.held
unfolding hold
Fits-hold id d p = Fits-hold_in (window p.submitted) id d p
