-- ===== src/Extractor/Emit/Below.antt =====
-- The ids that are handed down to the rows below.
use acter.Prelude.{
  ◌≡◌, ◌≢◌, refl, sym, ap, ◌∙◌, ℕ, suc, Bool, true, false, Option, none, some, [], ◌∷◌, ◌++◌, Text,
  ltb, arith,
}
use acter.Entity.{LineId, LineRevision}
use acter.Extractor.{Styled, no_line, LineMap, Extractor, item}
use acter.Extractor.Lines.Live.{OnId, AllIds, Other, Distinct, OnId-map, AllIds-map, OnId-both}
use acter.Extractor.Emit.{given, hand_down, hand_step, taken_or, take_place, new_line}
use acter.Extractor.Emit.Reader.{
  Reader, known, read_item, read_same, read_other, read_all, Reads, IsShown, Keeps, Keeps->>,
}
use acter.Extractor.Emit.Moves.{show_line-IsShown, Keeps-start_line, Holds-mint}
use acter.Extractor.Emit.Swallow.{Keeps-absorb}

abbrev OnTaken : (LineId → Text → Type 0) → Option (LineId × Styled) → Type 0
OnTaken P none = Unit
OnTaken P (some (id, s)) = P id s.text

taken_or-OnId :
    (P : LineId → Text → Type 0) (fresh : LineId) (o : Option (LineId × Styled))
    → P fresh []
    → OnTaken P o
    → OnId P (taken_or fresh o).id (taken_or fresh o).emitted.text
taken_or-OnId P fresh none k h = k
taken_or-OnId P fresh (some (id, s)) k h = h

abbrev Leaves : (LineId → Text → Type 0) → Option (LineId × Styled) × LineMap → Type 0
Leaves P (taken, rest) = AllIds P rest × OnTaken P taken

hand_step-Leaves :
    (P : LineId → Text → Type 0) (b : Bool) (row : ℕ) (o : Option LineId) (s : Styled)
    (fresh : LineId) (p : Option (LineId × Styled) × LineMap)
    → OnId P o s.text
    → P fresh []
    → Leaves P p
    → Leaves P (hand_step b row o s fresh p)
unfolding AllIds
hand_step-Leaves P true row none s fresh (taken, rest) x k (all, t) = ((tt, all), t)
hand_step-Leaves P false row none s fresh (taken, rest) x k (all, t) = ((tt, all), t)
hand_step-Leaves P true row (some id) s fresh (taken, rest) x k (all, t) =
    ((taken_or-OnId P fresh taken k t, all), x)
hand_step-Leaves P false row (some id) s fresh (taken, rest) x k (all, t) = ((x, all), t)

-- The ids and texts handed down are those that were there, and the fresh one.
hand_down-Leaves :
    (P : LineId → Text → Type 0) (last : ℕ) (fresh : LineId) (lines : LineMap)
    → P fresh []
    → AllIds P lines
    → Leaves P (hand_down last fresh lines)
unfolding AllIds hand_down
hand_down-Leaves P last fresh [] k h = (tt, tt)
hand_down-Leaves P last fresh (e ∷ es) k (x, xs) =
    hand_step-Leaves P (ltb last e.row) e.row e.tracked.id e.tracked.emitted fresh
      (hand_down last fresh es) x k (hand_down-Leaves P last fresh es k xs)

-- The ids left are distinct, the one taken is not among them, and where none is taken the lines are
-- as they were.
abbrev Parts : LineMap → Option (LineId × Styled) × LineMap → Type 0
Parts lines (taken, rest) =
    Distinct rest × OnTaken (λ id t. AllIds (Other id) rest) taken × (taken ≡ none → rest ≡ lines)

hand_step-Parts :
    (b : Bool) (row : ℕ) (o : Option LineId) (s : Styled) (fresh : LineId) (es : LineMap)
    (p : Option (LineId × Styled) × LineMap)
    → AllIds (Other fresh) es
    → OnId (λ id t. Leaves (Other id) p) o s.text
    → OnId (λ id t. fresh ≢ id) o s.text
    → Parts es p
    → Parts
        (record { row = row; tracked = record { id = o; emitted = s } } ∷ es)
        (hand_step b row o s fresh p)
unfolding AllIds Distinct
hand_step-Parts true row none s fresh es (none, rest) new x n (d, t, u) =
    ((tt, d), tt, λ q. rw (u refl) refl)
hand_step-Parts true row none s fresh es (some (j, v), rest) new x n (d, t, u) =
    ((tt, d), (tt, t), λ q. absurd (ground (arith, q)))
hand_step-Parts false row none s fresh es (none, rest) new x n (d, t, u) =
    ((tt, d), tt, λ q. rw (u refl) refl)
hand_step-Parts false row none s fresh es (some (j, v), rest) new x n (d, t, u) =
    ((tt, d), (tt, t), λ q. absurd (ground (arith, q)))
hand_step-Parts true row (some id) s fresh es (none, rest) new (all, other) n (d, t, u) =
    ((rw (u refl) new, d), (n, all), λ q. absurd (ground (arith, q)))
hand_step-Parts true row (some id) s fresh es (some (j, v), rest) new (all, other) n (d, t, u) =
    ((t, d), (other, all), λ q. absurd (ground (arith, q)))
hand_step-Parts false row (some id) s fresh es (none, rest) new (all, other) n (d, t, u) =
    ((all, d), tt, λ q. rw (u refl) refl)
hand_step-Parts false row (some id) s fresh es (some (j, v), rest) new (all, other) n (d, t, u) =
    ((all, d), (λ q. other (sym q), t), λ q. absurd (ground (arith, q)))

hand_down-Parts :
    (last : ℕ) (fresh : LineId) (lines : LineMap)
    → AllIds (Other fresh) lines
    → Distinct lines
    → Parts lines (hand_down last fresh lines)
unfolding AllIds Distinct hand_down
hand_down-Parts last fresh [] new d = (tt, tt, λ q. refl)
hand_down-Parts last fresh (e ∷ es) (n, new) (x, d) =
    hand_step-Parts (ltb last e.row) e.row e.tracked.id e.tracked.emitted fresh es
      (hand_down last fresh es) new
      (OnId-map (λ id t. AllIds (Other id) es × (id ≢ fresh))
        (λ id t. Leaves (Other id) (hand_down last fresh es)) e.tracked.id e.tracked.emitted.text
        (λ id t k. hand_down-Leaves (Other id) last fresh es (λ q. k.1 (sym q)) k.0)
        (OnId-both (λ id t. AllIds (Other id) es) (Other fresh) e.tracked.id e.tracked.emitted.text
          x n))
      (OnId-map (Other fresh) (λ id t. fresh ≢ id) e.tracked.id e.tracked.emitted.text
        (λ id t k q. k (sym q)) n)
      (hand_down-Parts last fresh es new d)

-- The reader once the fresh line is sent empty
abbrev blank : LineId → Reader → Reader
blank n r = read_item (item n no_line LineRevision.appended) r

blank_fresh : (n : LineId) (r : Reader) → r n ≡ none → blank n r n ≡ some []
blank_fresh n r h = read_same n no_line LineRevision.appended r ∙ ap (λ o. some (known o ++ [])) h

blank_other : (n x : LineId) (r : Reader) → x ≢ n → blank n r x ≡ r x
blank_other n x r h = read_other n x no_line LineRevision.appended r h

take_place-IsShown :
    (row : ℕ) (line : Styled) (settled : Bool) (p : Option (LineId × Styled) × LineMap) (r : Reader)
    (e : Extractor)
    → Leaves (Reads (suc e.next_id) (blank e.next_id r)) p
    → Parts e.lines p
    → IsShown r e
    → IsShown (read_all (take_place row line settled p e).1 r) (take_place row line settled p e).0
unfolding take_place read_all
take_place-IsShown row line settled (none, lines) r e (all, t) (d, out, u) h =
    (Keeps-start_line row line settled).at r e h
take_place-IsShown row line settled (some (id, shown), lines) r e (all, t) (d, out, u) h =
    show_line-IsShown row id shown line settled (blank e.next_id r)
      (record e { next_id = suc e.next_id; lines = lines })
      (record { is_old = t.0; is_read = t.1; is_out = out })
      (record {
        rows = all;
        distinct = d;
        fresh = λ x le.
            blank_other e.next_id x r (λ q. omega (arith, q, le)) ∙ h.fresh x (omega (arith, le));
      })

Keeps-place_below :
    (row last : ℕ) (line : Styled) (settled : Bool)
    → Keeps (given λ e. take_place row line settled (hand_down last e.next_id e.lines))
Keeps-place_below row last line settled = record {
  at = λ r e h.
      let held = Holds-mint r e h in
      take_place-IsShown row line settled (hand_down last e.next_id e.lines) r e
        (hand_down-Leaves (Reads (suc e.next_id) (blank e.next_id r)) last e.next_id e.lines
          (omega arith, blank_fresh e.next_id r (h.fresh e.next_id (omega arith)))
          (AllIds-map (Reads e.next_id r) (Reads (suc e.next_id) (blank e.next_id r)) e.lines
            (λ id t k.
              (omega (arith, k.0), blank_other e.next_id id r (λ q. omega (arith, k.0, q)) ∙ k.1))
            h.rows))
        (hand_down-Parts last e.next_id e.lines held.is_out h.distinct) h;
}

pub Keeps-new_line :
    (row last : ℕ) (line : Styled) (settled : Bool) → Keeps (new_line row last line settled)
unfolding new_line
Keeps-new_line row last line settled =
    Keeps->> (Keeps-absorb row last) (Keeps-place_below row last line settled)
