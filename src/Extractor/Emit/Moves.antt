-- ===== src/Extractor/Emit/Moves.antt =====
-- The items of a line that is shown or started.
use acter.Prelude.{
  ◌≡◌, ◌≢◌, inl, inr, refl, sym, ap, ◌∙◌, ℕ, suc, Bool, true, false, Option-cases, Option, none,
  some, [], ◌∷◌, ◌++◌, Text, if◌then◌else◌, arith,
}
use mathlib.Core.List.{append-nil}
use acter.Entity.{LineId, LineRevision}
use acter.Runs.{slice_runs, utf16_len}
use acter.Session.Text.{strip_prefix}
use acter.Extractor.{Styled, Extractor, item}
use acter.Extractor.Lines.Live.{Other, AllIds-map}
use acter.Extractor.Emit.{
  Do, skip, emit, track, mint, revise, revise_from, show_line, start_line, is_empty, same_runs,
}
use acter.Extractor.Emit.Reader.{
  Reader, known, read_item, read_all, read_same, read_other, revised, Reads, IsShown, Keeps, Holds,
  IsShown-append, IsShown-Other, IsShown-track, strip_prefix-append,
}

-- The items change the one line `id`, to `t`, and nothing of the extractor.
record Turns (id : LineId) (t : Option Text) (m : Do) (r : Reader) (e : Extractor) : Type 0 where
  same : (m e).0 ≡ e
  shows : read_all (m e).1 r id ≡ t
  others : (x : LineId) → x ≢ id → read_all (m e).1 r x ≡ r x

Turns-emit :
    (id : LineId) (line : Styled) (v : LineRevision) (r : Reader) (e : Extractor)
    → Turns id (some (revised v (known (r id)) line.text)) (emit id line v) r e
unfolding read_all
Turns-emit id line v r e = record {
  same = refl;
  shows = read_same id line v r;
  others = λ x h. read_other id x line v r h;
}

Turns-empty :
    (delta : Text) (id : LineId) (old t : Text) (line : Styled) (r : Reader) (e : Extractor)
    → line.text ≡ delta
    → r id ≡ some old
    → old ++ delta ≡ t
    → Turns id (some t) (if is_empty delta then skip else emit id line LineRevision.appended) r e
unfolding read_all
Turns-empty [] id old t line r e same has h = record {
  same = refl;
  shows = has ∙ ap some (sym (append-nil old) ∙ h);
  others = λ x k. refl;
}
Turns-empty (c ∷ cs) id old t line r e same has h =
    let turns = Turns-emit id line LineRevision.appended r e in
    record {
      same = refl;
      shows =
          turns.shows
          ∙ ap (λ o. some (known o ++ line.text)) has
          ∙ ap some (ap (λ d. old ++ d) same ∙ h);
      others = turns.others;
    }

Turns-if :
    (b : Bool) (id : LineId) (t : Option Text) (m k : Do) (r : Reader) (e : Extractor)
    → Turns id t m r e
    → Turns id t k r e
    → Turns id t (if b then m else k) r e
Turns-if true id t m k r e h h' = h
Turns-if false id t m k r e h h' = h'

Turns-revise :
    (id : LineId) (was now : Styled) (r : Reader) (e : Extractor)
    → r id ≡ some was.text
    → Turns id (some now.text) (revise id was now) r e
unfolding revise revise_from
Turns-revise id was now r e h = elim (Option-cases (strip_prefix was.text now.text)) [
  | inl none_of ↦ rw none_of (Turns-emit id now LineRevision.rewritten r e)
  | inr (delta, found) ↦
      let added : Styled = record {
        text = delta;
        runs = slice_runs now.runs (utf16_len was.text) (utf16_len now.text);
      } in
      rw found (
        Turns-if (same_runs (slice_runs now.runs 0 (utf16_len was.text)) was.runs) id
          (some now.text) (if is_empty delta then skip else emit id added LineRevision.appended)
          (emit id now LineRevision.rewritten) r e
          (Turns-empty delta id was.text now.text added r e refl h
            (sym (strip_prefix-append was.text now.text delta found)))
          (Turns-emit id now LineRevision.rewritten r e))
]

-- A line turned to `t` is then held out of the map.
Holds-Turns :
    (id : LineId) (s t : Option Text) (m : Do) (r : Reader) (e : Extractor)
    → Turns id t m r e
    → Holds id s r e
    → IsShown r e
    → Holds id t (read_all (m e).1 r) (m e).0 × IsShown (read_all (m e).1 r) (m e).0
Holds-Turns id s t m r e turns held h = rw turns.same (
  record { is_old = held.is_old; is_read = turns.shows; is_out = held.is_out },
  IsShown-Other r (read_all (m e).1 r) id e turns.others held.is_old held.is_out h,
)

pub show_line-IsShown :
    (row : ℕ) (id : LineId) (shown line : Styled) (settled : Bool) (r : Reader) (e : Extractor)
    → Holds id (some shown.text) r e
    → IsShown r e
    → IsShown
        (read_all (show_line row id shown line settled e).1 r)
        (show_line row id shown line settled e).0
unfolding show_line read_all
show_line-IsShown row id shown line true r e held h =
    (Holds-Turns id (some shown.text) (some line.text) (emit id line LineRevision.settled) r e
      (Turns-emit id line LineRevision.settled r e) held h).1
show_line-IsShown row id shown line false r e held h =
    let (held', h') =
      Holds-Turns id (some shown.text) (some line.text) (revise id shown line) r e
        (Turns-revise id shown line r e held.is_read) held h in
    IsShown-append (revise id shown line e).1 [] r
      (track row (record { id = some id; emitted = line }) (revise id shown line e).0).0
      (IsShown-track row id line (read_all (revise id shown line e).1 r) (revise id shown line e).0
        held' h')

-- The id that is given out next is of no line, and no item has named it.
pub Holds-mint : (r : Reader) (e : Extractor) → IsShown r e → Holds e.next_id none r (mint e).0
Holds-mint r e h = record {
  is_old = omega arith;
  is_read = h.fresh e.next_id (omega arith);
  is_out =
      AllIds-map (Reads e.next_id r) (Other e.next_id) e.lines
        (λ id t k q. absurd (omega (arith, k.0, q))) h.rows;
}

pub IsShown-mint : (r : Reader) (e : Extractor) → IsShown r e → IsShown r (mint e).0
IsShown-mint r e h = record {
  rows =
      AllIds-map (Reads e.next_id r) (Reads (suc e.next_id) r) e.lines
        (λ id t k. (omega (arith, k.0), k.1)) h.rows;
  distinct = h.distinct;
  fresh = λ id le. h.fresh id (omega (arith, le));
}

pub Keeps-start_line :
    (row : ℕ) (line : Styled) (settled : Bool) → Keeps (start_line row line settled)
unfolding start_line read_all
Keeps-start_line row line true = record {
  at = λ r e h.
      let turns = Turns-emit e.next_id line LineRevision.settled r (mint e).0 in
      (Holds-Turns e.next_id none (some line.text) (emit e.next_id line LineRevision.settled) r
        (mint e).0 turns (Holds-mint r e h) (IsShown-mint r e h)).1;
}
Keeps-start_line row line false = record {
  at = λ r e h.
      let held = Holds-mint r e h in
      let turns = Turns-emit e.next_id line LineRevision.appended r (mint e).0 in
      let (held', h') =
        Holds-Turns e.next_id none (some (known (r e.next_id) ++ line.text))
          (emit e.next_id line LineRevision.appended) r (mint e).0 turns held
          (IsShown-mint r e h) in
      IsShown-track row e.next_id line (read_item (item e.next_id line LineRevision.appended) r)
        (mint e).0
        (record {
          is_old = held'.is_old;
          is_read = held'.is_read ∙ ap (λ o. some (known o ++ line.text)) held.is_read;
          is_out = held'.is_out;
        })
        h';
}
