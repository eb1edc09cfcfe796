-- ===== src/Extractor/Emit/Current.antt =====
-- Once a row is emitted the reader has the text that is on the grid.
use acter.Prelude.{
  ◌≡◌, inl, inr, refl, ap, ◌∙◌, ℕ, suc, false, Bool-cases, if-cases, Option, none, some, [], ◌∷◌,
  Text, ltb, ◌==◌, seq_eq, seq_eq_sound, arith,
}
use acter.Entity.{LineId}
use acter.Extractor.{Styled, Tracked, LineMap, Extractor}
use acter.Extractor.Lines.{insert, remove, put, find}
use acter.Extractor.Lines.Live.{OnId, OnId-find}
use acter.Extractor.View.{View, read_line}
use acter.Extractor.Emit.{
  mint, track, forget, start_line, show_line, revise, take_place, hand_down, new_line, place,
  swallow, absorb, emit_read, emit_line,
}
use acter.Extractor.Emit.Reader.{Reader, read_all, Reads, IsShown}
use acter.Extractor.Emit.Shown.{Keeps-emit_line}

find-remove : (row : ℕ) (lines : LineMap) → find row (remove row lines) ≡ none
unfolding find remove
find-remove row [] = refl
find-remove row (e ∷ es) = elim (Bool-cases (e.row == row)) [
  | inl at_row ↦ rw at_row (find-remove row es)
  | inr off_row ↦ rw (off_row, off_row) (find-remove row es)
]

find-put :
    (row : ℕ) (t : Tracked) (lines : LineMap)
    → find row lines ≡ none
    → find row (put row t lines) ≡ some t
unfolding find put
find-put row t [] h = ground arith
find-put row t (e ∷ es) h = elim (if-cases (e.row == row) (some e.tracked) (find row es) none h) [
  | inl (at_row, f) ↦ absurd (ground (arith, f))
  | inr (off_row, f) ↦ ground (arith, off_row, f, find-put row t es f)
]

find-swallow :
    (row last : ℕ) (lines : LineMap) → find row (swallow row last lines).0 ≡ find row lines
unfolding find swallow
find-swallow row last [] = refl
find-swallow row last (e ∷ es) = ground (arith, find-swallow row last es)

Reads-text :
    (next : ℕ) (r : Reader) (o : Option LineId) (u text : Text)
    → OnId (Reads next r) o u
    → u ≡ text
    → OnId (λ id u. r id ≡ some text) o u
Reads-text next r none u text h same = tt
Reads-text next r (some id) u text h same = h.1 ∙ ap some same

-- The row is in the map, with the text.
abbrev Has : ℕ → Text → Extractor → Type 0
Has row text e = (t : Tracked) × (find row e.lines ≡ some t) × (t.emitted.text ≡ text)

Has-track : (row : ℕ) (t : Tracked) (e : Extractor) → Has row t.emitted.text (track row t e).0
unfolding insert
Has-track row t e = (t, find-put row t (remove row e.lines) (find-remove row e.lines), refl)

Has-take_place :
    (row : ℕ) (line : Styled) (p : Option (LineId × Styled) × LineMap) (e : Extractor)
    → Has row line.text (take_place row line false p e).0
unfolding take_place start_line show_line
Has-take_place row line (none, lines) e =
    Has-track row (record { id = some e.next_id; emitted = line }) (mint e).0
Has-take_place row line (some (id, shown), lines) e =
    Has-track row (record { id = some id; emitted = line })
      (revise id shown line (record e { next_id = suc e.next_id; lines = lines })).0

Has-new_line :
    (row last : ℕ) (line : Styled) (e : Extractor)
    → Has row line.text (new_line row last line false e).0
unfolding new_line
Has-new_line row last line e =
    let f = (absorb row last e).0 in Has-take_place row line (hand_down last f.next_id f.lines) f

Has-place :
    (row last : ℕ) (line : Styled) (o : Option LineId) (s : Styled) (e : Extractor)
    → Has row line.text (place row last line false (some (record { id = o; emitted = s })) e).0
unfolding place show_line
Has-place row last line (some id) s e =
    Has-track row (record { id = some id; emitted = line }) (revise id s line e).0
Has-place row last line none s e = elim (Bool-cases (seq_eq s.text line.text)) [
  | inl same ↦
      let (t, found, text) = Has-track row (record { id = none; emitted = s }) e in
      rw same (t, found, text ∙ seq_eq_sound s.text line.text same)
  | inr other ↦ rw other (Has-new_line row last line e)
]

Has-absorb :
    (row last : ℕ) (text : Text) (e : Extractor)
    → Has row text e
    → Has row text (absorb row last e).0
unfolding absorb
Has-absorb row last text e (t, found, same) = (t, find-swallow row last e.lines ∙ found, same)

Has-take :
    (row last : ℕ) (line : Styled) (o : Option Tracked) (e : Extractor)
    → Has row line.text (place row last line false o (forget row e).0).0
unfolding place
Has-take row last line none e = Has-new_line row last line (forget row e).0
Has-take row last line (some t) e = Has-place row last line t.id t.emitted (forget row e).0

Has-emit_read :
    (v : View) (row : ℕ) (line : Styled) (last : ℕ) (e : Extractor)
    → ltb last v.top ≡ false
    → Has row line.text (emit_read v row (line, last) e).0
unfolding emit_read
Has-emit_read v row line last e h = rw h (
    Has-absorb row last line.text (place row last line false (find row e.lines) (forget row e).0).0
      (Has-take row last line (find row e.lines) e))

Has-emit_line :
    (v : View) (row : ℕ) (e : Extractor)
    → ltb (read_line v row).1 v.top ≡ false
    → Has row (read_line v row).0.text (emit_line v row e).0
unfolding emit_line
Has-emit_line v row e h = Has-emit_read v row (read_line v row).0 (read_line v row).1 e h

-- A row that is emitted while some of its line is on the screen is in the map with the text that the
-- grid has of the line, and where the line is live that text is what the reader of the items has then
-- under its id.
pub emit_line-OnId :
    (v : View) (row : ℕ) (r : Reader) (e : Extractor)
    → IsShown r e
    → ltb (read_line v row).1 v.top ≡ false
    → (t : Tracked) × (find row (emit_line v row e).0.lines ≡ some t)
      × (t.emitted.text ≡ (read_line v row).0.text)
      × OnId
          (λ id u. read_all (emit_line v row e).1 r id ≡ some (read_line v row).0.text)
          t.id
          t.emitted.text
emit_line-OnId v row r e h on_screen =
    let (t, found, same) = Has-emit_line v row e on_screen in
    let f = (emit_line v row e).0 in
    let now = read_all (emit_line v row e).1 r in
    (
      t,
      found,
      same,
      Reads-text f.next_id now t.id t.emitted.text (read_line v row).0.text
          (OnId-find (Reads f.next_id now) row f.lines t ((Keeps-emit_line v row).at r e h).rows
            found)
          same,
    )
