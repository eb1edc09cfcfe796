-- ===== src/FarEndRow/Words.antt =====
-- Where the words of a `FarEndAnswer` come from.
use acter.Prelude.{
  ℕ, ◌-◌, ◌≤◌, ◌<◌, ◌≡◌, ◌⊎◌, inl, inr, refl, sym, ap, ◌∙◌, Bool, true, false, not, ◌&&◌, Option,
  some, none, List, [], ◌∷◌, leb, ◌==◌, if◌then◌else◌, arith, Text, length, Option-cases,
  Bool-cases, seq_eq,
}
use mathlib.Core.List.{Mem, mem-cons_self, mem-cons_of_mem}
use acter.Entity.{LineId}
use acter.Pacing.{trim_end, prepend_unless_blank}
use acter.FarEndRow.{
  RowChange, Anchor, Caret, Keystroke, FarEndAnswer, weight, padded, moved_caret, unchanged_rows,
  rewritten_row, unanchored, far_end_row, answer, caret_in, from_column, anchored_change,
  anchor_column, find_gained, find_line, gained_content,
}
use acter.FarEndRow.Inside.{trim_end-padded}

-- A row of `changed` that gained characters other than whitespace, and stands whole in the answer.
pub record Gained (changed : List RowChange) (text : Text) : Type 0 where
  pub change : RowChange
  pub member : Mem change changed
  pub grew : weight change.before < weight change.after
  pub whole : text ≡ change.after

-- The anchored row of `changed`, from the anchor's column and but for spaces at its end.
pub record Anchored (anchor : Option Anchor) (changed : List RowChange) (text : Text) : Type 0 where
  pub at : Anchor
  pub change : RowChange
  pub anchors : anchor ≡ some at
  pub member : Mem change changed
  pub same_line : change.line ≡ at.line
  pub words : trim_end text ≡ trim_end (from_column change.after at.column)

pub ComesFrom : Keystroke → FarEndAnswer → Type 0
ComesFrom key (FarEndAnswer.row text at) =
    Anchored key.anchor key.changed text ⊎ (trim_end text ≡ trim_end key.held)
ComesFrom key (FarEndAnswer.detached text) = Gained key.changed text
ComesFrom key _ = 0 ≤ 0

some-inj : {a b : RowChange} → some a ≡ some b → a ≡ b
some-inj h = cc

-- A search that finds what it wants at the head, or in the rest.
found-Mem :
    (here : Bool) (later : Option RowChange) (change found : RowChange) (rest : List RowChange)
    → (if here then some change else later) ≡ some found
    → (later ≡ some found → Mem found rest)
    → Mem found (change ∷ rest)
found-Mem true later change found rest h k = rw (sym (some-inj h)) mem-cons_self
found-Mem false later change found rest h k = mem-cons_of_mem change (k h)

find_gained-Mem :
    (changed : List RowChange) (found : RowChange)
    → find_gained changed ≡ some found
    → Mem found changed
unfolding find_gained
find_gained-Mem [] found h = ground arith
find_gained-Mem (change ∷ rest) found h =
    found-Mem (gained_content change) (find_gained rest) change found rest h
      (find_gained-Mem rest found)

find_gained-grew :
    (changed : List RowChange) (found : RowChange)
    → find_gained changed ≡ some found
    → weight found.before < weight found.after
unfolding find_gained gained_content
find_gained-grew [] found h = ground arith
find_gained-grew (change ∷ rest) found h = ground (arith, find_gained-grew rest found)

find_line-Mem :
    (wanted : LineId) (changed : List RowChange) (found : RowChange)
    → find_line wanted changed ≡ some found
    → Mem found changed
unfolding find_line
find_line-Mem wanted [] found h = ground arith
find_line-Mem wanted (change ∷ rest) found h =
    found-Mem (change.line == wanted) (find_line wanted rest) change found rest h
      (find_line-Mem wanted rest found)

find_line-same :
    (wanted : LineId) (changed : List RowChange) (found : RowChange)
    → find_line wanted changed ≡ some found
    → found.line ≡ wanted
unfolding find_line
find_line-same wanted [] found h = ground arith
find_line-same wanted (change ∷ rest) found h = ground (arith, find_line-same wanted rest found)

prepend-trimmed :
    (c : ℕ) (ds : Text)
    → trim_end ds ≡ ds
    → trim_end (prepend_unless_blank c ds) ≡ prepend_unless_blank c ds
unfolding trim_end prepend_unless_blank
prepend-trimmed c [] h = ground arith
prepend-trimmed c (d ∷ ds) h = rw h refl

trim_end-trim_end : (t : Text) → trim_end (trim_end t) ≡ trim_end t
unfolding trim_end
trim_end-trim_end [] = refl
trim_end-trim_end (c ∷ cs) = prepend-trimmed c (trim_end cs) (trim_end-trim_end cs)

moved_caret-words :
    (held : Text) (at : ℕ)
    → trim_end (if leb (length (trim_end held)) at then padded (trim_end held) at else held)
      ≡ trim_end held
moved_caret-words held at = elim (Bool-cases (leb (length (trim_end held)) at)) [
  | inl e ↦ rw e (trim_end-padded (trim_end held) at ∙ trim_end-trim_end held)
  | inr e ↦ rw e refl
]

settled-ComesFrom :
    (key : Keystroke) (text : Text) (at : ℕ)
    → trim_end text ≡ trim_end key.held
    → ComesFrom key
        (if seq_eq text key.held then FarEndAnswer.caret at else FarEndAnswer.row text at)
unfolding ComesFrom
settled-ComesFrom key text at h = elim (Bool-cases (seq_eq text key.held)) [
  | inl e ↦ rw e (omega arith)
  | inr e ↦ rw e (inr h)
]

moved_caret-ComesFrom : (key : Keystroke) (at : ℕ) → ComesFrom key (moved_caret key.held at)
unfolding moved_caret
moved_caret-ComesFrom key at =
    settled-ComesFrom key
      (if leb (length (trim_end key.held)) at then padded (trim_end key.held) at else key.held) at
      (moved_caret-words key.held at)

unchanged-ComesFrom :
    (key : Keystroke) (column : ℕ) (was now : Option Caret)
    → ComesFrom key (unchanged_rows column key.held was now)
unfolding ComesFrom unchanged_rows
unchanged-ComesFrom key column (some was) (some now) =
    elim (Bool-cases (was.row == now.row && not (was.column == now.column))) [
      | inl e ↦ rw e (moved_caret-ComesFrom key (now.column - column))
      | inr e ↦ rw e (omega arith)
    ]
unchanged-ComesFrom key column (some was) none = omega arith
unchanged-ComesFrom key column none now = omega arith

unanchored-ComesFrom :
    (key : Keystroke) (o : Option RowChange)
    → find_gained key.changed ≡ o
    → ComesFrom key (unanchored key o)
unfolding ComesFrom unanchored
unanchored-ComesFrom key (some found) h = record {
  change = found;
  member = find_gained-Mem key.changed found h;
  grew = find_gained-grew key.changed found h;
  whole = refl;
}
unanchored-ComesFrom key none h = unchanged-ComesFrom key (anchor_column key.anchor) key.was key.now

rewritten-ComesFrom :
    (key : Keystroke) (anchor : Anchor) (change : RowChange) (column : ℕ)
    → key.anchor ≡ some anchor
    → column ≡ anchor.column
    → find_line anchor.line key.changed ≡ some change
    → ComesFrom key (rewritten_row change.after column key.now)
unfolding ComesFrom rewritten_row
rewritten-ComesFrom key anchor change column anchors same found = inl (record {
  at = anchor;
  change = change;
  anchors = anchors;
  member = find_line-Mem anchor.line key.changed change found;
  same_line = find_line-same anchor.line key.changed change found;
  words =
      trim_end-padded (from_column change.after column)
        (caret_in (from_column change.after column) column key.now)
      ∙ ap (λ k. trim_end (from_column change.after k)) same;
})

answer-ComesFrom :
    (key : Keystroke) (o : Option Anchor)
    → key.anchor ≡ o
    → ComesFrom key (answer key (anchored_change o key.changed))
unfolding answer anchored_change anchor_column
answer-ComesFrom key none h = unanchored-ComesFrom key (find_gained key.changed) refl
answer-ComesFrom key (some anchor) h = elim (Option-cases (find_line anchor.line key.changed)) [
  | inl e ↦ rw e (unanchored-ComesFrom key (find_gained key.changed) refl)
  | inr (change, e) ↦
      rw e
        (rewritten-ComesFrom key anchor change (anchor_column key.anchor) h (ap anchor_column h) e)
]

-- The answer says nothing of Acter's own. But for spaces at the end, a row is the part of the
-- changed, anchored row from the anchor's column on, or the text held before; a detached row is a
-- changed row that gained characters, whole.
pub far_end_row-ComesFrom : (key : Keystroke) → ComesFrom key (far_end_row key)
unfolding far_end_row
far_end_row-ComesFrom key = answer-ComesFrom key key.anchor refl
