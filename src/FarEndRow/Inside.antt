-- ===== src/FarEndRow/Inside.antt =====
-- Where the caret of a `FarEndAnswer` may stand, and what the padding adds.
use acter.Prelude.{
  ℕ, zero, suc, ◌-◌, ◌≤◌, ◌≡◌, inl, inr, refl, sym, Option, some, none, [], ◌∷◌, ◌++◌, leb,
  if◌then◌else◌, arith, Text, length, replicate, seq_eq, length-append, length-replicate, leb→lt,
  Bool-cases, seq_eq_sound,
}
use acter.Pacing.{is_whitespace, trim_end, prepend_unless_blank}
use acter.FarEndRow.{
  RowChange, Caret, Keystroke, FarEndAnswer, padded, moved_caret, unchanged_rows, rewritten_row,
  unanchored, far_end_row, answer, caret_in, from_column, anchored_change, anchor_column,
  find_gained,
}

length-trim_end : (t : Text) → length (trim_end t) ≤ length t
unfolding trim_end prepend_unless_blank
length-trim_end [] = omega arith
length-trim_end (c ∷ cs) = ground (arith, length-trim_end cs)

at-padded : (text : Text) (at : ℕ) → at ≤ length (padded text at)
unfolding padded
at-padded text at = omega (
  arith,
  length-append {A = ℕ} text (replicate (at - length text) b' '),
  length-replicate {A = ℕ} (at - length text) b' ',
)

-- The caret of an answer stands in its text, or at the text's end: in `held` when only the caret moved.
pub IsInside : Text → FarEndAnswer → Type 0
IsInside held (FarEndAnswer.row text at) = at ≤ length text
IsInside held (FarEndAnswer.caret at) = at ≤ length held
IsInside held _ = 0 ≤ 0

moved_text-length :
    (held : Text) (at : ℕ)
    → at ≤ length (if leb (length (trim_end held)) at then padded (trim_end held) at else held)
moved_text-length held at = elim (Bool-cases (leb (length (trim_end held)) at)) [
  | inl e ↦ rw e (at-padded (trim_end held) at)
  | inr e ↦ rw e (omega (arith, length-trim_end held, leb→lt (length (trim_end held)) at e))
]

settled-IsInside :
    (held text : Text) (at : ℕ)
    → at ≤ length text
    → IsInside held (if seq_eq text held then FarEndAnswer.caret at else FarEndAnswer.row text at)
unfolding IsInside
settled-IsInside held text at h = elim (Bool-cases (seq_eq text held)) [
  | inl e ↦ rw e (rw (sym (seq_eq_sound text held e)) h)
  | inr e ↦ rw e h
]

moved_caret-IsInside : (held : Text) (at : ℕ) → IsInside held (moved_caret held at)
unfolding moved_caret
moved_caret-IsInside held at =
    settled-IsInside held
      (if leb (length (trim_end held)) at then padded (trim_end held) at else held) at
      (moved_text-length held at)

unchanged_rows-IsInside :
    (column : ℕ) (held : Text) (was now : Option Caret)
    → IsInside held (unchanged_rows column held was now)
unfolding IsInside unchanged_rows
unchanged_rows-IsInside column held (some was) (some now) =
    ground (arith, moved_caret-IsInside held (now.column - column))
unchanged_rows-IsInside column held (some was) none = omega arith
unchanged_rows-IsInside column held none now = omega arith

rewritten_row-IsInside :
    (held after : Text) (column : ℕ) (now : Option Caret)
    → IsInside held (rewritten_row after column now)
unfolding IsInside rewritten_row
rewritten_row-IsInside held after column now =
    at-padded (from_column after column) (caret_in (from_column after column) column now)

unanchored-IsInside :
    (key : Keystroke) (o : Option RowChange) → IsInside key.held (unanchored key o)
unfolding unanchored IsInside
unanchored-IsInside key (some change) = omega arith
unanchored-IsInside key none =
    unchanged_rows-IsInside (anchor_column key.anchor) key.held key.was key.now

answer-IsInside : (key : Keystroke) (o : Option RowChange) → IsInside key.held (answer key o)
unfolding answer
answer-IsInside key (some change) =
    rewritten_row-IsInside key.held change.after (anchor_column key.anchor) key.now
answer-IsInside key none = unanchored-IsInside key (find_gained key.changed)

-- Whatever the far end did, the caret of the answer stands inside the text the answer hands over,
-- or at its end; when the answer is only a caret, that text is the one held before.
pub far_end_row-IsInside : (key : Keystroke) → IsInside key.held (far_end_row key)
unfolding far_end_row
far_end_row-IsInside key = answer-IsInside key (anchored_change key.anchor key.changed)

trim_end-spaces : (n : ℕ) → trim_end (replicate n b' ') ≡ []
unfolding trim_end prepend_unless_blank is_whitespace
trim_end-spaces zero = refl
trim_end-spaces (suc n) = rw (trim_end-spaces n) refl

trim_end-append : (text : Text) (n : ℕ) → trim_end (text ++ replicate n b' ') ≡ trim_end text
unfolding trim_end
trim_end-append [] n = trim_end-spaces n
trim_end-append (c ∷ cs) n = rw (trim_end-append cs n) refl

pub trim_end-padded : (text : Text) (at : ℕ) → trim_end (padded text at) ≡ trim_end text
unfolding padded
trim_end-padded text at = trim_end-append text (at - length text)
