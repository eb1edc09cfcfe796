-- ===== src/Runs/Joins.antt =====
-- Joining runs, and joining what slicing has cut, keeps the style of every code unit.
use acter.Prelude.{
  ℕ, ◌+◌, ◌-◌, ◌≤◌, ◌<◌, ◌≡◌, refl, ◌∙◌, Option, none, some, List, [], ◌∷◌, Text, ltb,
  if◌then◌else◌, arith,
}
use acter.Entity.{Style, StyleRun, u32_size}
use acter.Runs.{same_style_sound, slice_runs, utf16_count, utf16_len, join_run, join_all, join_runs}
use acter.Runs.Styles.{style_at, Fits, style_at-slice_runs, Fits-slice_runs}

abbrev or_else : Option Style → Option Style → Option Style
or_else none b = b
or_else (some a) b = some a

style_at-join_run :
    (offset n i : ℕ) (runs : List StyleRun) (run : StyleRun)
    → n < u32_size
    → Fits n runs
    → offset + run.start + run.len ≤ n
    → (style_at (join_run offset runs run) i
        ≡ or_else (style_at runs i) (style_at (record run { start = offset + run.start } ∷ []) i))
      × Fits n (join_run offset runs run)
unfolding join_run style_at
style_at-join_run offset n i [] run small fits room = ground arith
style_at-join_run offset n i (last ∷ []) run small fits room =
    ground (arith, same_style_sound last.style run.style)
style_at-join_run offset n i (r ∷ s ∷ runs) run small fits room =
    ground (arith, style_at-join_run offset n i (s ∷ runs) run small fits.1 room)

abbrev shifted : ℕ → List StyleRun → List StyleRun
shifted offset [] = []
shifted offset (run ∷ runs) = record run { start = offset + run.start } ∷ shifted offset runs

or_else_assoc : (a b c : Option Style) → or_else (or_else a b) c ≡ or_else a (or_else b c)
or_else_assoc none b c = refl
or_else_assoc (some a) b c = refl

style_at-cons :
    (run : StyleRun) (runs : List StyleRun) (i : ℕ)
    → style_at (run ∷ runs) i ≡ or_else (style_at (run ∷ []) i) (style_at runs i)
unfolding style_at
style_at-cons run runs i = ground arith

style_at-join_all :
    (offset k i : ℕ) (runs later : List StyleRun)
    → offset + k < u32_size
    → Fits (offset + k) runs
    → Fits k later
    → style_at (join_all offset runs later) i
      ≡ or_else (style_at runs i) (style_at (shifted offset later) i)
unfolding join_all
style_at-join_all offset k i runs [] small fits later_fits = unfold style_at in ground arith
style_at-join_all offset k i runs (run ∷ later) small fits later_fits =
    let (joined, fits') =
      style_at-join_run offset (offset + k) i runs run small fits (omega arith) in
    style_at-join_all offset k i (join_run offset runs run) later small fits' later_fits.1
    ∙ cc (
      joined,
      style_at-cons (record run { start = offset + run.start }) (shifted offset later) i,
      or_else_assoc (style_at runs i) (style_at (record run { start = offset + run.start } ∷ []) i)
          (style_at (shifted offset later) i),
    )

style_at-shifted :
    (offset i : ℕ) (runs : List StyleRun)
    → style_at (shifted offset runs) i ≡ (if ltb i offset then none else style_at runs (i - offset))
unfolding style_at
style_at-shifted offset i [] = ground arith
style_at-shifted offset i (run ∷ runs) = ground (arith, style_at-shifted offset i runs)

style_at_beyond : (n i : ℕ) (runs : List StyleRun) → Fits n runs → n ≤ i → style_at runs i ≡ none
unfolding style_at
style_at_beyond n i [] fits far = refl
style_at_beyond n i (run ∷ runs) fits far = ground (arith, style_at_beyond n i runs fits.1 far)

Fits-mono : (m n : ℕ) (runs : List StyleRun) → m ≤ n → Fits m runs → Fits n runs
Fits-mono m n [] h fits = fits
Fits-mono m n (run ∷ runs) h fits = (omega arith, Fits-mono m n runs h fits.1)

-- Joining is exact: if the runs stay inside their texts and the joined line is shorter than 2 ^ 32
-- code units, every code unit keeps the style that its own text gave it, also where two runs merge.
pub style_at-join_runs :
    (runs : List StyleRun) (before : Text) (later : List StyleRun) (k i : ℕ)
    → utf16_count before + k < u32_size
    → Fits (utf16_count before) runs
    → Fits k later
    → style_at (join_runs runs before later) i ≡ (
        if ltb i (utf16_count before)
        then style_at runs i
        else style_at later (i - utf16_count before))
unfolding join_runs utf16_len
style_at-join_runs runs before later k i small fits later_fits =
    let offset = utf16_count before in
    let whole : utf16_len before ≡ offset = omega arith in
    rw (whole) (
      style_at-join_all offset k i runs later small
        (Fits-mono offset (offset + k) runs (omega arith) fits) later_fits
      ∙ ground (arith, style_at-shifted offset i later, style_at_beyond offset i runs fits))

cut :
    (runs : List StyleRun) (n offset i : ℕ)
    → Fits n runs
    → offset ≤ n
    → (if ltb i offset
        then if ltb i (offset - 0) then style_at runs (0 + i) else none
        else if ltb (i - offset) (n - offset)
        then style_at runs (offset + (i - offset))
        else none)
      ≡ style_at runs i
cut runs n offset i fits inside = ground (arith, style_at_beyond n i runs fits)

-- Cutting a line in two and joining the halves gives back its styles, if its runs stay inside it
-- and it is shorter than 2 ^ 32 code units.
pub style_at-join_runs-slice_runs :
    (runs : List StyleRun) (before : Text) (n i : ℕ)
    → n < u32_size
    → utf16_count before ≤ n
    → Fits n runs
    → style_at
        (join_runs
          (slice_runs runs 0 (utf16_count before))
          before
          (slice_runs runs (utf16_count before) n))
        i
      ≡ style_at runs i
style_at-join_runs-slice_runs runs before n i small inside fits =
    let offset = utf16_count before in
    style_at-join_runs (slice_runs runs 0 offset) before (slice_runs runs offset n) (n - offset) i
      (omega arith)
      (Fits-mono (offset - 0) offset (slice_runs runs 0 offset) (omega arith)
        (Fits-slice_runs runs n 0 offset small fits))
      (Fits-slice_runs runs n offset n small fits)
    ∙ rw
        (
          style_at-slice_runs runs n 0 offset i small fits,
          style_at-slice_runs runs n offset n (i - offset) small fits,
        )
        (cut runs n offset i fits inside)
