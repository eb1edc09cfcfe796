-- ===== src/Runs/Styles.antt =====
-- Runs as a map from code units to styles: slicing and joining are exact on it.
use acter.Prelude.{
  Bool-cases, inl, inr, ℕ, ◌+◌, ◌-◌, ◌≤◌, ◌<◌, min, max, ◌≡◌, refl, Bool, true, false, ◌&&◌, Option,
  none, some, List, [], ◌∷◌, ltb, leb, if◌then◌else◌, arith,
}
use native.Mathlib.Nat.{mod-eq_of_lt}
use acter.Entity.{Style, StyleRun, u32_size}
use acter.Runs.{end_of, slice_runs}

-- The style that the first run over the code unit `i` gives it; `none` is the default style.
unfoldable pub style_at : List StyleRun → ℕ → Option Style
style_at [] i = none
style_at (run ∷ runs) i =
    if leb run.start i && ltb i (run.start + run.len) then some run.style else style_at runs i

-- No run passes the end `n` of its line.
abbrev pub Fits : ℕ → List StyleRun → Type 0
Fits n [] = Unit
Fits n (run ∷ runs) = (run.start + run.len ≤ n) × Fits n runs

end_of-Fits :
    (n : ℕ) (run : StyleRun)
    → n < u32_size
    → run.start + run.len ≤ n
    → end_of run ≡ run.start + run.len
end_of-Fits n run small fits = mod-eq_of_lt (omega arith)

abbrev within : ℕ → ℕ → ℕ → Bool
within a e i = leb a i && ltb i e

-- A non-empty clipped span covers the code units of the slice that the whole span covers.
within-clip :
    (a e from to i : ℕ)
    → max a from < min e to
    → within (max a from - from) ((max a from - from) + (min e to - max a from)) i
      ≡ (ltb i (to - from) && within a e (from + i))
within-clip a e from to i h = ground arith

within-empty :
    (a e from to i : ℕ)
    → min e to ≤ max a from
    → (ltb i (to - from) && within a e (from + i)) ≡ false
within-empty a e from to i h = ground arith

-- one run in front of the others, once its test is known
pick :
    (b c : Bool) (o p : Option Style)
    → (if b && c then o else (if b then p else none)) ≡ (if b then if c then o else p else none)
pick true true o p = refl
pick true false o p = refl
pick false true o p = refl
pick false false o p = refl

drop_pick :
    (b c : Bool) (o p : Option Style)
    → (b && c) ≡ false
    → (if b then p else none) ≡ (if b then if c then o else p else none)
drop_pick true true o p h = cc
drop_pick true false o p h = refl
drop_pick false c o p h = refl

-- A slice shows, at every code unit of it, the style that the line has there, and no style beyond
-- its end, if no run of the line passes an end below 2 ^ 32.
pub style_at-slice_runs :
    (runs : List StyleRun) (n from to i : ℕ)
    → n < u32_size
    → Fits n runs
    → style_at (slice_runs runs from to) i
      ≡ (if ltb i (to - from) then style_at runs (from + i) else none)
unfolding slice_runs style_at
style_at-slice_runs [] n from to i small fits = ground arith
style_at-slice_runs (run ∷ runs) n from to i small fits =
    rw (end_of-Fits n run small fits.0)
      (elim (Bool-cases (ltb (max run.start from) (min (run.start + run.len) to))) [
        | inl some_left ↦
            rw
              (
                some_left,
                within-clip run.start (run.start + run.len) from to i (ground arith),
                style_at-slice_runs runs n from to i small fits.1,
              )
              (pick (ltb i (to - from)) (within run.start (run.start + run.len) (from + i))
                (some run.style) (style_at runs (from + i)))
        | inr empty ↦
            rw (empty, style_at-slice_runs runs n from to i small fits.1)
              (drop_pick (ltb i (to - from)) (within run.start (run.start + run.len) (from + i))
                (some run.style) (style_at runs (from + i))
                (within-empty run.start (run.start + run.len) from to i (ground arith)))
      ])

pub Fits-slice_runs :
    (runs : List StyleRun) (n from to : ℕ)
    → n < u32_size
    → Fits n runs
    → Fits (to - from) (slice_runs runs from to)
unfolding slice_runs
Fits-slice_runs [] n from to small fits = tt
Fits-slice_runs (run ∷ runs) n from to small fits =
    let rest = Fits-slice_runs runs n from to small fits.1 in
    elim (Bool-cases (ltb (max run.start from) (min (end_of run) to))) [
      | inl some_left ↦ rw some_left (ground arith, rest)
      | inr empty ↦ rw empty rest
    ]
