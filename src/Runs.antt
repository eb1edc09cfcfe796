-- ===== src/Runs.antt =====
-- Style runs over a line, crates/acter-core/src/entities/style_run.rs. Offsets are `u32` counts of
-- UTF-16 code units; `+` on them wraps at 2 ^ 32.
pub mod Styles
pub mod Joins
pub mod Append
use native.Mathlib.Decide.{ℕ_discrete}
use acter.Prelude.{
  ℕ, suc, ◌+◌, ◌-◌, ◌%◌, ◌≤◌, ◌<◌, min, max, ◌≡◌, Bool, true, false, ◌&&◌, List, [], ◌∷◌, Text, ltb,
  ◌==◌, if◌then◌else◌, arith,
}
use acter.Entity.{Style, StyleRun, u32_size}

pub Style-discrete : Discrete Style
Style-discrete = hlevel (ℕ_discrete)

-- the derived `==` on `Style`
unfoldable pub same_style : Style → Style → Bool
same_style a b = elim (Style-discrete a b) [ yes _ ↦ true | no _ ↦ false ]

pub same_style_sound : (a b : Style) → same_style a b ≡ true → a ≡ b
unfolding same_style
same_style_sound a b h = ground arith

-- `StyleRun::end`
abbrev pub end_of : StyleRun → ℕ
end_of run = (run.start + run.len) % u32_size

unfoldable pub slice_runs : List StyleRun → ℕ → ℕ → List StyleRun
slice_runs [] from to = []
slice_runs (run ∷ runs) from to =
    let start = max run.start from in
    let end = min (end_of run) to in
    let rest = slice_runs runs from to in
    if ltb start end
    then record { start = start - from; len = end - start; style = run.style } ∷ rest
    else rest

-- Above U+FFFF a character takes two code units.
abbrev pub utf16_units : ℕ → ℕ
utf16_units c = if ltb c 0x10000 then 1 else 2

unfoldable pub utf16_count : Text → ℕ
utf16_count [] = 0
utf16_count (c ∷ cs) = utf16_units c + utf16_count cs

-- `u32::try_from(…).unwrap_or(u32::MAX)`
unfoldable pub utf16_len : Text → ℕ
utf16_len t = min (utf16_count t) (u32_size - 1)

-- One turn of the loop of `join_runs`: `runs.last_mut()` is the last element of the list.
unfoldable pub join_run : ℕ → List StyleRun → StyleRun → List StyleRun
join_run offset [] run = record run { start = (offset + run.start) % u32_size } ∷ []
join_run offset (last ∷ []) run =
    let start = (offset + run.start) % u32_size in
    if same_style last.style run.style && end_of last == start
    then record last { len = (last.len + run.len) % u32_size } ∷ []
    else last ∷ record run { start = start } ∷ []
join_run offset (r ∷ s ∷ runs) run = r ∷ join_run offset (s ∷ runs) run

join_all : ℕ → List StyleRun → List StyleRun → List StyleRun
unfolding join_run
join_all offset runs [] = runs
join_all offset runs (run ∷ later) = join_all offset (join_run offset runs run) later

unfoldable pub join_runs : List StyleRun → Text → List StyleRun → List StyleRun
unfolding join_all
join_runs runs before later = join_all (utf16_len before) runs later
