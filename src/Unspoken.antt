-- ===== src/Unspoken.antt =====
-- The text a running command has produced and not yet announced,
-- crates/acter-core/src/entities/unspoken_text.rs. `usize` additions wrap at 2 ^ 64 where the source
-- adds plainly, and stop at its maximum where the source saturates.
pub mod Counts
pub mod Exact
use acter.Prelude.{
  ℕ, suc, ◌+◌, ◌-◌, ◌%◌, min, ◌≡◌, Bool, true, false, not, ◌&&◌, Option, none, some, List, [], ◌∷◌,
  ◌++◌, Text, length, ◌==◌, if◌then◌else◌,
}
use acter.Entity.{usize_size}
use acter.Pacing.{
  PacingConfig, TextSize, ReadMode, auto, too_big, quiet, newline, is_whitespace, measure, verdict,
}

pub record UnspokenText : Type 0 where
  pub text : Option Text
  pub newlines : ℕ
  pub chars : ℕ
  pub ends_with_newline : Bool
  pub any : Bool
  pub last_line : Text

-- `UnspokenText::default()`
abbrev pub empty : UnspokenText
empty = record {
  text = some [];
  newlines = 0;
  chars = 0;
  ends_with_newline = false;
  any = false;
  last_line = [];
}

-- `matches('\n').count()`
unfoldable pub count_newlines : Text → ℕ
count_newlines [] = 0
count_newlines (c ∷ cs) = let rest = count_newlines cs in if c == newline then suc rest else rest

-- `ends_with('\n')`
unfoldable pub ends_in_newline : Text → Bool
ends_in_newline [] = false
ends_in_newline (c ∷ []) = c == newline
ends_in_newline (c ∷ d ∷ ds) = ends_in_newline (d ∷ ds)

-- `rfind('\n')` and what follows it; `none` where there is no line feed.
unfoldable pub after_newline : Text → Option Text
after_newline [] = none
after_newline (c ∷ cs) = elim (after_newline cs) [
  | some rest ↦ some rest
  | none ↦ if c == newline then some cs else none
]

unfoldable pub size : UnspokenText → TextSize
size u =
    let trailing = if u.any && not u.ends_with_newline then 1 else 0 in
    record { lines = (u.newlines + trailing) % usize_size; chars = u.chars }

is_too_big : ReadMode → Bool
is_too_big too_big = true
is_too_big _ = false

-- The `match &mut self.text` of `push`.
push_text : Option Text → Text → PacingConfig → UnspokenText → UnspokenText
unfolding is_too_big
push_text (some text) chunk config u =
    let grown = text ++ chunk in
    let v = record u { text = some grown; chars = (measure grown).chars } in
    if is_too_big (verdict (size v) config) then record v { text = none } else v
push_text none chunk config u = record u { chars = min (u.chars + length chunk) (usize_size - 1) }

abbrev or_extend : Option Text → Text → Text → Text
or_extend (some rest) last chunk = rest
or_extend none last chunk = last ++ chunk

unfoldable pub push : UnspokenText → Text → PacingConfig → UnspokenText
unfolding push_text
push u [] config = u
push u (c ∷ cs) config =
    let chunk = c ∷ cs in
    push_text u.text chunk config (record u {
      newlines = (u.newlines + count_newlines chunk) % usize_size;
      ends_with_newline = ends_in_newline chunk;
      any = true;
      last_line = or_extend (after_newline chunk) u.last_line chunk;
    })

-- `trim().is_empty()`
unfoldable pub is_blank : Text → Bool
is_blank [] = true
is_blank (c ∷ cs) = is_whitespace c && is_blank cs

unfoldable pub last_line : UnspokenText → Option Text
last_line u = if is_blank u.last_line then none else some u.last_line

unfoldable pub take : UnspokenText → (Option Text × TextSize) × UnspokenText
take u = ((u.text, size u), empty)
