-- ===== src/Pacing/Measure.antt =====
-- What `measure` counts, and that it only grows with the text.
use acter.Prelude.{
  ℕ, suc, ◌+◌, ◌-◌, ◌≤◌, ◌<◌, max, ◌≡◌, refl, ◌∙◌, Bool, true, ◌&&◌, List, [], ◌∷◌, ◌++◌, Text,
  length, ◌==◌, if◌then◌else◌, arith, Bool-cases, inl, inr,
}
use acter.Pacing.{
  PacingConfig, too_big, verdict, newline, carriage_return, is_whitespace, push_char,
  starts_newline, lines, trim_end, trimmed_chars, measure,
}

-- The trimmed length of the first line, what the lines after it add with one for each line, and
-- the number of lines.
pub record Profile : Type 0 where
  pub first : ℕ
  pub others : ℕ
  pub rows : ℕ

unfoldable pub profile : Text → Profile
profile [] = record { first = 0; others = 0; rows = 0 }
profile (c ∷ cs) =
    let p = profile cs in
    if c == newline
    then record { first = 0; others = 1 + p.first + p.others; rows = 1 + p.rows }
    else record {
      first = if (p.first == 0) && is_whitespace c then 0 else suc p.first;
      others = max 1 p.others;
      rows = max 1 p.rows;
    }

abbrev first_of_lines : List Text → ℕ
first_of_lines [] = 0
first_of_lines (l ∷ ls) = length (trim_end l)

abbrev others_of_lines : List Text → ℕ
others_of_lines [] = 0
others_of_lines (l ∷ ls) = 1 + length ls + trimmed_chars ls

length-trim_end :
    (c : ℕ) (cs : Text)
    → length (trim_end (c ∷ cs))
      ≡ (if (length (trim_end cs) == 0) && is_whitespace c then 0 else suc (length (trim_end cs)))
unfolding trim_end
length-trim_end c cs = ground arith

first-push_char :
    (c : ℕ) (ls : List Text)
    → (first_of_lines (push_char c ls)
        ≡ (if (first_of_lines ls == 0) && is_whitespace c then 0 else suc (first_of_lines ls)))
      × (others_of_lines (push_char c ls) ≡ max 1 (others_of_lines ls))
      × (length (push_char c ls) ≡ max 1 (length ls))
unfolding push_char trimmed_chars
first-push_char c [] = (length-trim_end c [] ∙ unfold trim_end in refl, omega arith, omega arith)
first-push_char c (l ∷ ls) = (length-trim_end c l, omega arith, omega arith)

total-lines :
    (ls : List Text) → length ls + trimmed_chars ls ≡ first_of_lines ls + others_of_lines ls
unfolding trimmed_chars
total-lines [] = omega arith
total-lines (l ∷ ls) = omega arith

profile_newline :
    (cs : Text)
    → starts_newline cs ≡ true
    → ((profile cs).first ≡ 0) × (1 ≤ (profile cs).others) × (1 ≤ (profile cs).rows)
unfolding profile
profile_newline [] h = cc
profile_newline (c ∷ cs) h = ground arith

record IsProfile (ls : List Text) (p : Profile) : Type 0 where
  first_eq : first_of_lines ls ≡ p.first
  others_eq : others_of_lines ls ≡ p.others
  rows_eq : length ls ≡ p.rows

is_whitespace-carriage_return :
    (c : ℕ) (b : Bool) → ((c == carriage_return) && b) ≡ true → is_whitespace c ≡ true
unfolding is_whitespace
is_whitespace-carriage_return c b h = ground arith

-- A carriage return in front of a line feed changes no count.
crlf-IsProfile :
    (ls : List Text) (p : Profile) (w : Bool)
    → IsProfile ls p
    → (p.first ≡ 0) × (1 ≤ p.others) × (1 ≤ p.rows)
    → w ≡ true
    → IsProfile ls (record {
      first = if (p.first == 0) && w then 0 else suc p.first;
      others = max 1 p.others;
      rows = max 1 p.rows;
    })
crlf-IsProfile ls p w h z white = ground arith

push_char-IsProfile :
    (c : ℕ) (ls : List Text) (p : Profile)
    → IsProfile ls p
    → IsProfile (push_char c ls) (record {
      first = if (p.first == 0) && is_whitespace c then 0 else suc p.first;
      others = max 1 p.others;
      rows = max 1 p.rows;
    })
push_char-IsProfile c ls p h = ground (arith, first-push_char c ls)

lines-IsProfile : (t : Text) → IsProfile (lines t) (profile t)
unfolding lines profile
lines-IsProfile [] = record { first_eq = refl; others_eq = refl; rows_eq = refl }
lines-IsProfile (c ∷ cs) =
    let ih = lines-IsProfile cs in
    elim (Bool-cases (c == newline)) [
      | inl brk ↦ rw brk (record {
        first_eq = unfold trim_end in refl;
        others_eq = omega (arith, total-lines (lines cs), ih.first_eq, ih.others_eq);
        rows_eq = omega (arith, ih.rows_eq);
      })
      | inr same ↦ rw same (elim (Bool-cases ((c == carriage_return) && starts_newline cs)) [
        | inl crlf ↦ rw crlf (
            crlf-IsProfile (lines cs) (profile cs) (is_whitespace c) ih
              (profile_newline cs (ground arith)) (is_whitespace-carriage_return c _ crlf))
        | inr plain ↦ rw plain (push_char-IsProfile c (lines cs) (profile cs) ih)
      ])
    ]

profile_mono :
    (t u : Text)
    → ((profile t).first ≤ (profile (t ++ u)).first)
      × ((profile t).others ≤ (profile (t ++ u)).others)
      × ((profile t).rows ≤ (profile (t ++ u)).rows)
unfolding profile
profile_mono [] u = omega arith
profile_mono (c ∷ cs) u = ground (arith, profile_mono cs u)

profile_others : (t : Text) → 0 < (profile t).first → 1 ≤ (profile t).others
unfolding profile
profile_others [] h = absurd (omega arith)
profile_others (c ∷ cs) h = ground arith

profile-le-length : (t : Text) → (profile t).first + (profile t).others ≤ length t + 1
unfolding profile
profile-le-length [] = omega arith
profile-le-length (c ∷ cs) = ground (arith, profile-le-length cs, profile_others cs)

chars-lines :
    (ls : List Text)
    → trimmed_chars ls + (length ls - 1) ≡ first_of_lines ls + others_of_lines ls - 1
unfolding trimmed_chars
chars-lines [] = omega arith
chars-lines (l ∷ ls) = omega arith

-- `measure` in terms of the profile
pub measure-profile :
    (t : Text)
    → ((measure t).lines ≡ (profile t).rows)
      × ((measure t).chars ≡ (profile t).first + (profile t).others - 1)
unfolding measure
measure-profile t =
    let p = lines-IsProfile t in
    (p.rows_eq, omega (arith, chars-lines (lines t), p.first_eq, p.others_eq))

-- Appending to a text never makes it measure smaller, in lines or in characters, though trailing
-- whitespace is not counted.
pub measure_mono :
    (t u : Text)
    → ((measure t).lines ≤ (measure (t ++ u)).lines)
      × ((measure t).chars ≤ (measure (t ++ u)).chars)
measure_mono t u = omega (arith, measure-profile t, measure-profile (t ++ u), profile_mono t u)

-- What `measure` counts is never more than the text has characters.
pub measure-le-length : (t : Text) → (measure t).chars ≤ length t
measure-le-length t = omega (arith, measure-profile t, profile-le-length t)

-- Once over a limit, always over it: no later text makes a "too big" verdict automatic again.
pub verdict-append :
    (config : PacingConfig) (t u : Text)
    → verdict (measure t) config ≡ too_big
    → verdict (measure (t ++ u)) config ≡ too_big
verdict-append config t u h = ground (arith, measure_mono t u)
