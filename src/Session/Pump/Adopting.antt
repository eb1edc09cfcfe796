-- ===== src/Session/Pump/Adopting.antt =====
-- Which of the submitted lines a row or a block of the shell is taken for.
use acter.Prelude.{
  ◌≡◌, ◌≢◌, ◌⊎◌, Option, Bool-cases, refl, inl, inr, ap, ℕ, Bool, true, false, if-cases,
  Option-cases, none, some, List, [], ◌∷◌, ◌++◌, Text, seq_eq, seq_eq_self, seq_eq_sound, length,
  length-append, arith,
}
use acter.Pacing.{trim_end}
use acter.Session.Text.{trim, strip_suffix, prepend, is_empty_text, last_char}
use acter.Session.Pump.{Pump, Submitted}
use acter.Session.Pump.Blocks.{starts_word, is_echo, adopt_from, adopt}

-- What is not so of the lines before the one that is.
pub data NoneOf (Holds : Submitted → Type 0) : List Submitted → Type 0 where
  nothing : NoneOf Holds []
  cons : {s : Submitted} {ss : List Submitted} → ¬ Holds s → NoneOf Holds ss → NoneOf Holds (s ∷ ss)

-- `s` is the first of `all` that is so, and `rest` what follows it.
abbrev pub IsFirst : (Submitted → Type 0) → List Submitted → Submitted → List Submitted → Type 0
IsFirst Holds all s rest =
    (skipped : List Submitted) × (all ≡ skipped ++ s ∷ rest) × NoneOf Holds skipped × Holds s

-- The first of `all` that is so with what follows it, or none where none is.
abbrev pub FirstOf :
    (Submitted → Type 0) → List Submitted → Option (Submitted × List Submitted) → Type 0
FirstOf Holds all none = NoneOf Holds all
FirstOf Holds all (some (s, rest)) = IsFirst Holds all s rest

-- A word starts after `before`: it is empty, or ends in what is no letter and no digit.
abbrev pub StartsWord : (ℕ → Bool) → Text → Type 0
StartsWord alphanumeric before =
    (before ≡ []) ⊎ ((most : Text) × (c : ℕ) × (before ≡ most ++ c ∷ []) × (alphanumeric c ≡ false))

-- The row is `before`, a word start, and the submitted line without its outer whitespace, not blank.
abbrev pub IsEchoOf : (ℕ → Bool) → Text → Submitted → Type 0
IsEchoOf alphanumeric row s =
    (before : Text) × (row ≡ before ++ trim s.line)
    × StartsWord alphanumeric before
    × (trim s.line ≢ [])

strip_suffix-append :
    (suffix text before : Text) → strip_suffix suffix text ≡ some before → text ≡ before ++ suffix
unfolding strip_suffix
strip_suffix-append suffix [] before h =
    elim (if-cases (seq_eq [] suffix) (some []) none (some before) h) [
      | inl (e, f) ↦ ground (arith, seq_eq_sound [] suffix e, f)
      | inr (e, f) ↦ absurd (ground (arith, f))
    ]
strip_suffix-append suffix (c ∷ cs) before h =
    elim (if-cases (seq_eq (c ∷ cs) suffix) (some []) (prepend c (strip_suffix suffix cs))
      (some before) h) [
        | inl (e, f) ↦ ground (arith, seq_eq_sound (c ∷ cs) suffix e, f)
        | inr (e, f) ↦ elim (Option-cases (strip_suffix suffix cs)) [
          | inl g ↦ absurd (ground (arith, f, g))
          | inr (b, g) ↦ ground (arith, f, g, strip_suffix-append suffix cs b g)
        ]
      ]

not_longer : (b : ℕ) (bs suffix : Text) → seq_eq (b ∷ (bs ++ suffix)) suffix ≡ false
not_longer b bs suffix = elim (Bool-cases (seq_eq (b ∷ (bs ++ suffix)) suffix)) [
  | inl same ↦ absurd (
      omega
        (arith, ap length (seq_eq_sound (b ∷ (bs ++ suffix)) suffix same), length-append bs suffix))
  | inr other ↦ other
]

strip_suffix_all : (suffix : Text) → strip_suffix suffix suffix ≡ some []
unfolding strip_suffix
strip_suffix_all [] = unfold seq_eq in refl
strip_suffix_all (c ∷ cs) = rw (seq_eq_self (c ∷ cs)) refl

append-strip_suffix : (before suffix : Text) → strip_suffix suffix (before ++ suffix) ≡ some before
unfolding strip_suffix
append-strip_suffix [] suffix = strip_suffix_all suffix
append-strip_suffix (b ∷ bs) suffix =
    rw (not_longer b bs suffix, append-strip_suffix bs suffix) refl

last_char-append : (text : Text) (c : ℕ) → last_char (text ++ c ∷ []) ≡ some c
unfolding last_char
last_char-append [] c = refl
last_char-append (a ∷ []) c = refl
last_char-append (a ∷ b ∷ bs) c = last_char-append (b ∷ bs) c

starts_word-StartsWord :
    (f : ℕ → Bool) (before : Text) → starts_word f (some before) ≡ true → StartsWord f before
unfolding last_char
starts_word-StartsWord f [] h = inl refl
starts_word-StartsWord f (c ∷ []) h = inr ([], c, refl, ground (arith, h))
starts_word-StartsWord f (c ∷ d ∷ ds) h = elim (starts_word-StartsWord f (d ∷ ds) h) [
  | inl e ↦ absurd (ground (arith, e))
  | inr (most, last, e, plain) ↦ inr (c ∷ most, last, ap (λ t. c ∷ t) e, plain)
]

StartsWord-starts_word :
    (f : ℕ → Bool) (before : Text) → StartsWord f before → starts_word f (some before) ≡ true
StartsWord-starts_word f before (inl e) = rw e (unfold last_char in refl)
StartsWord-starts_word f before (inr (most, c, e, plain)) =
    ground (arith, e, last_char-append most c, plain)

is_empty-text : (text : Text) → text ≢ [] → is_empty_text text ≡ false
is_empty-text [] h = absurd (h refl)
is_empty-text (c ∷ cs) h = refl

not_empty-text : (text : Text) → is_empty_text text ≡ false → text ≢ []
not_empty-text [] h = absurd (ground (arith, h))
not_empty-text (c ∷ cs) h = λ e. absurd (ground (arith, e))

is_echo-IsEchoOf :
    (f : ℕ → Bool) (row : Text) (s : Submitted) → is_echo f row s ≡ true → IsEchoOf f row s
unfolding is_echo
is_echo-IsEchoOf f row s h = elim (Option-cases (strip_suffix (trim s.line) row)) [
  | inl e ↦ absurd (ground (arith, h, e))
  | inr (before, e) ↦ (
    before,
    strip_suffix-append (trim s.line) row before e,
    starts_word-StartsWord f before (ground (arith, h, e)),
    not_empty-text (trim s.line) (ground (arith, h)),
  )
]

IsEchoOf-is_echo :
    (f : ℕ → Bool) (row : Text) (s : Submitted) → IsEchoOf f row s → is_echo f row s ≡ true
unfolding is_echo
IsEchoOf-is_echo f row s (before, parts, word, full) =
    rw
      (
        is_empty-text (trim s.line) full,
        parts,
        append-strip_suffix before (trim s.line),
        StartsWord-starts_word f before word,
      )
      refl

FirstOf-cons :
    (Holds : Submitted → Type 0) (x : Submitted) (xs : List Submitted)
    (found : Option (Submitted × List Submitted))
    → ¬ Holds x
    → FirstOf Holds xs found
    → FirstOf Holds (x ∷ xs) found
FirstOf-cons Holds x xs none other h = cons other h
FirstOf-cons Holds x xs (some (s, rest)) other (skipped, parts, others, found) =
    (x ∷ skipped, ap (λ t. x ∷ t) parts, cons other others, found)

-- The row `row` against every line in turn
adopt_from-FirstOf :
    (f : ℕ → Bool) (row : Text) (all : List Submitted)
    → FirstOf (IsEchoOf f row) all (adopt_from f row all)
unfolding adopt_from
adopt_from-FirstOf f row [] = nothing
adopt_from-FirstOf f row (x ∷ xs) = elim (Bool-cases (is_echo f row x)) [
  | inl e ↦ rw e ([], refl, nothing, is_echo-IsEchoOf f row x e)
  | inr e ↦ rw e (
      FirstOf-cons (IsEchoOf f row) x xs (adopt_from f row xs)
        (λ k. absurd (ground (arith, e, IsEchoOf-is_echo f row x k))) (adopt_from-FirstOf f row xs))
]

-- The row that `adopt` is given, which `boundary` has cut at its start to what is kept of it, without
-- its trailing whitespace, opens the block of the first waiting line that is not blank and that the
-- row ends with, its outer whitespace aside, after nothing or after what is no letter and no digit; the
-- lines after it wait on, in their order. It opens none exactly where no waiting line is so.
pub adopt-FirstOf :
    (row : Text) (p : Pump)
    → FirstOf (IsEchoOf p.is_alphanumeric (trim_end row)) p.submitted (adopt row p)
unfolding adopt
adopt-FirstOf row p = adopt_from-FirstOf p.is_alphanumeric (trim_end row) p.submitted
