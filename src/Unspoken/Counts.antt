-- ===== src/Unspoken/Counts.antt =====
-- What the counters of the accumulator count, and how the counts of a text grow with it.
use native.Mathlib.Nat.{mod-eq_of_lt}
use acter.Prelude.{
  ℕ, ◌+◌, ◌≤◌, ◌<◌, ◌≡◌, refl, sym, ◌∙◌, Bool, true, false, not, ◌&&◌, none, some, [], ◌∷◌, ◌++◌,
  Text, length, if◌then◌else◌, arith,
}
use acter.Entity.{usize_size}
use acter.Pacing.{measure}
use acter.Pacing.Measure.{profile, measure-profile}
use acter.Unspoken.{UnspokenText, count_newlines, ends_in_newline, after_newline, size, or_extend}

abbrev pub nonempty : Text → Bool
nonempty [] = false
nonempty (c ∷ cs) = true

abbrev pub once : Bool → ℕ
once b = if b then 1 else 0

pub count_newlines-append :
    (t u : Text) → count_newlines (t ++ u) ≡ count_newlines t + count_newlines u
unfolding count_newlines
count_newlines-append [] u = omega arith
count_newlines-append (c ∷ cs) u = ground (arith, count_newlines-append cs u)

pub nonempty-append : (t : Text) (c : ℕ) (cs : Text) → nonempty (t ++ c ∷ cs) ≡ true
nonempty-append [] c cs = refl
nonempty-append (a ∷ rest) c cs = refl

pub ends_in_newline-append :
    (t : Text) (c : ℕ) (cs : Text) → ends_in_newline (t ++ c ∷ cs) ≡ ends_in_newline (c ∷ cs)
unfolding ends_in_newline
ends_in_newline-append [] c cs = refl
ends_in_newline-append (a ∷ []) c cs = refl
ends_in_newline-append (a ∷ b ∷ bs) c cs = ends_in_newline-append (b ∷ bs) c cs

-- The text after the last line feed, the whole text if it has none.
unfoldable pub row_after : Text → Text
row_after t = or_extend (after_newline t) [] t

pub after_newline-append :
    (t u : Text)
    → after_newline (t ++ u) ≡ elim (after_newline u) [
      | some rest ↦ some rest
      | none ↦ elim (after_newline t) [ some rest ↦ some (rest ++ u) | none ↦ none ]
    ]
unfolding after_newline
after_newline-append [] u = ground arith
after_newline-append (c ∷ cs) u = ground (arith, after_newline-append cs u)

pub row_after-append :
    (t u : Text) → row_after (t ++ u) ≡ or_extend (after_newline u) (row_after t) u
unfolding row_after
row_after-append t u = ground (arith, after_newline-append t u)

pub profile-rows :
    (t : Text) → (profile t).rows ≡ count_newlines t + once (nonempty t && not (ends_in_newline t))
unfolding profile count_newlines ends_in_newline
profile-rows [] = refl
profile-rows (c ∷ []) = ground arith
profile-rows (c ∷ d ∷ ds) = ground (arith, profile-rows (d ∷ ds))

pub rows-le-length : (t : Text) → (profile t).rows ≤ length t
unfolding profile
rows-le-length [] = omega arith
rows-le-length (c ∷ cs) = ground (arith, rows-le-length cs)

pub size-lines :
    (u : UnspokenText) (t : Text)
    → length t < usize_size
    → u.newlines ≡ count_newlines t
    → u.any ≡ nonempty t
    → u.ends_with_newline ≡ ends_in_newline t
    → (size u).lines ≡ (measure t).lines
unfolding size
size-lines u t small n a e =
    rw (n, a, e)
      (mod-eq_of_lt (omega (arith, profile-rows t, rows-le-length t))
        ∙ sym (profile-rows t)
        ∙ sym (measure-profile t).0)
