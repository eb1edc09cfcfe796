-- ===== src/Unspoken/Exact.antt =====
-- The accumulator, whose memory is bounded, against the whole text that was pushed into it.
use native.Mathlib.Nat.{mod-eq_of_lt}
use acter.Prelude.{
  ◌+◌, ◌-◌, ◌%◌, ◌<◌, min, ◌≡◌, refl, sym, ◌∙◌, true, Option, none, some, List, [], ◌∷◌, ◌++◌, Text,
  length, length-append, if◌then◌else◌, arith, Bool-cases, Option-cases, inl, inr,
}
use mathlib.Core.List.{append-nil, append_assoc}
use acter.Entity.{usize_size}
use acter.Pacing.{PacingConfig, auto, too_big, measure, verdict, lines, trimmed_chars}
use acter.Pacing.Measure.{measure_mono, measure-le-length, verdict-append}
use acter.Unspoken.{
  UnspokenText, empty, count_newlines, ends_in_newline, after_newline, size, push_text, push,
  or_extend, is_too_big,
}
use acter.Unspoken.Counts.{
  nonempty, count_newlines-append, nonempty-append, ends_in_newline-append, row_after,
  row_after-append, profile-rows, rows-le-length, size-lines,
}

-- What is kept of the text: all of it until its verdict is "too big", and then nothing.
pub kept : PacingConfig → Text → Option Text
kept config t = if is_too_big (verdict (measure t) config) then none else some t

abbrev Held : PacingConfig → UnspokenText → Text → Option Text → Type 0
Held config u t none =
    (verdict (measure t) config ≡ too_big)
    × (verdict (size u) config ≡ too_big)
    × (u.chars < usize_size)
Held config u t (some held) =
    (held ≡ t) × (u.chars ≡ (measure t).chars) × (verdict (measure t) config ≡ auto)

-- `u` accounts for the pushed text `t`.
record Tracks (config : PacingConfig) (u : UnspokenText) (t : Text) : Type 0 where
  newlines_eq : u.newlines ≡ count_newlines t
  any_eq : u.any ≡ nonempty t
  ends_eq : u.ends_with_newline ≡ ends_in_newline t
  last_eq : u.last_line ≡ row_after t
  held : Held config u t u.text

-- The fields that a push sets before it looks at the text.
record Counts (v : UnspokenText) (t : Text) : Type 0 where
  newlines_eq : v.newlines ≡ count_newlines t
  any_eq : v.any ≡ nonempty t
  ends_eq : v.ends_with_newline ≡ ends_in_newline t
  last_eq : v.last_line ≡ row_after t

module _ (config : PacingConfig) (t chunk : Text) (small : length (t ++ chunk) < usize_size) where
  -- the text still held: the grown text is measured, and dropped if it is too big
  grown-Tracks :
      (v : UnspokenText)
      → Counts v (t ++ chunk)
      → v.text ≡ some (t ++ chunk)
      → v.chars ≡ (measure (t ++ chunk)).chars
      → Tracks config
          (if is_too_big (verdict (size v) config) then record v { text = none } else v)
          (t ++ chunk)
  unfolding is_too_big size
  grown-Tracks v h whole k =
      let l = size-lines v (t ++ chunk) small h.newlines_eq h.any_eq h.ends_eq in
      elim (Bool-cases (is_too_big (verdict (size v) config))) [
        | inl big ↦ rw big (record {
          newlines_eq = h.newlines_eq;
          any_eq = h.any_eq;
          ends_eq = h.ends_eq;
          last_eq = h.last_eq;
          held = (ground arith, ground arith, omega (arith, measure-le-length (t ++ chunk), k));
        })
        | inr fits ↦ rw fits (record {
          newlines_eq = h.newlines_eq;
          any_eq = h.any_eq;
          ends_eq = h.ends_eq;
          last_eq = h.last_eq;
          held = rw whole (refl, k, ground arith);
        })
      ]

  push_text-Tracks :
      (o : Option Text) (u v : UnspokenText)
      → Counts v (t ++ chunk)
      → v.text ≡ o
      → v.chars ≡ u.chars
      → (size u).lines ≡ (measure t).lines
      → Held config u t o
      → Tracks config (push_text o chunk config v) (t ++ chunk)
  unfolding push_text size
  push_text-Tracks none u v h gone same l dropped =
      let w = record v { chars = min (v.chars + length chunk) (usize_size - 1) } in
      let l' = size-lines w (t ++ chunk) small h.newlines_eq h.any_eq h.ends_eq in
      record {
        newlines_eq = h.newlines_eq;
        any_eq = h.any_eq;
        ends_eq = h.ends_eq;
        last_eq = h.last_eq;
        held = rw gone (
          verdict-append config t chunk dropped.0,
          ground (arith, l, l', measure_mono t chunk, dropped),
          omega arith,
        );
      }
  push_text-Tracks (some held) u v h whole same l exact = rw exact.0 (
      grown-Tracks (record v { text = some (t ++ chunk); chars = (measure (t ++ chunk)).chars })
        (record {
          newlines_eq = h.newlines_eq;
          any_eq = h.any_eq;
          ends_eq = h.ends_eq;
          last_eq = h.last_eq;
        })
        refl refl)

push-Tracks :
    (config : PacingConfig) (u : UnspokenText) (t chunk : Text)
    → length (t ++ chunk) < usize_size
    → Tracks config u t
    → Tracks config (push u chunk config) (t ++ chunk)
unfolding push
push-Tracks config u t [] small h = rw (append-nil) h
push-Tracks config u t (c ∷ cs) small h =
    push_text-Tracks config t (c ∷ cs) small u.text u
      (record u {
        newlines = (u.newlines + count_newlines (c ∷ cs)) % usize_size;
        ends_with_newline = ends_in_newline (c ∷ cs);
        any = true;
        last_line = or_extend (after_newline (c ∷ cs)) u.last_line (c ∷ cs);
      })
      (record {
        newlines_eq =
            rw (h.newlines_eq, ← count_newlines-append t (c ∷ cs))
              (mod-eq_of_lt
                (omega (arith, profile-rows (t ++ c ∷ cs), rows-le-length (t ++ c ∷ cs))));
        any_eq = sym (nonempty-append t c cs);
        ends_eq = sym (ends_in_newline-append t c cs);
        last_eq = rw h.last_eq (sym (row_after-append t (c ∷ cs)));
      })
      refl refl
      (size-lines u t (omega (arith, length-append t (c ∷ cs))) h.newlines_eq h.any_eq h.ends_eq)
      h.held

pub push_all : PacingConfig → UnspokenText → List Text → UnspokenText
push_all config u [] = u
push_all config u (chunk ∷ chunks) = push_all config (push u chunk config) chunks

unfoldable pub concat : List Text → Text
concat [] = []
concat (chunk ∷ chunks) = chunk ++ concat chunks

push_all-Tracks :
    (config : PacingConfig) (u : UnspokenText) (t : Text) (chunks : List Text)
    → length (t ++ concat chunks) < usize_size
    → Tracks config u t
    → Tracks config (push_all config u chunks) (t ++ concat chunks)
unfolding push_all concat
push_all-Tracks config u t [] small h = rw append-nil h
push_all-Tracks config u t (chunk ∷ chunks) small h =
    let small' : length ((t ++ chunk) ++ concat chunks) < usize_size = rw append_assoc small in
    rw (← append_assoc t chunk (concat chunks)) (
      push_all-Tracks config (push u chunk config) (t ++ chunk) chunks small' (
        push-Tracks config u t chunk
          (omega (arith, small', length-append (t ++ chunk) (concat chunks))) h))

empty-Tracks : (config : PacingConfig) → Tracks config empty []
unfolding count_newlines ends_in_newline row_after after_newline measure lines trimmed_chars
empty-Tracks config = record {
  newlines_eq = refl;
  any_eq = refl;
  ends_eq = refl;
  last_eq = refl;
  held = (refl, refl, ground arith);
}

Tracks-exact :
    (config : PacingConfig) (u : UnspokenText) (t : Text)
    → length t < usize_size
    → Tracks config u t
    → (u.text ≡ kept config t)
      × ((size u).lines ≡ (measure t).lines)
      × (verdict (size u) config ≡ verdict (measure t) config)
      × (u.last_line ≡ row_after t)
unfolding kept is_too_big size
Tracks-exact config u t small h =
    let l = size-lines u t small h.newlines_eq h.any_eq h.ends_eq in
    elim (Option-cases u.text) [
      | inl gone ↦
          (let dropped : Held config u t none = rw gone at h.held in
            (ground arith, l, dropped.1 ∙ sym dropped.0, h.last_eq))
      | inr (held, e) ↦
          (let exact : Held config u t (some held) = rw e at h.held in
            (ground (arith, e, exact), l, ground (arith, exact, l), h.last_eq))
    ]

-- However the output is cut into chunks, if it has fewer than 2 ^ 64 characters in all: the
-- accumulator still holds exactly the whole text until its verdict is "too big" and nothing after
-- that, its line count is exact, its verdict is that of the whole text also after the text is gone,
-- and its last line is what stands after the last line feed.
pub push_all-exact :
    (config : PacingConfig) (chunks : List Text)
    → length (concat chunks) < usize_size
    → let u = push_all config empty chunks in
      let t = concat chunks in
      (u.text ≡ kept config t)
      × ((size u).lines ≡ (measure t).lines)
      × (verdict (size u) config ≡ verdict (measure t) config)
      × (u.last_line ≡ row_after t)
push_all-exact config chunks small =
    Tracks-exact config (push_all config empty chunks) (concat chunks) small
      (push_all-Tracks config empty [] chunks small (empty-Tracks config))
