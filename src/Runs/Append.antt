-- ===== src/Runs/Append.antt =====
-- Joining runs is associative, as appending their texts is.
use acter.Prelude.{
  ◌≡◌, refl, sym, ap, ◌∙◌, ℕ, ◌+◌, ◌%◌, ◌<◌, true, List, [], ◌∷◌, ◌++◌, Text, ◌==◌, ==_iff, inl,
  inr, Bool-cases, ◌&&◌, arith,
}
use acter.Entity.{StyleRun, u32_size}
use acter.Runs.{
  same_style, same_style_sound, end_of, join_run, join_all, join_runs, utf16_len, utf16_count,
}

-- The run as `offset` places it.
abbrev placed : ℕ → StyleRun → StyleRun
placed offset run = record run { start = (offset + run.start) % u32_size }

mod_add : (a b c : ℕ) → (a + (b + c) % u32_size) % u32_size ≡ (a + b + c) % u32_size
mod_add a b c = omega arith

mod_add_left :
    (a b c : ℕ) → ((a + b) % u32_size + c) % u32_size ≡ (a + (b + c) % u32_size) % u32_size
mod_add_left a b c = omega arith

join_run-placed :
    (a b : ℕ) (runs : List StyleRun) (run : StyleRun)
    → join_run a runs (placed b run) ≡ join_run (a + b) runs run
unfolding join_run
join_run-placed a b [] run = rw (mod_add a b run.start) refl
join_run-placed a b (last ∷ []) run = rw (mod_add a b run.start) refl
join_run-placed a b (r ∷ s ∷ runs) run = ap (λ t. r ∷ t) (join_run-placed a b (s ∷ runs) run)

-- What is joined to a list is joined to its last run, which `join_run` leaves a last run of.
join_run-past :
    (offset a : ℕ) (r last run : StyleRun) (runs : List StyleRun)
    → join_run offset (r ∷ join_run a runs last) run
      ≡ r ∷ join_run offset (join_run a runs last) run
unfolding join_run
join_run-past offset a r last run [] = refl
join_run-past offset a r last run (x ∷ []) =
    elim (Bool-cases (same_style x.style last.style && end_of x == (a + last.start) % u32_size)) [
      | inl met ↦ rw met refl
      | inr apart ↦ rw apart refl
    ]
join_run-past offset a r last run (x ∷ y ∷ runs) = refl

end-placed :
    (a b : ℕ) (last run : StyleRun)
    → end_of last ≡ (b + run.start) % u32_size
    → end_of (placed a last) ≡ (a + b + run.start) % u32_size
end-placed a b last run h = omega (arith, h)

end-joined :
    (a b : ℕ) (x last run : StyleRun)
    → end_of x ≡ (a + last.start) % u32_size
    → end_of last ≡ (b + run.start) % u32_size
    → (x.start + (x.len + last.len) % u32_size) % u32_size ≡ (a + b + run.start) % u32_size
end-joined a b x last run h k = omega (arith, h, k)

-- The run `last` once `run` is joined to it
abbrev longer : StyleRun → StyleRun → StyleRun
longer last run = record last { len = (last.len + run.len) % u32_size }

join_run_met :
    (offset : ℕ) (last run : StyleRun)
    → last.style ≡ run.style
    → end_of last ≡ (offset + run.start) % u32_size
    → join_run offset (last ∷ []) run ≡ longer last run ∷ []
unfolding join_run same_style
join_run_met offset last run style ends = ground (arith, style, ends)

met_both :
    (x last : StyleRun) (a : ℕ)
    → same_style x.style last.style && end_of x == (a + last.start) % u32_size ≡ true
    → (x.style ≡ last.style) × (end_of x ≡ (a + last.start) % u32_size)
met_both x last a h = (
  same_style_sound x.style last.style (ground (arith, h)),
  (==_iff (end_of x) ((a + last.start) % u32_size)).0 (ground (arith, h)),
)

join_run-longer :
    (a b : ℕ) (runs : List StyleRun) (last run : StyleRun)
    → last.style ≡ run.style
    → end_of last ≡ (b + run.start) % u32_size
    → join_run a runs (longer last run) ≡ join_run (a + b) (join_run a runs last) run
unfolding join_run
join_run-longer a b [] last run style ends =
    sym (join_run_met (a + b) (placed a last) run style (end-placed a b last run ends))
join_run-longer a b (x ∷ []) last run style ends =
    elim (Bool-cases (same_style x.style last.style && end_of x == (a + last.start) % u32_size)) [
      | inl met ↦
          let (style', ends') = met_both x last a met in
          rw met (
            ap (λ n. record x { len = n } ∷ []) (sym (mod_add_left x.len last.len run.len))
            ∙ sym (
                join_run_met (a + b) (longer x last) run (style' ∙ style)
                  (end-joined a b x last run ends' ends)))
      | inr apart ↦ rw apart (
          ap (λ t. x ∷ t)
            (sym (join_run_met (a + b) (placed a last) run style (end-placed a b last run ends))))
    ]
join_run-longer a b (r ∷ s ∷ runs) last run style ends =
    ap (λ t. r ∷ t) (join_run-longer a b (s ∷ runs) last run style ends)
    ∙ sym (join_run-past (a + b) a r last run (s ∷ runs))

join_all-join_run :
    (a b : ℕ) (runs before : List StyleRun) (run : StyleRun)
    → join_all a runs (join_run b before run) ≡ join_run (a + b) (join_all a runs before) run
unfolding join_all join_run
join_all-join_run a b runs [] run = join_run-placed a b runs run
join_all-join_run a b runs (last ∷ []) run =
    elim (Bool-cases
      (same_style last.style run.style && end_of last == (b + run.start) % u32_size)) [
        | inl met ↦
            let (style, ends) = met_both last run b met in
            rw met (join_run-longer a b runs last run style ends)
        | inr apart ↦ rw apart (join_run-placed a b (join_run a runs last) run)
      ]
join_all-join_run a b runs (r ∷ s ∷ before) run =
    join_all-join_run a b (join_run a runs r) (s ∷ before) run

join_all_assoc :
    (a b : ℕ) (xs ys zs : List StyleRun)
    → join_all a xs (join_all b ys zs) ≡ join_all (a + b) (join_all a xs ys) zs
unfolding join_all
join_all_assoc a b xs ys [] = refl
join_all_assoc a b xs ys (z ∷ zs) =
    join_all_assoc a b xs (join_run b ys z) zs
    ∙ ap (λ t. join_all (a + b) t zs) (join_all-join_run a b xs ys z)

pub utf16_count-append : (s t : Text) → utf16_count (s ++ t) ≡ utf16_count s + utf16_count t
unfolding utf16_count
utf16_count-append [] t = omega arith
utf16_count-append (c ∷ cs) t = omega (arith, utf16_count-append cs t)

-- Joining what is joined, where the texts before are together shorter than 2 ^ 32 code units.
pub join_runs_assoc :
    (xs ys zs : List StyleRun) (s t : Text)
    → utf16_count s + utf16_count t < u32_size
    → join_runs xs s (join_runs ys t zs) ≡ join_runs (join_runs xs s ys) (s ++ t) zs
unfolding join_runs utf16_len
join_runs_assoc xs ys zs s t short =
    join_all_assoc (utf16_len s) (utf16_len t) xs ys zs
    ∙ ap (λ n. join_all n (join_runs xs s ys) zs) (omega (arith, short, utf16_count-append s t))
