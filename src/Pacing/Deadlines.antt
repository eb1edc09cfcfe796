-- ===== src/Pacing/Deadlines.antt =====
-- The deadlines that the policy asks for are enough: no output waits longer than the quiescence.
use acter.Prelude.{
  ◌+◌, ◌-◌, ◌≤◌, ◌<◌, ◌≡◌, ◌≢◌, ◌⊎◌, inl, inr, false, some, none, arith, leb, Bool-cases, leb→le,
  leb→lt,
}
use acter.Pacing.{
  Duration, PacingState, PacingConfig, TextSize, nothing, still_running, PacingOutcome, is_empty,
  next_wake, on_output, on_wake,
}

-- The outcome says something of the unspoken text, or shows it, and asks for no other wake.
pub record Deals (o : PacingOutcome) : Type 0 where
  pub acts : o.action ≢ nothing
  pub moves : o.action ≢ still_running
  pub last : o.wake_after ≡ none

module _ (config : PacingConfig) (state : PacingState) (unspoken : TextSize)
    (owed : is_empty unspoken ≡ false) where
  on_wake-Deals :
      (at : Duration)
      → config.quiescence ≤ at - state.last_output_at
      → Deals (on_wake state config unspoken at).1
  unfolding on_wake
  on_wake-Deals at gap = record { acts = ground arith; moves = ground arith; last = ground arith }

  on_wake_early :
      (at : Duration)
      → at - state.last_output_at < config.quiescence
      → state.patience_fired ≡ false
      → config.patience ≤ at - state.continuous_since
      → ((on_wake state config unspoken at).1.action ≡ still_running)
        × ((on_wake state config unspoken at).1.wake_after
            ≡ some (config.quiescence - (at - state.last_output_at)))
        × ((on_wake state config unspoken at).0.last_output_at ≡ state.last_output_at)
  unfolding on_wake
  on_wake_early at gap unfired long = ground arith

-- What holds just after output at `at`.
record IsJust (at : Duration) (s : PacingState) : Type 0 where
  now : s.last_output_at ≡ at
  begun : s.continuous_since ≤ at

next_wake-le :
    (config : PacingConfig) (s : PacingState) (at : Duration)
    → next_wake s config at ≤ config.quiescence
unfolding next_wake
next_wake-le config s at = ground arith

next_wake_early :
    (config : PacingConfig) (s : PacingState) (at : Duration)
    → IsJust at s
    → next_wake s config at < config.quiescence
    → (s.patience_fired ≡ false)
      × (config.patience ≤ at + next_wake s config at - s.continuous_since)
unfolding next_wake
next_wake_early config s at j early = ground arith

on_output-IsJust :
    (config : PacingConfig) (state : PacingState) (size : TextSize) (at : Duration)
    → is_empty size ≡ false
    → state.continuous_since ≤ at
    → IsJust at (on_output state config size at false).0
unfolding on_output
on_output-IsJust config state size at text begun = ground arith

on_output-wake_after :
    (config : PacingConfig) (state : PacingState) (size : TextSize) (at : Duration)
    → is_empty size ≡ false
    → (on_output state config size at false).1.wake_after
      ≡ some (next_wake (on_output state config size at false).0 config at)
unfolding on_output
on_output-wake_after config state size at text = ground arith

-- The two ways in which output that nothing follows is dealt with.
abbrev pub Settles : PacingConfig → PacingState → TextSize → Duration → Duration → Type 0
Settles config s unspoken at w =
    let (t, p) = on_wake s config unspoken (at + w) in
    Deals p
    ⊎ ((p.action ≡ still_running)
        × ((v : Duration) × (p.wake_after ≡ some v)
            × (w + v ≡ config.quiescence)
            × Deals (on_wake t config unspoken (at + w + v)).1))

settles :
    (config : PacingConfig) (s : PacingState) (unspoken : TextSize) (at : Duration)
    → is_empty unspoken ≡ false
    → IsJust at s
    → Settles config s unspoken at (next_wake s config at)
settles config s unspoken at owed j =
    let w = next_wake s config at in
    elim (Bool-cases (leb config.quiescence w)) [
      | inl due ↦ inl (
          on_wake-Deals config s unspoken owed (at + w)
            (omega (arith, leb→le config.quiescence w due, j.now)))
      | inr early ↦
          (let soon : w < config.quiescence = leb→lt config.quiescence w early in
            let (unfired, long) = next_wake_early config s at j soon in
            let (said, wake, same) =
              on_wake_early config s unspoken owed (at + w) (omega (arith, j.now)) unfired long in
            inr (
              said,
              (
                config.quiescence - (at + w - s.last_output_at),
                wake,
                omega (arith, j.now),
                on_wake-Deals config (on_wake s config unspoken (at + w)).0 unspoken owed _
                    (omega (arith, j.now, same)),
              ),
            ))
    ]

-- After a chunk with text, out of follow mode and at a time not before the state's run, the caller
-- is asked to wake no later than the quiescence window. If no more output comes, that wake either
-- deals with the unspoken text, or says "still running" and asks for one more wake, exactly one
-- quiescence window after the chunk, which deals with it.
pub on_output-Settles :
    (config : PacingConfig) (state : PacingState) (size unspoken : TextSize) (at : Duration)
    → is_empty size ≡ false
    → is_empty unspoken ≡ false
    → state.continuous_since ≤ at
    → let (s, o) = on_output state config size at false in
      (w : Duration) × (o.wake_after ≡ some w)
      × (w ≤ config.quiescence)
      × Settles config s unspoken at w
on_output-Settles config state size unspoken at text owed begun =
    let s = (on_output state config size at false).0 in
    (
      next_wake s config at,
      on_output-wake_after config state size at text,
      next_wake-le config s at,
      settles config s unspoken at owed (on_output-IsJust config state size at text begun),
    )
