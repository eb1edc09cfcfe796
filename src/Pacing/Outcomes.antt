-- ===== src/Pacing/Outcomes.antt =====
-- What an outcome of the pacing policy leaves: a wake that is asked for, or text that is dealt with.
use acter.Prelude.{◌≡◌, Bool, true, false, Option-cases, Bool-cases, leb, inl, inr, some, arith}
use acter.Pacing.{
  on_output, on_wake, flush_with_babble_guard, Duration, PacingState, PacingOutcome, PacingConfig,
  TextSize, is_empty, nothing, flush, output_continues, auto, too_big, quiet, verdict, ReadMode,
}

-- Out of follow mode every chunk asks for a wake.
pub on_output-asks :
    (config : PacingConfig) (state : PacingState) (size : TextSize) (at : Duration) (follow : Bool)
    → follow ≡ false
    → (d : Duration) × ((on_output state config size at follow).1.wake_after ≡ some d)
unfolding on_output
on_output-asks config state size at follow h =
    elim (Option-cases (on_output state config size at follow).1.wake_after) [
      | inl e ↦ absurd (ground (arith, e))
      | inr found ↦ found
    ]

abbrev is_too_big : ReadMode → Bool
is_too_big too_big = true
is_too_big _ = false

-- What a wake leaves of the text `t`: another wake, a flush, no text, or text behind the babble guard.
pub data Woken (t : TextSize) (s : PacingState) (o : PacingOutcome) : Type 0 where
  again : (d : Duration) → o.wake_after ≡ some d → Woken t s o
  spoken : (mode : ReadMode) → o.action ≡ flush mode → Woken t s o
  idle : is_empty t ≡ true → o.action ≡ nothing → Woken t s o
  held : s.babble_tripped ≡ true → o.action ≡ output_continues → Woken t s o

pub on_wake-Woken :
    (config : PacingConfig) (state : PacingState) (t : TextSize) (at : Duration)
    → let (s, o) = on_wake state config t at in Woken t s o
unfolding on_wake flush_with_babble_guard
on_wake-Woken config state t at = elim (Option-cases (on_wake state config t at).1.wake_after) [
  | inr (d, e) ↦ again d e
  | inl e ↦ elim (Bool-cases (is_empty t)) [
    | inl none_left ↦ idle none_left (ground (arith, e, none_left))
    | inr left ↦ elim (Bool-cases state.babble_tripped) [
      | inl tripped ↦ spoken quiet (ground (arith, e, left, tripped))
      | inr free ↦ elim (Bool-cases (is_too_big (verdict t config))) [
        | inl big ↦ spoken too_big (ground (arith, e, left, free, big))
        | inr small ↦ elim (Bool-cases (leb config.babble_limit state.consecutive_auto_reads)) [
          | inl limit ↦
              held (ground (arith, e, left, free, small, limit))
                (ground (arith, e, left, free, small, limit))
          | inr below ↦ spoken auto (ground (arith, e, left, free, small, below))
        ]
      ]
    ]
  ]
]
