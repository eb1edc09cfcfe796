-- ===== src/Tests/Pace.antt =====
-- A command that prints, pauses and prints more.
use acter.Prelude.{◌≡◌, ◌≤◌, ◌+◌, refl, true, false, some, List, [], ◌∷◌, Text, arith}
use acter.Pacing.{
  Duration, PacingConfig, TextSize, fresh, default_config, measure, verdict, on_output,
}
use acter.Pacing.Guard.{Call, run, last_call, IsPaced, run-IsPaced, allowed, allowed-run, Latches}
use acter.Pacing.Deadlines.{Settles, on_output-Settles}
use acter.Unspoken.{empty, size}
use acter.Unspoken.Counts.{row_after}
use acter.Unspoken.Exact.{push_all, concat, kept, push_all-exact}

abbrev row_size : TextSize
row_size = record { lines = 1; chars = 3 }

abbrev calls : List Call
calls =
    Call.chunk row_size 100 false
    ∷ Call.wake row_size (default_config.quiescence + 100)
    ∷ Call.chunk row_size (default_config.quiescence + 200) false
    ∷ []

allowed-run_example :
    allowed default_config.babble_limit 0 false false (run default_config fresh calls).1 ≡ true
allowed-run_example =
    allowed-run default_config fresh calls (omega arith) (refl, (refl, tt)) (omega arith)

run-IsPaced_example :
    IsPaced default_config (last_call 0 calls) (run default_config fresh calls).0
    × Latches fresh (run default_config fresh calls).0 (run default_config fresh calls).1
run-IsPaced_example =
    run-IsPaced default_config 0 fresh calls (omega arith)
      (omega arith, (omega arith, (omega arith, tt)))
      (record { streak_capped = omega arith; run_started = omega arith; output_past = omega arith })

on_output-Settles_example :
    let (s, o) = on_output fresh default_config row_size 100 false in
    (w : Duration) × (o.wake_after ≡ some w)
    × (w ≤ default_config.quiescence)
    × Settles default_config s row_size 100 w
on_output-Settles_example =
    on_output-Settles default_config fresh row_size row_size 100 refl refl (omega arith)

abbrev word : Text
word = b'a' ∷ b' ' ∷ 10 ∷ []

abbrev tight : PacingConfig
tight = record default_config { max_chars = 0 }

push_all-exact_example :
    ((push_all tight empty (word ∷ word ∷ [])).text ≡ kept tight (concat (word ∷ word ∷ [])))
    × ((size (push_all tight empty (word ∷ word ∷ []))).lines
        ≡ (measure (concat (word ∷ word ∷ []))).lines)
    × (verdict (size (push_all tight empty (word ∷ word ∷ []))) tight
        ≡ verdict (measure (concat (word ∷ word ∷ []))) tight)
    × ((push_all tight empty (word ∷ word ∷ [])).last_line ≡ row_after (concat (word ∷ word ∷ [])))
unfolding concat
push_all-exact_example = push_all-exact tight (word ∷ word ∷ []) (omega arith)
