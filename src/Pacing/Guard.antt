-- ===== src/Pacing/Guard.antt =====
-- What a command may say: the latches and the babble guard, over every sequence of policy calls.
use acter.Prelude.{
  ℕ, suc, ◌+◌, if◌then◌else◌, ◌≤◌, ◌<◌, ◌≡◌, refl, Bool, true, false, not, ◌&&◌, List, [], ◌∷◌, ltb,
  ◌==◌, arith,
}
use acter.Entity.{u32_size}
use acter.Pacing.{
  Duration, PacingState, PacingConfig, TextSize, auto, too_big, quiet, PacingAction, nothing,
  still_running, output_continues, flush, PacingOutcome, on_output, on_wake,
}

-- The calls that a running command makes: a chunk arrives, or a deadline fires.
pub data Call : Type 0 where
  chunk : TextSize → Duration → Bool → Call
  wake : TextSize → Duration → Call

pub step : PacingConfig → PacingState → Call → PacingState × PacingOutcome
step config state (chunk size at follow_mode) = on_output state config size at follow_mode
step config state (wake unspoken at) = on_wake state config unspoken at

pub run : PacingConfig → PacingState → List Call → PacingState × List PacingAction
run config state [] = (state, [])
run config state (call ∷ calls) =
    let (next, outcome) = step config state call in
    let (last, actions) = run config next calls in (last, outcome.action ∷ actions)

abbrev call_at : Call → Duration
call_at (chunk size at follow_mode) = at
call_at (wake unspoken at) = at

-- The clock never goes back.
abbrev pub InOrder : Duration → List Call → Type 0
InOrder now [] = Unit
InOrder now (call ∷ calls) = (now ≤ call_at call) × InOrder (call_at call) calls

abbrev pub last_call : Duration → List Call → Duration
last_call now [] = now
last_call now (call ∷ calls) = last_call (call_at call) calls

pub record IsPaced (config : PacingConfig) (now : Duration) (state : PacingState) : Type 0 where
  pub streak_capped : state.consecutive_auto_reads ≤ config.babble_limit
  pub run_started : state.continuous_since ≤ state.last_output_at
  pub output_past : state.last_output_at ≤ now

step-IsPaced :
    (config : PacingConfig) (now : Duration) (state : PacingState) (call : Call)
    → config.babble_limit < u32_size
    → now ≤ call_at call
    → IsPaced config now state
    → IsPaced config (call_at call) (step config state call).0
unfolding step on_output on_wake
step-IsPaced config now state (chunk size at follow_mode) small later h = ground arith
step-IsPaced config now state (wake unspoken at) small later h = ground arith

abbrev running_count : PacingAction → ℕ
running_count still_running = 1
running_count _ = 0

abbrev continues_count : PacingAction → ℕ
continues_count output_continues = 1
continues_count _ = 0

pub count : (PacingAction → ℕ) → List PacingAction → ℕ
count one [] = 0
count one (action ∷ later) = one action + count one later

abbrev flag : Bool → ℕ
flag set = if set then 1 else 0

-- The announcement is made exactly where its latch is set, and the latch is never reset.
pub record Latches (state last : PacingState) (actions : List PacingAction) : Type 0 where
  pub patience : count running_count actions + flag state.patience_fired ≡ flag last.patience_fired
  pub babble : count continues_count actions + flag state.babble_tripped ≡ flag last.babble_tripped

step-Latches :
    (config : PacingConfig) (state : PacingState) (call : Call)
    → Latches state (step config state call).0 ((step config state call).1.action ∷ [])
unfolding step on_output on_wake count
step-Latches config state (chunk size at follow_mode) = record {
  patience = ground arith;
  babble = ground arith;
}
step-Latches config state (wake unspoken at) = record {
  patience = ground arith;
  babble = ground arith;
}

Latches-cons :
    (state next last : PacingState) (action : PacingAction) (later : List PacingAction)
    → Latches state next (action ∷ [])
    → Latches next last later
    → Latches state last (action ∷ later)
unfolding count
Latches-cons state next last action later h k = record {
  patience = omega (arith, h.patience, k.patience);
  babble = omega (arith, h.babble, k.babble);
}

run-Latches :
    (config : PacingConfig) (state : PacingState) (calls : List Call)
    → Latches state (run config state calls).0 (run config state calls).1
unfolding run
run-Latches config state [] =
    unfold count in record { patience = omega arith; babble = omega arith }
run-Latches config state (call ∷ calls) =
    let (next, outcome) = step config state call in
    Latches-cons state next (run config next calls).0 outcome.action (run config next calls).1
      (step-Latches config state call) (run-Latches config next calls)

run-capped :
    (config : PacingConfig) (now : Duration) (state : PacingState) (calls : List Call)
    → config.babble_limit < u32_size
    → InOrder now calls
    → IsPaced config now state
    → IsPaced config (last_call now calls) (run config state calls).0
unfolding run
run-capped config now state [] small ordered h = h
run-capped config now state (call ∷ calls) small ordered h =
    run-capped config (call_at call) (step config state call).0 calls small ordered.1
      (step-IsPaced config now state call small ordered.0 h)

-- The documented invariants of the pacing state hold after any calls at times that never go back,
-- if the babble limit is a `u32`: the streak of automatic reads never passes the babble limit, the
-- current run of unread output never starts after the last output, nor that after the last call, and
-- each latch latches once: "still running" is said exactly where `patience_fired` is first set,
-- "output continues" exactly where `babble_tripped` is, and no call resets either.
pub run-IsPaced :
    (config : PacingConfig) (now : Duration) (state : PacingState) (calls : List Call)
    → config.babble_limit < u32_size
    → InOrder now calls
    → IsPaced config now state
    → IsPaced config (last_call now calls) (run config state calls).0
      × Latches state (run config state calls).0 (run config state calls).1
run-IsPaced config now state calls small ordered h =
    (run-capped config now state calls small ordered h, run-Latches config state calls)

-- Which sequences of actions a listener may get out of follow mode, after `n` automatic reads in a
-- row: at most `limit` reads in a row, a too big chunk ends the row, the read past the limit is
-- "output continues" instead, after which every chunk is quiet, and "still running" comes once.
pub allowed : (limit n : ℕ) (tripped fired : Bool) → List PacingAction → Bool
allowed limit n tripped fired [] = true
allowed limit n tripped fired (nothing ∷ later) = allowed limit n tripped fired later
allowed limit n tripped fired (still_running ∷ later) =
    not fired && allowed limit n tripped true later
allowed limit n tripped fired (output_continues ∷ later) =
    not tripped && (n == limit) && allowed limit n true fired later
allowed limit n tripped fired (flush auto ∷ later) =
    not tripped && ltb n limit && allowed limit (suc n) tripped fired later
allowed limit n tripped fired (flush too_big ∷ later) =
    not tripped && allowed limit 0 tripped fired later
allowed limit n tripped fired (flush quiet ∷ later) = tripped && allowed limit n tripped fired later

abbrev pub NoFollow : List Call → Type 0
NoFollow [] = Unit
NoFollow (chunk size at follow_mode ∷ calls) = (follow_mode ≡ false) × NoFollow calls
NoFollow (wake unspoken at ∷ calls) = NoFollow calls

abbrev allowed_from : PacingConfig → PacingState → List PacingAction → Bool
allowed_from config state =
    allowed config.babble_limit state.consecutive_auto_reads state.babble_tripped
      state.patience_fired

capped-on_wake :
    (config : PacingConfig) (state : PacingState) (unspoken : TextSize) (at : Duration)
    → config.babble_limit < u32_size
    → state.consecutive_auto_reads ≤ config.babble_limit
    → (on_wake state config unspoken at).0.consecutive_auto_reads ≤ config.babble_limit
unfolding on_wake
capped-on_wake config state unspoken at small capped = ground arith

allowed-on_wake :
    (config : PacingConfig) (state : PacingState) (unspoken : TextSize) (at : Duration)
    (later : List PacingAction)
    → config.babble_limit < u32_size
    → state.consecutive_auto_reads ≤ config.babble_limit
    → allowed_from config (on_wake state config unspoken at).0 later ≡ true
    → allowed_from config state ((on_wake state config unspoken at).1.action ∷ later) ≡ true
unfolding on_wake allowed
allowed-on_wake config state unspoken at later small capped h = ground arith

allowed-on_output :
    (config : PacingConfig) (state : PacingState) (size : TextSize) (at : Duration) (f : Bool)
    (later : List PacingAction)
    → f ≡ false
    → allowed_from config (on_output state config size at f).0 later ≡ true
    → allowed_from config state ((on_output state config size at f).1.action ∷ later) ≡ true
unfolding on_output allowed
allowed-on_output config state size at f later e h = ground arith

capped-on_output :
    (config : PacingConfig) (state : PacingState) (size : TextSize) (at : Duration) (f : Bool)
    → (on_output state config size at f).0.consecutive_auto_reads ≡ state.consecutive_auto_reads
unfolding on_output
capped-on_output config state size at f = ground arith

-- Out of follow mode, whatever chunks and wakes a command meets and at whatever times, what it says
-- is an allowed sequence for the state it starts in, if the babble limit is a `u32` and the streak
-- does not pass it at the start.
pub allowed-run :
    (config : PacingConfig) (state : PacingState) (calls : List Call)
    → config.babble_limit < u32_size
    → NoFollow calls
    → state.consecutive_auto_reads ≤ config.babble_limit
    → allowed config.babble_limit state.consecutive_auto_reads state.babble_tripped
        state.patience_fired
        (run config state calls).1
      ≡ true
unfolding run step
allowed-run config state [] small plain capped = unfold allowed in refl
allowed-run config state (chunk size at f ∷ calls) small plain capped =
    allowed-on_output config state size at f _ plain.0 (
      allowed-run config (on_output state config size at f).0 calls small plain.1
        (rw (capped-on_output config state size at f) capped))
allowed-run config state (wake unspoken at ∷ calls) small plain capped =
    allowed-on_wake config state unspoken at _ small capped (
      allowed-run config (on_wake state config unspoken at).0 calls small plain
        (capped-on_wake config state unspoken at small capped))
