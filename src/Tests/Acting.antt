-- ===== src/Tests/Acting.antt =====
-- An actor with a command that has printed a row.
use acter.Prelude.{◌≡◌, ◌⊎◌, refl, true, false, none, some, List, [], ◌∷◌, ◌++◌, Text, arith}
use acter.Entity.{LineRevision}
use acter.Pacing.{
  measure, lines, trimmed_chars, trim_end, is_whitespace, is_empty, on_output, fresh, Duration,
  default_config, flush, auto,
}
use acter.Unspoken.{count_newlines, ends_in_newline, push, empty, size}
use acter.Event.{SessionEvent}
use acter.Actor.{SessionInput, Rendered, ActiveCommand, SessionActor, new_command, new}
use acter.Actor.Render.{render}
use acter.Actor.Render.Coalesce.{Shown}
use acter.Extractor.{default_style}
use acter.Actor.Step.{apply, handle}
use acter.Actor.Step.Speech.{Buffered, apply-Buffered}
use acter.Actor.Step.Hush.{only_failures, handle-only_failures}
use acter.Actor.Turn.{Loop, Woke, Runs, start, turn}
use acter.Actor.Turn.Paced.{Unfollowed, Runs-paced}
use acter.Actor.Turn.Armed.{Runs-armed}

abbrev word : Text
word = b'o' ∷ b'k' ∷ []

abbrev row : Rendered
row = record { line = 3; revision = LineRevision.appended; text = word; prompt = false; runs = [] }

abbrev redrawn : Rendered
redrawn = record row { revision = LineRevision.rewritten; text = b'n' ∷ [] }

abbrev bold_row : Rendered
bold_row = record row {
  runs = record { start = 0; len = 2; style = record default_style { bold = true } } ∷ [];
}

abbrev unwritten : Shown
unwritten = record { text = []; runs = []; prompt = false }

abbrev printed : ActiveCommand
printed = record (new_command 7 0) { unrendered = row ∷ []; render_armed = true }

abbrev busy : SessionActor
busy = record (new default_config) { active = some printed }

abbrev hushed : SessionActor
hushed = record busy { self_talk = true }

apply-Buffered_example : Buffered printed (apply (flush auto) busy)
apply-Buffered_example = apply-Buffered auto busy printed refl

abbrev more : SessionInput
more = SessionInput.output 4 LineRevision.appended word true false []

handle-only_failures_example :
    (only_failures (handle more 9 hushed).1 ≡ true)
    × (((handle more 9 hushed).0.self_talk ≡ true) ⊎ (more ≡ SessionInput.self_talk false))
handle-only_failures_example = handle-only_failures more 9 hushed refl

abbrev unread : SessionInput
unread = SessionInput.output 3 LineRevision.appended word false false []

abbrev begun : Loop
begun = (turn (Woke.input (SessionInput.command_started 7 none)) 0 (start default_config)).0

abbrev filled : Loop
filled = (turn (Woke.input unread) 5 begun).0

abbrev sent : List SessionEvent
sent =
    ([] ++ (turn (Woke.input (SessionInput.command_started 7 none)) 0 (start default_config)).1)
    ++ (turn (Woke.input unread) 5 begun).1

two_turns : Runs (start default_config) filled sent
two_turns =
    Runs.next (Woke.input unread) 5
      (Runs.next (Woke.input (SessionInput.command_started 7 none)) 0 Runs.here tt refl refl) tt
      refl refl

filled_active : filled.actor.active ≡ some printed
unfolding turn handle render
filled_active = refl

Runs-armed_example : (due : Duration) × (filled.render_timer ≡ some due)
Runs-armed_example =
    Runs-armed default_config filled sent printed two_turns filled_active (λ h. ground arith)

abbrev spoken_loop : Loop
spoken_loop = (turn (Woke.input more) 5 begun).0

abbrev spoken_sent : List SessionEvent
spoken_sent =
    ([] ++ (turn (Woke.input (SessionInput.command_started 7 none)) 0 (start default_config)).1)
    ++ (turn (Woke.input more) 5 begun).1

spoken_turns : Runs (start default_config) spoken_loop spoken_sent
spoken_turns =
    Runs.next (Woke.input more) 5
      (Runs.next (Woke.input (SessionInput.command_started 7 none)) 0 Runs.here tt refl refl) tt
      refl refl

abbrev speaking : ActiveCommand
speaking = record (new_command 7 0) {
  pacing = record fresh { last_output_at = 5; continuous_since = 0 };
  unrendered = record row { line = 4 } ∷ [];
  unspoken = push empty word default_config;
  render_armed = true;
  last_line = some 4;
}

speaking_active : spoken_loop.actor.active ≡ some speaking
unfolding turn handle render on_output measure lines
speaking_active = refl

unspoken_word : is_empty (size (push empty word default_config)) ≡ false
unfolding size push count_newlines ends_in_newline measure trimmed_chars lines trim_end
    is_whitespace
unspoken_word = refl

Unfollowed-turns : Unfollowed spoken_turns
unfolding Unfollowed spoken_turns
Unfollowed-turns = ((λ h. ground arith), ((λ h. ground arith), tt))

Runs-paced_example : (due : Duration) × (spoken_loop.pacing_timer ≡ some due)
Runs-paced_example =
    Runs-paced default_config spoken_loop spoken_sent speaking spoken_turns Unfollowed-turns
      speaking_active unspoken_word refl
