-- ===== src/Tests/Tracking.antt =====
-- The tracker on the stream of two commands, with a marker left out.
use acter.Prelude.{◌≡◌, false, some, List, [], ◌∷◌, pos, arith, if◌then◌else◌}
use acter.Entity.{TerminalItem, LineRevision, Osc133Marker, ShellMarkers}
use acter.Tracker.{Region, is_output, new, observe}
use acter.Tracker.Blocks.{brackets, brackets-observe}
use acter.Tracker.Stream.{relayed, unmarked, relayed-observe}
use acter.Tracker.Marked.{
  integrations, has_marker, integrations-observe, block_open-observe, regions, regions-observe_echo,
}

abbrev cycle : List TerminalItem
cycle =
    TerminalItem.marker Osc133Marker.prompt_start
    ∷ TerminalItem.line 1 (b'$' ∷ []) LineRevision.appended []
    ∷ TerminalItem.marker Osc133Marker.command_start
    ∷ TerminalItem.line 1 (b'l' ∷ b's' ∷ []) LineRevision.appended []
    ∷ TerminalItem.marker Osc133Marker.output_start
    ∷ TerminalItem.line 2 (b'a' ∷ []) LineRevision.appended []
    ∷ TerminalItem.marker Osc133Marker.prompt_start
    ∷ TerminalItem.marker (Osc133Marker.command_end (some (pos 0)))
    ∷ []

brackets-observe_example :
    brackets false (observe (new ShellMarkers.full) cycle).1
    ≡ some (observe (new ShellMarkers.full) cycle).0.block_open
brackets-observe_example = brackets-observe ShellMarkers.full cycle

relayed-observe_example : relayed (observe (new ShellMarkers.full) cycle).1 ≡ unmarked cycle
relayed-observe_example = relayed-observe (new ShellMarkers.full) cycle

integrations-observe_example :
    integrations (observe (new ShellMarkers.full) cycle).1 ≡ (if has_marker cycle then 1 else 0)
integrations-observe_example = integrations-observe ShellMarkers.full cycle

block_open-observe_example :
    (observe (new ShellMarkers.full) cycle).0.block_open
    ≡ is_output (observe (new ShellMarkers.full) cycle).0.region
block_open-observe_example = block_open-observe cycle

regions-observe_echo_example :
    regions
      (observe (new ShellMarkers.prompt_and_command_line) (
        TerminalItem.marker Osc133Marker.prompt_start
        ∷ TerminalItem.line 1 (b'>' ∷ []) LineRevision.appended []
        ∷ TerminalItem.marker Osc133Marker.command_start
        ∷ TerminalItem.line 1 (b'd' ∷ []) LineRevision.appended []
        ∷ TerminalItem.line 2 (b'o' ∷ []) LineRevision.appended []
        ∷ [])).1
    ≡ Region.prompt ∷ Region.command_line ∷ Region.output ∷ []
unfolding new
regions-observe_echo_example =
    regions-observe_echo (new ShellMarkers.prompt_and_command_line) 1 2 (b'>' ∷ []) (b'd' ∷ [])
      (b'o' ∷ []) LineRevision.appended LineRevision.appended LineRevision.appended [] [] []
      (ground arith) (ground arith) (omega arith)
