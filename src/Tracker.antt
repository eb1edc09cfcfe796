-- ===== src/Tracker.antt =====
-- The command-block boundary tracker, crates/acter-core/src/policies/boundary_tracker.rs.
-- A method on `&mut self` that pushes onto `events` returns the tracker and what it pushed.
pub mod Blocks
pub mod Stream
pub mod Marked
use acter.Prelude.{
  ℕ, Bool, true, false, not, ◌||◌, Option, none, some, List, [], ◌∷◌, ◌++◌, Text, ◌==◌,
  if◌then◌else◌,
}
use acter.Entity.{
  LineId, LineRevision, StyleRun, Screen, ExitCode, Osc133Marker, TerminalItem, ShellMarkers,
  marks_output_start,
}

pub data Region : Type 0 where
  unstructured prompt command_line output : Region

pub data BoundaryEvent : Type 0 where
  markers_observed block_started : BoundaryEvent
  line : Region → LineId → Text → LineRevision → List StyleRun → BoundaryEvent
  block_ended : Option ExitCode → BoundaryEvent
  screen_changed : Screen → BoundaryEvent

pub record BoundaryTracker : Type 0 where
  pub region : Region
  pub markers_seen : Bool
  pub markers : ShellMarkers
  pub prompt_row : Option LineId
  pub command_line_row : Option LineId
  pub block_open : Bool

abbrev pub Observed : Type 0
Observed = BoundaryTracker × List BoundaryEvent

unfoldable pub new : ShellMarkers → BoundaryTracker
new m = record {
  region = Region.unstructured;
  markers_seen = false;
  markers = m;
  prompt_row = none;
  command_line_row = none;
  block_open = false;
}

abbrev pub is_prompt : Region → Bool
is_prompt Region.prompt = true
is_prompt _ = false

abbrev pub is_command_line : Region → Bool
is_command_line Region.command_line = true
is_command_line _ = false

abbrev pub is_output : Region → Bool
is_output Region.output = true
is_output _ = false

end_command_line : BoundaryTracker → Observed
end_command_line t =
    if marks_output_start t.markers || not (is_command_line t.region) then (t, []) else (
      record t { command_line_row = none; region = Region.output; block_open = true },
      BoundaryEvent.block_started ∷ [],
    )

-- the `match self.command_line_row` of `observe_row`
claim_row : Option LineId → LineId → BoundaryTracker → Observed
unfolding end_command_line
claim_row none id t = (record t { command_line_row = some id }, [])
claim_row (some row) id t = if row == id then (t, []) else end_command_line t

observe_row : LineId → BoundaryTracker → Observed
unfolding claim_row
observe_row id t =
    if is_prompt t.region
    then (record t { prompt_row = some id }, [])
    else if marks_output_start t.markers || not (is_command_line t.region)
    then (t, [])
    else claim_row t.command_line_row id t

end_open_block : Option ExitCode → BoundaryTracker → Observed
end_open_block exit t =
    if t.block_open
    then (record t { block_open = false }, BoundaryEvent.block_ended exit ∷ [])
    else (t, [])

-- the latch at the head of `observe_marker`
note_marker : BoundaryTracker → Observed
note_marker t =
    if t.markers_seen
    then (t, [])
    else (record t { markers_seen = true }, BoundaryEvent.markers_observed ∷ [])

-- the `match marker` of `observe_marker`
apply_marker : Osc133Marker → BoundaryTracker → Observed
unfolding end_open_block
apply_marker Osc133Marker.prompt_start t =
    let (u, events) = if marks_output_start t.markers then end_open_block none t else (t, []) in
    (record u { region = Region.prompt; prompt_row = none }, events)
apply_marker Osc133Marker.command_start t =
    let (u, events) = end_open_block none t in
    (record u { region = Region.command_line; command_line_row = u.prompt_row }, events)
apply_marker Osc133Marker.output_start t =
    let u = record t { command_line_row = none; region = Region.output } in
    if u.block_open
    then (u, [])
    else (record u { block_open = true }, BoundaryEvent.block_started ∷ [])
apply_marker (Osc133Marker.command_end exit) t =
    if t.block_open
    then (
      record t { block_open = false; region = Region.unstructured },
      BoundaryEvent.block_ended exit ∷ [],
    )
    else (t, [])

observe_marker : Osc133Marker → BoundaryTracker → Observed
unfolding note_marker apply_marker
observe_marker m t =
    let (u, noted) = note_marker t in let (v, applied) = apply_marker m u in (v, noted ++ applied)

-- one turn of the loop of `observe`
observe_item : TerminalItem → BoundaryTracker → Observed
unfolding observe_row end_command_line observe_marker
observe_item (TerminalItem.line id text revision runs) t =
    let (u, events) = observe_row id t in
    (u, events ++ BoundaryEvent.line u.region id text revision runs ∷ [])
observe_item (TerminalItem.marker m) t =
    let (u, ended) = end_command_line t in
    let (v, marked) = observe_marker m u in (v, ended ++ marked)
observe_item (TerminalItem.screen_changed screen) t = (t, BoundaryEvent.screen_changed screen ∷ [])

unfoldable pub observe : BoundaryTracker → List TerminalItem → Observed
unfolding observe_item
observe t [] = (t, [])
observe t (item ∷ items) =
    let (u, events) = observe_item item t in
    let (v, later) = observe u items in (v, events ++ later)
