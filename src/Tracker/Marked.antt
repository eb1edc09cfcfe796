-- ===== src/Tracker/Marked.antt =====
-- What the markers of a shell decide: the latch of shell integration, blocks of a shell that marks
-- its own output, and the echo of one that does not.
use acter.Prelude.{
  ℕ, suc, ◌+◌, ◌≡◌, refl, ◌≢◌, Bool, true, false, ◌||◌, List, [], ◌∷◌, ◌++◌, arith, Text,
  if◌then◌else◌,
}
use acter.Entity.{TerminalItem, LineId, LineRevision, StyleRun, Osc133Marker, ShellMarkers}
use acter.Tracker.{Region, BoundaryEvent, BoundaryTracker, is_output, new, observe_item, observe}

pub has_marker : List TerminalItem → Bool
has_marker [] = false
has_marker (TerminalItem.marker m ∷ is) = true
has_marker (_ ∷ is) = has_marker is

-- How often the stream says that shell integration is present.
pub integrations : List BoundaryEvent → ℕ
integrations [] = 0
integrations (BoundaryEvent.markers_observed ∷ es) = suc (integrations es)
integrations (_ ∷ es) = integrations es

integrations-append :
    (xs ys : List BoundaryEvent) → integrations (xs ++ ys) ≡ integrations xs + integrations ys
unfolding integrations
integrations-append [] ys = omega arith
integrations-append (BoundaryEvent.markers_observed ∷ es) ys =
    omega (arith, integrations-append es ys)
integrations-append (_ ∷ es) ys = integrations-append es ys

abbrev once : Bool → ℕ
once b = if b then 1 else 0

integrations-observe_item :
    (i : TerminalItem) (t : BoundaryTracker)
    → ((observe_item i t).0.markers_seen ≡ (t.markers_seen || has_marker (i ∷ [])))
      × (integrations (observe_item i t).1 + once t.markers_seen
          ≡ once (observe_item i t).0.markers_seen)
unfolding observe_item integrations has_marker
integrations-observe_item (TerminalItem.line i x r rs) t = ground arith
integrations-observe_item (TerminalItem.marker Osc133Marker.prompt_start) t = ground arith
integrations-observe_item (TerminalItem.marker Osc133Marker.command_start) t = ground arith
integrations-observe_item (TerminalItem.marker Osc133Marker.output_start) t = ground arith
integrations-observe_item (TerminalItem.marker (Osc133Marker.command_end e)) t = ground arith
integrations-observe_item (TerminalItem.screen_changed s) t = ground arith

has_marker-cons :
    (i : TerminalItem) (is : List TerminalItem)
    → has_marker (i ∷ is) ≡ (has_marker (i ∷ []) || has_marker is)
unfolding has_marker
has_marker-cons (TerminalItem.marker m) is = refl
has_marker-cons (TerminalItem.line i x r rs) is = refl
has_marker-cons (TerminalItem.screen_changed s) is = refl

integrations-observe_from :
    (t : BoundaryTracker) (items : List TerminalItem)
    → ((observe t items).0.markers_seen ≡ (t.markers_seen || has_marker items))
      × (integrations (observe t items).1 + once t.markers_seen
          ≡ once (observe t items).0.markers_seen)
unfolding observe
integrations-observe_from t [] = unfold has_marker integrations in ground arith
integrations-observe_from t (i ∷ is) =
    let u = (observe_item i t).0 in
    ground (
      arith,
      integrations-observe_item i t,
      integrations-observe_from u is,
      has_marker-cons i is,
      integrations-append (observe_item i t).1 (observe u is).1,
    )

-- The first marker of a session is announced as shell integration, and nothing else is: over any
-- stream a new tracker says so once if the stream has a marker, and never if it has none.
pub integrations-observe :
    (m : ShellMarkers) (items : List TerminalItem)
    → integrations (observe (new m) items).1 ≡ (if has_marker items then 1 else 0)
unfolding new
integrations-observe m items = ground (arith, integrations-observe_from (new m) items)

pub record IsMarking (t : BoundaryTracker) : Type 0 where
  pub marks : t.markers ≡ ShellMarkers.full
  pub same : t.block_open ≡ is_output t.region

observe_item-IsMarking :
    (i : TerminalItem) (t : BoundaryTracker) → IsMarking t → IsMarking (observe_item i t).0
unfolding observe_item
observe_item-IsMarking (TerminalItem.line i x r rs) t h = ground arith
observe_item-IsMarking (TerminalItem.marker Osc133Marker.prompt_start) t h = ground arith
observe_item-IsMarking (TerminalItem.marker Osc133Marker.command_start) t h = ground arith
observe_item-IsMarking (TerminalItem.marker Osc133Marker.output_start) t h = ground arith
observe_item-IsMarking (TerminalItem.marker (Osc133Marker.command_end e)) t h = ground arith
observe_item-IsMarking (TerminalItem.screen_changed s) t h = h

observe-IsMarking :
    (t : BoundaryTracker) (items : List TerminalItem) → IsMarking t → IsMarking (observe t items).0
unfolding observe
observe-IsMarking t [] h = h
observe-IsMarking t (i ∷ is) h =
    observe-IsMarking (observe_item i t).0 is (observe_item-IsMarking i t h)

-- For a shell that marks everything, a block is open exactly while the region is the output region.
pub block_open-observe :
    (items : List TerminalItem)
    → let t = (observe (new ShellMarkers.full) items).0 in t.block_open ≡ is_output t.region
unfolding new
block_open-observe items =
    (observe-IsMarking (new ShellMarkers.full) items (record { marks = refl; same = refl })).same

pub regions : List BoundaryEvent → List Region
regions [] = []
regions (BoundaryEvent.line region id text revision runs ∷ es) = region ∷ regions es
regions (_ ∷ es) = regions es

-- For a shell that does not mark where output begins, and a tracker in the unstructured region: of
-- a prompt, the echo on the prompt's own row and a line on another row, the first is labelled as the
-- prompt, the second as the command line and the third as output.
pub regions-observe_echo :
    (t : BoundaryTracker) (p o : LineId) (prompt_text echo shown : Text) (r r' r'' : LineRevision)
    (runs runs' runs'' : List StyleRun)
    → t.markers ≢ ShellMarkers.full
    → t.region ≡ Region.unstructured
    → p ≢ o
    → regions
        (observe t (
          TerminalItem.marker Osc133Marker.prompt_start
          ∷ TerminalItem.line p prompt_text r runs
          ∷ TerminalItem.marker Osc133Marker.command_start
          ∷ TerminalItem.line p echo r' runs'
          ∷ TerminalItem.line o shown r'' runs''
          ∷ [])).1
      ≡ Region.prompt ∷ Region.command_line ∷ Region.output ∷ []
unfolding observe regions
regions-observe_echo t p o x y z r r' r'' a b c markless fresh apart = ground arith
