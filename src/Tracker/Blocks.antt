-- ===== src/Tracker/Blocks.antt =====
-- The events of the tracker bracket command blocks.
use acter.Prelude.{◌≡◌, ◌∙◌, Bool, true, false, Option, none, some, List, [], ◌∷◌, ◌++◌, arith}
use acter.Entity.{TerminalItem, Osc133Marker, ShellMarkers}
use acter.Tracker.{Region, BoundaryEvent, BoundaryTracker, new, observe_item, observe}

-- Reads an event stream as brackets: the open state after it, and `none` where a block starts
-- inside another, ends outside one, or a line is labelled as output outside one.
pub brackets : Bool → List BoundaryEvent → Option Bool
brackets b [] = some b
brackets false (BoundaryEvent.block_started ∷ es) = brackets true es
brackets true (BoundaryEvent.block_started ∷ es) = none
brackets true (BoundaryEvent.block_ended exit ∷ es) = brackets false es
brackets false (BoundaryEvent.block_ended exit ∷ es) = none
brackets false (BoundaryEvent.line Region.output id text revision runs ∷ es) = none
brackets b (e ∷ es) = brackets b es

brackets-append :
    (b c : Bool) (xs ys : List BoundaryEvent)
    → brackets b xs ≡ some c
    → brackets b (xs ++ ys) ≡ brackets c ys
unfolding brackets
brackets-append b c [] ys h = ground arith
brackets-append true c (BoundaryEvent.block_started ∷ es) ys h = ground arith
brackets-append false c (BoundaryEvent.block_started ∷ es) ys h = brackets-append true c es ys h
brackets-append true c (BoundaryEvent.block_ended e ∷ es) ys h = brackets-append false c es ys h
brackets-append false c (BoundaryEvent.block_ended e ∷ es) ys h = ground arith
brackets-append false c (BoundaryEvent.line Region.output i x r rs ∷ es) ys h = ground arith
brackets-append true c (BoundaryEvent.line Region.output i x r rs ∷ es) ys h =
    brackets-append true c es ys h
brackets-append true c (_ ∷ es) ys h = brackets-append true c es ys h
brackets-append false c (_ ∷ es) ys h = brackets-append false c es ys h

pub record IsConsistent (t : BoundaryTracker) : Type 0 where
  pub echo_closed : t.region ≡ Region.command_line → t.block_open ≡ false
  pub output_open : t.region ≡ Region.output → t.block_open ≡ true

observe_item-IsConsistent :
    (i : TerminalItem) (t : BoundaryTracker) → IsConsistent t → IsConsistent (observe_item i t).0
unfolding observe_item
observe_item-IsConsistent (TerminalItem.line i x r rs) t h = ground arith
observe_item-IsConsistent (TerminalItem.marker Osc133Marker.prompt_start) t h = ground arith
observe_item-IsConsistent (TerminalItem.marker Osc133Marker.command_start) t h = ground arith
observe_item-IsConsistent (TerminalItem.marker Osc133Marker.output_start) t h = ground arith
observe_item-IsConsistent (TerminalItem.marker (Osc133Marker.command_end e)) t h = ground arith
observe_item-IsConsistent (TerminalItem.screen_changed s) t h = h

brackets-observe_item :
    (i : TerminalItem) (t : BoundaryTracker)
    → IsConsistent t
    → brackets t.block_open (observe_item i t).1 ≡ some (observe_item i t).0.block_open
unfolding observe_item brackets
brackets-observe_item (TerminalItem.line i x r rs) t h = ground arith
brackets-observe_item (TerminalItem.marker Osc133Marker.prompt_start) t h = ground arith
brackets-observe_item (TerminalItem.marker Osc133Marker.command_start) t h = ground arith
brackets-observe_item (TerminalItem.marker Osc133Marker.output_start) t h = ground arith
brackets-observe_item (TerminalItem.marker (Osc133Marker.command_end e)) t h = ground arith
brackets-observe_item (TerminalItem.screen_changed s) t h = ground arith

pub observe-IsConsistent :
    (t : BoundaryTracker) (items : List TerminalItem)
    → IsConsistent t
    → IsConsistent (observe t items).0
unfolding observe
observe-IsConsistent t [] h = h
observe-IsConsistent t (i ∷ items) h =
    observe-IsConsistent (observe_item i t).0 items (observe_item-IsConsistent i t h)

brackets-observe_from :
    (t : BoundaryTracker) (items : List TerminalItem)
    → IsConsistent t
    → brackets t.block_open (observe t items).1 ≡ some (observe t items).0.block_open
unfolding observe brackets
brackets-observe_from t [] h = ground arith
brackets-observe_from t (i ∷ items) h =
    let u = (observe_item i t).0 in
    brackets-append _ u.block_open (observe_item i t).1 (observe u items).1
      (brackets-observe_item i t h)
    ∙ brackets-observe_from u items (observe_item-IsConsistent i t h)

pub new-IsConsistent : (m : ShellMarkers) → IsConsistent (new m)
unfolding new
new-IsConsistent m = ground arith

-- Whatever the shell and whatever the far end sends, the events of a new tracker are well
-- bracketed: blocks never nest, none ends that is not open, every line labelled as output lies
-- inside an open block, and the tracker's own record of an open block agrees with the stream.
pub brackets-observe :
    (m : ShellMarkers) (items : List TerminalItem)
    → brackets false (observe (new m) items).1 ≡ some (observe (new m) items).0.block_open
unfolding new
brackets-observe m items = brackets-observe_from (new m) items (new-IsConsistent m)
