-- ===== src/Tracker/Stream.antt =====
-- The tracker cuts the stream and does not filter it.
use acter.Prelude.{◌≡◌, refl, ap, ◌∙◌, List, [], ◌∷◌, ◌++◌, arith}
use acter.Entity.{TerminalItem, Osc133Marker}
use acter.Tracker.{BoundaryEvent, BoundaryTracker, observe_item, observe}

-- The items of a batch that are not markers.
pub unmarked : List TerminalItem → List TerminalItem
unmarked [] = []
unmarked (TerminalItem.marker m ∷ is) = unmarked is
unmarked (i ∷ is) = i ∷ unmarked is

-- The items that the events carry, their labels forgotten.
pub relayed : List BoundaryEvent → List TerminalItem
relayed [] = []
relayed (BoundaryEvent.line region id text revision runs ∷ es) =
    TerminalItem.line id text revision runs ∷ relayed es
relayed (BoundaryEvent.screen_changed screen ∷ es) = TerminalItem.screen_changed screen ∷ relayed es
relayed (_ ∷ es) = relayed es

relayed-append : (xs ys : List BoundaryEvent) → relayed (xs ++ ys) ≡ relayed xs ++ relayed ys
unfolding relayed
relayed-append [] ys = refl
relayed-append (BoundaryEvent.line g i x r rs ∷ es) ys =
    ap (λ rest. TerminalItem.line i x r rs ∷ rest) (relayed-append es ys)
relayed-append (BoundaryEvent.screen_changed s ∷ es) ys =
    ap (λ rest. TerminalItem.screen_changed s ∷ rest) (relayed-append es ys)
relayed-append (_ ∷ es) ys = relayed-append es ys

relayed-observe_item :
    (i : TerminalItem) (t : BoundaryTracker) → relayed (observe_item i t).1 ≡ unmarked (i ∷ [])
unfolding observe_item relayed unmarked
relayed-observe_item (TerminalItem.line i x r rs) t = ground arith
relayed-observe_item (TerminalItem.marker Osc133Marker.prompt_start) t = ground arith
relayed-observe_item (TerminalItem.marker Osc133Marker.command_start) t = ground arith
relayed-observe_item (TerminalItem.marker Osc133Marker.output_start) t = ground arith
relayed-observe_item (TerminalItem.marker (Osc133Marker.command_end e)) t = ground arith
relayed-observe_item (TerminalItem.screen_changed s) t = refl

unmarked-cons :
    (i : TerminalItem) (is : List TerminalItem)
    → unmarked (i ∷ is) ≡ unmarked (i ∷ []) ++ unmarked is
unfolding unmarked
unmarked-cons (TerminalItem.marker m) is = refl
unmarked-cons (TerminalItem.line i x r rs) is = refl
unmarked-cons (TerminalItem.screen_changed s) is = refl

-- Lines and screen changes pass through the tracker unchanged, once each and in their order:
-- the events, their region labels and block boundaries forgotten, are the batch without its markers.
pub relayed-observe :
    (t : BoundaryTracker) (items : List TerminalItem) → relayed (observe t items).1 ≡ unmarked items
unfolding observe
relayed-observe t [] = unfold relayed unmarked in refl
relayed-observe t (i ∷ is) =
    let u = (observe_item i t).0 in
    relayed-append (observe_item i t).1 (observe u is).1
    ∙ cc (relayed-observe_item i t, relayed-observe u is, unmarked-cons i is)
