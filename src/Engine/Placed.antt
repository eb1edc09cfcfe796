-- ===== src/Engine/Placed.antt =====
-- A reader of what the engine returns has the text of its rows.
use acter.Prelude.{◌≡◌, refl, ℕ, max, Option, none, some, List, [], ◌∷◌, ◌++◌, Text}
use acter.Entity.{Osc133Marker, Screen, TerminalItem}
use acter.Extractor.{Grid}
use acter.Extractor.Emit.{Do}
use acter.Extractor.Emit.Reader.{
  Reader, read_item, read_all, read_all-append, IsShown, IsShown-append, Keeps, Keeps-skip,
}
use acter.Extractor.Extract.{settle_and_forget, reanchor}
use acter.Extractor.Extract.Read.{
  Keeps-extract, Keeps-settle_block, Keeps-settle_and_forget, Keeps-reanchor, Keeps-reanchor_to_top,
}
use acter.Engine.{
  Emulator, Signal, Engine, marker_settles, anchoring, extracting, feeding, extract_now, place,
  place_all, signalled, advance_from, advance, resize, noticed,
}

Keeps-marker_settles : (m : Osc133Marker) (grid : Grid) → Keeps (marker_settles m grid)
Keeps-marker_settles (Osc133Marker.command_end exit) grid = Keeps-settle_block grid
Keeps-marker_settles Osc133Marker.prompt_start grid = Keeps-skip
Keeps-marker_settles Osc133Marker.command_start grid = Keeps-skip
Keeps-marker_settles Osc133Marker.output_start grid = Keeps-skip

Keeps-anchoring : (o : Option Screen) (grid : Grid) → Keeps (anchoring o grid)
Keeps-anchoring none grid = Keeps-skip
Keeps-anchoring (some Screen.alternate) grid = Keeps-reanchor_to_top grid
Keeps-anchoring (some Screen.normal) grid = Keeps-reanchor grid

module _ (em : Emulator) (gap : Text) where
  -- The engine has returned all that it had, and the reader has what the extractor records.
  pub record Settled (r : Reader) (a : Engine em gap) : Type 0 where
    pub none_pending : a.pending ≡ []
    pub shown : IsShown r a.extractor

  abbrev pub Good : Reader → Engine em gap × List TerminalItem → Type 0
  Good r (b, items) = Settled (read_all items r) b

  Good-append :
      (r : Reader) (xs ys : List TerminalItem) (a : Engine em gap)
      → Settled (read_all ys (read_all xs r)) a
      → Good r (a, xs ++ ys)
  Good-append r xs ys a h = rw (read_all-append xs ys r) h

  Good-extracting :
      (m : Do) (r : Reader) (a : Engine em gap)
      → Keeps m
      → Settled r a
      → Good r (extracting em gap m a)
  Good-extracting m r a k h = record {
    none_pending = h.none_pending;
    shown = k.at r a.extractor h.shown;
  }

  Good-extract_now : (r : Reader) (a : Engine em gap) → Settled r a → Good r (extract_now em gap a)
  unfolding extract_now
  Good-extract_now r a h = record {
    none_pending = h.none_pending;
    shown = (Keeps-extract gap (em.grid_of a.term)).at r a.extractor h.shown;
  }

  Settled-feeding :
      (bytes : List ℕ) (r : Reader) (a : Engine em gap)
      → Settled r a
      → Settled r (feeding em gap bytes a)
  Settled-feeding bytes r a h = record { none_pending = h.none_pending; shown = h.shown }

  Good-place :
      (s : Signal) (o : Option Screen) (r : Reader) (a : Engine em gap)
      → Settled r a
      → Good r (place em gap s o a).0
  unfolding place read_all read_item
  Good-place (Signal.marker m) o r a h =
      let (b, items) = extracting em gap (marker_settles m (em.grid_of a.term)) a in
      Good-append r items (TerminalItem.marker m ∷ []) b (
        Good-extracting (marker_settles m (em.grid_of a.term)) r a
          (Keeps-marker_settles m (em.grid_of a.term)) h)
  Good-place (Signal.screen_changed screen) o r a h =
      let (b, items) = extracting em gap (settle_and_forget (em.grid_of a.term)) a in
      Good-append r items (TerminalItem.screen_changed screen ∷ []) b (
        Good-extracting (settle_and_forget (em.grid_of a.term)) r a
          (Keeps-settle_and_forget (em.grid_of a.term)) h)

  Good-place_all :
      (signals : List Signal) (o : Option Screen) (r : Reader) (a : Engine em gap)
      → Settled r a
      → Good r (place_all em gap signals o a).0
  unfolding place_all read_all
  Good-place_all [] o r a h = h
  Good-place_all (s ∷ ss) o r a h =
      let ((b, items), screen) = place em gap s o a in
      let ((c, later), last) = place_all em gap ss screen b in
      Good-append r items later c
        (Good-place_all ss screen (read_all items r) b (Good-place s o r a h))

  Good-signalled :
      (segment : List ℕ) (byte : ℕ) (signals : List Signal) (r : Reader) (a : Engine em gap)
      → Settled r a
      → Good r (signalled em gap segment byte signals a)
  unfolding signalled
  Good-signalled segment byte signals r a h =
      let (b, printed) = extract_now em gap (feeding em gap segment a) in
      let good = Good-extract_now r (feeding em gap segment a) (Settled-feeding segment r a h) in
      let ((c, placed), renumbered) = place_all em gap signals none b in
      let placed_good = Good-place_all signals none (read_all printed r) b good in
      let d = feeding em gap (byte ∷ []) c in
      let then = read_all placed (read_all printed r) in
      let (f, none_of) = extracting em gap (anchoring renumbered (em.grid_of d.term)) d in
      Good-append r printed (placed ++ none_of) f (
        Good-append (read_all printed r) placed none_of f (
          Good-extracting (anchoring renumbered (em.grid_of d.term)) then d
            (Keeps-anchoring renumbered (em.grid_of d.term))
            (Settled-feeding (byte ∷ []) then c placed_good)))

  Good-either :
      (signals : List Signal) (r : Reader) (x : Engine em gap × List TerminalItem)
      (y : Signal → List Signal → Engine em gap × List TerminalItem)
      → Good r x
      → ((s : Signal) (ss : List Signal) → Good r (y s ss))
      → Good r (elim signals [ [] ↦ x | s ∷ ss ↦ y s ss ])
  Good-either [] r x y h k = h
  Good-either (s ∷ ss) r x y h k = k s ss

  Settled-sniffed :
      (parser : em.Parser) (r : Reader) (a : Engine em gap)
      → Settled r a
      → Settled r (record a { parser = parser })
  Settled-sniffed parser r a h = record { none_pending = h.none_pending; shown = h.shown }

  Good-advance_from :
      (bytes segment : List ℕ) (r : Reader) (a : Engine em gap)
      → Settled r a
      → Good r (advance_from em gap segment bytes a)
  unfolding advance_from
  Good-advance_from [] segment r a h =
      Good-extract_now r (feeding em gap segment a) (Settled-feeding segment r a h)
  Good-advance_from (byte ∷ bytes) segment r a h =
      let (parser, calls) = em.sniff byte a.parser in
      let sniffed = record a { parser = parser } in
      let still = Settled-sniffed parser r a h in
      Good-either (noticed calls) r (advance_from em gap (segment ++ byte ∷ []) bytes sniffed)
        (λ s ss.
          let (b, items) = signalled em gap segment byte (s ∷ ss) sniffed in
          let (c, later) = advance_from em gap [] bytes b in (c, items ++ later))
        (Good-advance_from bytes (segment ++ byte ∷ []) r sniffed still)
        (λ s ss.
          let (b, items) = signalled em gap segment byte (s ∷ ss) sniffed in
          let (c, later) = advance_from em gap [] bytes b in
          Good-append r items later c (
            Good-advance_from bytes [] (read_all items r) b
              (Good-signalled segment byte (s ∷ ss) r sniffed still)))

  -- With the items that wait for the next read, the reader has what the extractor records.
  pub record Awaits (r : Reader) (a : Engine em gap) : Type 0 where
    pub shown : IsShown (read_all a.pending r) a.extractor

  pub Awaits-Settled : (r : Reader) (a : Engine em gap) → Settled r a → Awaits r a
  unfolding read_all
  Awaits-Settled r a h = record { shown = rw h.none_pending h.shown }

  Settled-taken :
      (r : Reader) (a : Engine em gap)
      → Awaits r a
      → Settled (read_all a.pending r) (record a { pending = [] })
  Settled-taken r a h = record { none_pending = refl; shown = h.shown }

  pub Good-advance :
      (bytes : List ℕ) (r : Reader) (a : Engine em gap)
      → Awaits r a
      → Good r (advance em gap bytes a)
  unfolding advance
  Good-advance bytes r a h =
      let start = record a { pending = [] } in
      let (b, items) = advance_from em gap [] bytes start in
      Good-append r a.pending items b
        (Good-advance_from bytes [] (read_all a.pending r) start (Settled-taken r a h))

  pub Awaits-resize :
      (columns screen_lines : ℕ) (r : Reader) (a : Engine em gap)
      → Awaits r a
      → Awaits r (resize em gap columns screen_lines a)
  unfolding resize reanchor read_all
  Awaits-resize columns screen_lines r a h =
      let (b, items) = extracting em gap (settle_and_forget (em.grid_of a.term)) a in
      let grid = em.grid_of (em.resize (max columns 1) (max screen_lines 1) a.term) in
      let waiting = read_all a.pending r in
      record {
        shown = IsShown-append a.pending items r (reanchor grid b.extractor).0 (
            (Keeps-reanchor grid).at (read_all items waiting) b.extractor
              ((Keeps-settle_and_forget (em.grid_of a.term)).at waiting a.extractor h.shown));
      }
