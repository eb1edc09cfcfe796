-- ===== src/Engine/Told.antt =====
-- The signals among the items of one read.
use acter.Prelude.{◌≡◌, refl, ap, ◌∙◌, ℕ, Option, none, some, List, [], ◌∷◌, ◌++◌, Text}
use mathlib.Core.List.{append-nil}
use acter.Entity.{Osc133Marker, Screen, TerminalItem}
use acter.Extractor.{Grid}
use acter.Extractor.Emit.{Do}
use acter.Extractor.Extract.{settle_and_forget, reanchor, reanchor_to_top}
use acter.Engine.{
  Emulator, Signal, Engine, marker_settles, anchoring, extracting, feeding, noticed, extract_now,
  place, place_all, signalled, advance_from,
}
use acter.Engine.Quiet.{signals_of, signals_of-append, IsQuiet, IsQuiet-skip}
use acter.Engine.Silent.{IsQuiet-extract, IsQuiet-settle_block, IsQuiet-settle_and_forget}

IsQuiet-marker_settles : (m : Osc133Marker) (grid : Grid) → IsQuiet (marker_settles m grid)
IsQuiet-marker_settles (Osc133Marker.command_end exit) grid = IsQuiet-settle_block grid
IsQuiet-marker_settles Osc133Marker.prompt_start grid = IsQuiet-skip
IsQuiet-marker_settles Osc133Marker.command_start grid = IsQuiet-skip
IsQuiet-marker_settles Osc133Marker.output_start grid = IsQuiet-skip

IsQuiet-anchoring : (o : Option Screen) (grid : Grid) → IsQuiet (anchoring o grid)
unfolding signals_of reanchor reanchor_to_top
IsQuiet-anchoring none grid = IsQuiet-skip
IsQuiet-anchoring (some Screen.alternate) grid = record { at = λ e. refl }
IsQuiet-anchoring (some Screen.normal) grid = record { at = λ e. refl }

module _ (em : Emulator) (gap : Text) where
  -- The parser after the bytes, and the signals of what it calls on the way
  unfoldable pub sniffed : em.Parser → List ℕ → em.Parser × List Signal
  unfolding noticed
  sniffed p [] = (p, [])
  sniffed p (byte ∷ bytes) =
      let (q, calls) = em.sniff byte p in
      let (last, later) = sniffed q bytes in (last, noticed calls ++ later)

  -- The signals among the items, and the parser; `waiting` still waits.
  pub record Tells (signals : List Signal) (parser : em.Parser) (waiting : List TerminalItem)
      (x : Engine em gap × List TerminalItem) : Type 0 where
    pub told : signals_of x.1 ≡ signals
    pub parsed : x.0.parser ≡ parser
    pub waits : x.0.pending ≡ waiting

  Tells-append :
      (xs ys : List TerminalItem) (ss ts : List Signal) (parser : em.Parser)
      (waiting : List TerminalItem) (c : Engine em gap)
      → signals_of xs ≡ ss
      → signals_of ys ≡ ts
      → c.parser ≡ parser
      → c.pending ≡ waiting
      → Tells (ss ++ ts) parser waiting (c, xs ++ ys)
  Tells-append xs ys ss ts parser waiting c h k p w = record {
    told = signals_of-append xs ys ∙ rw (h, k) refl;
    parsed = p;
    waits = w;
  }

  Tells-extracting :
      (m : Do) (a : Engine em gap) → IsQuiet m → Tells [] a.parser a.pending (extracting em gap m a)
  Tells-extracting m a h = record { told = h.at a.extractor; parsed = refl; waits = refl }

  Tells-extract_now : (a : Engine em gap) → Tells [] a.parser a.pending (extract_now em gap a)
  unfolding extract_now
  Tells-extract_now a = record {
    told = (IsQuiet-extract gap (em.grid_of a.term)).at a.extractor;
    parsed = refl;
    waits = refl;
  }

  Tells-place :
      (s : Signal) (o : Option Screen) (a : Engine em gap)
      → Tells (s ∷ []) a.parser a.pending (place em gap s o a).0
  unfolding place signals_of
  Tells-place (Signal.marker m) o a =
      let (b, items) = extracting em gap (marker_settles m (em.grid_of a.term)) a in
      Tells-append items (TerminalItem.marker m ∷ []) [] (Signal.marker m ∷ []) a.parser a.pending b
        ((IsQuiet-marker_settles m (em.grid_of a.term)).at a.extractor) refl refl refl
  Tells-place (Signal.screen_changed screen) o a =
      let (b, items) = extracting em gap (settle_and_forget (em.grid_of a.term)) a in
      Tells-append items (TerminalItem.screen_changed screen ∷ []) []
        (Signal.screen_changed screen ∷ []) a.parser a.pending b
        ((IsQuiet-settle_and_forget (em.grid_of a.term)).at a.extractor) refl refl refl

  Tells-place_all :
      (signals : List Signal) (o : Option Screen) (a : Engine em gap)
      → Tells signals a.parser a.pending (place_all em gap signals o a).0
  unfolding place_all signals_of
  Tells-place_all [] o a = record { told = refl; parsed = refl; waits = refl }
  Tells-place_all (s ∷ ss) o a =
      let ((b, items), screen) = place em gap s o a in
      let first = Tells-place s o a in
      let ((c, later), last) = place_all em gap ss screen b in
      let rest = Tells-place_all ss screen b in
      Tells-append items later (s ∷ []) ss a.parser a.pending c first.told rest.told
        (rest.parsed ∙ first.parsed) (rest.waits ∙ first.waits)

  Tells-signalled :
      (segment : List ℕ) (byte : ℕ) (signals : List Signal) (a : Engine em gap)
      → Tells signals a.parser a.pending (signalled em gap segment byte signals a)
  unfolding signalled
  Tells-signalled segment byte signals a =
      let (b, printed) = extract_now em gap (feeding em gap segment a) in
      let first = Tells-extract_now (feeding em gap segment a) in
      let ((c, placed), renumbered) = place_all em gap signals none b in
      let middle = Tells-place_all signals none b in
      let d = feeding em gap (byte ∷ []) c in
      let m = anchoring renumbered (em.grid_of d.term) in
      let (f, none_of) = extracting em gap m d in
      let quiet = (IsQuiet-anchoring renumbered (em.grid_of d.term)).at d.extractor in
      Tells-append printed (placed ++ none_of) [] signals a.parser a.pending f first.told
        (signals_of-append placed none_of ∙ rw (middle.told, quiet) (append-nil signals))
        (middle.parsed ∙ first.parsed) (middle.waits ∙ first.waits)

  Tells-either :
      (signals : List Signal) (ts : List Signal) (parser : em.Parser) (waiting : List TerminalItem)
      (x : Engine em gap × List TerminalItem)
      (y : Signal → List Signal → Engine em gap × List TerminalItem)
      → Tells ts parser waiting x
      → ((s : Signal) (ss : List Signal) → Tells ((s ∷ ss) ++ ts) parser waiting (y s ss))
      → Tells (signals ++ ts) parser waiting (elim signals [ [] ↦ x | s ∷ ss ↦ y s ss ])
  Tells-either [] ts parser waiting x y h k = h
  Tells-either (s ∷ ss) ts parser waiting x y h k = k s ss

  pub Tells-advance_from :
      (bytes segment : List ℕ) (a : Engine em gap)
      → Tells
          (sniffed a.parser bytes).1
          (sniffed a.parser bytes).0
          a.pending
          (advance_from em gap segment bytes a)
  unfolding advance_from sniffed
  Tells-advance_from [] segment a = Tells-extract_now (feeding em gap segment a)
  Tells-advance_from (byte ∷ bytes) segment a =
      let (parser, calls) = em.sniff byte a.parser in
      let next = record a { parser = parser } in
      let (last, ts) = sniffed parser bytes in
      Tells-either (noticed calls) ts last a.pending
        (advance_from em gap (segment ++ byte ∷ []) bytes next)
        (λ s ss.
          let (b, items) = signalled em gap segment byte (s ∷ ss) next in
          let (c, later) = advance_from em gap [] bytes b in (c, items ++ later))
        (Tells-advance_from bytes (segment ++ byte ∷ []) next)
        (λ s ss.
          let (b, items) = signalled em gap segment byte (s ∷ ss) next in
          let first = Tells-signalled segment byte (s ∷ ss) next in
          let (c, later) = advance_from em gap [] bytes b in
          let rest = Tells-advance_from bytes [] b in
          Tells-append items later (s ∷ ss) ts last a.pending c first.told
            (rest.told ∙ ap (λ p. (sniffed p bytes).1) first.parsed)
            (rest.parsed ∙ ap (λ p. (sniffed p bytes).0) first.parsed) (rest.waits ∙ first.waits))
