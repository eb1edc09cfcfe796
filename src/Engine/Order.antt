-- ===== src/Engine/Order.antt =====
-- The signals that the engine returns are those of the bytes, however the bytes are cut into reads.
use acter.Prelude.{◌≡◌, refl, sym, ap, ◌∙◌, ℕ, List, [], ◌∷◌, ◌++◌, Text}
use mathlib.Core.List.{append_assoc}
use acter.Entity.{TerminalItem}
use acter.Extractor.Extract.{settle_and_forget, reanchor}
use acter.Engine.{
  Emulator, Engine, extracting, noticed, advance_from, advance, resize, with_staging_rows,
  new_engine,
}
use acter.Engine.Reads.{Use, use_one, use_all}
use acter.Engine.Quiet.{signals_of, signals_of-append}
use acter.Engine.Silent.{IsQuiet-settle_and_forget}
use acter.Engine.Told.{sniffed, Tells-advance_from}

module _ (em : Emulator) (gap : Text) where
  sniffed-append :
      (p : em.Parser) (xs ys : List ℕ)
      → sniffed em gap p (xs ++ ys) ≡ (
        (sniffed em gap (sniffed em gap p xs).0 ys).0,
        (sniffed em gap p xs).1 ++ (sniffed em gap (sniffed em gap p xs).0 ys).1,
      )
  unfolding sniffed
  sniffed-append p [] ys = refl
  sniffed-append p (x ∷ xs) ys =
      let (q, calls) = em.sniff x p in
      let (r, ss) = sniffed em gap q xs in
      let (last, ts) = sniffed em gap r ys in
      ap (λ t. (t.0, noticed calls ++ t.1)) (sniffed-append q xs ys)
      ∙ ap (λ t. (last, t)) (sym (append_assoc (noticed calls) ss ts))

  -- The bytes of every read, in order
  unfoldable pub bytes_of : List (Use em gap) → List ℕ
  bytes_of [] = []
  bytes_of (Use.advanced bytes ∷ us) = bytes ++ bytes_of us
  bytes_of (Use.resized columns screen_lines ∷ us) = bytes_of us

  -- As many bytes were sniffed, their signals are returned, and no signal waits.
  record Heard (p : em.Parser) (bytes : List ℕ) (x : Engine em gap × List TerminalItem)
      : Type 0 where
    told : signals_of x.1 ≡ (sniffed em gap p bytes).1
    parsed : x.0.parser ≡ (sniffed em gap p bytes).0
    quiet : signals_of x.0.pending ≡ []

  Heard-advance :
      (bytes : List ℕ) (a : Engine em gap)
      → signals_of a.pending ≡ []
      → Heard a.parser bytes (advance em gap bytes a)
  unfolding advance signals_of
  Heard-advance bytes a h =
      let start = record a { pending = [] } in
      let (b, items) = advance_from em gap [] bytes start in
      let tells = Tells-advance_from em gap bytes [] start in
      record {
        told = signals_of-append a.pending items ∙ rw h tells.told;
        parsed = tells.parsed;
        quiet = ap signals_of tells.waits;
      }

  Heard-resize :
      (columns screen_lines : ℕ) (a : Engine em gap)
      → signals_of a.pending ≡ []
      → Heard a.parser [] (resize em gap columns screen_lines a, [])
  unfolding resize signals_of sniffed reanchor
  Heard-resize columns screen_lines a h =
      let (b, items) = extracting em gap (settle_and_forget (em.grid_of a.term)) a in
      record {
        told = refl;
        parsed = refl;
        quiet =
            signals_of-append a.pending items
            ∙ rw (h, (IsQuiet-settle_and_forget (em.grid_of a.term)).at a.extractor) refl;
      }

  Heard-append :
      (p : em.Parser) (xs ys : List ℕ) (items later : List TerminalItem) (b c : Engine em gap)
      → Heard p xs (b, items)
      → Heard b.parser ys (c, later)
      → Heard p (xs ++ ys) (c, items ++ later)
  Heard-append p xs ys items later b c h k = record {
    told =
        signals_of-append items later ∙ rw (h.told, k.told, h.parsed, sniffed-append p xs ys) refl;
    parsed = k.parsed ∙ rw (h.parsed, sniffed-append p xs ys) refl;
    quiet = k.quiet;
  }

  Heard-use_all :
      (us : List (Use em gap)) (a : Engine em gap)
      → signals_of a.pending ≡ []
      → Heard a.parser (bytes_of us) (use_all em gap us a)
  unfolding use_all use_one bytes_of sniffed signals_of
  Heard-use_all [] a h = record { told = refl; parsed = refl; quiet = h }
  Heard-use_all (Use.advanced bytes ∷ us) a h =
      let (b, items) = advance em gap bytes a in
      let first = Heard-advance bytes a h in
      let (c, later) = use_all em gap us b in
      Heard-append a.parser bytes (bytes_of us) items later b c first
        (Heard-use_all us b first.quiet)
  Heard-use_all (Use.resized columns screen_lines ∷ us) a h =
      let first = Heard-resize columns screen_lines a h in
      Heard-use_all us (resize em gap columns screen_lines a) first.quiet

  -- Over any reads and resizes of a new engine, the markers and the screen switches among the items that
  -- the reads return are, each once and in order, those that the parser finds in the bytes of all the
  -- reads put together: where the bytes are cut into reads, and what the rows are, changes none of them.
  pub signals_of-use_all :
      (columns screen_lines : ℕ) (us : List (Use em gap))
      → signals_of (use_all em gap us (new_engine em gap columns screen_lines)).1
        ≡ (sniffed em gap em.fresh (bytes_of us)).1
  unfolding with_staging_rows signals_of
  signals_of-use_all columns screen_lines us =
      (Heard-use_all us (new_engine em gap columns screen_lines) refl).told
