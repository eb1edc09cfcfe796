-- ===== src/Engine/Reads.antt =====
-- The engine over any reads and resizes.
use acter.Prelude.{ℕ, List, [], ◌∷◌, ◌++◌, Text}
use acter.Entity.{TerminalItem}
use acter.Extractor.Emit.Reader.{Reader, read_all, read_all-append, IsShown}
use acter.Extractor.Extract.Read.{nothing, new-IsShown}
use acter.Engine.{Emulator, Engine, advance, resize, with_staging_rows, new_engine, staging}
use acter.Engine.Placed.{Awaits, Awaits-Settled, Good-advance, Awaits-resize}

module _ (em : Emulator) (gap : Text) where
  -- What the session asks of the engine
  pub data Use : Type 0 where
    advanced : List ℕ → Use
    resized : ℕ → ℕ → Use

  unfoldable pub use_one : Use → Engine em gap → Engine em gap × List TerminalItem
  unfolding advance resize
  use_one (Use.advanced bytes) a = advance em gap bytes a
  use_one (Use.resized columns screen_lines) a = (resize em gap columns screen_lines a, [])

  unfoldable pub use_all : List Use → Engine em gap → Engine em gap × List TerminalItem
  unfolding use_one
  use_all [] a = (a, [])
  use_all (u ∷ us) a =
      let (b, items) = use_one u a in let (c, later) = use_all us b in (c, items ++ later)

  Awaits-use_one :
      (u : Use) (r : Reader) (a : Engine em gap)
      → Awaits em gap r a
      → Awaits em gap (read_all (use_one u a).1 r) (use_one u a).0
  unfolding use_one read_all
  Awaits-use_one (Use.advanced bytes) r a h =
      let (b, items) = advance em gap bytes a in
      Awaits-Settled em gap (read_all items r) b (Good-advance em gap bytes r a h)
  Awaits-use_one (Use.resized columns screen_lines) r a h =
      Awaits-resize em gap columns screen_lines r a h

  Awaits-append :
      (xs ys : List TerminalItem) (r : Reader) (a : Engine em gap)
      → Awaits em gap (read_all ys (read_all xs r)) a
      → Awaits em gap (read_all (xs ++ ys) r) a
  Awaits-append xs ys r a h = rw (read_all-append xs ys r) h

  Awaits-use_all :
      (us : List Use) (r : Reader) (a : Engine em gap)
      → Awaits em gap r a
      → Awaits em gap (read_all (use_all us a).1 r) (use_all us a).0
  unfolding use_all read_all
  Awaits-use_all [] r a h = h
  Awaits-use_all (u ∷ us) r a h =
      let (b, items) = use_one u a in
      let (c, later) = use_all us b in
      Awaits-append items later r c
        (Awaits-use_all us (read_all items r) b (Awaits-use_one u r a h))

  -- Over any reads and resizes of a new engine, whatever the emulator makes of the bytes and wherever
  -- the markers and screen switches fall, a reader of the items that the reads returned, followed by
  -- those that wait for the next read, has for each live row exactly the text that the extractor
  -- records, no two live rows share an id, and nothing was sent of an id not yet given out.
  pub use_all-IsShown :
      (columns screen_lines : ℕ) (us : List Use)
      → let (a, items) = use_all us (new_engine em gap columns screen_lines) in
        IsShown (read_all a.pending (read_all items nothing)) a.extractor
  unfolding with_staging_rows read_all
  use_all-IsShown columns screen_lines us =
      (Awaits-use_all us nothing (new_engine em gap columns screen_lines)
        (record { shown = new-IsShown staging })).shown
