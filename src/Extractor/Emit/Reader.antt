-- ===== src/Extractor/Emit/Reader.antt =====
-- What a reader of the items has of each line, and what the extractor takes it to have.
use acter.Prelude.{
  ◌≡◌, ◌≢◌, inl, inr, refl, ◌∙◌, ℕ, ◌≤◌, ◌<◌, Bool, true, false, Bool-cases, if-cases, Option, none,
  some, List, [], ◌∷◌, ◌++◌, Text, ◌==◌, ==_iff, if◌then◌else◌, arith,
}
use mathlib.Core.Option.{some-injective}
use acter.Entity.{LineId, LineRevision, TerminalItem}
use acter.Session.Text.{strip_prefix}
use acter.Extractor.{Styled, Extractor, item}
use acter.Extractor.Lines.{remove, insert}
use acter.Extractor.Lines.Live.{
  AllIds, Other, Distinct, AllIds-map, AllIds-both, AllIds-put, AllIds-remove, Distinct-put,
  Distinct-remove,
}
use acter.Extractor.Emit.{Do, ◌>>◌, skip, given, track}

abbrev pub Reader : Type 0
Reader = LineId → Option Text

-- What the reader has of a line, nothing where no item has named it.
abbrev pub known : Option Text → Text
known none = []
known (some text) = text

abbrev pub revised : LineRevision → Text → Text → Text
revised LineRevision.appended old text = old ++ text
revised _ old text = text

-- An item changes the one line that it names.
unfoldable pub read_item : TerminalItem → Reader → Reader
read_item (TerminalItem.line id text revision runs) r =
    λ x. if x == id then some (revised revision (known (r x)) text) else r x
read_item _ r = r

unfoldable pub read_all : List TerminalItem → Reader → Reader
unfolding read_item
read_all [] r = r
read_all (i ∷ is) r = read_all is (read_item i r)

pub read_all-append :
    (xs ys : List TerminalItem) (r : Reader) → read_all (xs ++ ys) r ≡ read_all ys (read_all xs r)
unfolding read_all
read_all-append [] ys r = refl
read_all-append (i ∷ is) ys r = read_all-append is ys (read_item i r)

pub read_same :
    (id : LineId) (line : Styled) (v : LineRevision) (r : Reader)
    → read_item (item id line v) r id ≡ some (revised v (known (r id)) line.text)
unfolding read_item
read_same id line v r = rw ((==_iff id id).1 refl) refl

pub read_other :
    (id x : LineId) (line : Styled) (v : LineRevision) (r : Reader)
    → x ≢ id
    → read_item (item id line v) r x ≡ r x
unfolding read_item
read_other id x line v r h = elim (Bool-cases (x == id)) [
  | inl e ↦ absurd (h ((==_iff x id).0 e))
  | inr e ↦ rw e refl
]

-- The reader has of a line what the extractor recorded.
abbrev pub Reads : ℕ → Reader → LineId → Text → Type 0
Reads next r id t = (id < next) × (r id ≡ some t)

-- Of every live line the reader has what was recorded, no two lines share an id, and no item has named
-- an id that is not yet given out.
pub record IsShown (r : Reader) (e : Extractor) : Type 0 where
  pub rows : AllIds (Reads e.next_id r) e.lines
  pub distinct : Distinct e.lines
  pub fresh : (id : LineId) → e.next_id ≤ id → r id ≡ none

-- The method sends what makes the reader have what it records.
pub record Keeps (m : Do) : Type 0 where
  pub at : (r : Reader) (e : Extractor) → IsShown r e → IsShown (read_all (m e).1 r) (m e).0

-- The same where the reader has `t` of the line `id`, which is not in the map.
pub record Holds (id : LineId) (t : Option Text) (r : Reader) (e : Extractor) : Type 0 where
  pub is_old : id < e.next_id
  pub is_read : r id ≡ t
  pub is_out : AllIds (Other id) e.lines

pub IsShown-append :
    (xs ys : List TerminalItem) (r : Reader) (e : Extractor)
    → IsShown (read_all ys (read_all xs r)) e
    → IsShown (read_all (xs ++ ys) r) e
IsShown-append xs ys r e h = rw (read_all-append xs ys r) h

pub Keeps->> : {m k : Do} → Keeps m → Keeps k → Keeps (m >> k)
Keeps->> {m} {k} km kk = record {
  at = λ r e h.
      IsShown-append (m e).1 (k (m e).0).1 r (k (m e).0).0
        (kk.at (read_all (m e).1 r) (m e).0 (km.at r e h));
}

pub Keeps-skip : Keeps skip
unfolding read_all
Keeps-skip = record { at = λ r e h. h }

pub Keeps-given : {f : Extractor → Do} → ((e : Extractor) → Keeps (f e)) → Keeps (given f)
Keeps-given k = record { at = λ r e h. (k e).at r e h }

pub Keeps-if : {m k : Do} (b : Bool) → Keeps m → Keeps k → Keeps (if b then m else k)
Keeps-if true h k = h
Keeps-if false h k = k

-- A change of the reader that is only on a line that is not in the map.
pub IsShown-Other :
    (r r' : Reader) (id : LineId) (e : Extractor)
    → ((x : LineId) → x ≢ id → r' x ≡ r x)
    → id < e.next_id
    → AllIds (Other id) e.lines
    → IsShown r e
    → IsShown r' e
IsShown-Other r r' id e same old out h = record {
  rows =
      AllIds-map (λ x t. Reads e.next_id r x t × (x ≢ id)) (Reads e.next_id r') e.lines
        (λ x t k. (k.0.0, same x k.1 ∙ k.0.1))
        (AllIds-both (Reads e.next_id r) (Other id) e.lines h.rows out);
  distinct = h.distinct;
  fresh = λ x le. same x (λ q. omega (arith, q, le, old)) ∙ h.fresh x le;
}

pub IsShown-track :
    (row : ℕ) (id : LineId) (line : Styled) (r : Reader) (e : Extractor)
    → Holds id (some line.text) r e
    → IsShown r e
    → IsShown r (track row (record { id = some id; emitted = line }) e).0
unfolding insert
IsShown-track row id line r e held h = record {
  rows =
      AllIds-put (Reads e.next_id r) row (record { id = some id; emitted = line })
        (remove row e.lines) (held.is_old, held.is_read)
        (AllIds-remove (Reads e.next_id r) row e.lines h.rows);
  distinct =
      Distinct-put row id line (remove row e.lines)
        (AllIds-remove (Other id) row e.lines held.is_out) (Distinct-remove row e.lines h.distinct);
  fresh = h.fresh;
}

pub strip_prefix-append : (p t delta : Text) → strip_prefix p t ≡ some delta → t ≡ p ++ delta
unfolding strip_prefix
strip_prefix-append [] t delta h = some-injective t delta h
strip_prefix-append (p ∷ ps) [] delta h = absurd (ground (arith, h))
strip_prefix-append (p ∷ ps) (c ∷ cs) delta h =
    elim (if-cases (p == c) (strip_prefix ps cs) none (some delta) h) [
      | inl (e, f) ↦ ground (arith, (==_iff p c).0 e, strip_prefix-append ps cs delta f)
      | inr (e, f) ↦ absurd (ground (arith, f))
    ]
