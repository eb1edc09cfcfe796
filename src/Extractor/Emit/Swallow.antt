-- ===== src/Extractor/Emit/Swallow.antt =====
-- The lines that are swallowed as continuations.
use acter.Prelude.{
  ◌≡◌, ◌≢◌, inl, inr, refl, sym, ◌∙◌, ℕ, Bool-cases, Option, none, some, [], ◌∷◌, Text, arith,
}
use acter.Entity.{LineId, LineRevision}
use acter.Extractor.{Styled, no_line, LineMap, item}
use acter.Extractor.Lines.Live.{
  OnId, AllIds, Other, Distinct, OnId-map, AllIds-map, AllIds-both, OnId-both,
}
use acter.Extractor.Emit.{swallow, absorb, is_between, gone_items}
use acter.Extractor.Emit.Reader.{
  Reader, read_item, read_all, read_all-append, read_other, Reads, Keeps,
}

swallow-AllIds :
    (P : LineId → Text → Type 0) (row last : ℕ) (lines : LineMap)
    → AllIds P lines
    → AllIds P (swallow row last lines).0
unfolding AllIds swallow
swallow-AllIds P row last [] h = tt
swallow-AllIds P row last (e ∷ es) (x, xs) = elim (Bool-cases (is_between row last e.row)) [
  | inl gone ↦ rw gone (swallow-AllIds P row last es xs)
  | inr kept ↦ rw kept (x, swallow-AllIds P row last es xs)
]

swallow-Distinct :
    (row last : ℕ) (lines : LineMap) → Distinct lines → Distinct (swallow row last lines).0
unfolding Distinct swallow
swallow-Distinct row last [] h = tt
swallow-Distinct row last (e ∷ es) (x, xs) = elim (Bool-cases (is_between row last e.row)) [
  | inl gone ↦ rw gone (swallow-Distinct row last es xs)
  | inr kept ↦ rw kept (
    OnId-map (λ j u. AllIds (Other j) es) (λ j u. AllIds (Other j) (swallow row last es).0)
        e.tracked.id e.tracked.emitted.text (λ j u h. swallow-AllIds (Other j) row last es h) x,
    swallow-Distinct row last es xs,
  )
]

gone_others :
    (o : Option LineId) (s : Styled) (id : LineId) (r : Reader)
    → OnId (Other id) o s.text
    → read_all (gone_items (record { id = o; emitted = s })) r id ≡ r id
unfolding read_all
gone_others none s id r h = refl
gone_others (some j) s id r h = read_other j id no_line LineRevision.settled r (λ q. h (sym q))

-- A line of another id is left alone.
swallow-others :
    (row last : ℕ) (lines : LineMap) (id : LineId) (r : Reader)
    → AllIds (Other id) lines
    → read_all (swallow row last lines).1 r id ≡ r id
unfolding AllIds swallow read_all
swallow-others row last [] id r h = refl
swallow-others row last (e ∷ es) id r (x, xs) = elim (Bool-cases (is_between row last e.row)) [
  | inl gone ↦
      rw (gone, read_all-append (gone_items e.tracked) (swallow row last es).1 r)
        (swallow-others row last es id (read_all (gone_items e.tracked) r) xs
          ∙ gone_others e.tracked.id e.tracked.emitted id r x)
  | inr kept ↦ rw kept (swallow-others row last es id r xs)
]

gone-Reads :
    (next : ℕ) (o : Option LineId) (s : Styled) (lines : LineMap) (r : Reader)
    → OnId (λ j u. AllIds (Other j) lines) o s.text
    → AllIds (Reads next r) lines
    → AllIds (Reads next (read_all (gone_items (record { id = o; emitted = s })) r)) lines
unfolding read_all
gone-Reads next none s lines r y h = h
gone-Reads next (some j) s lines r y h =
    AllIds-map (λ id t. Reads next r id t × (id ≢ j))
      (Reads next (read_item (item j no_line LineRevision.settled) r)) lines
      (λ id t k. (k.0.0, read_other j id no_line LineRevision.settled r k.1 ∙ k.0.1))
      (AllIds-both (Reads next r) (Other j) lines h y)

swallow-Reads :
    (next row last : ℕ) (lines : LineMap) (r : Reader)
    → AllIds (Reads next r) lines
    → Distinct lines
    → AllIds (Reads next (read_all (swallow row last lines).1 r)) (swallow row last lines).0
unfolding AllIds Distinct swallow read_all
swallow-Reads next row last [] r h k = tt
swallow-Reads next row last (e ∷ es) r (x, xs) (y, ys) =
    elim (Bool-cases (is_between row last e.row)) [
      | inl gone ↦
          rw (gone, read_all-append (gone_items e.tracked) (swallow row last es).1 r)
            (swallow-Reads next row last es (read_all (gone_items e.tracked) r)
              (gone-Reads next e.tracked.id e.tracked.emitted es r y xs) ys)
      | inr kept ↦ rw kept (
        OnId-map (λ id t. Reads next r id t × AllIds (Other id) es)
            (Reads next (read_all (swallow row last es).1 r)) e.tracked.id e.tracked.emitted.text
            (λ id t k. (k.0.0, swallow-others row last es id r k.1 ∙ k.0.1))
            (OnId-both (Reads next r) (λ id t. AllIds (Other id) es) e.tracked.id
              e.tracked.emitted.text x y),
        swallow-Reads next row last es r xs ys,
      )
    ]

pub Keeps-absorb : (row last : ℕ) → Keeps (absorb row last)
unfolding absorb
Keeps-absorb row last = record {
  at = λ r e h. record {
    rows = swallow-Reads e.next_id row last e.lines r h.rows h.distinct;
    distinct = swallow-Distinct row last e.lines h.distinct;
    fresh = λ id le.
        swallow-others row last e.lines id r (
          AllIds-map (Reads e.next_id r) (Other id) e.lines
            (λ j t k q. absurd (omega (arith, k.0, q, le))) h.rows)
        ∙ h.fresh id le;
  };
}
