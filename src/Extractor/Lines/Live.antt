-- ===== src/Extractor/Lines/Live.antt =====
-- Predicates on the live lines of the map, those that have an id.
use acter.Prelude.{
  ◌≡◌, ◌≢◌, inl, inr, sym, ap, ◌∙◌, ℕ, Bool-cases, if-cases, Option, none, some, [], ◌∷◌, Text, ltb,
  ◌==◌, arith,
}
use mathlib.Core.Option.{some-injective}
use acter.Entity.{LineId}
use acter.Extractor.{Styled, Tracked, LineMap}
use acter.Extractor.Lines.{find, remove, put}

abbrev pub OnId : (LineId → Text → Type 0) → Option LineId → Text → Type 0
OnId P none t = Unit
OnId P (some id) t = P id t

unfoldable pub AllIds : (LineId → Text → Type 0) → LineMap → Type 0
AllIds P [] = Unit
AllIds P (e ∷ es) = OnId P e.tracked.id e.tracked.emitted.text × AllIds P es

abbrev pub Other : LineId → LineId → Text → Type 0
Other id j t = j ≢ id

-- No two lines have the same id.
unfoldable pub Distinct : LineMap → Type 0
Distinct [] = Unit
Distinct (e ∷ es) =
    OnId (λ id t. AllIds (Other id) es) e.tracked.id e.tracked.emitted.text × Distinct es

pub OnId-map :
    (P Q : LineId → Text → Type 0) (o : Option LineId) (t : Text)
    → ((id : LineId) (t : Text) → P id t → Q id t)
    → OnId P o t
    → OnId Q o t
OnId-map P Q none t k h = tt
OnId-map P Q (some id) t k h = k id t h

pub AllIds-map :
    (P Q : LineId → Text → Type 0) (lines : LineMap)
    → ((id : LineId) (t : Text) → P id t → Q id t)
    → AllIds P lines
    → AllIds Q lines
unfolding AllIds
AllIds-map P Q [] k h = tt
AllIds-map P Q (e ∷ es) k (x, xs) =
    (OnId-map P Q e.tracked.id e.tracked.emitted.text k x, AllIds-map P Q es k xs)

pub OnId-both :
    (P Q : LineId → Text → Type 0) (o : Option LineId) (t : Text)
    → OnId P o t
    → OnId Q o t
    → OnId (λ id t. P id t × Q id t) o t
OnId-both P Q none t h k = tt
OnId-both P Q (some id) t h k = (h, k)

pub AllIds-both :
    (P Q : LineId → Text → Type 0) (lines : LineMap)
    → AllIds P lines
    → AllIds Q lines
    → AllIds (λ id t. P id t × Q id t) lines
unfolding AllIds
AllIds-both P Q [] h k = tt
AllIds-both P Q (e ∷ es) (x, xs) (y, ys) =
    (OnId-both P Q e.tracked.id e.tracked.emitted.text x y, AllIds-both P Q es xs ys)

pub AllIds-remove :
    (P : LineId → Text → Type 0) (row : ℕ) (lines : LineMap)
    → AllIds P lines
    → AllIds P (remove row lines)
unfolding AllIds remove
AllIds-remove P row [] h = tt
AllIds-remove P row (e ∷ es) (x, xs) = elim (Bool-cases (e.row == row)) [
  | inl same ↦ rw same (AllIds-remove P row es xs)
  | inr other ↦ rw other (x, AllIds-remove P row es xs)
]

pub Distinct-remove : (row : ℕ) (lines : LineMap) → Distinct lines → Distinct (remove row lines)
unfolding Distinct remove
Distinct-remove row [] h = tt
Distinct-remove row (e ∷ es) (x, xs) = elim (Bool-cases (e.row == row)) [
  | inl same ↦ rw same (Distinct-remove row es xs)
  | inr other ↦ rw other (
    OnId-map (λ id t. AllIds (Other id) es) (λ id t. AllIds (Other id) (remove row es)) e.tracked.id
        e.tracked.emitted.text (λ id t h. AllIds-remove (Other id) row es h) x,
    Distinct-remove row es xs,
  )
]

pub AllIds-put :
    (P : LineId → Text → Type 0) (row : ℕ) (t : Tracked) (lines : LineMap)
    → OnId P t.id t.emitted.text
    → AllIds P lines
    → AllIds P (put row t lines)
unfolding AllIds put
AllIds-put P row t [] k h = (k, tt)
AllIds-put P row t (e ∷ es) k (x, xs) = elim (Bool-cases (ltb row e.row)) [
  | inl before ↦ rw before (k, (x, xs))
  | inr after ↦ rw after (x, AllIds-put P row t es k xs)
]

-- A line beside lines that all have other ids.
pub Distinct-put :
    (row : ℕ) (id : LineId) (s : Styled) (lines : LineMap)
    → AllIds (Other id) lines
    → Distinct lines
    → Distinct (put row (record { id = some id; emitted = s }) lines)
unfolding Distinct AllIds put
Distinct-put row id s [] k h = (tt, tt)
Distinct-put row id s (e ∷ es) (k, ks) (x, xs) = elim (Bool-cases (ltb row e.row)) [
  | inl before ↦ rw before ((k, ks), (x, xs))
  | inr after ↦ rw after (
    OnId-map (λ j u. AllIds (Other j) es × (j ≢ id))
        (λ j u. AllIds (Other j) (put row (record { id = some id; emitted = s }) es)) e.tracked.id
        e.tracked.emitted.text
        (λ j u h.
          AllIds-put (Other j) row (record { id = some id; emitted = s }) es (λ q. h.1 (sym q)) h.0)
        (OnId-both (λ j u. AllIds (Other j) es) (Other id) e.tracked.id e.tracked.emitted.text x k),
    Distinct-put row id s es ks xs,
  )
]

pub Distinct-put_settled :
    (row : ℕ) (s : Styled) (lines : LineMap)
    → Distinct lines
    → Distinct (put row (record { id = none; emitted = s }) lines)
unfolding Distinct AllIds put
Distinct-put_settled row s [] h = (tt, tt)
Distinct-put_settled row s (e ∷ es) (x, xs) = elim (Bool-cases (ltb row e.row)) [
  | inl before ↦ rw before (tt, (x, xs))
  | inr after ↦ rw after (
    OnId-map (λ j u. AllIds (Other j) es)
        (λ j u. AllIds (Other j) (put row (record { id = none; emitted = s }) es)) e.tracked.id
        e.tracked.emitted.text
        (λ j u h. AllIds-put (Other j) row (record { id = none; emitted = s }) es tt h) x,
    Distinct-put_settled row s es xs,
  )
]

-- What is found is of the map.
pub OnId-find :
    (P : LineId → Text → Type 0) (row : ℕ) (lines : LineMap) (t : Tracked)
    → AllIds P lines
    → find row lines ≡ some t
    → OnId P t.id t.emitted.text
unfolding AllIds find
OnId-find P row [] t h e = absurd (ground (arith, e))
OnId-find P row (x ∷ xs) t (h, hs) e =
    elim (if-cases (x.row == row) (some x.tracked) (find row xs) (some t) e) [
      | inl (_, f) ↦ rw (← some-injective x.tracked t f) h
      | inr (_, f) ↦ OnId-find P row xs t hs f
    ]

pub on_some :
    (P : LineId → Text → Type 0) (o : Option LineId) (u : Text) (id : LineId)
    → o ≡ some id
    → OnId P o u
    → P id u
on_some P o u id e h = rw e at h

-- Nothing else in the map has the id of what is found.
pub Other-find :
    (row : ℕ) (lines : LineMap) (t : Tracked) (id : LineId)
    → Distinct lines
    → find row lines ≡ some t
    → t.id ≡ some id
    → AllIds (Other id) (remove row lines)
unfolding AllIds Distinct find remove
Other-find row [] t id h e same = tt
Other-find row (x ∷ xs) t id (h, hs) e same =
    elim (if-cases (x.row == row) (some x.tracked) (find row xs) (some t) e) [
      | inl (at_row, f) ↦ rw at_row (
          AllIds-remove (Other id) row xs (
            on_some (λ j u. AllIds (Other j) xs) x.tracked.id x.tracked.emitted.text id
              (ap (λ y. y.id) (some-injective x.tracked t f) ∙ same) h))
      | inr (off_row, f) ↦ rw off_row (
        OnId-map (λ j u. AllIds (Other j) xs) (Other id) x.tracked.id x.tracked.emitted.text
            (λ j u k q.
              on_some (Other j) t.id t.emitted.text id same (OnId-find (Other j) row xs t k f)
                (sym q))
            h,
        Other-find row xs t id hs f same,
      )
    ]
