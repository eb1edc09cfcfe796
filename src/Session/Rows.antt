-- ===== src/Session/Rows.antt =====
-- What the pump remembers of the rows: `Row` in the map `lines`, `Due` what a row owes the buffer, and
-- `Held` the text held back while it may be an echo. The map is an association list.
use acter.Prelude.{
  ◌-◌, Bool, true, false, ◌||◌, Option, none, some, List, [], ◌∷◌, ◌++◌, Text, ◌==◌, if◌then◌else◌,
}
use acter.Entity.{LineId, LineRevision, StyleRun}
use acter.Event.{CommandId}
use acter.Runs.{join_runs, slice_runs, utf16_len}
use acter.Session.Text.{strip_suffix, is_found}

pub record Row : Type 0 where
  pub owed : Bool
  pub text : Text
  pub shown : Option CommandId
  pub prompt : Bool

-- The derived default.
abbrev pub new_row : Row
new_row = record { owed = false; text = []; shown = none; prompt = false }

pub record Entry : Type 0 where
  pub id : LineId
  pub row : Row

abbrev pub Lines : Type 0
Lines = List Entry

-- `lines.get(&id)`
unfoldable pub get : LineId → Lines → Option Row
get id [] = none
get id (e ∷ es) = let rest = get id es in if e.id == id then some e.row else rest

-- The row under `id` becomes `row`, if there is one.
unfoldable pub put : LineId → Row → Lines → Lines
put id row [] = []
put id row (e ∷ es) =
    let rest = put id row es in if e.id == id then record e { row = row } ∷ es else e ∷ rest

-- `lines.remove(&id)`
unfoldable pub remove : LineId → Lines → Lines
remove id [] = []
remove id (e ∷ es) = let rest = remove id es in if e.id == id then es else e ∷ rest

abbrev pub or_default : Option Row → Row
or_default none = new_row
or_default (some row) = row

-- `*lines.entry(id).or_default() = row`
unfoldable pub store : LineId → Row → Lines → Lines
unfolding get put
store id row lines = elim (get id lines) [
  | none ↦ record { id = id; row = row } ∷ lines
  | some old ↦ put id row lines
]

-- `row_text`
unfoldable pub row_text : LineId → Lines → Text
unfolding get
row_text id lines = (or_default (get id lines)).text

-- `values_mut().for_each(|row| row.owed = false)`
unfoldable pub settle_owed : Lines → Lines
settle_owed [] = []
settle_owed (e ∷ es) = record e { row = record e.row { owed = false } } ∷ settle_owed es

pub record Due : Type 0 where
  pub text : Text
  pub revision : LineRevision
  pub spoken : Bool
  pub prompt : Bool
  pub runs : List StyleRun

abbrev pub is_owed : Option Row → Bool
is_owed none = true
is_owed (some row) = row.owed

-- `Pump::due`
unfoldable pub due : LineId → Text → LineRevision → List StyleRun → Lines → Option Due × Lines
unfolding get store remove
due id text LineRevision.appended runs lines =
    let row = or_default (get id lines) in
    (
      some (record {
        text = text;
        revision = LineRevision.appended;
        spoken = true;
        prompt = false;
        runs = runs;
      }),
      store id (record row { owed = false; text = row.text ++ text }) lines,
    )
due id text LineRevision.rewritten runs lines =
    let row = or_default (get id lines) in
    (
      some (record {
        text = text;
        revision = LineRevision.rewritten;
        spoken = false;
        prompt = false;
        runs = runs;
      }),
      store id (record row { owed = true; text = text }) lines,
    )
due id text LineRevision.settled runs lines = (
  (if is_owed (get id lines)
      then some (record {
        text = text;
        revision = LineRevision.settled;
        spoken = true;
        prompt = false;
        runs = runs;
      })
      else none),
  remove id lines,
)

pub record Held : Type 0 where
  pub line : LineId
  pub text : Text
  pub revision : LineRevision
  pub spoken : Bool
  pub prompt : Bool
  pub runs : List StyleRun

-- `Held::of`
abbrev pub held_of : LineId → Due → Held
held_of line d = record {
  line = line;
  text = d.text;
  revision = d.revision;
  spoken = d.spoken;
  prompt = d.prompt;
  runs = d.runs;
}

-- `Held::due`
abbrev pub held_due : Held → Due
held_due h = record {
  text = h.text;
  revision = h.revision;
  spoken = h.spoken;
  prompt = h.prompt;
  runs = h.runs;
}

unfoldable pub absorb_text : LineRevision → Due → Held → Held
unfolding join_runs
absorb_text LineRevision.appended d h = record h {
  runs = join_runs h.runs h.text d.runs;
  text = h.text ++ d.text;
}
absorb_text _ d h = record h { text = d.text; revision = d.revision; runs = d.runs }

-- `Held::absorb`
unfoldable pub absorb : Due → Held → Held
unfolding absorb_text
absorb d h =
    let grown = absorb_text d.revision d h in
    record grown { spoken = h.spoken || d.spoken; prompt = d.prompt }

recolour_as : LineRevision → Text → List StyleRun → Held → Held
unfolding strip_suffix
recolour_as LineRevision.appended row runs h =
    if is_found (strip_suffix h.text row)
    then record h { runs = slice_runs runs (utf16_len row - utf16_len h.text) (utf16_len row) }
    else h
recolour_as _ row runs h = record h { runs = runs }

-- `Held::recolour`
unfoldable pub recolour_held : Text → List StyleRun → Held → Held
unfolding recolour_as
recolour_held row runs h = recolour_as h.revision row runs h
