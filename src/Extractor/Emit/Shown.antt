-- ===== src/Extractor/Emit/Shown.antt =====
-- Every operation of the extractor sends what makes the reader have what it records.
use acter.Prelude.{
  ◌≡◌, inl, inr, refl, ℕ, suc, Bool, true, false, Option-cases, Option, none, some, ltb, seq_eq,
}
use acter.Entity.{LineId}
use acter.Extractor.{Styled, Tracked, Extractor}
use acter.Extractor.Lines.{insert, remove, find}
use acter.Extractor.Lines.Live.{
  OnId, AllIds-remove, Distinct-remove, OnId-find, Other-find, on_some, AllIds-put,
  Distinct-put_settled,
}
use acter.Extractor.View.{View, read_line}
use acter.Extractor.Emit.{◌>>◌, given, track, forget, place, raise_floor, emit_read, emit_line}
use acter.Extractor.Emit.Reader.{
  Reader, read_all, Reads, IsShown, Keeps, Holds, Keeps->>, Keeps-skip, Keeps-if,
}
use acter.Extractor.Emit.Moves.{show_line-IsShown}
use acter.Extractor.Emit.Swallow.{Keeps-absorb}
use acter.Extractor.Emit.Below.{Keeps-new_line}

IsShown-forget : (row : ℕ) (r : Reader) (e : Extractor) → IsShown r e → IsShown r (forget row e).0
IsShown-forget row r e h = record {
  rows = AllIds-remove (Reads e.next_id r) row e.lines h.rows;
  distinct = Distinct-remove row e.lines h.distinct;
  fresh = h.fresh;
}

-- A settled line is put back as it was.
Keeps-put_back : (row : ℕ) (t : Styled) → Keeps (track row (record { id = none; emitted = t }))
unfolding insert read_all
Keeps-put_back row t = record {
  at = λ r e h. record {
    rows =
        AllIds-put (Reads e.next_id r) row (record { id = none; emitted = t }) (remove row e.lines)
          tt (AllIds-remove (Reads e.next_id r) row e.lines h.rows);
    distinct =
        Distinct-put_settled row t (remove row e.lines) (Distinct-remove row e.lines h.distinct);
    fresh = h.fresh;
  };
}

-- The row is read from the map before it is taken out.
place-IsShown :
    (row last : ℕ) (line : Styled) (settled : Bool) (o : Option LineId) (s : Styled) (r : Reader)
    (e : Extractor)
    → OnId (λ id t. Holds id (some t) r e) o s.text
    → IsShown r e
    → IsShown
        (read_all (place row last line settled (some (record { id = o; emitted = s })) e).1 r)
        (place row last line settled (some (record { id = o; emitted = s })) e).0
unfolding place
place-IsShown row last line settled (some id) s r e held h =
    show_line-IsShown row id s line settled r e held h
place-IsShown row last line settled none s r e held h =
    (Keeps-if (seq_eq s.text line.text) (Keeps-if settled Keeps-skip (Keeps-put_back row s))
        (Keeps-new_line row last line settled)).at
      r e h

held_of_find :
    (row : ℕ) (t : Tracked) (o : Option LineId) (r : Reader) (e : Extractor)
    → find row e.lines ≡ some t
    → t.id ≡ o
    → IsShown r e
    → OnId (λ id u. Holds id (some u) r (forget row e).0) o t.emitted.text
held_of_find row t none r e found same h = tt
held_of_find row t (some id) r e found same h =
    let (old, read) =
      on_some (Reads e.next_id r) t.id t.emitted.text id same
        (OnId-find (Reads e.next_id r) row e.lines t h.rows found) in
    record {
      is_old = old;
      is_read = read;
      is_out = Other-find row e.lines t id h.distinct found same;
    }

Keeps-take :
    (row last : ℕ) (line : Styled) (settled : Bool)
    → Keeps (given λ e. forget row >> place row last line settled (find row e.lines))
unfolding place read_all
Keeps-take row last line settled = record {
  at = λ r e h. elim (Option-cases (find row e.lines)) [
    | inl none_of ↦
        rw none_of
          ((Keeps-new_line row last line settled).at r (forget row e).0 (IsShown-forget row r e h))
    | inr (t, found) ↦ rw found (
        place-IsShown row last line settled t.id t.emitted r (forget row e).0
          (held_of_find row t t.id r e found refl h) (IsShown-forget row r e h))
  ];
}

Keeps-raise_floor : (b : Bool) (floor : ℕ) → Keeps (raise_floor b floor)
unfolding read_all
Keeps-raise_floor true floor = record {
  at = λ r e h. record { rows = h.rows; distinct = h.distinct; fresh = h.fresh };
}
Keeps-raise_floor false floor = Keeps-skip

Keeps-emit_read : (v : View) (row : ℕ) (p : Styled × ℕ) → Keeps (emit_read v row p)
unfolding emit_read
Keeps-emit_read v row (line, last) =
    Keeps->> (Keeps->> (Keeps-take row last line (ltb last v.top)) (Keeps-absorb row last))
      (Keeps-raise_floor (ltb last v.top) (suc last))

pub Keeps-emit_line : (v : View) (row : ℕ) → Keeps (emit_line v row)
unfolding emit_line
Keeps-emit_line v row = Keeps-emit_read v row (read_line v row)
