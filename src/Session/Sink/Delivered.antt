-- ===== src/Session/Sink/Delivered.antt =====
-- What a window receives of a session that it attaches to late.
use acter.Prelude.{ℕ, List, [], ◌∷◌, ◌++◌}
use acter.Event.{SessionEvent}
use acter.Session.Sink.{detached, Sent, attach, kept, send_all}

-- The backlog once events were sent to it.
fill : ℕ → List SessionEvent → List SessionEvent → List SessionEvent
fill most backlog [] = backlog
fill most backlog (e ∷ es) = fill most (kept most e backlog) es

-- What comes in before a window attaches, that, and what comes after.
abbrev pub session_of : ℕ → List SessionEvent → List SessionEvent → Sent
session_of id before after =
    let (a, early) = send_all before detached in
    let (b, backlog) = attach id a in let (c, late) = send_all after b in early ++ (backlog ++ late)
