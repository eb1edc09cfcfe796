-- ===== src/Session/Sink.antt =====
-- `AttachedSink`, which keeps the first events until a window attaches. A sink is a number; what an
-- operation sends to a sink is listed with it.
pub mod Delivered
use acter.Prelude.{
  ℕ, Bool, Option, none, some, List, [], ◌∷◌, ◌++◌, map, ltb, length, if◌then◌else◌,
}
use acter.Event.{SessionEvent}

-- `BACKLOG`
abbrev pub backlog_size : ℕ
backlog_size = 10_000

pub record AttachedSink : Type 0 where
  pub sink : Option ℕ
  pub backlog : List SessionEvent

-- The derived default.
abbrev pub detached : AttachedSink
detached = record { sink = none; backlog = [] }

abbrev pub Sent : Type 0
Sent = List (ℕ × SessionEvent)

abbrev pub addressed : ℕ → List SessionEvent → Sent
addressed sink events = map (λ e. (sink, e)) events

unfoldable pub attach : ℕ → AttachedSink → AttachedSink × Sent
attach sink a = (record { sink = some sink; backlog = [] }, addressed sink a.backlog)

abbrev pub kept : ℕ → SessionEvent → List SessionEvent → List SessionEvent
kept most e backlog = if ltb (length backlog) most then backlog ++ e ∷ [] else backlog

abbrev pub send_on : Option ℕ → SessionEvent → AttachedSink → AttachedSink × Sent
send_on (some sink) e a = (a, (sink, e) ∷ [])
send_on none e a = (record a { backlog = kept backlog_size e a.backlog }, [])

unfoldable pub send : SessionEvent → AttachedSink → AttachedSink × Sent
send e a = send_on a.sink e a

unfoldable pub send_all : List SessionEvent → AttachedSink → AttachedSink × Sent
unfolding send
send_all [] a = (a, [])
send_all (e ∷ es) a =
    let (b, sent) = send e a in let (c, later) = send_all es b in (c, sent ++ later)
