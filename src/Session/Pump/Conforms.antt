-- ===== src/Session/Pump/Conforms.antt =====
-- The inputs of a whole run keep to the protocol.
use acter.Prelude.{◌≡◌, refl, ◌∙◌, none, some, List}
use acter.Pacing.{Duration}
use acter.Session.Pump.{Effect}
use acter.Session.Pump.Turn.{Loop, Woke, turn, Runs, here, next, minted, claimed}
use acter.Session.Pump.Protocol.{follow, follow_all, follow_all-append, view, IsValid}
use acter.Session.Pump.Sound.Turn.{Sound-request, Sound-grace_expired, Sound-read_bytes}
use acter.Session.Pump.Sound.FarEnd.{Sound-far_end_settled}

-- What the actor was told is what the pump holds.
abbrev pub Agrees : Loop → List Effect → Loop → Type 0
Agrees l sent m = (follow_all (view l.pump) sent ≡ some (view m.pump)) × IsValid m.pump

pub turn-Agrees :
    (w : Woke) (now : Duration) (l : Loop)
    → IsValid l.pump
    → Agrees l (turn w now l).1 (turn w now l).0
unfolding turn follow_all follow
turn-Agrees (Woke.read none) now l v = (refl, v)
turn-Agrees (Woke.read (some advanced)) now l v =
    let (f, w, _) = (Sound-read_bytes advanced).at l.pump v refl in (f, w)
turn-Agrees (Woke.asked none) now l v = (refl, v)
turn-Agrees (Woke.asked (some what)) now l v =
    let (f, w, _) = (Sound-request what).at l.pump v refl in (f, w)
turn-Agrees Woke.grace now l v = let (f, w, _) = Sound-grace_expired.at l.pump v refl in (f, w)
turn-Agrees Woke.settled now l v = let (f, w, _) = Sound-far_end_settled.at l.pump v refl in (f, w)

-- From a valid pump, every run sends inputs that the protocol allows, leaves the phase that the pump
-- holds then, and a valid pump.
pub Runs-Agrees :
    (l m : Loop) (sent : List Effect) → Runs l m sent → IsValid l.pump → Agrees l sent m
unfolding follow_all
Runs-Agrees l m sent here v = (refl, v)
Runs-Agrees l n all (next {m = m} {sent = sent} w now r go due e e') v =
    let (f, valid) = Runs-Agrees l m sent r v in
    let (g, valid') = turn-Agrees w now m valid in
    rw (e, e') (follow_all-append (view l.pump) (view m.pump) sent (turn w now m).1 f ∙ g, valid')
Runs-Agrees l n sent (minted {m = m} r e) v =
    let (f, valid) = Runs-Agrees l m sent r v in
    rw e (f, record { unshown_open = valid.unshown_open; setup_once = valid.setup_once })
Runs-Agrees l n sent (claimed {m = m} r e) v =
    let (f, valid) = Runs-Agrees l m sent r v in
    rw e (f, record { unshown_open = valid.unshown_open; setup_once = valid.setup_once })
