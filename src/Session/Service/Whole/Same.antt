-- ===== src/Session/Service/Whole/Same.antt =====
-- The window's calls leave alone what the actor was told of the pump.
use acter.Prelude.{
  ◌≡◌, refl, Bool, true, false, Option, none, some, List, arith, if◌then◌else◌, Text, ℕ,
}
use acter.Keys.{KeyPress, Binding, SessionIntent, LineOwner, binding_for}
use acter.Session.Pump.{Pump, mint}
use acter.Session.Pump.Output.{is_far_end}
use acter.Session.Pump.Protocol.{view, IsValid}
use acter.Session.Pump.Turn.{Request}
use acter.Session.Service.{
  Service, try_send, begin_submit, send_bound, send_key, set_line_owner, paste, with_pump, owner,
  ack_of, send_eof, KeyAck,
}

-- The window's calls change neither the phase that the pump holds nor its validity.
pub record SamePump (p q : Pump) : Type 0 where
  pub opened : q.opened ≡ p.opened
  pub unshown : q.unshown ≡ p.unshown
  pub self_talk : q.self_talk ≡ p.self_talk
  pub setup : q.setup ≡ p.setup

pub SamePump-IsValid : (p q : Pump) → SamePump p q → IsValid p → IsValid q
SamePump-IsValid p q same v = record {
  unshown_open = ground (arith, same.opened, same.unshown, v.unshown_open);
  setup_once = ground (arith, same.self_talk, same.setup, v.setup_once);
}

pub view-SamePump : (p q : Pump) → SamePump p q → view q ≡ view p
view-SamePump p q same = ground (arith, same.opened, same.unshown, same.self_talk)

try_send-SamePump : (r : Request) (s : Service) → SamePump s.loop.pump (try_send r s).1.loop.pump
unfolding try_send
try_send-SamePump r s = record {
  opened = ground arith;
  unshown = ground arith;
  self_talk = ground arith;
  setup = ground arith;
}

pub begin_submit-SamePump :
    (line : Text) (s : Service) → SamePump s.loop.pump (begin_submit line s).1.loop.pump
unfolding begin_submit
begin_submit-SamePump line s =
    let same = try_send-SamePump (Request.submit s.loop.pump.next_id line) (with_pump mint s) in
    record {
      opened = same.opened;
      unshown = same.unshown;
      self_talk = same.self_talk;
      setup = same.setup;
    }

pub SamePump-refl : (p : Pump) → SamePump p p
SamePump-refl p = record { opened = refl; unshown = refl; self_talk = refl; setup = refl }

ack_of-SamePump :
    (p : Pump) (o : Bool × Service) → SamePump p o.1.loop.pump → SamePump p (ack_of o).1.loop.pump
ack_of-SamePump p (true, s) k = k
ack_of-SamePump p (false, s) k = k

ack_of-if_SamePump :
    (p : Pump) (b : Bool) (m k : KeyAck × Service)
    → SamePump p m.1.loop.pump
    → SamePump p k.1.loop.pump
    → SamePump p (if b then m else k).1.loop.pump
ack_of-if_SamePump p true m k h h' = h
ack_of-if_SamePump p false m k h h' = h'

send-SamePump :
    (r : Request) (s : Service) → SamePump s.loop.pump (ack_of (try_send r s)).1.loop.pump
send-SamePump r s = ack_of-SamePump s.loop.pump (try_send r s) (try_send-SamePump r s)

send_eof-SamePump :
    (o : Option (List ℕ)) (s : Service) → SamePump s.loop.pump (send_eof o s).1.loop.pump
send_eof-SamePump none s = SamePump-refl s.loop.pump
send_eof-SamePump (some bytes) s = send-SamePump (Request.eof bytes) s

send_bound-SamePump :
    (b : Binding) (press : KeyPress) (s : Service)
    → SamePump s.loop.pump (send_bound b press s).1.loop.pump
unfolding send_bound
send_bound-SamePump Binding.unbound press s = SamePump-refl s.loop.pump
send_bound-SamePump Binding.to_far_end press s = send-SamePump (Request.key press) s
send_bound-SamePump (Binding.intent SessionIntent.interrupt) press s =
    ack_of-if_SamePump s.loop.pump s.loop.pump.running (ack_of (try_send Request.interrupt s))
      (KeyAck.nothing_to_act_on, s) (send-SamePump Request.interrupt s) (SamePump-refl s.loop.pump)
send_bound-SamePump (Binding.intent SessionIntent.eof) press s = send_eof-SamePump s.eof s

pub send_key-SamePump :
    (press : KeyPress) (s : Service) → SamePump s.loop.pump (send_key press s).1.loop.pump
unfolding send_key
send_key-SamePump press s = send_bound-SamePump (binding_for press (owner s)) press s

pub set_line_owner-SamePump :
    (who : LineOwner) (s : Service) → SamePump s.loop.pump (set_line_owner who s).loop.pump
unfolding set_line_owner
set_line_owner-SamePump who s =
    try_send-SamePump (Request.owner who) (record s { far_end_line = is_far_end who })

pub paste-SamePump : (text : Text) (s : Service) → SamePump s.loop.pump (paste text s).loop.pump
unfolding paste
paste-SamePump text s = try_send-SamePump (Request.paste_text text) s
