-- ===== src/Actor/Turn/Commands.antt =====
-- Every input and every deadline conforms to the protocol, and so does a whole session.
use acter.Prelude.{List}
use acter.Actor.Turn.Conforms.{Conforms}
