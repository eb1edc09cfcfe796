-- ===== src/Conversation.antt =====
-- One attempt to connect, crates/acter-core/src/services/conversation.rs, with its questions and
-- answers, entities/protocol_connect.rs and ports/driven/ssh_questions.rs. A channel is the number of
-- the question it was made for; `mail` is what was sent on the channels. `recv` blocks while its
-- channel is waiting, and fails once its sender is dropped unused.
pub mod Mailbox
pub mod Answered
use acter.Prelude.{
  ℕ, suc, ◌+◌, Bool, true, false, Option, none, some, List, [], ◌∷◌, ◌==◌, if◌then◌else◌, Text,
}

-- `AttemptId(u32)`
abbrev pub AttemptId : Type 0
AttemptId = ℕ

-- `Secret(String)`
abbrev pub Secret : Type 0
Secret = Text

pub data ConnectAnswer : Type 0 where
  trust start_anyway give_up : ConnectAnswer
  password : Secret → ConnectAnswer
  set_up_session : Bool → ConnectAnswer

pub data HostKeyState : Type 0 where
  unknown : HostKeyState
  changed : Text → HostKeyState

pub record HostKeyQuestion : Type 0 where
  pub host : Text
  pub port : ℕ
  pub fingerprint : Text
  pub state : HostKeyState
  pub aside : Option Text

pub record PasswordQuestion : Type 0 where
  pub host : Text
  pub user : Text
  pub again : Bool

pub data HostKeyAnswer : Type 0 where
  accept refuse : HostKeyAnswer

pub data ProgramAnswer : Type 0 where
  start do_not_start : ProgramAnswer

pub data SetupAnswer : Type 0 where
  set_up : Bool → SetupAnswer
  skip : SetupAnswer

-- `host_key host port fingerprint recorded aside`, `unverified label program said signer`,
-- `set_up_session shell detected offer command refusal` and `password host user again`
pub data ConnectQuestion : Type 0 where
  host_key : Text → ℕ → Text → Option Text → Option Text → ConnectQuestion
  unverified : Text → Text → Text → Option Text → ConnectQuestion
  set_up_session : Text → Text → Text → Text → Text → ConnectQuestion
  password : Text → Text → Bool → ConnectQuestion

abbrev pub Channel : Type 0
Channel = ℕ

pub record Mail : Type 0 where
  pub channel : Channel
  pub answer : ConnectAnswer

pub record Conversation : Type 0 where
  pub attempt : AttemptId
  pub waiting : Option Channel
  pub channels : ℕ
  pub mail : List Mail

-- `Conversation::new`
unfoldable pub new : AttemptId → Conversation
new attempt = record { attempt = attempt; waiting = none; channels = 0; mail = [] }

-- `take` of the sender, and `send` on it if there is one
unfoldable pub deliver : Option Channel → ConnectAnswer → Conversation → Conversation
deliver none said c = c
deliver (some channel) said c = record c {
  waiting = none;
  mail = record { channel = channel; answer = said } ∷ c.mail;
}

unfoldable pub answer : ConnectAnswer → Conversation → Conversation
unfolding deliver
answer said c = deliver c.waiting said c

-- `ask` until it blocks: its channel is `c.channels`, and a sender that was waiting is dropped.
unfoldable pub ask : Conversation → Conversation
ask c = record c { waiting = some c.channels; channels = suc c.channels }

-- The first answer sent on a channel; `mail` has the latest first.
unfoldable pub find_mail : Channel → List Mail → Option ConnectAnswer
find_mail channel [] = none
find_mail channel (m ∷ rest) = elim (find_mail channel rest) [
  | some earlier ↦ some earlier
  | none ↦ if m.channel == channel then some m.answer else none
]

unfoldable pub is_waiting : Channel → Option Channel → Bool
is_waiting channel none = false
is_waiting channel (some other) = other == channel

-- `receiver.recv().unwrap_or(GiveUp)`, `none` while it blocks
unfoldable pub receive : Channel → Conversation → Option ConnectAnswer
unfolding find_mail is_waiting
receive channel c = elim (find_mail channel c.mail) [
  | some said ↦ some said
  | none ↦ if is_waiting channel c.waiting then none else some ConnectAnswer.give_up
]

unfoldable pub answer_all : List ConnectAnswer → Conversation → Conversation
unfolding answer
answer_all [] c = c
answer_all (said ∷ more) c = answer_all more (answer said c)

abbrev pub recorded : HostKeyState → Option Text
recorded HostKeyState.unknown = none
recorded (HostKeyState.changed fingerprint) = some fingerprint

-- The question that `host_key` asks.
abbrev pub asked_host_key : HostKeyQuestion → ConnectQuestion
asked_host_key q = ConnectQuestion.host_key q.host q.port q.fingerprint (recorded q.state) q.aside

-- The question that `password` asks.
abbrev pub asked_password : PasswordQuestion → ConnectQuestion
asked_password q = ConnectQuestion.password q.host q.user q.again

-- The answers' matches of `host_key`, `password`, `unverified` and `set_up_session`.
unfoldable pub host_key_answer : ConnectAnswer → HostKeyAnswer
host_key_answer ConnectAnswer.trust = HostKeyAnswer.accept
host_key_answer _ = HostKeyAnswer.refuse

unfoldable pub password_answer : ConnectAnswer → Option Secret
password_answer (ConnectAnswer.password secret) = some secret
password_answer _ = none

unfoldable pub program_answer : ConnectAnswer → ProgramAnswer
program_answer ConnectAnswer.start_anyway = ProgramAnswer.start
program_answer _ = ProgramAnswer.do_not_start

unfoldable pub setup_answer : ConnectAnswer → SetupAnswer
setup_answer (ConnectAnswer.set_up_session remember) = SetupAnswer.set_up remember
setup_answer _ = SetupAnswer.skip

-- What a question method that asked on `channel` returns, `none` while it blocks.
unfoldable pub returns {ℓ} : {A : Type ℓ} → (ConnectAnswer → A) → Channel → Conversation → Option A
unfolding receive
returns reading channel c = elim (receive channel c) [
  | some said ↦ some (reading said)
  | none ↦ none
]
