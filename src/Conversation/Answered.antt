-- ===== src/Conversation/Answered.antt =====
-- Which answer a question gets.
use acter.Prelude.{◌≡◌, ◌↔◌, ◌∙◌, ap, refl, Option, none, some, List, [], ◌∷◌, arith}
use acter.Conversation.{
  AttemptId, ConnectAnswer, Conversation, HostKeyAnswer, new, answer, ask, deliver, find_mail,
  is_waiting, receive, answer_all, host_key_answer, returns,
}
use acter.Conversation.Mailbox.{
  IsValid, new-IsValid, ask-IsValid, answer-IsValid, find_mail-new_channel,
}

-- What happens to a conversation: a question is asked, or the window answers, asked or not.
pub data Call : Type 0 where
  asks : Call
  answers : ConnectAnswer → Call

pub call : Call → Conversation → Conversation
call Call.asks c = ask c
call (Call.answers said) c = answer said c

pub run : List Call → Conversation → Conversation
unfolding call
run [] c = c
run (k ∷ ks) c = run ks (call k c)

run-IsValid : (calls : List Call) (c : Conversation) → IsValid c → IsValid (run calls c)
unfolding run call
run-IsValid [] c h = h
run-IsValid (Call.asks ∷ ks) c h = run-IsValid ks (ask c) (ask-IsValid c h)
run-IsValid (Call.answers said ∷ ks) c h = run-IsValid ks (answer said c) (answer-IsValid said c h)

-- The first answer, as `reading` reads it.
pub first {ℓ} : {A : Type ℓ} → (ConnectAnswer → A) → List ConnectAnswer → Option A
first reading [] = none
first reading (said ∷ more) = some (reading said)

answer_all_quiet :
    (more : List ConnectAnswer) (c : Conversation) → c.waiting ≡ none → answer_all more c ≡ c
unfolding answer_all answer deliver
answer_all_quiet [] c h = refl
answer_all_quiet (said ∷ more) c h =
    ap (answer_all more) (ap (λ o. deliver o said c) h) ∙ answer_all_quiet more c h

receive-blocks : (c : Conversation) → IsValid c → receive c.channels (ask c) ≡ none
unfolding receive ask find_mail is_waiting
receive-blocks c h = ground (arith, find_mail-new_channel c h)

answered-waiting : (said : ConnectAnswer) (c : Conversation) → (answer said (ask c)).waiting ≡ none
unfolding answer deliver ask
answered-waiting said c = refl

receive-answer :
    (said : ConnectAnswer) (c : Conversation)
    → IsValid c
    → receive c.channels (answer said (ask c)) ≡ some said
unfolding receive answer deliver ask find_mail is_waiting
receive-answer said c h = ground (arith, find_mail-new_channel c h)

returns-ask {ℓ} :
    {A : Type ℓ} (reading : ConnectAnswer → A) (replies : List ConnectAnswer) (c : Conversation)
    → IsValid c
    → returns reading c.channels (answer_all replies (ask c)) ≡ first reading replies
unfolding returns answer_all first
returns-ask reading [] c h = rw (receive-blocks c h, returns) refl
returns-ask reading (said ∷ more) c h =
    ap (returns reading c.channels)
      (answer_all_quiet more (answer said (ask c)) (answered-waiting said c))
    ∙ rw (receive-answer said c h, returns) refl

receive-ask_again :
    (replies : List ConnectAnswer) (c : Conversation)
    → IsValid c
    → receive c.channels (answer_all replies (ask (ask c))) ≡ some ConnectAnswer.give_up
unfolding receive answer_all answer deliver ask find_mail is_waiting
receive-ask_again [] c h = ground (arith, find_mail-new_channel c h)
receive-ask_again (said ∷ more) c h =
    ap (receive c.channels) (answer_all_quiet more (answer said (ask (ask c))) refl)
    ∙ ground (arith, find_mail-new_channel c h)

-- Whatever was asked and answered before, answered without a question included: a question blocks
-- until the window answers, then returns the first answer given after it was asked, as the question
-- reads it, and no earlier or later answer ever changes that.
pub returns-run {ℓ} :
    {A : Type ℓ} (reading : ConnectAnswer → A) (attempt : AttemptId) (calls : List Call)
    (replies : List ConnectAnswer)
    → let c = run calls (new attempt) in
      returns reading c.channels (answer_all replies (ask c)) ≡ first reading replies
returns-run reading attempt calls replies =
    returns-ask reading replies (run calls (new attempt))
      (run-IsValid calls (new attempt) (new-IsValid attempt))

-- A question that another one overtakes before it is answered is given up, whatever is answered then.
pub receive-run_again :
    (attempt : AttemptId) (calls : List Call) (replies : List ConnectAnswer)
    → let c = run calls (new attempt) in
      receive c.channels (answer_all replies (ask (ask c))) ≡ some ConnectAnswer.give_up
receive-run_again attempt calls replies =
    receive-ask_again replies (run calls (new attempt))
      (run-IsValid calls (new attempt) (new-IsValid attempt))

first-host_key_answer_iff :
    (replies : List ConnectAnswer)
    → (first host_key_answer replies ≡ some HostKeyAnswer.accept)
      ↔ ((more : List ConnectAnswer) × (replies ≡ ConnectAnswer.trust ∷ more))
unfolding first host_key_answer
first-host_key_answer_iff [] =
    (λ h. absurd (ground arith), λ found. absurd (ground (arith, found.1)))
first-host_key_answer_iff (ConnectAnswer.trust ∷ more) = (λ h. (more, refl), λ found. refl)
first-host_key_answer_iff (said ∷ more) =
    (λ h. absurd (ground arith), λ found. absurd (ground (arith, found.1)))

-- A server's key is accepted exactly if the first answer after the question is to trust it.
pub host_key_answer_iff :
    (attempt : AttemptId) (calls : List Call) (replies : List ConnectAnswer)
    → let c = run calls (new attempt) in
      (returns host_key_answer c.channels (answer_all replies (ask c)) ≡ some HostKeyAnswer.accept)
      ↔ ((more : List ConnectAnswer) × (replies ≡ ConnectAnswer.trust ∷ more))
host_key_answer_iff attempt calls replies =
    rw (returns-run host_key_answer attempt calls replies) (first-host_key_answer_iff replies)
