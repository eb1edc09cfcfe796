-- ===== src/Tests/Connecting.antt =====
-- A conversation in which an answer strays in before the question.
use acter.Prelude.{◌≡◌, ◌↔◌, some, List, [], ◌∷◌}
use acter.Conversation.{
  ConnectAnswer, HostKeyAnswer, new, ask, receive, answer_all, host_key_answer, program_answer,
  returns,
}
use acter.Conversation.Answered.{
  Call, run, first, returns-run, receive-run_again, host_key_answer_iff,
}

abbrev strayed : List Call
strayed = Call.answers ConnectAnswer.trust ∷ Call.asks ∷ []

abbrev refused : List ConnectAnswer
refused = ConnectAnswer.give_up ∷ ConnectAnswer.trust ∷ []

returns-run_example :
    returns program_answer
      (run strayed (new 3)).channels
      (answer_all refused (ask (run strayed (new 3))))
    ≡ first program_answer refused
returns-run_example = returns-run program_answer 3 strayed refused

receive-run_again_example :
    receive (run strayed (new 3)).channels (answer_all refused (ask (ask (run strayed (new 3)))))
    ≡ some ConnectAnswer.give_up
receive-run_again_example = receive-run_again 3 strayed refused

host_key_answer_iff_example :
    (returns host_key_answer
        (run strayed (new 3)).channels
        (answer_all refused (ask (run strayed (new 3))))
      ≡ some HostKeyAnswer.accept)
    ↔ ((more : List ConnectAnswer) × (refused ≡ ConnectAnswer.trust ∷ more))
host_key_answer_iff_example = host_key_answer_iff 3 strayed refused
