-- ===== src/Conversation/Mailbox.antt =====
-- The invariant of the channels of a conversation.
use acter.Prelude.{
  ℕ, suc, ◌≤◌, ◌≡◌, refl, Bool, true, false, ◌&&◌, Option, none, some, List, [], ◌∷◌, ltb, arith,
}
use acter.Conversation.{
  ConnectAnswer, Mail, Conversation, Channel, new, answer, ask, find_mail, deliver,
}

-- No mail on a channel that is not made yet.
pub mail_below : ℕ → List Mail → Bool
mail_below n [] = true
mail_below n (m ∷ rest) = ltb m.channel n && mail_below n rest

abbrev waits_alone : Option Channel → ℕ → List Mail → Bool
waits_alone none n mail = true
waits_alone (some channel) n mail =
    ltb channel n && elim (find_mail channel mail) [ none ↦ true | some said ↦ false ]

-- Mail is only on channels that were made, and none on the one that waits.
pub record IsValid (c : Conversation) : Type 0 where
  pub made : mail_below c.channels c.mail ≡ true
  pub unread : waits_alone c.waiting c.channels c.mail ≡ true

find_mail_above :
    (n k : ℕ) (mail : List Mail) → mail_below n mail ≡ true → n ≤ k → find_mail k mail ≡ none
unfolding mail_below find_mail
find_mail_above n k [] h le = refl
find_mail_above n k (m ∷ rest) h le = ground (arith, find_mail_above n k rest)

mail_below-suc :
    (n : ℕ) (mail : List Mail) → mail_below n mail ≡ true → mail_below (suc n) mail ≡ true
unfolding mail_below
mail_below-suc n [] h = refl
mail_below-suc n (m ∷ rest) h = ground (arith, mail_below-suc n rest)

pub new-IsValid : (attempt : ℕ) → IsValid (new attempt)
unfolding new mail_below
new-IsValid attempt = record { made = refl; unread = refl }

pub ask-IsValid : (c : Conversation) → IsValid c → IsValid (ask c)
unfolding ask
ask-IsValid c h = record {
  made = mail_below-suc c.channels c.mail h.made;
  unread = ground (arith, find_mail_above c.channels c.channels c.mail h.made);
}

deliver-IsValid :
    (o : Option Channel) (said : ConnectAnswer) (c : Conversation)
    → c.waiting ≡ o
    → IsValid c
    → IsValid (deliver o said c)
unfolding deliver mail_below
deliver-IsValid none said c e h = h
deliver-IsValid (some k) said c e h = record {
  made = ground (arith, h.made, h.unread, e);
  unread = refl;
}

pub answer-IsValid : (said : ConnectAnswer) (c : Conversation) → IsValid c → IsValid (answer said c)
unfolding answer
answer-IsValid said c h = deliver-IsValid c.waiting said c refl h

pub find_mail-new_channel : (c : Conversation) → IsValid c → find_mail c.channels c.mail ≡ none
find_mail-new_channel c h = find_mail_above c.channels c.channels c.mail h.made (omega arith)
