-- ===== src/Session/Echo.antt =====
-- `Echo`: the text that a shell echoes on its command line.
use acter.Prelude.{Option, none, some, [], ◌++◌, Text, if◌then◌else◌}
use acter.Entity.{LineRevision}
use acter.Tracker.{Region}
use acter.Session.Text.{trim, strip_prefix, is_empty_text}

pub record Echo : Type 0 where
  pub prompt : Text
  pub text : Option Text

-- The derived default.
abbrev pub no_echo : Echo
no_echo = record { prompt = []; text = none }

abbrev pub extended : Option Text → Text → Option Text
extended none more = none
extended (some text) more = some (text ++ more)

on_command_line : LineRevision → Text → Echo → Echo
unfolding strip_prefix
on_command_line LineRevision.appended more e = record e { text = extended e.text more }
on_command_line _ whole e = record e { text = strip_prefix e.prompt whole }

on_prompt : LineRevision → Text → Echo → Echo
on_prompt LineRevision.appended more e = record { prompt = e.prompt ++ more; text = some [] }
on_prompt _ whole e = record { prompt = whole; text = some [] }

unfoldable pub observe : Region → Text → LineRevision → Echo → Echo
unfolding on_command_line on_prompt
observe Region.command_line text revision e = on_command_line revision text e
observe Region.prompt text revision e = on_prompt revision text e
observe _ text revision e = record { prompt = []; text = some [] }

abbrev pub nonempty : Option Text → Option Text
nonempty none = none
nonempty (some t) = if is_empty_text t then none else some t

abbrev pub trimmed : Option Text → Option Text
trimmed none = none
trimmed (some t) = some (trim t)

unfoldable pub take : Echo → Option Text × Echo
unfolding trim
take e = (nonempty (trimmed e.text), record { prompt = []; text = some [] })
