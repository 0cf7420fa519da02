-- ===== src/Types/Labels.antt =====
-- The module `labels` of crates/amk-types/src/message.rs: the labels with a meaning.
use agent_mail_kit.Prelude.{String, Bool, List, [], ◌∷◌, string_eq, contains}

abbrev pub received : String
received = "received"

abbrev pub sent : String
sent = "sent"

abbrev pub unread : String
unread = "unread"

abbrev pub scheduled : String
scheduled = "scheduled"

abbrev pub bounced : String
bounced = "bounced"

abbrev pub complained : String
complained = "complained"

abbrev pub spam : String
spam = "spam"

abbrev pub blocked : String
blocked = "blocked"

abbrev pub unauthenticated : String
unauthenticated = "unauthenticated"

abbrev pub trash : String
trash = "trash"

-- `RESTRICTED`
abbrev pub restricted : List String
restricted = spam ∷ blocked ∷ unauthenticated ∷ trash ∷ []

-- `SYSTEM`
abbrev pub system : List String
system = sent ∷ received ∷ bounced ∷ scheduled ∷ []

abbrev pub is_restricted : String → Bool
is_restricted label = contains label restricted

abbrev pub is_system : String → Bool
is_system label = contains label system
