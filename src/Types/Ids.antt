-- ===== src/Types/Ids.antt =====
-- crates/amk-types/src/ids.rs: the identifiers. An id whose text the code walks is the list of
-- its Unicode code points; a UUID is its value as a number. The text form of a UUID is the
-- `uuid` crate's.

pub mod Folding
pub mod Brackets
use agent_mail_kit.Prelude.{
  ℕ, Bool, false, ◌&&◌, Option, none, some, List, [], ◌∷◌, ◌++◌, ◌==◌, nat_eq, contains,
  if◌then◌else◌,
}
use agent_mail_kit.Types.Str.{
  Text, to_ascii_lowercase, eq_ignore_ascii_case, starts_with, ends_with, strip_prefix,
  strip_suffix,
}

-- `string_id!` and `uuid_id!`
abbrev pub InboxId : Type 0
InboxId = Text

abbrev pub MessageId : Type 0
MessageId = Text

abbrev pub OrganizationId : Type 0
OrganizationId = Text

abbrev pub PodId : Type 0
PodId = ℕ

abbrev pub ThreadId : Type 0
ThreadId = ℕ

abbrev pub AttachmentId : Type 0
AttachmentId = ℕ

unfoldable pub has_forbidden_byte : Text → Bool
has_forbidden_byte s = contains 0 s

-- `InboxId::normalized`
unfoldable pub normalized : InboxId → InboxId
unfolding to_ascii_lowercase
normalized id = to_ascii_lowercase id

-- `InboxId::eq_normalized`
unfoldable pub eq_normalized : InboxId → InboxId → Bool
unfolding eq_ignore_ascii_case
eq_normalized a b = eq_ignore_ascii_case a b

-- `MessageId::is_bracketed`
unfoldable pub is_bracketed : MessageId → Bool
is_bracketed id = starts_with b'<' id && ends_with b'>' id

-- `MessageId::unbracketed`
unfoldable pub unbracketed : MessageId → Text
unbracketed id = elim (strip_prefix b'<' id) [
  | none ↦ id
  | some s ↦ elim (strip_suffix b'>' s) [ none ↦ id | some inner ↦ inner ]
]

-- `MessageId::bracketed`
unfoldable pub bracketed : Text → MessageId
bracketed s = if starts_with b'<' s && ends_with b'>' s then s else b'<' ∷ s ++ b'>' ∷ []
