-- ===== src/Core/Threading/Links.antt =====
-- crates/amk-core/src/threading.rs: the forms in which message ids are compared.
use agent_mail_kit.Prelude.{
  Bool, ◌||◌, Option, none, some, [], ◌∷◌, ◌==◌, nat_eq, list_eq, if◌then◌else◌,
}
use agent_mail_kit.Types.Str.{Text, trim}
use agent_mail_kit.Types.Ids.{MessageId, bracketed}

-- `trimmed.is_empty() || trimmed == "<>"`
unfoldable pub is_blank : Text → Bool
is_blank s = s == [] || s == b'<' ∷ b'>' ∷ []

unfoldable pub canonical_link : MessageId → Option MessageId
canonical_link id = if is_blank (trim id) then none else some (bracketed (trim id))

unfoldable pub index_key : MessageId → Option MessageId
index_key id = if is_blank (trim id) then none else some (trim id)
