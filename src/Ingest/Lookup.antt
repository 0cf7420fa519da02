-- ===== src/Ingest/Lookup.antt =====
-- crates/amk-ingest: the inbox of a recipient (src/lookup.rs, without the store's), and what is known
-- of a delivery (src/accept.rs: `Envelope`, `Delivery`, `Accepted`).
use agent_mail_kit.Prelude.{Option, none, some, List, [], ◌∷◌, ◌++◌, if◌then◌else◌}
use agent_mail_kit.Types.Str.{Text}
use agent_mail_kit.Types.Ids.{InboxId, MessageId, ThreadId, OrganizationId, PodId, eq_normalized}

pub record Envelope : Type 0 where
  pub mail_from : Text
  pub client_ip : Text
  pub ehlo_host : Text

pub record Delivery : Type 0 where
  pub organization_id : OrganizationId
  pub pod_id : PodId
  pub inbox_id : InboxId

pub record Accepted : Type 0 where
  pub message_id : MessageId
  pub thread_id : ThreadId
  pub inbox_id : InboxId

-- `FixedInboxLookup`: the inboxes in the order they were inserted.
abbrev pub FixedInboxLookup : Type 0
FixedInboxLookup = List Delivery

unfoldable pub insert_inbox : FixedInboxLookup → Delivery → FixedInboxLookup
insert_inbox entries entry = entries ++ entry ∷ []

unfoldable pub fixed_lookup : FixedInboxLookup → InboxId → Option Delivery
fixed_lookup [] id = none
fixed_lookup (entry ∷ entries) id =
    if eq_normalized entry.inbox_id id then some entry else fixed_lookup entries id
