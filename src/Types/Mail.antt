-- ===== src/Types/Mail.antt =====
-- crates/amk-types: the records of pod.rs (`Identity`, `Pod`), inbox.rs, page.rs, message.rs and
-- thread.rs. A timestamp is the count of milliseconds from a first instant, since the code only
-- compares them; text that is only compared is a `String`. JSON forms are serde's, and the fields
-- that hold JSON maps (`metadata`, `headers`) are left out.
use agent_mail_kit.Prelude.{ℕ, Bool, String, Option, List}
use agent_mail_kit.Types.Str.{Text}
use agent_mail_kit.Types.Ids.{InboxId, MessageId, OrganizationId, PodId, ThreadId, AttachmentId}

abbrev pub Timestamp : Type 0
Timestamp = ℕ

pub data ScopeType : Type 0 where
  organization pod inbox : ScopeType

pub record Identity : Type 0 where
  pub api_key_id : Option String
  pub organization_id : OrganizationId
  pub scope_id : Text
  pub scope_type : ScopeType
  pub pod_id : Option PodId
  pub inbox_id : Option InboxId

pub record Pod : Type 0 where
  pub organization_id : Option OrganizationId
  pub pod_id : PodId
  pub client_id : Option String
  pub name : String
  pub updated_at : Timestamp
  pub created_at : Timestamp

pub record Inbox : Type 0 where
  pub organization_id : Option OrganizationId
  pub pod_id : PodId
  pub inbox_id : InboxId
  pub email : String
  pub client_id : Option String
  pub display_name : Option String
  pub updated_at : Timestamp
  pub created_at : Timestamp

pub record ListParams : Type 0 where
  pub limit : Option ℕ
  pub page_token : Option String
  pub ascending : Option Bool
  pub labels : List String
  pub before : Option Timestamp
  pub after : Option Timestamp
  pub include_spam : Option Bool
  pub include_blocked : Option Bool
  pub include_unauthenticated : Option Bool
  pub include_trash : Option Bool

pub record Attachment : Type 0 where
  pub attachment_id : AttachmentId
  pub filename : Option String
  pub size : ℕ
  pub content_type : Option String
  pub content_disposition : Option String
  pub content_id : Option String

pub record MessageItem : Type 0 where
  pub organization_id : Option OrganizationId
  pub pod_id : Option PodId
  pub inbox_id : InboxId
  pub thread_id : ThreadId
  pub message_id : MessageId
  pub labels : List String
  pub timestamp : Timestamp
  pub from : String
  pub to : List String
  pub cc : Option (List String)
  pub bcc : Option (List String)
  pub subject : Option String
  pub preview : Option String
  pub attachments : Option (List Attachment)
  pub in_reply_to : Option MessageId
  pub references : Option (List MessageId)
  pub smtp_id : Option String
  pub size : ℕ
  pub updated_at : Timestamp
  pub created_at : Timestamp

pub record Message : Type 0 where
  pub item : MessageItem
  pub reply_to : Option (List String)
  pub text : Option String
  pub html : Option String
  pub extracted_text : Option String
  pub extracted_html : Option String

pub record ThreadItem : Type 0 where
  pub organization_id : Option OrganizationId
  pub pod_id : Option PodId
  pub inbox_id : InboxId
  pub thread_id : ThreadId
  pub labels : List String
  pub timestamp : Timestamp
  pub received_timestamp : Option Timestamp
  pub sent_timestamp : Option Timestamp
  pub senders : List String
  pub recipients : List String
  pub subject : Option String
  pub preview : Option String
  pub attachments : Option (List Attachment)
  pub last_message_id : MessageId
  pub message_count : ℕ
  pub size : ℕ
  pub updated_at : Timestamp
  pub created_at : Timestamp

pub record Thread : Type 0 where
  pub item : ThreadItem
  pub messages : List Message
