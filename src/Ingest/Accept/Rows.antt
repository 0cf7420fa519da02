-- ===== src/Ingest/Accept/Rows.antt =====
-- crates/amk-ingest/src/accept.rs: the request of `accept`, the rows that it writes, and the calls of the
-- store that it makes.
use agent_mail_kit.Prelude.{ℕ, Bool, Option, List, Result, String}
use agent_mail_kit.Types.Str.{Text}
use agent_mail_kit.Types.Ids.{InboxId, MessageId, ThreadId, OrganizationId, PodId}
use agent_mail_kit.Ingest.Errors.{Bytes}
use agent_mail_kit.Ingest.Lookup.{Envelope, Delivery}
use agent_mail_kit.Ingest.Accept.Screening.{Facts}

pub record NewThread : Type 0 where
  pub thread_id : ThreadId
  pub organization_id : OrganizationId
  pub pod_id : PodId
  pub inbox_id : InboxId
  pub labels : List String
  pub timestamp : ℕ
  pub received_timestamp : Option ℕ
  pub sent_timestamp : Option ℕ
  pub senders : List Text
  pub recipients : List Text
  pub subject : Option Text
  pub preview : Option Text
  pub last_message_id : MessageId
  pub message_count : ℕ
  pub size : ℕ

pub record NewMessage : Type 0 where
  pub inbox_id : InboxId
  pub organization_id : OrganizationId
  pub pod_id : PodId
  pub thread_id : ThreadId
  pub labels : List String
  pub timestamp : ℕ
  pub facts : Facts
  pub smtp_id : Option Text
  pub extracted_html : Option Text
  pub raw_blob_id : Option Text

pub record ThreadMember : Type 0 where
  pub last_message_id : MessageId
  pub timestamp : ℕ
  pub sent_timestamp : Option ℕ
  pub sender : Text
  pub recipients : List Text
  pub preview : Option Text
  pub size : ℕ

pub data Inserted : Type 0 where
  inserted unique_violation : Inserted
  broken : Text → Inserted

pub record MailStore : Type 1 where
  pub World : Type 0
  -- The id and the thread of a message of the inbox, if it is there.
  pub get : Delivery → MessageId → World → Result (Option (MessageId × ThreadId)) Text
  pub insert_thread : NewThread → World → Result (Unit {0}) Text × World
  pub insert_message : NewMessage → World → Inserted × World
  pub record_member : ThreadId → ThreadMember → World → Result (Unit {0}) Text × World
  pub new_random : World → ThreadId
  -- `put` of the blob store: the id of the blob.
  pub put : Bytes → World → Result Text Text × World

pub record AcceptRequest : Type 0 where
  pub raw : Bytes
  pub envelope : Envelope
  pub dest : Delivery
  pub max_message_bytes : ℕ
  pub raw_blob_id : Option Text
  -- Whether there is a blob store.
  pub blobs : Bool
  -- The date of the message, or the clock.
  pub timestamp : ℕ
