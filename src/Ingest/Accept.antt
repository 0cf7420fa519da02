-- ===== src/Ingest/Accept.antt =====
-- crates/amk-ingest/src/accept.rs: `accept`, from the bytes of a message to the store. The store is the
-- record `MailStore` (the calls of amk-store that are made), of which the thread index is filled; the
-- order in which the lookups for the index return is an argument, since they run concurrently. The
-- columns of a message that its headers, bodies and attachments give are its `Facts`.
pub mod Fields
pub mod Hostile
pub mod Rows
pub mod Screening
pub mod Gates
pub mod Auth
pub mod Storing
use agent_mail_kit.Prelude.{
  ℕ, Bool, true, false, ◌&&◌, not, Option, none, some, List, [], ◌∷◌, ◌++◌, length, ltb, Result, ok,
  err, ok_or, String, if◌then◌else◌,
}
use agent_mail_kit.Types.Str.{Text, literal, trim}
use agent_mail_kit.Types.Send.{is_some, Headers}
use agent_mail_kit.Types.Send.{Headers}
use agent_mail_kit.Types.Str.Order.{upsert}
use agent_mail_kit.Types.Ids.{InboxId, MessageId, ThreadId, OrganizationId, PodId, bracketed}
use agent_mail_kit.Core.Threading.Assigner.{ThreadCandidate, ThreadAssignment, assign}
use agent_mail_kit.Core.Threading.MemoryIndex.{InMemoryThreadIndex, empty, insert, as_index}
use agent_mail_kit.Ingest.Errors.{Bytes, IngestError, rejected, store}
use agent_mail_kit.Ingest.Lookup.{Envelope, Delivery, Accepted}
use agent_mail_kit.Ingest.Accept.Fields.{Parsed, reject, inbound_labels}
use agent_mail_kit.Ingest.Accept.Screening.{CollectedAttachment, Facts, screen}
use agent_mail_kit.Ingest.Accept.Auth.{
  Authenticator, AuthOutcome, passed, unproven, hardfail, outcome,
}
use agent_mail_kit.Ingest.Accept.Rows.{
  NewThread, NewMessage, ThreadMember, Inserted, inserted, unique_violation, broken, MailStore,
  AcceptRequest,
}

abbrev nil_or : Option (List MessageId) → List MessageId
nil_or none = []
nil_or (some ids) = ids

abbrev one_or_none : Option MessageId → List MessageId
one_or_none none = []
one_or_none (some id) = id ∷ []

unfoldable pub lookup_ids : Facts → List MessageId
lookup_ids facts = one_or_none facts.in_reply_to ++ nil_or facts.references

abbrev pub candidate_of : Delivery → Facts → ThreadCandidate
candidate_of dest facts = record {
  inbox_id = dest.inbox_id;
  message_id = some facts.message_id;
  in_reply_to = facts.in_reply_to;
  references = nil_or facts.references;
}

abbrev pub with_found :
    InMemoryThreadIndex → InboxId → Option (MessageId × ThreadId) → InMemoryThreadIndex
with_found index inbox none = index
with_found index inbox (some (id, t)) = insert index inbox id t

module _ (s : MailStore) where
  abbrev pub Outcome : Type 0
  Outcome = Result (Option Accepted) IngestError × s.World

  -- The lookups in the order they return.
  unfoldable pub fill_thread_index :
      Delivery
      → List MessageId
      → InMemoryThreadIndex
      → s.World
      → Result InMemoryThreadIndex IngestError
  fill_thread_index dest [] index w = ok index
  fill_thread_index dest (id ∷ ids) index w = elim (s.get dest (bracketed (trim id)) w) [
    | err e ↦ err (store e)
    | ok found ↦ fill_thread_index dest ids (with_found index dest.inbox_id found) w
  ]

  abbrev pub member_of : AcceptRequest → Facts → ThreadMember
  member_of req facts = record {
    last_message_id = facts.message_id;
    timestamp = req.timestamp;
    sent_timestamp = none;
    sender = facts.from;
    recipients = facts.to;
    preview = facts.preview;
    size = facts.size;
  }

  abbrev pub thread_of : AcceptRequest → Facts → Bool → ThreadId → NewThread
  thread_of req facts authenticated t = record {
    thread_id = t;
    organization_id = req.dest.organization_id;
    pod_id = req.dest.pod_id;
    inbox_id = req.dest.inbox_id;
    labels = inbound_labels authenticated;
    timestamp = req.timestamp;
    received_timestamp = some req.timestamp;
    sent_timestamp = none;
    senders = facts.from ∷ [];
    recipients = facts.to;
    subject = facts.subject;
    preview = facts.preview;
    last_message_id = facts.message_id;
    message_count = 1;
    size = facts.size;
  }

  abbrev pub message_of : AcceptRequest → Facts → Bool → ThreadId → NewMessage
  message_of req facts authenticated t = record {
    inbox_id = req.dest.inbox_id;
    organization_id = req.dest.organization_id;
    pod_id = req.dest.pod_id;
    thread_id = t;
    labels = inbound_labels authenticated;
    timestamp = req.timestamp;
    facts = facts;
    smtp_id = none;
    extracted_html = none;
    raw_blob_id = req.raw_blob_id;
  }

  abbrev accepted : AcceptRequest → Facts → ThreadId → Accepted
  accepted req facts t = record {
    message_id = facts.message_id;
    thread_id = t;
    inbox_id = req.dest.inbox_id;
  }

  abbrev after_member : Accepted → Result (Unit {0}) Text × s.World → Outcome
  after_member a (ok u, w) = (ok (some a), w)
  after_member a (err e, w) = (err (store e), w)

  -- The match on the result of the insertion.
  unfoldable pub after_insert :
      AcceptRequest → Facts → ThreadId → Bool → Inserted × s.World → Outcome
  after_insert req facts t new_thread (inserted, w) =
      let joined =
        after_member (accepted req facts t) (s.record_member t (member_of req facts) w) in
      if new_thread then (ok (some (accepted req facts t)), w) else joined
  after_insert req facts t new_thread (unique_violation, w) =
      (err (reject (literal "Duplicate Message-ID")), w)
  after_insert req facts t new_thread (broken e, w) = (err (store e), w)

  unfoldable pub put_message : AcceptRequest → Facts → Bool → ThreadId → Bool → s.World → Outcome
  put_message req facts authenticated t new_thread w =
      after_insert req facts t new_thread
        (s.insert_message (message_of req facts authenticated t) w)

  abbrev after_thread :
      AcceptRequest → Facts → Bool → ThreadId → Result (Unit {0}) Text × s.World → Outcome
  after_thread req facts authenticated t (ok u, w) = put_message req facts authenticated t true w
  after_thread req facts authenticated t (err e, w) = (err (store e), w)

  unfoldable pub place : AcceptRequest → Facts → Bool → ThreadAssignment → s.World → Outcome
  place req facts authenticated (ThreadAssignment.existing t link) w =
      put_message req facts authenticated t false w
  place req facts authenticated (ThreadAssignment.new reason) w =
      after_thread req facts authenticated (s.new_random w)
        (s.insert_thread (thread_of req facts authenticated (s.new_random w)) w)

  abbrev with_index :
      AcceptRequest → Facts → Bool → Result InMemoryThreadIndex IngestError → s.World → Outcome
  with_index req facts authenticated (err e) w = (err e, w)
  with_index req facts authenticated (ok index) w =
      place req facts authenticated (assign (as_index index) (candidate_of req.dest facts)) w

  abbrev unless_duplicate :
      AcceptRequest
      → Facts
      → Bool
      → List MessageId
      → Result (Option (MessageId × ThreadId)) Text
      → s.World
      → Outcome
  unless_duplicate req facts authenticated order (err e) w = (err (store e), w)
  unless_duplicate req facts authenticated order (ok (some row)) w =
      (err (reject (literal "Duplicate Message-ID")), w)
  unless_duplicate req facts authenticated order (ok none) w =
      with_index req facts authenticated (fill_thread_index req.dest order empty w) w

  -- What is done with a message that passed the gates.
  unfoldable pub admit_facts :
      AcceptRequest → Facts → AuthOutcome → List MessageId → s.World → Outcome
  admit_facts req facts hardfail order w = (ok none, w)
  admit_facts req facts passed order w =
      unless_duplicate req facts true order (s.get req.dest facts.message_id w) w
  admit_facts req facts unproven order w =
      unless_duplicate req facts false order (s.get req.dest facts.message_id w) w

  abbrev filed : Text → Result Text Text → Headers → Headers
  filed attachment_id (ok blob_id) map = upsert attachment_id (λ old. blob_id) map
  filed attachment_id (err e) map = map

  -- The bodies of the attachments in turn, and the blobs of those that could be stored.
  unfoldable pub store_bodies : List CollectedAttachment → Headers → s.World → Headers × s.World
  store_bodies [] map w = (map, w)
  store_bodies (a ∷ attachments) map w =
      let (stored, w') = s.put a.body w in
      store_bodies attachments (filed a.attachment_id stored map) w'

  abbrev blob_map : Headers → Option Headers
  blob_map [] = none
  blob_map (entry ∷ map) = some (entry ∷ map)

  -- What is known of the message once its bodies are stored, and the store after.
  unfoldable pub with_bodies : AcceptRequest → Facts → s.World → Facts × s.World
  with_bodies req facts w =
      let (map, w') = store_bodies facts.attachments [] w in
      if req.blobs then (record facts { attachment_blobs = blob_map map }, w') else (facts, w)

  abbrev pub screened :
      AcceptRequest
      → AuthOutcome
      → (List MessageId → List MessageId)
      → Result Facts IngestError
      → s.World
      → Outcome
  screened req verdict arrange (err e) w = (err e, w)
  screened req verdict arrange (ok facts) w =
      let (kept, w') = with_bodies req facts w in
      admit_facts req kept verdict (arrange (lookup_ids facts)) w'

  abbrev parsed_as :
      (ℕ → Text)
      → AcceptRequest
      → AuthOutcome
      → (List MessageId → List MessageId)
      → Option Parsed
      → s.World
      → Outcome
  parsed_as draw req verdict arrange none w = (err (reject (literal "Malformed message")), w)
  parsed_as draw req verdict arrange (some msg) w =
      screened req verdict arrange (screen draw req.raw msg) w

  -- `draw` gives the ids of attachments, and `arrange` puts the lookups in the order they return.
  unfoldable pub accept :
      (ℕ → Text)
      → (Bytes → Option Parsed)
      → Authenticator
      → (List MessageId → List MessageId)
      → AcceptRequest
      → s.World
      → Outcome
  accept draw parse auth arrange req w =
      let verdict = outcome auth req.raw req.envelope in
      if ltb req.max_message_bytes (length req.raw)
      then (err (rejected 552 (literal "Message size exceeds limit")), w)
      else parsed_as draw req verdict arrange (parse req.raw) w
