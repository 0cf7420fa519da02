-- ===== src/Core/Labels/Redaction.antt =====
-- crates/amk-core/src/labels.rs: `redact_thread`, which changes the thread in place and says what it
-- did; here it returns both.
pub mod Aggregates
pub mod Outcomes
use Prim.Native.Nat.{max}
use agent_mail_kit.Prelude.{
  ℕ, ◌+◌, ◌%◌, ◌^◌, String, Bool, true, false, ◌&&◌, ◌||◌, not, Option, none, some, List, [], ◌∷◌,
  ◌++◌, ◌==◌, nat_eq, string_eq, length, any, retain, last, contains, if◌then◌else◌,
}
use agent_mail_kit.Types.Labels.{received, sent}
use agent_mail_kit.Types.Mail.{Attachment, MessageItem, Message, ThreadItem, Thread, Timestamp}
use agent_mail_kit.Core.Labels.Admission.{LabelAccess, admits}

pub data ThreadRedaction : Type 0 where
  unchanged redacted withheld : ThreadRedaction

-- `max()` of the timestamps of the messages with a label.
unfoldable pub latest : List Message → String → Option Timestamp → Option Timestamp
latest [] label best = best
latest (m ∷ ms) label best = latest ms label (
    if any (λ l. l == label) m.item.labels
    then elim best [ none ↦ some m.item.timestamp | some t ↦ some (max t m.item.timestamp) ]
    else best)

unfoldable pub latest_timestamp_labelled : List Message → String → Option Timestamp
unfolding latest
latest_timestamp_labelled messages label = latest messages label none

-- `sum()` on `u64`, which wraps in a release build.
unfoldable pub total_size : List Message → ℕ
total_size [] = 0
total_size (m ∷ ms) = (m.item.size + total_size ms) % 2 ^ 64

-- `iter().flatten()` of an optional list.
abbrev pub flat {ℓ} : {A : Type ℓ} → Option (List A) → List A
flat none = []
flat (some xs) = xs

unfoldable pub is_sender : List Message → String → Bool
is_sender messages s = any (λ m. m.item.from == s) messages

unfoldable pub is_recipient : List Message → String → Bool
is_recipient messages r =
    any (λ m. contains r m.item.to || any (λ a. a == r) (flat m.item.cc ++ flat m.item.bcc))
      messages

unfoldable pub is_attached : List Message → Attachment → Bool
is_attached messages a =
    any (λ m. any (λ kept. kept.attachment_id == a.attachment_id) (flat m.item.attachments))
      messages

abbrev retain_attached : List Message → Option (List Attachment) → Option (List Attachment)
retain_attached messages none = none
retain_attached messages (some as') = some (retain (is_attached messages) as')

-- The assignments to `item`, once a last message remains.
unfoldable pub recompute : ThreadItem → List Message → Message → ThreadItem
recompute item messages newest = record item {
  last_message_id = newest.item.message_id;
  timestamp = newest.item.timestamp;
  preview = newest.item.preview;
  message_count = length messages;
  size = total_size messages;
  received_timestamp = latest_timestamp_labelled messages received;
  sent_timestamp = latest_timestamp_labelled messages sent;
  senders = retain (is_sender messages) item.senders;
  recipients = retain (is_recipient messages) item.recipients;
  attachments = retain_attached messages item.attachments;
}

-- The rest of `redact_thread` after `messages.retain`.
pub finish : ThreadItem → List Message → Thread × ThreadRedaction
finish item messages = elim (last messages) [
  | none ↦ (record { item = item; messages = messages }, withheld)
  | some newest ↦ (record { item = recompute item messages newest; messages = messages }, redacted)
]

unfoldable pub leaks_a_label : Thread → LabelAccess → Bool
leaks_a_label t access = any (λ l. not (admits (l ∷ []) access)) t.item.labels

unfoldable pub hides_a_member : Thread → LabelAccess → Bool
hides_a_member t access = any (λ m. not (admits m.item.labels access)) t.messages

-- `item.labels.retain`
unfoldable pub strip : ThreadItem → LabelAccess → ThreadItem
strip item access = record item { labels = retain (λ l. admits (l ∷ []) access) item.labels }

unfoldable pub redact_thread : Thread → LabelAccess → Thread × ThreadRedaction
unfolding finish
redact_thread t access =
    if not (leaks_a_label t access) && not (hides_a_member t access)
    then (t, unchanged)
    else if not (hides_a_member t access)
    then (record t { item = strip t.item access }, redacted)
    else finish (strip t.item access) (retain (λ m. admits m.item.labels access) t.messages)
