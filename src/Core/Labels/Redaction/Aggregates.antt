-- ===== src/Core/Labels/Redaction/Aggregates.antt =====
-- crates/amk-core/src/labels.rs: after a message was removed, no aggregate counts, sizes, names or
-- dates anything but the remaining messages.
use Prim.Native.Nat.{max}
use agent_mail_kit.Prelude.{
  ℕ, ◌+◌, ◌%◌, ◌^◌, String, ◌≡◌, refl, ap, true, false, not, ◌&&◌, ◌||◌, Option, none, some, List,
  [], ◌∷◌, ◌++◌, ◌==◌, nat_eq, string_eq, arith, all, any, leb, last, length, retain, contains,
  contains-append, Option-cases, Bool-cases, inl, inr, ◌⊎◌, ◌≢◌, nat_beq_iff,
}
use agent_mail_kit.Types.Labels.{received, sent}
use agent_mail_kit.Types.Mail.{Message, ThreadItem, Thread, Attachment, Timestamp}
use agent_mail_kit.Types.Ids.{AttachmentId}
use agent_mail_kit.Core.Labels.Admission.{LabelAccess}
use agent_mail_kit.Core.Labels.Redaction.{
  withheld, redact_thread, hides_a_member, strip, finish, recompute, is_sender, is_recipient,
  is_attached, flat, total_size, latest, latest_timestamp_labelled,
}
use agent_mail_kit.Core.Labels.Redaction.Outcomes.{
  redact_hides, finish-some, finish-none, kept, retain_ext,
}

abbrev sum_of_sizes : List Message → ℕ
sum_of_sizes [] = 0
sum_of_sizes (m ∷ ms) = m.item.size + sum_of_sizes ms

abbrev pub senders_of : List Message → List String
senders_of [] = []
senders_of (m ∷ ms) = m.item.from ∷ senders_of ms

abbrev pub recipients_of : List Message → List String
recipients_of [] = []
recipients_of (m ∷ ms) = (m.item.to ++ (flat m.item.cc ++ flat m.item.bcc)) ++ recipients_of ms

abbrev ids_of : List Attachment → List AttachmentId
ids_of [] = []
ids_of (a ∷ as') = a.attachment_id ∷ ids_of as'

abbrev pub attachments_of : List Message → List AttachmentId
attachments_of [] = []
attachments_of (m ∷ ms) = ids_of (flat m.item.attachments) ++ attachments_of ms

-- The greatest time of the messages with a label: none has the label, or none of them is later than
-- the time, which one of them has.
abbrev pub IsLatest : List Message → String → Option Timestamp → Type 0
IsLatest ms label none = all (λ m. not (contains label m.item.labels)) ms ≡ true
IsLatest ms label (some t) =
    (all (λ m. not (contains label m.item.labels) || leb m.item.timestamp t) ms ≡ true)
    × (any (λ m. contains label m.item.labels && m.item.timestamp == t) ms ≡ true)

-- The aggregates of a thread speak of its own messages, and name what an earlier item named.
abbrev pub IsAggregated : ThreadItem → Thread → Type 0
IsAggregated old t =
    (t.item.message_count ≡ length t.messages)
    × (t.item.size ≡ sum_of_sizes t.messages % 2 ^ 64)
    × ((m : Message)
        → last t.messages ≡ some m
        → (t.item.last_message_id ≡ m.item.message_id)
          × (t.item.timestamp ≡ m.item.timestamp)
          × (t.item.preview ≡ m.item.preview))
    × IsLatest t.messages received t.item.received_timestamp
    × IsLatest t.messages sent t.item.sent_timestamp
    × (t.item.senders ≡ retain (λ s. contains s (senders_of t.messages)) old.senders)
    × (t.item.recipients ≡ retain (λ r. contains r (recipients_of t.messages)) old.recipients)
    × (flat t.item.attachments
        ≡ retain (λ a. contains a.attachment_id (attachments_of t.messages)) (flat old.attachments))

total_size_lem : (ms : List Message) → total_size ms ≡ sum_of_sizes ms % 2 ^ 64
unfolding total_size
total_size_lem [] = refl
total_size_lem (m ∷ ms) = omega (arith, total_size_lem ms)

any-eq-contains : (x : String) (xs : List String) → any (λ y. y == x) xs ≡ contains x xs
unfolding contains
any-eq-contains x [] = refl
any-eq-contains x (y ∷ ys) = ap (λ b. y == x || b) (any-eq-contains x ys)

is_sender_lem : (ms : List Message) (s : String) → is_sender ms s ≡ contains s (senders_of ms)
unfolding is_sender contains
is_sender_lem [] s = refl
is_sender_lem (m ∷ ms) s = ap (λ b. m.item.from == s || b) (is_sender_lem ms s)

is_recipient_lem :
    (ms : List Message) (r : String) → is_recipient ms r ≡ contains r (recipients_of ms)
unfolding is_recipient contains
is_recipient_lem [] r = refl
is_recipient_lem (m ∷ ms) r =
    let others = flat m.item.cc ++ flat m.item.bcc in
    rw
      (
        contains-append r (m.item.to ++ others) (recipients_of ms),
        contains-append r m.item.to others,
        any-eq-contains r others,
        is_recipient_lem ms r,
      )
      refl

is_attached_lem :
    (ms : List Message) (a : Attachment)
    → is_attached ms a ≡ contains a.attachment_id (attachments_of ms)
unfolding is_attached contains
is_attached_lem [] a = refl
is_attached_lem (m ∷ ms) a =
    rw
      (
        contains-append a.attachment_id (ids_of (flat m.item.attachments)) (attachments_of ms),
        of_one (flat m.item.attachments),
        is_attached_lem ms a,
      )
      refl
  where
    of_one :
        (as' : List Attachment)
        → contains a.attachment_id (ids_of as') ≡ any (λ k. k.attachment_id == a.attachment_id) as'
    of_one [] = refl
    of_one (k ∷ ks) = ap (λ b. k.attachment_id == a.attachment_id || b) (of_one ks)

-- What the loop gives from the best so far.
abbrev IsBest : List Message → String → Option Timestamp → Option Timestamp → Type 0
IsBest ms label none r = IsLatest ms label r
IsBest ms label (some b) none = ⊥
IsBest ms label (some b) (some t) =
    (all (λ m. not (contains label m.item.labels) || leb m.item.timestamp t) ms ≡ true)
    × (leb b t ≡ true)
    × ((b == t || any (λ m. contains label m.item.labels && m.item.timestamp == t) ms) ≡ true)

-- One message more, with the label or without it.
module _ (m : Message) (ms : List Message) (label : String) where
  started :
      (r : Option Timestamp)
      → contains label m.item.labels ≡ true
      → IsBest ms label (some m.item.timestamp) r
      → IsLatest (m ∷ ms) label r
  started none e h = absurd h
  started (some t) e h = ground (arith, nat_beq_iff m.item.timestamp t)

  skipped :
      (r : Option Timestamp)
      → contains label m.item.labels ≡ false
      → IsLatest ms label r
      → IsLatest (m ∷ ms) label r
  skipped none e h = ground arith
  skipped (some t) e h = ground arith

  passed_over :
      (b : Timestamp) (r : Option Timestamp)
      → contains label m.item.labels ≡ false
      → IsBest ms label (some b) r
      → IsBest (m ∷ ms) label (some b) r
  passed_over b none e h = h
  passed_over b (some t) e h = ground arith

  improved :
      (b : Timestamp) (r : Option Timestamp)
      → contains label m.item.labels ≡ true
      → IsBest ms label (some (max b m.item.timestamp)) r
      → IsBest (m ∷ ms) label (some b) r
  improved b none e h = absurd h
  improved b (some t) e h = ground arith

latest-IsBest :
    (ms : List Message) (label : String) (best : Option Timestamp)
    → IsBest ms label best (latest ms label best)
unfolding latest
latest-IsBest [] label none = refl
latest-IsBest [] label (some b) = ground arith
latest-IsBest (m ∷ ms) label none = elim (Bool-cases (contains label m.item.labels)) [
  | inl e ↦
      rw (any-eq-contains label m.item.labels, e)
        (started m ms label _ e (latest-IsBest ms label (some m.item.timestamp)))
  | inr e ↦
      rw (any-eq-contains label m.item.labels, e)
        (skipped m ms label _ e (latest-IsBest ms label none))
]
latest-IsBest (m ∷ ms) label (some b) = elim (Bool-cases (contains label m.item.labels)) [
  | inl e ↦
      rw (any-eq-contains label m.item.labels, e)
        (improved m ms label b _ e (latest-IsBest ms label (some (max b m.item.timestamp))))
  | inr e ↦
      rw (any-eq-contains label m.item.labels, e)
        (passed_over m ms label b _ e (latest-IsBest ms label (some b)))
]

attached_all :
    (ms : List Message) (item : ThreadItem) (m : Message)
    → flat (recompute item ms m).attachments
      ≡ retain (λ a. contains a.attachment_id (attachments_of ms)) (flat item.attachments)
unfolding recompute retain
attached_all ms item m = go item.attachments
  where
    go :
        (o : Option (List Attachment))
        → flat (elim o [ none ↦ none | some as' ↦ some (retain (is_attached ms) as') ])
          ≡ retain (λ a. contains a.attachment_id (attachments_of ms)) (flat o)
    go none = refl
    go (some as') = retain_ext (is_attached ms) _ as' (is_attached_lem ms)

recompute-IsAggregated :
    (item : ThreadItem) (ms : List Message) (m : Message)
    → last ms ≡ some m
    → IsAggregated item (record { item = recompute item ms m; messages = ms })
unfolding recompute latest_timestamp_labelled
recompute-IsAggregated item ms m e = (
  refl,
  total_size_lem ms,
  λ k f. ground (arith, e, f),
  latest-IsBest ms received none,
  latest-IsBest ms sent none,
  retain_ext (is_sender ms) _ item.senders (is_sender_lem ms),
  retain_ext (is_recipient ms) _ item.recipients (is_recipient_lem ms),
  attached_all ms item m,
)

-- A thread from which a message was removed, and that is not withheld, has all its aggregates
-- recomputed from the messages that remain: their number, the sum of their sizes modulo 2 ^ 64, the
-- id, time and preview of the last, the greatest time of those received and of those sent, if any, and of
-- the senders, recipients and attachments it named, in their order, those that a remaining message names.
pub redact_thread-IsAggregated :
    (t : Thread) (access : LabelAccess)
    → hides_a_member t access ≡ true
    → (redact_thread t access).1 ≢ withheld
    → IsAggregated t.item (redact_thread t access).0
unfolding strip
redact_thread-IsAggregated t access h n =
    rw (redact_hides t access h)
      (go (Option-cases (last (kept access t))) (rw (redact_hides t access h) at n))
  where
    go :
        (last (kept access t) ≡ none) ⊎ ((m : Message) × (last (kept access t) ≡ some m))
        → (finish (strip t.item access) (kept access t)).1 ≢ withheld
        → IsAggregated t.item (finish (strip t.item access) (kept access t)).0
    go (inl e) k = absurd (k (rw (finish-none (strip t.item access) (kept access t) e)))
    go (inr (m, e)) k =
        rw (finish-some (strip t.item access) (kept access t) m e)
          (recompute-IsAggregated (strip t.item access) (kept access t) m e)
