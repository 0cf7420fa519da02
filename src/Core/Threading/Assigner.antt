-- ===== src/Core/Threading/Assigner.antt =====
-- crates/amk-core/src/threading.rs: `ReferenceChainThreading`.
use agent_mail_kit.Prelude.{
  Bool, true, false, Option, none, some, List, [], ◌∷◌, ◌==◌, nat_eq, list_eq, option_eq, contains,
  if◌then◌else◌,
}
use agent_mail_kit.Types.Ids.{InboxId, MessageId, ThreadId}
use agent_mail_kit.Types.Mail.{MessageItem}
use agent_mail_kit.Core.Threading.Links.{canonical_link}

-- The trait `ThreadIndex`.
pub record ThreadIndex : Type 0 where
  pub thread_of : InboxId → MessageId → Option ThreadId

pub record ThreadCandidate : Type 0 where
  pub inbox_id : InboxId
  pub message_id : Option MessageId
  pub in_reply_to : Option MessageId
  pub references : List MessageId

-- `ThreadCandidate::new`
abbrev pub candidate : InboxId → ThreadCandidate
candidate inbox_id = record {
  inbox_id = inbox_id;
  message_id = none;
  in_reply_to = none;
  references = [];
}

abbrev unwrap_or_nil : Option (List MessageId) → List MessageId
unwrap_or_nil none = []
unwrap_or_nil (some ids) = ids

unfoldable pub from_message_item : MessageItem → ThreadCandidate
from_message_item item = record {
  inbox_id = item.inbox_id;
  message_id = some item.message_id;
  in_reply_to = item.in_reply_to;
  references = unwrap_or_nil item.references;
}

pub data NewThreadReason : Type 0 where
  no_linkage unknown_linkage ambiguous_linkage : NewThreadReason

pub data ThreadAssignment : Type 0 where
  existing : ThreadId → MessageId → ThreadAssignment
  new : NewThreadReason → ThreadAssignment

-- `ThreadAssignment::thread_id`, `ThreadAssignment::is_new`
unfoldable pub thread_id : ThreadAssignment → Option ThreadId
thread_id (existing t link) = some t
thread_id (new r) = none

unfoldable pub is_new : ThreadAssignment → Bool
is_new (existing t link) = false
is_new (new r) = true

-- `Option::and_then`
abbrev pub and_then {ℓ κ} : {A : Type ℓ} {B : Type κ} → Option A → (A → Option B) → Option B
and_then none f = none
and_then (some a) f = f a

-- The closure `usable`: the link that a header value carries, if it is not the message's own.
abbrev other_than : Option MessageId → MessageId → Option MessageId
other_than own link = if own == some link then none else some link

unfoldable pub usable : Option MessageId → MessageId → Option MessageId
usable own raw = and_then (canonical_link raw) (other_than own)

-- The variables of the loop over `References`.
pub record Scan : Type 0 where
  pub had_link : Bool
  pub visited : List MessageId
  pub resolved : Option (ThreadId × MessageId)
  pub ambiguous : Bool

-- The match on `resolved`.
unfoldable pub note : Scan → ThreadId → MessageId → Scan
note s t link = elim s.resolved [
  | none ↦ record s { resolved = some (t, link) }
  | some (seen, _) ↦ if seen == t then s else record s { ambiguous = true }
]

module _ (look : MessageId → Option ThreadId) where
  -- The body of the loop, for a usable link.
  unfoldable pub visit : Scan → MessageId → Scan
  unfolding note
  visit s link =
      if contains link s.visited then record s { had_link = true } else elim (look link) [
        | none ↦ record s { had_link = true; visited = link ∷ s.visited }
        | some t ↦ note (record s { had_link = true; visited = link ∷ s.visited }) t link
      ]

  unfoldable pub scan : Option MessageId → Scan → List MessageId → Scan
  scan own s [] = s
  scan own s (raw ∷ raws) =
      scan own (elim (usable own raw) [ none ↦ s | some link ↦ visit s link ]) raws

-- What follows the loop.
unfoldable pub conclude : Scan → ThreadAssignment
conclude s = if s.ambiguous then new ambiguous_linkage else elim s.resolved [
  | some (t, link) ↦ existing t link
  | none ↦ if s.had_link then new unknown_linkage else new no_linkage
]

-- Step 2: `References`, with what step 1 found out.
unfoldable pub by_references :
    (MessageId → Option ThreadId) → Option MessageId → Bool → List MessageId → ThreadAssignment
unfolding conclude
by_references look own had_link references = conclude (
    scan look own (record { had_link = had_link; visited = []; resolved = none; ambiguous = false })
      references)

-- Step 1, for the usable link of `In-Reply-To`, and then step 2.
unfoldable pub by_parent :
    (MessageId → Option ThreadId)
    → Option MessageId
    → List MessageId
    → Option MessageId
    → ThreadAssignment
by_parent look own references none = by_references look own false references
by_parent look own references (some link) = elim (look link) [
  | some t ↦ existing t link
  | none ↦ by_references look own true references
]

unfoldable pub assign : ThreadIndex → ThreadCandidate → ThreadAssignment
unfolding by_parent
assign index c =
    let own = and_then c.message_id canonical_link in
    by_parent (index.thread_of c.inbox_id) own c.references (and_then c.in_reply_to (usable own))
