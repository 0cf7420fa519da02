-- ===== src/Core/Threading/Indexing.antt =====
-- crates/amk-core/src/threading.rs: the index in memory, and threads that never span inboxes.
use mathlib.Core.Path.{fun_ext}
use agent_mail_kit.Prelude.{
  ◌≡◌, ◌≢◌, refl, ◌∙◌, ap, Bool, true, false, ◌&&◌, Option, none, some, List, [], ◌∷◌, arith, ◌==◌,
  nat_eq, list_eq, list_beq_iff, option_eq, option_beq, option_beq_iff, if◌then◌else◌, Bool-cases,
  inl, inr, ==→eq,
}
use agent_mail_kit.Types.Ids.{InboxId, MessageId, ThreadId, normalized, eq_normalized}
use agent_mail_kit.Types.Ids.Folding.{eq_normalized_iff}
use agent_mail_kit.Core.Threading.Links.{canonical_link, index_key}
use agent_mail_kit.Core.Threading.Canonical.{canonical_link-canonical_link}
use agent_mail_kit.Core.Threading.Assigner.{
  ThreadCandidate, existing, and_then, usable, by_parent, assign,
}
use agent_mail_kit.Core.Threading.MemoryIndex.{
  InMemoryThreadIndex, Key, same_key, get, put, insert, find_thread, as_index,
}

get-put :
    (j k : Key) (t : ThreadId) (m : List (Key × ThreadId))
    → get j (put k t m) ≡ (if same_key k j then some t else get j m)
unfolding get put
get-put j k t [] = refl
get-put j k t ((i, u) ∷ m) = ground (
  arith,
  get-put j k t m,
  list_beq_iff i.0 k.0,
  list_beq_iff i.1 k.1,
  list_beq_iff i.0 j.0,
  list_beq_iff i.1 j.1,
  list_beq_iff k.0 j.0,
  list_beq_iff k.1 j.1,
)

-- Two message ids have one key.
abbrev pub same_id : MessageId → MessageId → Bool
same_id a b = elim (index_key a) [ none ↦ false | some key ↦ index_key b == some key ]

key_test :
    (inbox inbox' : InboxId) (k j : MessageId)
    → same_key (normalized inbox, k) (normalized inbox', j)
      ≡ (eq_normalized inbox inbox' && some j == some k)
unfolding option_beq
key_test inbox inbox' k j = ground (
  arith,
  eq_normalized_iff inbox inbox',
  list_beq_iff (normalized inbox) (normalized inbox'),
  list_beq_iff k j,
  list_beq_iff j k,
)

-- The operations at the keys of their ids.
insert_at : InMemoryThreadIndex → InboxId → Option MessageId → ThreadId → InMemoryThreadIndex
insert_at index inbox none t = index
insert_at index inbox (some key) t = record index {
  entries = put (normalized inbox, key) t index.entries;
}

find_at : InMemoryThreadIndex → InboxId → Option MessageId → Option ThreadId
find_at index inbox none = none
find_at index inbox (some key) = get (normalized inbox, key) index.entries

find_at-insert_at :
    (index : InMemoryThreadIndex) (inbox inbox' : InboxId) (a b : Option MessageId) (t : ThreadId)
    → find_at (insert_at index inbox a t) inbox' b ≡ (
        if eq_normalized inbox inbox' && elim a [ none ↦ false | some key ↦ b == some key ]
        then some t
        else find_at index inbox' b)
unfolding find_at insert_at option_beq
find_at-insert_at index inbox inbox' none b t = ground arith
find_at-insert_at index inbox inbox' (some k) none t = ground arith
find_at-insert_at index inbox inbox' (some k) (some j) t =
    get-put (normalized inbox', j) (normalized inbox, k) t index.entries
    ∙ ap (λ b. if b then some t else get (normalized inbox', j) index.entries)
        (key_test inbox inbox' k j)

find_thread-eq :
    (index : InMemoryThreadIndex) (inbox : InboxId) (id : MessageId)
    → find_thread index inbox id ≡ find_at index inbox (index_key id)
unfolding find_thread find_at
find_thread-eq index inbox id = ground arith

insert-eq :
    (index : InMemoryThreadIndex) (inbox : InboxId) (id : MessageId) (t : ThreadId)
    → insert index inbox id t ≡ insert_at index inbox (index_key id) t
unfolding insert insert_at
insert-eq index inbox id t = ground arith

-- After an insertion a lookup finds the thread for every spelling of the inbox and of the id, white
-- space around it aside, and any other lookup is unchanged; a blank id is not stored.
pub find_thread-insert :
    (index : InMemoryThreadIndex) (inbox inbox' : InboxId) (id id' : MessageId) (t : ThreadId)
    → find_thread (insert index inbox id t) inbox' id' ≡ (
        if eq_normalized inbox inbox' && same_id id id'
        then some t
        else find_thread index inbox' id')
find_thread-insert index inbox inbox' id id' t =
    rw
      (
        insert-eq index inbox id t,
        find_thread-eq (insert_at index inbox (index_key id) t) inbox' id',
        find_thread-eq index inbox' id',
      )
      (find_at-insert_at index inbox inbox' (index_key id) (index_key id') t)

-- Threads never span inboxes: mail that another inbox holds, spelled in whatever case, does not change
-- where a message goes.
pub assign_isolated :
    (index : InMemoryThreadIndex) (inbox : InboxId) (id : MessageId) (t : ThreadId)
    (c : ThreadCandidate)
    → eq_normalized inbox c.inbox_id ≡ false
    → assign (as_index (insert index inbox id t)) c ≡ assign (as_index index) c
unfolding assign
assign_isolated index inbox id t c h =
    ap
      (λ look.
        by_parent look (and_then c.message_id canonical_link) c.references
          (and_then c.in_reply_to (usable (and_then c.message_id canonical_link))))
      (fun_ext (λ l. unchanged l))
  where
    unchanged :
        (l : MessageId)
        → find_thread (insert index inbox id t) c.inbox_id l ≡ find_thread index c.inbox_id l
    unchanged l = ground (arith, find_thread-insert index inbox c.inbox_id id l t, h)

usable_of :
    (own : Option MessageId) (header link : MessageId)
    → canonical_link header ≡ some link
    → own ≢ some link
    → usable own header ≡ some link
unfolding usable
usable_of own header link h n = elim (Bool-cases (own == some link)) [
  | inl same ↦ absurd (n (==→eq own (some link) same))
  | inr other ↦ rw (h, other)
]

by_parent_of :
    (look : MessageId → Option ThreadId) (own : Option MessageId) (refs : List MessageId)
    (link : MessageId) (t : ThreadId)
    → look link ≡ some t
    → by_parent look own refs (some link) ≡ existing t link
unfolding by_parent
by_parent_of look own refs link t h = rw (h, by_parent)

-- A reply joins the thread of the message that its `In-Reply-To` names: whatever white space stands
-- around the header's value, with or without its brackets, in whatever case the inbox is spelled, and
-- whatever its `References` say.
pub reply_joins :
    (index : InMemoryThreadIndex) (inbox : InboxId) (id : MessageId) (t : ThreadId)
    (c : ThreadCandidate) (header : MessageId)
    → eq_normalized inbox c.inbox_id ≡ true
    → c.in_reply_to ≡ some header
    → canonical_link header ≡ some id
    → and_then c.message_id canonical_link ≢ some id
    → assign (as_index (insert index inbox id t)) c ≡ existing t id
unfolding assign
reply_joins index inbox id t c header same replies links other =
    ap (by_parent (find_thread (insert index inbox id t) c.inbox_id) (own c) c.references) parent
    ∙ by_parent_of (find_thread (insert index inbox id t) c.inbox_id) (own c) c.references id t
        found
  where
    own : ThreadCandidate → Option MessageId
    own c = and_then c.message_id canonical_link

    parent : and_then c.in_reply_to (usable (own c)) ≡ some id
    parent = rw replies (usable_of (own c) header id links other)

    found : find_thread (insert index inbox id t) c.inbox_id id ≡ some t
    found =
        let (_, key, _) = canonical_link-canonical_link header id links in
        ground (
          arith,
          find_thread-insert index inbox c.inbox_id id id t,
          same,
          key,
          option_beq_iff (some id) (some id),
        )
