-- ===== src/Core/Threading/MemoryIndex.antt =====
-- crates/amk-core/src/threading.rs: `InMemoryThreadIndex`; the `BTreeMap` is an association list with
-- one entry to a key.
use agent_mail_kit.Prelude.{
  ℕ, Bool, ◌&&◌, Option, none, some, List, [], ◌∷◌, ◌==◌, nat_eq, list_eq, length, if◌then◌else◌,
}
use agent_mail_kit.Types.Ids.{InboxId, MessageId, ThreadId, normalized}
use agent_mail_kit.Core.Threading.Links.{index_key}
use agent_mail_kit.Core.Threading.Assigner.{ThreadIndex}

abbrev pub Key : Type 0
Key = InboxId × MessageId

abbrev pub same_key : Key → Key → Bool
same_key a b = a.0 == b.0 && a.1 == b.1

-- `BTreeMap::get`, `BTreeMap::insert`
unfoldable pub get : Key → List (Key × ThreadId) → Option ThreadId
get k [] = none
get k ((j, t) ∷ m) = if same_key j k then some t else get k m

unfoldable pub put : Key → ThreadId → List (Key × ThreadId) → List (Key × ThreadId)
put k t [] = (k, t) ∷ []
put k t ((j, u) ∷ m) = if same_key j k then (k, t) ∷ m else (j, u) ∷ put k t m

pub record InMemoryThreadIndex : Type 0 where
  pub entries : List (Key × ThreadId)

-- `InMemoryThreadIndex::new`
abbrev pub empty : InMemoryThreadIndex
empty = record { entries = [] }

unfoldable pub insert : InMemoryThreadIndex → InboxId → MessageId → ThreadId → InMemoryThreadIndex
insert index inbox_id message_id t = elim (index_key message_id) [
  | none ↦ index
  | some key ↦ record index { entries = put (normalized inbox_id, key) t index.entries }
]

-- `len`, `is_empty`
unfoldable pub size : InMemoryThreadIndex → ℕ
size index = length index.entries

unfoldable pub is_empty : InMemoryThreadIndex → Bool
is_empty index = size index == 0

unfoldable pub find_thread : InMemoryThreadIndex → InboxId → MessageId → Option ThreadId
find_thread index inbox_id message_id = elim (index_key message_id) [
  | none ↦ none
  | some key ↦ get (normalized inbox_id, key) index.entries
]

-- `impl ThreadIndex for InMemoryThreadIndex`
abbrev pub as_index : InMemoryThreadIndex → ThreadIndex
as_index index = record { thread_of = find_thread index }
