-- ===== src/Types/ApiKey.antt =====
-- crates/amk-types/src/api_key.rs: the permissions object of an API key, what it grants, the
-- catalog of its flags, and the flags that gate the restricted labels. The JSON text is serde's;
-- `serialize` is the list of entries that is handed to it.
pub mod Catalog
use agent_mail_kit.Prelude.{
  String, Bool, true, false, Option, none, some, List, [], ◌∷◌, ◌==◌, string_eq, contains, find,
  if◌then◌else◌,
}
use agent_mail_kit.Types.Labels.{spam, blocked, unauthenticated, trash}

pub record ApiKeyPermissions : Type 0 where
  pub inbox_read : Option Bool
  pub inbox_create : Option Bool
  pub inbox_update : Option Bool
  pub inbox_delete : Option Bool
  pub message_read : Option Bool
  pub message_send : Option Bool
  pub message_update : Option Bool
  pub message_delete : Option Bool
  pub label_spam_read : Option Bool
  pub label_blocked_read : Option Bool
  pub label_unauthenticated_read : Option Bool
  pub label_trash_read : Option Bool
  pub draft_read : Option Bool
  pub draft_create : Option Bool
  pub draft_update : Option Bool
  pub draft_delete : Option Bool
  pub draft_send : Option Bool
  pub webhook_read : Option Bool
  pub webhook_create : Option Bool
  pub webhook_update : Option Bool
  pub webhook_delete : Option Bool
  pub domain_read : Option Bool
  pub domain_create : Option Bool
  pub domain_update : Option Bool
  pub domain_delete : Option Bool
  pub list_entry_read : Option Bool
  pub list_entry_create : Option Bool
  pub list_entry_delete : Option Bool
  pub metrics_read : Option Bool
  pub api_key_read : Option Bool
  pub api_key_create : Option Bool
  pub api_key_update : Option Bool
  pub api_key_delete : Option Bool
  pub pod_read : Option Bool
  pub pod_create : Option Bool
  pub pod_delete : Option Bool
  pub owner_email : Option Bool
  pub owner_profile : Option Bool

-- `WIRE_NAMES`
abbrev pub wire_names : List String
wire_names =
    "inbox_read" ∷ "inbox_create" ∷ "inbox_update" ∷ "inbox_delete" ∷ "message_read"
    ∷ "message_send" ∷ "message_update" ∷ "message_delete" ∷ "label_spam_read"
    ∷ "label_blocked_read" ∷ "label_unauthenticated_read" ∷ "label_trash_read" ∷ "draft_read"
    ∷ "draft_create" ∷ "draft_update" ∷ "draft_delete" ∷ "draft_send" ∷ "webhook_read"
    ∷ "webhook_create" ∷ "webhook_update" ∷ "webhook_delete" ∷ "domain_read" ∷ "domain_create"
    ∷ "domain_update" ∷ "domain_delete" ∷ "list_entry_read" ∷ "list_entry_create"
    ∷ "list_entry_delete" ∷ "metrics_read" ∷ "api_key_read" ∷ "api_key_create" ∷ "api_key_update"
    ∷ "api_key_delete" ∷ "pod_read" ∷ "pod_create" ∷ "pod_delete" ∷ "owner_email" ∷ "owner_profile"
    ∷ []

-- The arms of the match in `get`, in their order.
unfoldable pub arms : ApiKeyPermissions → List (String × Option Bool)
arms p =
    ("inbox_read", p.inbox_read)
    ∷ ("inbox_create", p.inbox_create)
    ∷ ("inbox_update", p.inbox_update)
    ∷ ("inbox_delete", p.inbox_delete)
    ∷ ("message_read", p.message_read)
    ∷ ("message_send", p.message_send)
    ∷ ("message_update", p.message_update)
    ∷ ("message_delete", p.message_delete)
    ∷ ("label_spam_read", p.label_spam_read)
    ∷ ("label_blocked_read", p.label_blocked_read)
    ∷ ("label_unauthenticated_read", p.label_unauthenticated_read)
    ∷ ("label_trash_read", p.label_trash_read)
    ∷ ("draft_read", p.draft_read)
    ∷ ("draft_create", p.draft_create)
    ∷ ("draft_update", p.draft_update)
    ∷ ("draft_delete", p.draft_delete)
    ∷ ("draft_send", p.draft_send)
    ∷ ("webhook_read", p.webhook_read)
    ∷ ("webhook_create", p.webhook_create)
    ∷ ("webhook_update", p.webhook_update)
    ∷ ("webhook_delete", p.webhook_delete)
    ∷ ("domain_read", p.domain_read)
    ∷ ("domain_create", p.domain_create)
    ∷ ("domain_update", p.domain_update)
    ∷ ("domain_delete", p.domain_delete)
    ∷ ("list_entry_read", p.list_entry_read)
    ∷ ("list_entry_create", p.list_entry_create)
    ∷ ("list_entry_delete", p.list_entry_delete)
    ∷ ("metrics_read", p.metrics_read)
    ∷ ("api_key_read", p.api_key_read)
    ∷ ("api_key_create", p.api_key_create)
    ∷ ("api_key_update", p.api_key_update)
    ∷ ("api_key_delete", p.api_key_delete)
    ∷ ("pod_read", p.pod_read)
    ∷ ("pod_create", p.pod_create)
    ∷ ("pod_delete", p.pod_delete)
    ∷ ("owner_email", p.owner_email)
    ∷ ("owner_profile", p.owner_profile)
    ∷ []

-- The first arm that matches a name; `none` is the arm `_`.
unfoldable pub select : String → List (String × Option Bool) → Option (Option Bool)
select name [] = none
select name ((n, v) ∷ rest) = if n == name then some v else select name rest

abbrev pub unwrap_or_false : Option Bool → Bool
unwrap_or_false none = false
unwrap_or_false (some b) = b

-- `ApiKeyPermissions::get`
unfoldable pub get : ApiKeyPermissions → String → Option Bool
get p wire_name = elim (select wire_name (arms p)) [
  | none ↦ none
  | some v ↦ some (unwrap_or_false v)
]

pub data KeyGrants : Type 0 where
  unrestricted : KeyGrants
  restricted : ApiKeyPermissions → KeyGrants

unfoldable pub from_wire : Option ApiKeyPermissions → KeyGrants
from_wire none = unrestricted
from_wire (some p) = restricted p

-- `get(name) == Some(true)`
abbrev pub is_some_true : Option Bool → Bool
is_some_true none = false
is_some_true (some b) = b

-- `KeyGrants::allows`
unfoldable pub allows : KeyGrants → String → Bool
unfolding get
allows unrestricted wire_name = contains wire_name wire_names
allows (restricted p) wire_name = is_some_true (get p wire_name)

-- The loop of `Serialize`: an entry for each name of the catalog. `none` is the panic of its
-- `expect`.
serialize_names : ApiKeyPermissions → List String → Option (List (String × Bool))
serialize_names p [] = some []
serialize_names p (name ∷ names) = elim (get p name) [
  | none ↦ none
  | some granted ↦ elim (serialize_names p names) [
    | none ↦ none
    | some entries ↦ some ((name, granted) ∷ entries)
  ]
]

pub serialize : ApiKeyPermissions → Option (List (String × Bool))
unfolding serialize_names
serialize p = serialize_names p wire_names

-- `LABEL_READ_FLAGS`
abbrev pub label_read_flags : List (String × String)
label_read_flags =
    ("label_spam_read", spam)
    ∷ ("label_blocked_read", blocked)
    ∷ ("label_unauthenticated_read", unauthenticated)
    ∷ ("label_trash_read", trash)
    ∷ []

abbrev pub first : Option (String × String) → Option String
first none = none
first (some p) = some p.0

unfoldable pub label_read_flag : String → Option String
label_read_flag label = first (find (λ p. p.1 == label) label_read_flags)
