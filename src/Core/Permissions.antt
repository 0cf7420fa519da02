-- ===== src/Core/Permissions.antt =====
-- crates/amk-core/src/permissions.rs: which flag an action needs, how a child key is bounded by its
-- parent, and which error a refusal surfaces as.
pub mod Gates
pub mod Children
pub mod Subscriptions
use agent_mail_kit.Prelude.{
  String, Bool, true, false, ◌&&◌, not, Option, none, some, List, [], ◌∷◌, ◌++◌, string_eq,
  contains, retain, Result, ok, err, is_ok, ◌>>◌, if◌then◌else◌,
}
use agent_mail_kit.Types.ApiKey.{
  KeyGrants, unrestricted, restricted, allows, wire_names, label_read_flag,
}
use agent_mail_kit.Types.Labels.{spam, blocked, unauthenticated}
use agent_mail_kit.Types.Event.{
  EventType, message_received_spam, message_received_blocked, message_received_unauthenticated,
  domain_verified,
}
use agent_mail_kit.Types.ErrorCode.{ErrorCode}

-- The module `flags`.
abbrev pub message_read : String
message_read = "message_read"

abbrev pub domain_read : String
domain_read = "domain_read"

abbrev pub api_key_create : String
api_key_create = "api_key_create"

unfoldable pub is_known_flag : String → Bool
is_known_flag name = contains name wire_names

pub data Denial : Type 0 where
  missing_permission : String → Denial
  permission_escalation : List String → Denial
  unbounded_child : Denial
  unrestricted_key_required : Denial
  not_found : Denial

-- `Denial::code`
unfoldable pub code : Denial → ErrorCode
code (Denial.missing_permission flag) = ErrorCode.missing_permission
code (Denial.permission_escalation missing) = ErrorCode.permission_escalation
code Denial.unbounded_child = ErrorCode.permission_escalation
code Denial.unrestricted_key_required = ErrorCode.unrestricted_key_required
code Denial.not_found = ErrorCode.not_found

unfoldable pub require : KeyGrants → String → Result (Unit {0}) Denial
require grants flag = if allows grants flag then ok tt else err (Denial.missing_permission flag)

unfoldable pub require_unrestricted : KeyGrants → Result (Unit {0}) Denial
require_unrestricted unrestricted = ok tt
require_unrestricted (restricted p) = err Denial.unrestricted_key_required

unfoldable pub authorize : KeyGrants → String → Bool → Result (Unit {0}) Denial
authorize grants required resource_in_scope =
    if not resource_in_scope then err Denial.not_found else require grants required

unfoldable pub allows_label_read : KeyGrants → String → Bool
allows_label_read grants label = elim (label_read_flag label) [
  | some flag ↦ allows grants flag
  | none ↦ true
]

-- The flags that a child would have and its parent lacks.
unfoldable pub missing_flags : KeyGrants → KeyGrants → List String
missing_flags parent child =
    retain (λ name. allows child name && not (allows parent name)) wire_names

bounded : KeyGrants → List String → Result KeyGrants Denial
bounded child [] = ok child
bounded child (flag ∷ flags) = err (Denial.permission_escalation (flag ∷ flags))

unfoldable pub derive_child : KeyGrants → KeyGrants → Result KeyGrants Denial
unfolding bounded
derive_child unrestricted child = ok child
derive_child (restricted p) unrestricted = err Denial.unbounded_child
derive_child (restricted p) (restricted q) =
    bounded (restricted q) (missing_flags (restricted p) (restricted q))

unfoldable pub restricted_receive_label : EventType → Option String
restricted_receive_label message_received_spam = some spam
restricted_receive_label message_received_blocked = some blocked
restricted_receive_label message_received_unauthenticated = some unauthenticated
restricted_receive_label _ = none

-- `required.push(flag)` for the label's flag; the `expect` is discharged by `label_read_flag` being
-- defined on each restricted label.
label_flags : Option String → List String
label_flags none = []
label_flags (some label) = elim (label_read_flag label) [ none ↦ [] | some flag ↦ flag ∷ [] ]

unfoldable pub subscription_flags : EventType → List String
unfolding label_flags restricted_receive_label label_read_flag
subscription_flags domain_verified = domain_read ∷ []
subscription_flags event = message_read ∷ label_flags (restricted_receive_label event)

require_all : KeyGrants → List String → Result (Unit {0}) Denial
require_all grants [] = ok tt
require_all grants (flag ∷ flags) = require grants flag >> require_all grants flags

unfoldable pub require_subscribe : KeyGrants → EventType → Result (Unit {0}) Denial
unfolding require_all
require_subscribe grants event = require_all grants (subscription_flags event)

unfoldable pub may_subscribe : KeyGrants → EventType → Bool
may_subscribe grants event = is_ok (require_subscribe grants event)
