-- ===== src/Http/Auth.antt =====
-- crates/amk-http/src/auth.rs: `AuthContext::from_request_parts`, from the header of a request to the
-- identity, the grants and the scope of its key. The store's calls are the record `KeyStore`.
pub mod Contexts
use agent_mail_kit.Prelude.{
  ℕ, Bool, true, false, String, Option, none, some, List, [], ◌∷◌, ◌==◌, nat_eq, Result, ok, err,
  ◌>>=◌, if◌then◌else◌,
}
use agent_mail_kit.Types.Str.{Text, literal}
use agent_mail_kit.Types.Ids.{OrganizationId, PodId, InboxId}
use agent_mail_kit.Types.Mail.{Identity, ScopeType, Inbox}
use agent_mail_kit.Types.ApiKey.{ApiKeyPermissions, KeyGrants, from_wire}
use agent_mail_kit.Core.Scope.Denials.{ScopeResolutionError}
use agent_mail_kit.Core.Scope.Mounts.{Scope}
use agent_mail_kit.Core.Scope.Identities.{is_some, ok_or, from_identity}

-- crates/amk-store/src/api_keys.rs
pub record AuthenticatedKey : Type 0 where
  pub api_key_id : String
  pub organization_id : OrganizationId
  pub pod_id : Option PodId
  pub inbox_id : Option InboxId
  pub permissions : Option ApiKeyPermissions

pub data GatewayFailure : Type 0 where
  unauthorized forbidden : GatewayFailure

-- `panicked` is the panic of an `expect`.
pub data AuthRejection : Type 0 where
  gateway : GatewayFailure → AuthRejection
  app : Text → AuthRejection
  panicked : AuthRejection

pub record AuthContext : Type 0 where
  pub identity : Identity
  pub grants : KeyGrants
  pub scope : Scope

pub record KeyStore : Type 1 where
  pub World : Type 0
  pub authenticate : Text → World → Result (Option AuthenticatedKey) Text
  -- The world after a key was marked as used, or could not be.
  pub touch_used_at : String → World → World
  pub get_inbox : OrganizationId → InboxId → World → Result (Option Inbox) Text

unfoldable pub scope_type_of : AuthenticatedKey → ScopeType
scope_type_of key =
    if is_some key.inbox_id
    then ScopeType.inbox
    else if is_some key.pod_id
    then ScopeType.pod
    else ScopeType.organization

-- `strip_prefix` of a text.
unfoldable pub strip_start : Text → Text → Option Text
strip_start [] s = some s
strip_start (c ∷ start) [] = none
strip_start (c ∷ start) (b ∷ s) = let rest = strip_start start s in if b == c then rest else none

abbrev pub bearer_scheme : Text
bearer_scheme = literal "Bearer "

abbrev pub inbox_pod : Result (Option Inbox) Text → Result (Option PodId) AuthRejection
inbox_pod (err e) = err (app e)
inbox_pod (ok none) = err (gateway forbidden)
inbox_pod (ok (some inbox)) = ok (some inbox.pod_id)

abbrev pub forbid : Result Scope ScopeResolutionError → Result Scope AuthRejection
forbid (ok s) = ok s
forbid (err e) = err (gateway forbidden)

module _ (k : KeyStore) (parse_str : Text → Option ℕ) (pod_text : PodId → Text) where
  unfoldable pub pod_of : AuthenticatedKey → k.World → Result (Option PodId) AuthRejection
  pod_of key w = elim key.pod_id [
    | some p ↦ ok (some p)
    | none ↦ elim key.inbox_id [
      | some inbox_id ↦ inbox_pod (k.get_inbox key.organization_id inbox_id w)
      | none ↦ ok none
    ]
  ]

  abbrev some_text : Option PodId → Option Text
  some_text none = none
  some_text (some p) = some (pod_text p)

  unfoldable pub scope_id_of : AuthenticatedKey → Option PodId → Result Text AuthRejection
  scope_id_of key pod_id = elim (scope_type_of key) [
    | ScopeType.inbox ↦ ok_or key.inbox_id panicked
    | ScopeType.pod ↦ ok_or (some_text pod_id) panicked
    | ScopeType.organization ↦ ok key.organization_id
  ]

  abbrev pub identity_of : AuthenticatedKey → Option PodId → Text → Identity
  identity_of key pod_id scope_id = record {
    api_key_id = some key.api_key_id;
    organization_id = key.organization_id;
    scope_id = scope_id;
    scope_type = scope_type_of key;
    pod_id = pod_id;
    inbox_id = key.inbox_id;
  }

  unfoldable pub context_of : AuthenticatedKey → k.World → Result AuthContext AuthRejection
  context_of key w = do
    pod_id ← pod_of key w
    scope_id ← scope_id_of key pod_id
    scope ← forbid (from_identity parse_str (identity_of key pod_id scope_id))
    ok (record {
      identity = identity_of key pod_id scope_id;
      grants = from_wire key.permissions;
      scope = scope;
    })

  abbrev pub with_key :
      Result (Option AuthenticatedKey) Text → k.World → Result AuthContext AuthRejection × k.World
  with_key (err e) w = (err (app e), w)
  with_key (ok none) w = (err (gateway forbidden), w)
  with_key (ok (some key)) w =
      (context_of key (k.touch_used_at key.api_key_id w), k.touch_used_at key.api_key_id w)

  abbrev pub presented_as : Option Text → k.World → Result AuthContext AuthRejection × k.World
  presented_as none w = (err (gateway forbidden), w)
  presented_as (some presented) w = with_key (k.authenticate presented w) w

  -- The header, if it is there, and its text, if it has one.
  unfoldable pub from_request_parts :
      Option (Option Text) → k.World → Result AuthContext AuthRejection × k.World
  from_request_parts none w = (err (gateway unauthorized), w)
  from_request_parts (some none) w = (err (gateway forbidden), w)
  from_request_parts (some (some value)) w = presented_as (strip_start bearer_scheme value) w
