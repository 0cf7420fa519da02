-- ===== src/Core/Scope/Identities.antt =====
-- crates/amk-core/src/scope.rs: `Scope::from_identity`.
use agent_mail_kit.Prelude.{
  ℕ, Bool, true, false, ◌||◌, not, Option, none, some, ◌==◌, nat_eq, list_eq, Result, ok, err,
  ◌>>=◌, if◌then◌else◌,
}
use agent_mail_kit.Types.Str.{Text}
use agent_mail_kit.Types.Ids.{PodId, eq_normalized}
use agent_mail_kit.Types.Mail.{Identity, ScopeType}
use agent_mail_kit.Core.Scope.Denials.{
  ScopeResolutionError, missing_pod_id, missing_inbox_id, narrower_id_than_scope, scope_id_mismatch,
}
use agent_mail_kit.Core.Scope.Mounts.{Scope}

abbrev pub is_some {ℓ} : {A : Type ℓ} → Option A → Bool
is_some none = false
is_some (some a) = true

-- `ok_or`
abbrev pub ok_or {ℓ κ} : {A : Type ℓ} {E : Type κ} → Option A → E → Result A E
ok_or none e = err e
ok_or (some a) e = ok a

-- `Uuid::parse_str` is the `uuid` crate's: the value of a UUID that a text writes, if it writes one.
module _ (parse_str : Text → Option ℕ) where
  unfoldable pub scope_id_names_pod : Text → PodId → Bool
  scope_id_names_pod scope_id pod_id = elim (parse_str scope_id) [
    | none ↦ false
    | some u ↦ u == pod_id
  ]

  -- The arms of `from_identity`.
  unfoldable pub from_organization : Identity → Result Scope ScopeResolutionError
  from_organization id =
      if is_some id.pod_id || is_some id.inbox_id
      then err narrower_id_than_scope
      else if not (id.scope_id == id.organization_id)
      then err scope_id_mismatch
      else ok (Scope.organization id.organization_id)

  unfoldable pub from_pod : Identity → Result Scope ScopeResolutionError
  unfolding scope_id_names_pod
  from_pod id = if is_some id.inbox_id then err narrower_id_than_scope else do
    pod_id ← ok_or id.pod_id missing_pod_id
    if not (scope_id_names_pod id.scope_id pod_id)
        then err scope_id_mismatch
        else ok (Scope.pod id.organization_id pod_id)

  unfoldable pub from_inbox : Identity → Result Scope ScopeResolutionError
  from_inbox id = do
    pod_id ← ok_or id.pod_id missing_pod_id
    inbox_id ← ok_or id.inbox_id missing_inbox_id
    if not (eq_normalized id.scope_id inbox_id)
        then err scope_id_mismatch
        else ok (Scope.inbox id.organization_id pod_id inbox_id)

  unfoldable pub from_identity : Identity → Result Scope ScopeResolutionError
  unfolding from_organization from_pod from_inbox
  from_identity id = elim id.scope_type [
    | ScopeType.organization ↦ from_organization id
    | ScopeType.pod ↦ from_pod id
    | ScopeType.inbox ↦ from_inbox id
  ]
