-- ===== src/Http/ScopeExt.antt =====
-- crates/amk-http/src/scope_ext.rs: the window of a collection, proved by a lookup where the mount
-- needs one. The lookups of pods and inboxes are the record `MountStore`.
pub mod Windows
use agent_mail_kit.Prelude.{Option, none, some, Result, ok, err}
use agent_mail_kit.Types.Str.{Text}
use agent_mail_kit.Types.Ids.{OrganizationId, PodId, InboxId}
use agent_mail_kit.Types.Mail.{Pod, Inbox}
use agent_mail_kit.Core.Scope.Denials.{ScopeDenial}
use agent_mail_kit.Core.Scope.Window.{ScopeFilter, Scoped, pod_scoped, inbox_scoped}
use agent_mail_kit.Core.Scope.Mounts.{
  Mount, Scope, MountProbe, Resolved, ready, probe, resolve, settle,
}

-- The `AppError` of a mount.
pub data MountError : Type 0 where
  denied : ScopeDenial → MountError
  broken : Text → MountError

-- crates/amk-store/src/api_keys.rs
pub data KeyScope : Type 0 where
  organization : KeyScope
  pod : PodId → KeyScope
  inbox : InboxId → KeyScope

pub record MountStore : Type 0 where
  pub get_pod : OrganizationId → PodId → Result (Option Pod) Text
  pub get_inbox : OrganizationId → Option PodId → InboxId → Result (Option Inbox) Text

abbrev pub or_denied : Result ScopeFilter ScopeDenial → Result ScopeFilter MountError
or_denied (ok f) = ok f
or_denied (err d) = err (denied d)

module _ {T : Type 0} where
  -- A probe with what its lookup found.
  abbrev pub with_row :
      ⦃s : Scoped T⦄ → MountProbe → Result (Option T) Text → Result ScopeFilter MountError
  with_row p (err e) = err (broken e)
  with_row p (ok row) = or_denied (settle p row)

  -- The match that both mounts have.
  abbrev pub settled_by :
      ⦃s : Scoped T⦄
      → (MountProbe → Result (Option T) Text)
      → Result Resolved ScopeDenial
      → Result ScopeFilter MountError
  settled_by lookup (ok (ready filter)) = ok filter
  settled_by lookup (ok (probe p)) = with_row p (lookup p)
  settled_by lookup (err d) = err (denied d)

module _ (s : MountStore) where
  abbrev pub pod_lookup : PodId → MountProbe → Result (Option Pod) Text
  pod_lookup pod_id p = s.get_pod p.filter.organization_id pod_id

  unfoldable pub settle_pod_mount : Scope → PodId → Result ScopeFilter MountError
  settle_pod_mount scope pod_id = settled_by (pod_lookup pod_id) (resolve scope (Mount.pod pod_id))

  abbrev pub inbox_lookup : InboxId → MountProbe → Result (Option Inbox) Text
  inbox_lookup inbox_id p = s.get_inbox p.filter.organization_id p.filter.pod_id inbox_id

  unfoldable pub settle_inbox_mount : Scope → InboxId → Result ScopeFilter MountError
  settle_inbox_mount scope inbox_id =
      settled_by (inbox_lookup inbox_id) (resolve scope (Mount.inbox inbox_id))

abbrev ready_only : Result Resolved ScopeDenial → Option ScopeFilter
ready_only (ok (ready filter)) = some filter
ready_only (ok (probe p)) = none
ready_only (err d) = none

-- Nothing stands for the panic of an `unreachable`.
unfoldable pub organization_window : Scope → Option ScopeFilter
organization_window scope = ready_only (resolve scope Mount.organization)

unfoldable pub key_scope_for : ScopeFilter → KeyScope
key_scope_for filter = elim filter.inbox_id [
  | some inbox_id ↦ KeyScope.inbox inbox_id
  | none ↦ elim filter.pod_id [ some pod_id ↦ KeyScope.pod pod_id | none ↦ KeyScope.organization ]
]
