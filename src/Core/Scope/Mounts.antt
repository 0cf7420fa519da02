-- ===== src/Core/Scope/Mounts.antt =====
-- crates/amk-core/src/scope.rs: the intersection of a credential's scope with the mount of a request.
use agent_mail_kit.Prelude.{Option, none, some, ◌==◌, nat_eq, Result, ok, err, if◌then◌else◌}
use agent_mail_kit.Types.Ids.{OrganizationId, PodId, InboxId, normalized, eq_normalized}
use agent_mail_kit.Core.Scope.Denials.{ResourceKind, ScopeDenial, denial}
use agent_mail_kit.Core.Scope.Window.{ScopeFilter, Scoped, admits}

pub data Mount : Type 0 where
  organization : Mount
  pod : PodId → Mount
  inbox : InboxId → Mount

pub data Scope : Type 0 where
  organization : OrganizationId → Scope
  pod : OrganizationId → PodId → Scope
  inbox : OrganizationId → PodId → InboxId → Scope

-- `Scope::organization_id`
unfoldable pub organization_id : Scope → OrganizationId
organization_id (Scope.organization o) = o
organization_id (Scope.pod o p) = o
organization_id (Scope.inbox o p i) = o

pub record MountProbe : Type 0 where
  pub filter : ScopeFilter
  pub kind : ResourceKind
  pub mount : Mount

pub data Resolved : Type 0 where
  ready : ScopeFilter → Resolved
  probe : MountProbe → Resolved

-- The closure `window` of `resolve`; its second line is `inbox_id.map(|i| i.normalized())`.
abbrev pub fold_pin : Option InboxId → Option InboxId
fold_pin none = none
fold_pin (some i) = some (normalized i)

unfoldable pub window : Scope → Option PodId → Option InboxId → ScopeFilter
unfolding organization_id
window s pod_id inbox_id = record {
  organization_id = organization_id s;
  pod_id = pod_id;
  inbox_id = fold_pin inbox_id;
}

-- The closure `probe` of `resolve`.
unfoldable pub unproven : Mount → ScopeFilter → ResourceKind → Result Resolved ScopeDenial
unproven mount filter kind = ok (probe (record { filter = filter; kind = kind; mount = mount }))

unfoldable pub resolve : Scope → Mount → Result Resolved ScopeDenial
unfolding window unproven
resolve (Scope.organization o) Mount.organization =
    ok (ready (window (Scope.organization o) none none))
resolve (Scope.organization o) (Mount.pod p) =
    unproven (Mount.pod p) (window (Scope.organization o) (some p) none) ResourceKind.pod
resolve (Scope.organization o) (Mount.inbox i) =
    unproven (Mount.inbox i) (window (Scope.organization o) none (some i)) ResourceKind.inbox
resolve (Scope.pod o pod_id) Mount.organization =
    ok (ready (window (Scope.pod o pod_id) (some pod_id) none))
resolve (Scope.pod o pod_id) (Mount.pod p) =
    if p == pod_id
    then ok (ready (window (Scope.pod o pod_id) (some pod_id) none))
    else err (denial ResourceKind.pod)
resolve (Scope.pod o pod_id) (Mount.inbox i) =
    unproven (Mount.inbox i) (window (Scope.pod o pod_id) (some pod_id) (some i)) ResourceKind.inbox
resolve (Scope.inbox o pod_id inbox_id) Mount.organization =
    ok (ready (window (Scope.inbox o pod_id inbox_id) (some pod_id) (some inbox_id)))
resolve (Scope.inbox o pod_id inbox_id) (Mount.pod p) =
    if p == pod_id
    then ok (ready (window (Scope.inbox o pod_id inbox_id) (some pod_id) (some inbox_id)))
    else err (denial ResourceKind.pod)
resolve (Scope.inbox o pod_id inbox_id) (Mount.inbox i) =
    if eq_normalized i inbox_id
    then ok (ready (window (Scope.inbox o pod_id inbox_id) (some pod_id) (some inbox_id)))
    else err (denial ResourceKind.inbox)

-- `Resolved::window`
unfoldable pub window_of : Resolved → ScopeFilter
window_of (ready f) = f
window_of (probe p) = p.filter

unfoldable pub into_ready : Resolved → Result ScopeFilter MountProbe
into_ready (ready f) = ok f
into_ready (probe p) = err p

-- `MountProbe::settle`
unfoldable pub settle :
    {T : Type 0} ⦃s : Scoped T⦄ → MountProbe → Option T → Result ScopeFilter ScopeDenial
settle p none = err (denial p.kind)
settle ⦃s⦄ p (some row) =
    if admits p.filter (s.resource_scope row) then ok p.filter else err (denial p.kind)
