-- ===== src/Core/Scope/Intersection.antt =====
-- crates/amk-core/src/scope.rs: `resolve` computes the intersection of what a credential is bound to
-- with what a mount names.
use agent_mail_kit.Prelude.{
  ◌≡◌, refl, ◌↔◌, Bool, true, false, ◌&&◌, Option, none, some, arith, ◌==◌, nat_eq, list_eq,
  option_eq, option_beq, ok, err,
}
use agent_mail_kit.Types.Ids.{OrganizationId, PodId, InboxId, normalized, eq_normalized}
use agent_mail_kit.Types.Ids.Folding.{
  eq_normalized-normalized, eq_normalized_congr, eq_normalized_comm,
}
use agent_mail_kit.Core.Scope.Denials.{ResourceKind, ScopeDenial, denial}
use agent_mail_kit.Core.Scope.Window.{
  ScopeFilter, ResourceScope, Scoped, admits, pod_admits, inbox_admits,
}
use agent_mail_kit.Core.Scope.Mounts.{
  Mount, Scope, MountProbe, Resolved, ready, probe, resolve, window_of, unproven, settle,
}

abbrev in_organization : OrganizationId → ResourceScope → Bool
in_organization o at = at.organization_id == some o

abbrev in_pod : PodId → ResourceScope → Bool
in_pod p at = at.pod_id == some p

abbrev same_inbox : InboxId → Option InboxId → Bool
same_inbox i none = false
same_inbox i (some row) = eq_normalized row i

abbrev in_inbox : InboxId → ResourceScope → Bool
in_inbox i at = same_inbox i at.inbox_id

-- A row lies inside what the credential is bound to.
abbrev pub covers : Scope → ResourceScope → Bool
covers (Scope.organization o) at = in_organization o at
covers (Scope.pod o p) at = in_organization o at && in_pod p at
covers (Scope.inbox o p i) at = in_organization o at && (in_pod p at && in_inbox i at)

-- A row lies under the resource that the mount names.
abbrev pub names : Mount → ResourceScope → Bool
names Mount.organization at = true
names (Mount.pod p) at = in_pod p at
names (Mount.inbox i) at = in_inbox i at

-- The kind of the resource that a mount names.
abbrev named_kind : Mount → ResourceKind
named_kind Mount.organization = ResourceKind.organization
named_kind (Mount.pod p) = ResourceKind.pod
named_kind (Mount.inbox i) = ResourceKind.inbox

inbox_admits_lem :
    (i : InboxId) (row : Option InboxId) → inbox_admits (some (normalized i)) row ≡ same_inbox i row
unfolding inbox_admits
inbox_admits_lem i none = refl
inbox_admits_lem i (some r) = eq_normalized-normalized r i

same_inbox_congr :
    (i j : InboxId) (row : Option InboxId)
    → eq_normalized i j ≡ true
    → same_inbox i row ≡ same_inbox j row
same_inbox_congr i j none h = refl
same_inbox_congr i j (some r) h = eq_normalized_congr r i j h

admits_lem :
    (f : ScopeFilter) (at : ResourceScope)
    → admits f at ≡ (
        in_organization f.organization_id at
        && (pod_admits f.pod_id at.pod_id && inbox_admits f.inbox_id at.inbox_id))
unfolding admits
admits_lem f at = ground arith

-- When a request is not denied, the window that its queries are built from admits exactly the rows
-- that the credential is bound to and that lie under the mount: neither a row outside the credential
-- nor one outside the mount, and every row inside both.
pub resolve-intersects :
    (s : Scope) (m : Mount) (r : Resolved) (at : ResourceScope)
    → resolve s m ≡ ok r
    → admits (window_of r) at ≡ (covers s at && names m at)
unfolding resolve window_of pod_admits inbox_admits
resolve-intersects (Scope.organization o) Mount.organization r at h =
    ground (arith, admits_lem (window_of r) at)
resolve-intersects (Scope.organization o) (Mount.pod p) r at h =
    ground (arith, admits_lem (window_of r) at)
resolve-intersects (Scope.organization o) (Mount.inbox i) r at h =
    ground (arith, admits_lem (window_of r) at, inbox_admits_lem i at.inbox_id)
resolve-intersects (Scope.pod o q) Mount.organization r at h =
    ground (arith, admits_lem (window_of r) at)
resolve-intersects (Scope.pod o q) (Mount.pod p) r at h =
    ground (arith, admits_lem (window_of r) at)
resolve-intersects (Scope.pod o q) (Mount.inbox i) r at h =
    ground (arith, admits_lem (window_of r) at, inbox_admits_lem i at.inbox_id)
resolve-intersects (Scope.inbox o q j) Mount.organization r at h =
    ground (arith, admits_lem (window_of r) at, inbox_admits_lem j at.inbox_id)
resolve-intersects (Scope.inbox o q j) (Mount.pod p) r at h =
    ground (arith, admits_lem (window_of r) at, inbox_admits_lem j at.inbox_id)
resolve-intersects (Scope.inbox o q j) (Mount.inbox i) r at h = ground (
  arith,
  admits_lem (window_of r) at,
  inbox_admits_lem j at.inbox_id,
  same_inbox_congr i j at.inbox_id,
)

-- A request is denied at once only if no row at all is both bound to the credential and under the
-- mount, and the denial speaks of the resource that the mount names.
pub resolve-denied :
    (s : Scope) (m : Mount) (d : ScopeDenial)
    → resolve s m ≡ err d
    → (d ≡ denial (named_kind m)) × ((at : ResourceScope) → (covers s at && names m at) ≡ false)
unfolding resolve option_beq
resolve-denied (Scope.pod o q) (Mount.pod p) d h = (ground arith, λ at. ground arith)
resolve-denied (Scope.inbox o q j) (Mount.pod p) d h = (ground arith, λ at. ground arith)
resolve-denied (Scope.inbox o q j) (Mount.inbox i) d h =
    (ground arith, λ at. ground (arith, apart i j at.inbox_id))
  where
    apart :
        (i j : InboxId) (row : Option InboxId)
        → eq_normalized i j ≡ false
        → (same_inbox j row && same_inbox i row) ≡ false
    apart i j none e = refl
    apart i j (some r) e = ground (arith, eq_normalized_congr i r j, eq_normalized_comm r i)
resolve-denied (Scope.organization o) Mount.organization d h = cc
resolve-denied (Scope.organization o) (Mount.pod p) d h = cc
resolve-denied (Scope.organization o) (Mount.inbox i) d h = cc
resolve-denied (Scope.pod o q) Mount.organization d h = cc
resolve-denied (Scope.pod o q) (Mount.inbox i) d h = cc
resolve-denied (Scope.inbox o q j) Mount.organization d h = cc

-- What the mount names is proven by the credential alone when the window is settled at once: every
-- row that the credential is bound to lies under the mount.
pub ready_proven :
    (s : Scope) (m : Mount) (f : ScopeFilter) (at : ResourceScope)
    → resolve s m ≡ ok (ready f)
    → covers s at ≡ true
    → names m at ≡ true
unfolding resolve unproven option_beq
ready_proven s Mount.organization f at h c = refl
ready_proven (Scope.organization o) (Mount.pod p) f at h c = cc
ready_proven (Scope.organization o) (Mount.inbox i) f at h c = cc
ready_proven (Scope.pod o q) (Mount.pod p) f at h c = ground arith
ready_proven (Scope.pod o q) (Mount.inbox i) f at h c = cc
ready_proven (Scope.inbox o q j) (Mount.pod p) f at h c = ground arith
ready_proven (Scope.inbox o q j) (Mount.inbox i) f at h c =
    ground (arith, same_inbox_congr i j at.inbox_id)

-- The row that a probe is settled with was found, inside the credential and under the mount.
abbrev pub IsFound : {T : Type 0} ⦃r : Scoped T⦄ → Scope → Mount → Option T → Type 0
IsFound s m none = ⊥
IsFound ⦃r⦄ s m (some row) =
    (covers s (r.resource_scope row) && names m (r.resource_scope row)) ≡ true

-- A probe that `resolve` hands out is settled, to its own window, exactly by a row that was found
-- inside the credential and under the mount. Any other outcome of the lookup gives the denial that an
-- absent row gives.
pub settle_iff :
    {T : Type 0} ⦃w : Scoped T⦄ (s : Scope) (m : Mount) (p : MountProbe) (row : Option T)
    → resolve s m ≡ ok (probe p)
    → ((f : ScopeFilter) → (settle p row ≡ ok f) ↔ ((f ≡ p.filter) × IsFound s m row))
      × ((d : ScopeDenial) → settle p row ≡ err d → settle {T = T} p none ≡ err d)
unfolding settle window_of
settle_iff s m p none h = (λ f. (λ e. cc, λ (e, n). absurd n), λ d e. e)
settle_iff ⦃w⦄ s m p (some row) h = (
  λ f. (λ e. (ground arith, ground (arith, exact)), λ (e, n). ground (arith, exact)),
  λ d e. ground arith,
)
  where
    exact :
        admits p.filter (w.resource_scope row)
        ≡ (covers s (w.resource_scope row) && names m (w.resource_scope row))
    exact = resolve-intersects s m (probe p) (w.resource_scope row) h
