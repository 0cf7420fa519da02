-- ===== src/Http/ScopeExt/Windows.antt =====
-- What the windows of collections admit, and which keys a window lists.
use agent_mail_kit.Prelude.{
  ◌≡◌, ◌⊎◌, refl, sym, ap, ◌&&◌, Option, some, Result, ok, err, inl, inr, ok_injective,
}
use mathlib.Core.Path.{subst}
use agent_mail_kit.Types.Str.{Text}
use agent_mail_kit.Types.Ids.{PodId, InboxId, normalized}
use agent_mail_kit.Core.Scope.Denials.{ScopeDenial}
use agent_mail_kit.Core.Scope.Window.{
  ScopeFilter, ResourceScope, Scoped, pod_scoped, inbox_scoped, admits,
}
use agent_mail_kit.Core.Scope.Mounts.{
  Mount, Scope, MountProbe, Resolved, ready, probe, resolve, settle, window_of, window,
}
use agent_mail_kit.Core.Scope.Intersection.{covers, names, IsFound, resolve-intersects, settle_iff}
use agent_mail_kit.Http.ScopeExt.{
  MountStore, or_denied, with_row, settled_by, pod_lookup, inbox_lookup, settle_pod_mount,
  settle_inbox_mount, organization_window, KeyScope, key_scope_for,
}

-- Exactly the rows inside the credential and under the mount.
abbrev pub Admits : ScopeFilter → Scope → Mount → Type 0
Admits f scope m = (at : ResourceScope) → admits f at ≡ (covers scope at && names m at)

or_denied_sound :
    (r : Result ScopeFilter ScopeDenial) (f : ScopeFilter) → or_denied r ≡ ok f → r ≡ ok f
or_denied_sound (ok g) f h = ap ok (ok_injective g f h)
or_denied_sound (err d) f h = cc

module _ {T : Type 0} ⦃w : Scoped T⦄ (scope : Scope) (m : Mount) where
  -- The mount needs no proof, or the lookup of its probe found a row of it inside the credential.
  abbrev pub IsProved : (MountProbe → Result (Option T) Text) → Type 0
  IsProved lookup =
      ((f : ScopeFilter) × (resolve scope m ≡ ok (ready f)))
      ⊎ ((p : MountProbe) × ((row : Option T) × ((resolve scope m ≡ ok (probe p))
              × ((lookup p ≡ ok row) × IsFound scope m row))))

  settled_by_sound :
      (lookup : MountProbe → Result (Option T) Text) (r : Result Resolved ScopeDenial)
      (f : ScopeFilter)
      → resolve scope m ≡ r
      → settled_by lookup r ≡ ok f
      → Admits f scope m × IsProved lookup
  unfolding window_of
  settled_by_sound lookup (err d) f e h = cc
  settled_by_sound lookup (ok (ready g)) f e h = (
    subst (λ x. Admits x scope m) (ok_injective g f h)
        (λ at. resolve-intersects scope m (ready g) at e),
    inl (g, e),
  )
  settled_by_sound lookup (ok (probe p)) f e h = by_row (lookup p) refl h
    where
      by_row :
          (found : Result (Option T) Text)
          → lookup p ≡ found
          → with_row p found ≡ ok f
          → Admits f scope m × IsProved lookup
      by_row (err x) l g = cc
      by_row (ok row) l g =
          let (same, is_found) =
            ((settle_iff scope m p row e).0 f).0 (or_denied_sound (settle p row) f g) in
          (
            subst (λ x. Admits x scope m) (sym same)
                (λ at. resolve-intersects scope m (probe p) at e),
            inr (p, (row, (e, (l, is_found)))),
          )

-- Where a collection under an inbox is given a window, the window admits exactly the rows inside the
-- credential and under that inbox, and the inbox itself was found inside the credential, unless the
-- credential alone proves it.
pub settle_inbox_mount_sound :
    (s : MountStore) (scope : Scope) (i : InboxId) (f : ScopeFilter)
    → settle_inbox_mount s scope i ≡ ok f
    → Admits f scope (Mount.inbox i) × IsProved scope (Mount.inbox i) (inbox_lookup s i)
unfolding settle_inbox_mount
settle_inbox_mount_sound s scope i f h =
    settled_by_sound scope (Mount.inbox i) (inbox_lookup s i) (resolve scope (Mount.inbox i)) f refl
      h

-- The same of a pod.
settle_pod_mount_sound :
    (s : MountStore) (scope : Scope) (p : PodId) (f : ScopeFilter)
    → settle_pod_mount s scope p ≡ ok f
    → Admits f scope (Mount.pod p) × IsProved scope (Mount.pod p) (pod_lookup s p)
unfolding settle_pod_mount
settle_pod_mount_sound s scope p f h =
    settled_by_sound scope (Mount.pod p) (pod_lookup s p) (resolve scope (Mount.pod p)) f refl h

-- The keys that a credential lists: those of its narrowest resource.
abbrev narrowest : Scope → KeyScope
narrowest (Scope.organization o) = KeyScope.organization
narrowest (Scope.pod o p) = KeyScope.pod p
narrowest (Scope.inbox o p i) = KeyScope.inbox (normalized i)

-- The organization mount is never denied and never needs a lookup, so its `unreachable`s are not
-- reached; its window admits exactly the rows inside the credential, and lists the keys of the narrowest
-- resource of the credential.
organization_window_lem :
    (scope : Scope)
    → (f : ScopeFilter) × ((organization_window scope ≡ some f)
        × (Admits f scope Mount.organization × (key_scope_for f ≡ narrowest scope)))
unfolding organization_window resolve window_of window key_scope_for
organization_window_lem (Scope.organization o) = (
  _,
  (
    refl,
    ((λ at. resolve-intersects (Scope.organization o) Mount.organization (ready _) at refl), refl),
  ),
)
organization_window_lem (Scope.pod o p) = (
  _,
  (refl, ((λ at. resolve-intersects (Scope.pod o p) Mount.organization (ready _) at refl), refl)),
)
organization_window_lem (Scope.inbox o p i) = (
  _,
  (
    refl,
    ((λ at. resolve-intersects (Scope.inbox o p i) Mount.organization (ready _) at refl), refl),
  ),
)
