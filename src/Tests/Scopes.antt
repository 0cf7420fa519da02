-- ===== src/Tests/Scopes.antt =====
-- The theorems on scope at concrete credentials, mounts and rows.
use agent_mail_kit.Prelude.{
  ℕ, ◌≡◌, refl, ◌↔◌, false, ◌&&◌, Option, none, some, [], ◌∷◌, ok, err, All,
}
use agent_mail_kit.Types.Str.{Text, lower, to_ascii_lowercase, eq_ignore_ascii_case}
use agent_mail_kit.Types.Ids.{normalized, eq_normalized}
use agent_mail_kit.Types.Mail.{Identity, ScopeType, Pod}
use agent_mail_kit.Core.Scope.Denials.{ResourceKind, ScopeDenial, denial}
use agent_mail_kit.Core.Scope.Window.{
  ScopeFilter, ResourceScope, pod_scoped, thread_item_scoped, message_scoped, admits, check,
  check_thread,
}
use agent_mail_kit.Core.Scope.Mounts.{Mount, Scope, MountProbe, ready, resolve, window_of, settle}
use agent_mail_kit.Core.Scope.Identities.{from_identity}
use agent_mail_kit.Core.Scope.Intersection.{
  covers, names, IsFound, resolve-intersects, resolve-denied, settle_iff,
}
use agent_mail_kit.Core.Scope.Binding.{Binds, from_identity_iff}
use agent_mail_kit.Tests.Samples.{acme, upper_inbox, lower_inbox, a_pod, mixed_thread}
use agent_mail_kit.Core.Scope.Rows.{check_thread_iff}

abbrev inbox_key : Scope
inbox_key = Scope.inbox acme 7 lower_inbox

abbrev pod_key : Scope
pod_key = Scope.pod acme 7

abbrev inbox_window : ScopeFilter
inbox_window = record { organization_id = acme; pod_id = some 7; inbox_id = some lower_inbox }

abbrev inbox_row : ResourceScope
inbox_row = record { organization_id = some acme; pod_id = some 7; inbox_id = some upper_inbox }

resolve-intersects_example :
    admits inbox_window inbox_row
    ≡ (covers inbox_key inbox_row && names (Mount.inbox upper_inbox) inbox_row)
unfolding resolve window_of eq_normalized eq_ignore_ascii_case lower normalized to_ascii_lowercase
resolve-intersects_example =
    resolve-intersects inbox_key (Mount.inbox upper_inbox) (ready inbox_window) inbox_row refl

resolve-denied_example :
    (denial ResourceKind.pod ≡ denial ResourceKind.pod)
    × ((at : ResourceScope) → (covers pod_key at && names (Mount.pod 8) at) ≡ false)
unfolding resolve
resolve-denied_example = resolve-denied pod_key (Mount.pod 8) (denial ResourceKind.pod) refl

abbrev org_key : Scope
org_key = Scope.organization acme

abbrev pod_window : ScopeFilter
pod_window = record { organization_id = acme; pod_id = some 7; inbox_id = none }

abbrev pod_probe : MountProbe
pod_probe = record { filter = pod_window; kind = ResourceKind.pod; mount = Mount.pod 7 }

settle_iff_example :
    ((f : ScopeFilter)
      → (settle pod_probe (some a_pod) ≡ ok f)
        ↔ ((f ≡ pod_window) × IsFound org_key (Mount.pod 7) (some a_pod)))
    × ((d : ScopeDenial)
        → settle pod_probe (some a_pod) ≡ err d
        → settle {T = Pod} pod_probe none ≡ err d)
unfolding resolve
settle_iff_example = settle_iff org_key (Mount.pod 7) pod_probe (some a_pod) refl

abbrev identity : Identity
identity = record {
  api_key_id = none;
  organization_id = acme;
  scope_id = upper_inbox;
  scope_type = ScopeType.inbox;
  pod_id = some 7;
  inbox_id = some lower_inbox;
}

-- A reader of UUIDs that knows one text.
abbrev parse_one : Text → Option ℕ
parse_one [] = none
parse_one (c ∷ s) = some 7

from_identity_iff_example :
    (from_identity parse_one identity ≡ ok inbox_key) ↔ Binds parse_one identity inbox_key
from_identity_iff_example = from_identity_iff parse_one identity inbox_key

check_thread_iff_example :
    ((check_thread inbox_window mixed_thread ≡ ok mixed_thread) ↔ (
      (mixed_thread ≡ mixed_thread)
      × (check inbox_window mixed_thread.item ≡ ok mixed_thread.item)
      × All (λ m. check inbox_window m ≡ ok m) mixed_thread.messages))
    × ((d : ScopeDenial)
        → check_thread inbox_window mixed_thread ≡ err d
        → d ≡ denial ResourceKind.thread)
check_thread_iff_example = check_thread_iff inbox_window mixed_thread mixed_thread
