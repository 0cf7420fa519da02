-- ===== src/Tests/Keys.antt =====
-- The theorems on keys and their flags at concrete keys.
use agent_mail_kit.Prelude.{
  all, String, ◌≡◌, refl, ◌↔◌, ◌⊎◌, Bool, true, false, some, ok, err, contains, string_eq, retain,
}
use agent_mail_kit.Types.ErrorCode.{status}
use agent_mail_kit.Types.Event.{message_received_spam}
use agent_mail_kit.Types.ApiKey.{
  ApiKeyPermissions, unrestricted, restricted, allows, get, select, arms, label_read_flag,
}
use agent_mail_kit.Core.Permissions.{
  Denial, code, is_known_flag, authorize, derive_child, missing_flags, subscription_flags,
  require_subscribe, may_subscribe, require,
}
use agent_mail_kit.Core.Permissions.Gates.{authorize_lem}
use agent_mail_kit.Core.Permissions.Children.{
  IsBounded, derive_child_iff, Descends, itself, child_of, descendant-IsBounded,
}
use agent_mail_kit.Core.Permissions.Subscriptions.{required, subscribe_reads}
use agent_mail_kit.Tests.Samples.{no_permissions, reader}

-- A second flag, which `reader` lacks.
abbrev wide_permissions : ApiKeyPermissions
wide_permissions = record no_permissions { message_read = some true; pod_read = some true }

authorize_lem_example :
    ((authorize reader "message_read" true ≡ ok tt) ↔ (
      (◌≡◌ {A = Bool} true true)
      × (is_known_flag "message_read" ≡ true)
      × (allows reader "message_read" ≡ true)))
    × (◌≡◌ {A = Bool} true false
        → (authorize reader "message_read" true ≡ err Denial.not_found)
          × (status (code Denial.not_found) ≡ 404))
    × (◌≡◌ {A = Bool} true true
        → allows reader "message_read" ≡ false
        → (authorize reader "message_read" true ≡ err (Denial.missing_permission "message_read"))
          × (status (code (Denial.missing_permission "message_read")) ≡ 403))
authorize_lem_example = authorize_lem reader "message_read" true

derive_child_iff_example : (derive_child unrestricted reader ≡ ok reader) ↔ (
    (reader ≡ reader)
    × ((unrestricted ≡ unrestricted)
        ⊎ ((q : ApiKeyPermissions) × (reader ≡ restricted q) × IsBounded unrestricted reader)))
derive_child_iff_example = derive_child_iff unrestricted reader reader

grandchild : Descends unrestricted reader
unfolding derive_child missing_flags retain allows get select arms
grandchild = child_of reader (child_of reader itself refl) refl

descendant-IsBounded_example : IsBounded unrestricted reader
descendant-IsBounded_example = descendant-IsBounded unrestricted grandchild

subscribe_reads_example :
    (may_subscribe reader message_received_spam
      ≡ all (allows reader) (required message_received_spam))
    × ((d : Denial)
        → require_subscribe reader message_received_spam ≡ err d
        → (flag : String) × (d ≡ Denial.missing_permission flag)
          × (contains flag (required message_received_spam) ≡ true)
          × (allows reader flag ≡ false))
subscribe_reads_example = subscribe_reads reader message_received_spam

-- A key that may read messages may not subscribe to spam.
spam_refused : may_subscribe reader message_received_spam ≡ false
unfolding may_subscribe require_subscribe subscription_flags allows get select arms label_read_flag
    require
spam_refused = refl
