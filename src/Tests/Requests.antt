-- ===== src/Tests/Requests.antt =====
-- The authentication of a request, and the proof of its mount, at concrete stores.
use agent_mail_kit.Prelude.{
  ℕ, suc, ◌≡◌, ◌≢◌, ◌↔◌, refl, Option, none, some, [], ◌∷◌, ◌++◌, ok, err, option_beq, list_beq,
}
use agent_mail_kit.Types.Str.{Text, literal, lower, to_ascii_lowercase, eq_ignore_ascii_case}
use agent_mail_kit.Http.Auth.{
  AuthenticatedKey, AuthContext, KeyStore, panicked, bearer_scheme, from_request_parts,
}
use agent_mail_kit.Http.Auth.Contexts.{IsAdmitted, from_request_parts_lem}
use agent_mail_kit.Types.Ids.{normalized, eq_normalized}
use agent_mail_kit.Types.Mail.{Inbox}
use agent_mail_kit.Core.Scope.Window.{ScopeFilter, inbox_scoped, admits}
use agent_mail_kit.Core.Scope.Mounts.{Mount, Scope, resolve, settle}
use agent_mail_kit.Http.ScopeExt.{MountStore, inbox_lookup, settle_inbox_mount}
use agent_mail_kit.Http.ScopeExt.Windows.{Admits, IsProved, settle_inbox_mount_sound}
use agent_mail_kit.Tests.Samples.{acme, lower_inbox, upper_inbox}

abbrev an_inbox_key : AuthenticatedKey
an_inbox_key = record {
  api_key_id = "k";
  organization_id = acme;
  pod_id = some 7;
  inbox_id = some lower_inbox;
  permissions = none;
}

-- The world counts the uses of keys.
abbrev a_key_store : KeyStore
a_key_store = record {
  World = ℕ;
  authenticate = λ presented w. ok (some an_inbox_key);
  touch_used_at = λ key w. suc w;
  get_inbox = λ o i w. ok none;
}

-- A pod's id is written as the one code point with its number.
abbrev one_code_point : Text → Option ℕ
one_code_point [] = none
one_code_point (c ∷ s) = some c

from_request_parts_lem_example :
    ((ctx : AuthContext)
      → ((from_request_parts a_key_store one_code_point
            (λ p. p ∷ [])
            (some (some (bearer_scheme ++ literal "am_x")))
            0).0
          ≡ ok ctx)
        ↔ IsAdmitted a_key_store one_code_point
            (λ p. p ∷ [])
            (some (some (bearer_scheme ++ literal "am_x")))
            0
            ctx)
    × ((from_request_parts a_key_store one_code_point
          (λ p. p ∷ [])
          (some (some (bearer_scheme ++ literal "am_x")))
          0).0
        ≢ err panicked)
from_request_parts_lem_example =
    from_request_parts_lem a_key_store one_code_point (λ p. p ∷ []) (λ p. refl)
      (some (some (bearer_scheme ++ literal "am_x"))) 0

abbrev an_inbox : Inbox
an_inbox = record {
  organization_id = some acme;
  pod_id = 7;
  inbox_id = lower_inbox;
  email = "i@x";
  client_id = none;
  display_name = none;
  updated_at = 0;
  created_at = 0;
}

abbrev a_mount_store : MountStore
a_mount_store = record { get_pod = λ o p. ok none; get_inbox = λ o p i. ok (some an_inbox) }

abbrev proved_window : ScopeFilter
proved_window = record { organization_id = acme; pod_id = some 7; inbox_id = some lower_inbox }

settle_inbox_mount_sound_example :
    Admits proved_window (Scope.pod acme 7) (Mount.inbox upper_inbox)
    × IsProved (Scope.pod acme 7) (Mount.inbox upper_inbox) (inbox_lookup a_mount_store upper_inbox)
unfolding settle_inbox_mount settle resolve admits normalized eq_normalized eq_ignore_ascii_case
    to_ascii_lowercase lower option_beq list_beq
settle_inbox_mount_sound_example =
    settle_inbox_mount_sound a_mount_store (Scope.pod acme 7) upper_inbox proved_window refl
