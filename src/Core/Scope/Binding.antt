-- ===== src/Core/Scope/Binding.antt =====
-- crates/amk-core/src/scope.rs: which identities `from_identity` accepts.
use agent_mail_kit.Prelude.{
  ℕ, ◌≡◌, ◌↔◌, Option, none, some, arith, nat_eq, list_eq, list_beq_iff, ok,
}
use agent_mail_kit.Types.Str.{Text}
use agent_mail_kit.Types.Ids.{normalized}
use agent_mail_kit.Types.Ids.Folding.{eq_normalized_iff}
use agent_mail_kit.Types.Mail.{Identity, ScopeType}
use agent_mail_kit.Core.Scope.Mounts.{Scope}
use agent_mail_kit.Core.Scope.Identities.{from_identity, scope_id_names_pod}

module _ (parse_str : Text → Option ℕ) where
  -- The fields of an identity agree with one another and with a window: the ids that its scope type
  -- calls for are there, no narrower id is, and `scope_id` names the resource of the scope.
  abbrev pub Binds : Identity → Scope → Type 0
  Binds id (Scope.organization o) =
      (id.scope_type ≡ ScopeType.organization)
      × (id.organization_id ≡ o)
      × (id.pod_id ≡ none)
      × (id.inbox_id ≡ none)
      × (id.scope_id ≡ o)
  Binds id (Scope.pod o p) =
      (id.scope_type ≡ ScopeType.pod)
      × (id.organization_id ≡ o)
      × (id.pod_id ≡ some p)
      × (id.inbox_id ≡ none)
      × (parse_str id.scope_id ≡ some p)
  Binds id (Scope.inbox o p i) =
      (id.scope_type ≡ ScopeType.inbox)
      × (id.organization_id ≡ o)
      × (id.pod_id ≡ some p)
      × (id.inbox_id ≡ some i)
      × (normalized id.scope_id ≡ normalized i)

  -- An identity is resolved to a window exactly when all its fields agree with that window.
  pub from_identity_iff :
      (id : Identity) (s : Scope) → (from_identity parse_str id ≡ ok s) ↔ Binds id s
  unfolding from_identity scope_id_names_pod
  from_identity_iff id (Scope.organization o) =
      ground (arith, list_beq_iff id.scope_id id.organization_id)
  from_identity_iff id (Scope.pod o p) = ground arith
  from_identity_iff id (Scope.inbox o p i) = ground (arith, eq_normalized_iff id.scope_id i)
