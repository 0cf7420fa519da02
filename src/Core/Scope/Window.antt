-- ===== src/Core/Scope/Window.antt =====
-- crates/amk-core/src/scope.rs: where a row lives, and the filter that every query is built from.
use agent_mail_kit.Prelude.{
  Bool, true, false, not, Option, none, some, List, ◌==◌, nat_eq, list_eq, option_eq, retain, all,
  Result, ok, err, if◌then◌else◌,
}
use agent_mail_kit.Types.Ids.{OrganizationId, PodId, InboxId, eq_normalized}
use agent_mail_kit.Types.Mail.{Pod, Inbox, ThreadItem, MessageItem, Message, Thread}
use agent_mail_kit.Core.Scope.Denials.{ResourceKind, ScopeDenial, denial}

pub record ResourceScope : Type 0 where
  pub organization_id : Option OrganizationId
  pub pod_id : Option PodId
  pub inbox_id : Option InboxId

-- The trait `Scoped`.
pub record Scoped (T : Type 0) : Type 0 where
  pub kind : ResourceKind
  pub resource_scope : T → ResourceScope

instance abbrev pub pod_scoped : Scoped Pod
pod_scoped = record {
  kind = ResourceKind.pod;
  resource_scope =
      λ p. record { organization_id = p.organization_id; pod_id = some p.pod_id; inbox_id = none };
}

instance abbrev pub inbox_scoped : Scoped Inbox
inbox_scoped = record {
  kind = ResourceKind.inbox;
  resource_scope = λ i. record {
    organization_id = i.organization_id;
    pod_id = some i.pod_id;
    inbox_id = some i.inbox_id;
  };
}

instance abbrev pub thread_item_scoped : Scoped ThreadItem
thread_item_scoped = record {
  kind = ResourceKind.thread;
  resource_scope = λ t. record {
    organization_id = t.organization_id;
    pod_id = t.pod_id;
    inbox_id = some t.inbox_id;
  };
}

instance abbrev pub message_item_scoped : Scoped MessageItem
message_item_scoped = record {
  kind = ResourceKind.message;
  resource_scope = λ m. record {
    organization_id = m.organization_id;
    pod_id = m.pod_id;
    inbox_id = some m.inbox_id;
  };
}

instance abbrev pub message_scoped : Scoped Message
message_scoped = record {
  kind = ResourceKind.message;
  resource_scope = λ m. message_item_scoped.resource_scope m.item;
}

pub record ScopeFilter : Type 0 where
  pub organization_id : OrganizationId
  pub pod_id : Option PodId
  pub inbox_id : Option InboxId

-- The tests of `admits` on a pinned pod and on a pinned inbox.
unfoldable pub pod_admits : Option PodId → Option PodId → Bool
pod_admits none row = true
pod_admits (some pod) row = row == some pod

unfoldable pub inbox_admits : Option InboxId → Option InboxId → Bool
inbox_admits none row = true
inbox_admits (some inbox) none = false
inbox_admits (some inbox) (some row) = eq_normalized row inbox

unfoldable pub admits : ScopeFilter → ResourceScope → Bool
unfolding pod_admits inbox_admits
admits f at =
    if not (at.organization_id == some f.organization_id)
    then false
    else if not (pod_admits f.pod_id at.pod_id)
    then false
    else inbox_admits f.inbox_id at.inbox_id

module _ {T : Type 0} where
  unfoldable pub check_at : ScopeFilter → ResourceKind → ResourceScope → T → Result T ScopeDenial
  check_at f kind at value = if admits f at then ok value else err (denial kind)

  unfoldable pub check : ⦃s : Scoped T⦄ → ScopeFilter → T → Result T ScopeDenial
  unfolding check_at
  check ⦃s⦄ f value = check_at f s.kind (s.resource_scope value) value

  unfoldable pub retain_visible : ⦃s : Scoped T⦄ → ScopeFilter → List T → List T
  retain_visible ⦃s⦄ f items = retain (λ i. admits f (s.resource_scope i)) items

unfoldable pub check_thread : ScopeFilter → Thread → Result Thread ScopeDenial
check_thread f t =
    if not (admits f (thread_item_scoped.resource_scope t.item))
    then err (denial ResourceKind.thread)
    else if not (all (λ m. admits f (message_scoped.resource_scope m)) t.messages)
    then err (denial ResourceKind.thread)
    else ok t
