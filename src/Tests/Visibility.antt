-- ===== src/Tests/Visibility.antt =====
-- The theorems on labels at concrete items, requests and threads.
use agent_mail_kit.Prelude.{
  String, ◌≡◌, ◌≢◌, refl, ◌↔◌, true, false, ◌&&◌, not, none, some, List, [], ◌∷◌, contains,
  string_eq, retain, all, any,
}
use agent_mail_kit.Types.Labels.{is_restricted}
use agent_mail_kit.Types.Mail.{ListParams}
use agent_mail_kit.Types.ApiKey.{unrestricted, get, select, arms, allows, label_read_flag}
use agent_mail_kit.Core.Permissions.{allows_label_read}
use agent_mail_kit.Core.Labels.Flags.{no_flags, has, index_of}
use agent_mail_kit.Core.Labels.Admission.{
  LabelAccess, list_access, requested, not_permitted, not_requested, LabelDenial, admit, admits,
  find_restricted, excluded_labels,
}
use agent_mail_kit.Core.Labels.Verdicts.{visible, admits-eq-all-visible, admit-err}
use agent_mail_kit.Core.Labels.Pushdown.{admits-eq-none_excluded}
use agent_mail_kit.Core.Labels.Redaction.{
  unchanged, withheld, redact_thread, hides_a_member, leaks_a_label,
}
use agent_mail_kit.Core.Labels.Redaction.Outcomes.{AllVisible, redact_thread_lem}
use agent_mail_kit.Core.Labels.Redaction.Aggregates.{IsAggregated, redact_thread-IsAggregated}
use agent_mail_kit.Tests.Samples.{reader, mixed_thread}

abbrev spam_mail : List String
spam_mail = "received" ∷ "spam" ∷ []

abbrev shut_list : LabelAccess
shut_list = list_access unrestricted no_flags

admits-eq-all-visible_example : admits spam_mail shut_list ≡ all (visible shut_list) spam_mail
admits-eq-all-visible_example = admits-eq-all-visible spam_mail shut_list

admits-eq-none_excluded_example :
    admits spam_mail shut_list ≡ not (any (λ l. contains l (excluded_labels shut_list)) spam_mail)
admits-eq-none_excluded_example = admits-eq-none_excluded spam_mail shut_list

abbrev spam_denial : LabelDenial
spam_denial = record { kind = not_permitted; label = "spam" }

admit-err_example :
    ((spam_denial.kind ≡ not_permitted)
      ↔ (any (λ l. is_restricted l && not (allows_label_read reader l)) spam_mail ≡ true))
    × (contains "spam" spam_mail ≡ true)
    × (is_restricted "spam" ≡ true)
    × ((spam_denial.kind ≡ not_permitted → allows_label_read reader "spam" ≡ false)
        × (spam_denial.kind ≡ not_requested
            → requested (list_access reader no_flags) "spam" ≡ false))
unfolding admit find_restricted allows_label_read label_read_flag allows get select arms
admit-err_example = admit-err spam_mail (list_access reader no_flags) spam_denial refl

redact_thread_lem_example :
    ((redact_thread mixed_thread shut_list).0.messages
      ≡ retain (λ m. admits m.item.labels shut_list) mixed_thread.messages)
    × (((redact_thread mixed_thread shut_list).1 ≡ withheld) ↔ (
        (mixed_thread.messages ≢ [])
        × (retain (λ m. admits m.item.labels shut_list) mixed_thread.messages ≡ [])))
    × ((redact_thread mixed_thread shut_list).0.item.labels
        ≡ retain (visible shut_list) mixed_thread.item.labels)
    × (((redact_thread mixed_thread shut_list).1 ≡ unchanged) ↔ AllVisible shut_list mixed_thread)
    × ((redact_thread mixed_thread shut_list).1 ≡ unchanged
        → (redact_thread mixed_thread shut_list).0 ≡ mixed_thread)
redact_thread_lem_example = redact_thread_lem mixed_thread shut_list

-- The spam message is hidden, and the other stays.
mixed_not_withheld : (redact_thread mixed_thread shut_list).1 ≢ withheld
unfolding redact_thread hides_a_member leaks_a_label admits admit find_restricted allows_label_read
    label_read_flag allows requested has index_of retain contains
mixed_not_withheld e = cc

mixed_hides : hides_a_member mixed_thread shut_list ≡ true
unfolding hides_a_member admits admit find_restricted allows_label_read label_read_flag allows
    requested has index_of contains
mixed_hides = refl

redact_thread-IsAggregated_example :
    IsAggregated mixed_thread.item (redact_thread mixed_thread shut_list).0
redact_thread-IsAggregated_example =
    redact_thread-IsAggregated mixed_thread shut_list mixed_hides mixed_not_withheld

abbrev removed : List String
removed = "unread" ∷ "a" ∷ []

abbrev current : List String
current = "received" ∷ "unread" ∷ []

abbrev added : List String
added = "a" ∷ "b" ∷ []

abbrev params : ListParams
params = record {
  limit = none;
  page_token = none;
  ascending = none;
  labels = [];
  before = none;
  after = none;
  include_spam = some true;
  include_blocked = none;
  include_unauthenticated = some false;
  include_trash = some true;
}
