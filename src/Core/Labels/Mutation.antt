-- ===== src/Core/Labels/Mutation.antt =====
-- crates/amk-core/src/labels.rs: which labels a client may change, and the change itself.
use Prim.Native.String
use agent_mail_kit.Prelude.{
  ℕ, suc, String, Bool, ◌&&◌, not, List, [], ◌∷◌, ◌++◌, ◌==◌, string_eq, any, contains, retain,
  if◌then◌else◌,
}
use agent_mail_kit.Types.Labels.{system}

unfoldable pub system_labels : List String
system_labels = system

unfoldable pub is_system : String → Bool
unfolding system_labels
is_system label = contains label system_labels

pub data MutationField : Type 0 where
  add remove : MutationField

unfoldable pub as_field_name : MutationField → String
as_field_name add = "add_labels"
as_field_name remove = "remove_labels"

pub record SystemLabelViolation : Type 0 where
  pub field : MutationField
  pub index : ℕ
  pub label : String

-- `SystemLabelViolation::message`
unfoldable pub violation_message : SystemLabelViolation → String
violation_message v = String.◌++◌ "Cannot use system label: " v.label

-- `iter().enumerate()` with the field, from an index on.
unfoldable pub enumerate : MutationField → ℕ → List String → List SystemLabelViolation
enumerate field i [] = []
enumerate field i (l ∷ ls) =
    record { field = field; index = i; label = l } ∷ enumerate field (suc i) ls

unfoldable pub system_label_violations : List String → List String → List SystemLabelViolation
system_label_violations added removed =
    retain (λ v. is_system v.label)
      (enumerate MutationField.add 0 added ++ enumerate MutationField.remove 0 removed)

-- The loop of `apply_mutation`.
unfoldable pub push_new : List String → List String → List String → List String
push_new removed out [] = out
push_new removed out (label ∷ labels) =
    push_new removed
      (if not (contains label removed) && not (any (λ l. l == label) out)
        then out ++ label ∷ []
        else out)
      labels

unfoldable pub apply_mutation : List String → List String → List String → List String
apply_mutation current added removed =
    push_new removed (retain (λ label. not (contains label removed)) current) added
