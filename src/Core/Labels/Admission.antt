-- ===== src/Core/Labels/Admission.antt =====
-- crates/amk-core/src/labels.rs: the admission of an item by its labels.
use agent_mail_kit.Prelude.{
  String, Bool, true, not, Option, none, some, List, [], ◌∷◌, ◌==◌, string_eq, find, retain, Result,
  ok, err, is_ok, ◌>>◌, if◌then◌else◌,
}
use agent_mail_kit.Types.Labels.{restricted}
use agent_mail_kit.Types.ApiKey.{KeyGrants}
use agent_mail_kit.Types.ErrorCode.{ErrorCode, not_found}
use agent_mail_kit.Core.Permissions.{allows_label_read}
use agent_mail_kit.Core.Labels.Flags.{IncludeFlags, has}

pub data Mode : Type 0 where
  list : IncludeFlags → Mode
  search by_id : Mode

pub record LabelAccess : Type 0 where
  pub grants : KeyGrants
  pub mode : Mode

-- `LabelAccess::list`, `LabelAccess::search`, `LabelAccess::by_id`
abbrev pub list_access : KeyGrants → IncludeFlags → LabelAccess
list_access grants flags = record { grants = grants; mode = list flags }

abbrev pub search_access : KeyGrants → LabelAccess
search_access grants = record { grants = grants; mode = Mode.search }

abbrev pub by_id_access : KeyGrants → LabelAccess
by_id_access grants = record { grants = grants; mode = Mode.by_id }

unfoldable pub requested_in : Mode → String → Bool
requested_in (list flags) label = has flags label
requested_in Mode.search label = true
requested_in Mode.by_id label = true

-- `LabelAccess::requested`
unfoldable pub requested : LabelAccess → String → Bool
unfolding requested_in
requested access label = requested_in access.mode label

pub data DenialKind : Type 0 where
  not_permitted not_requested : DenialKind

pub record LabelDenial : Type 0 where
  pub kind : DenialKind
  pub label : String

-- `LabelDenial::error_code`
unfoldable pub error_code : LabelDenial → ErrorCode
error_code d = not_found

-- `RESTRICTED.iter().find(|r| r == label)`
unfoldable pub find_restricted : String → Option String
find_restricted label = find (λ r. r == label) restricted

-- One of the two loops of `admit`: the first restricted label that fails the test is denied.
unfoldable pub gate : (String → Bool) → DenialKind → List String → Result (Unit {0}) LabelDenial
gate test kind [] = ok tt
gate test kind (label ∷ labels) = elim (find_restricted label) [
  | none ↦ gate test kind labels
  | some r ↦ if not (test r) then err (record { kind = kind; label = r }) else gate test kind labels
]

unfoldable pub admit : List String → LabelAccess → Result (Unit {0}) LabelDenial
unfolding gate
admit item_labels access =
    gate (allows_label_read access.grants) not_permitted item_labels
    >> gate (requested access) not_requested item_labels

unfoldable pub admits : List String → LabelAccess → Bool
admits item_labels access = is_ok (admit item_labels access)

unfoldable pub excluded_labels : LabelAccess → List String
excluded_labels access = retain (λ label. not (admits (label ∷ []) access)) restricted
