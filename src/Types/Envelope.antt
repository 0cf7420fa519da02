-- ===== src/Types/Envelope.antt =====
-- crates/amk-types/src/error.rs: validation issues, and the envelope of an error. The elements of a
-- `path` are JSON values: a name or an index.
use agent_mail_kit.Prelude.{ℤ, ℕ, Bool, String, Option, none, some, List, [], ◌∷◌}
use agent_mail_kit.Types.ErrorCode.{ErrorCode, validation_error, status, legacy_name, docs_url}

-- An element of `errors[].path`.
pub data PathElement : Type 0 where
  name : String → PathElement
  position : ℕ → PathElement

pub record ValidationIssue : Type 0 where
  pub code : String
  pub path : List PathElement
  pub message : String
  pub expected : Option String
  pub received : Option String
  pub origin : Option String
  pub minimum : Option ℤ
  pub inclusive : Option Bool
  pub format : Option String
  pub values : List String

-- `ValidationIssue::custom`
unfoldable pub custom : String → ValidationIssue
custom message = record {
  code = "custom";
  path = [];
  message = message;
  expected = none;
  received = none;
  origin = none;
  minimum = none;
  inclusive = none;
  format = none;
  values = [];
}

-- `ValidationIssue::at`
unfoldable pub issue_at : Option String → String → ValidationIssue
unfolding custom
issue_at none message = custom message
issue_at (some field) message = record (custom message) { path = name field ∷ [] }

unfoldable pub invalid_format : String → Option String → String → ValidationIssue
unfolding issue_at
invalid_format format field message = record (issue_at field message) {
  code = "invalid_format";
  format = some format;
}

unfoldable pub invalid_type : String → Option String → Option String → String → ValidationIssue
unfolding issue_at
invalid_type expected received field message = record (issue_at field message) {
  code = "invalid_type";
  expected = some expected;
  received = received;
}

unfoldable pub too_small : String → ℤ → Bool → Option String → String → ValidationIssue
unfolding issue_at
too_small origin minimum inclusive field message = record (issue_at field message) {
  code = "too_small";
  origin = some origin;
  minimum = some minimum;
  inclusive = some inclusive;
}

unfoldable pub invalid_value : String → List String → Option String → String → ValidationIssue
unfolding issue_at
invalid_value expected values field message = record (issue_at field message) {
  code = "invalid_value";
  expected = some expected;
  values = values;
}

abbrev pub validation_message : String
validation_message = "Request validation failed"

pub record ErrorEnvelope : Type 0 where
  pub name : String
  pub code : ErrorCode
  pub message : String
  pub errors : List ValidationIssue
  pub suggestions : List String
  pub fix : Option String
  pub resource : Option String
  pub limit : Option ℕ
  pub docs : Option String

-- The pair that `ErrorEnvelope::new` binds: only a validation error wraps its message.
message_and_errors : ErrorCode → String → String × List ValidationIssue
unfolding custom
message_and_errors validation_error message = (validation_message, custom message ∷ [])
message_and_errors _ message = (message, [])

-- `ErrorEnvelope::new`
unfoldable pub envelope : ErrorCode → String → ErrorEnvelope
unfolding message_and_errors legacy_name docs_url
envelope code message = record {
  name = legacy_name code;
  code = code;
  message = (message_and_errors code message).0;
  errors = (message_and_errors code message).1;
  suggestions = [];
  fix = none;
  resource = none;
  limit = none;
  docs = some (docs_url code);
}

unfoldable pub with_fix : ErrorEnvelope → String → ErrorEnvelope
with_fix e fix = record e { fix = some fix }

unfoldable pub with_limit : ErrorEnvelope → String → ℕ → ErrorEnvelope
with_limit e resource limit = record e { resource = some resource; limit = some limit }

unfoldable pub with_suggestions : ErrorEnvelope → List String → ErrorEnvelope
with_suggestions e suggestions = record e { suggestions = suggestions }

unfoldable pub with_issues : ErrorEnvelope → List ValidationIssue → ErrorEnvelope
with_issues e issues = record e { errors = issues }

-- `ErrorEnvelope::status`
unfoldable pub envelope_status : ErrorEnvelope → ℕ
unfolding status
envelope_status e = status e.code
