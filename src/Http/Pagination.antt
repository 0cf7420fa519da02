-- ===== src/Http/Pagination.antt =====
-- crates/amk-http/src/pagination.rs: the `limit` of a list query; with `validation_error` of
-- crates/amk-http/src/body.rs. An `AppError` is the envelope in its box.
pub mod Limits
use agent_mail_kit.Prelude.{
  ℤ, pos, ℕ, String, Bool, true, false, Option, none, some, List, [], ◌∷◌, ltb, leb, Result, ok,
  err, ◌>>=◌, if◌then◌else◌,
}
use agent_mail_kit.Types.Str.{Text}
use agent_mail_kit.Types.Str.Decimal.{parse_u64, parse_i128}
use agent_mail_kit.Types.ErrorCode.{ErrorCode}
use agent_mail_kit.Types.Envelope.{
  ErrorEnvelope, ValidationIssue, envelope, with_issues, too_small, invalid_type,
}

abbrev pub AppError : Type 0
AppError = ErrorEnvelope

unfoldable pub validation_error_many : List ValidationIssue → AppError
validation_error_many issues =
    with_issues (envelope ErrorCode.validation_error "validation_error") issues

unfoldable pub validation_error : ValidationIssue → AppError
unfolding validation_error_many
validation_error issue = validation_error_many (issue ∷ [])

abbrev pub default_limit : ℕ
default_limit = 100

abbrev pub max_limit : ℕ
max_limit = 1000

pub data SortDirection : Type 0 where
  ascending descending : SortDirection

pub record Resolved : Type 0 where
  pub limit : ℕ
  pub echo_limit : Option ℕ
  pub direction : SortDirection
  pub page_token : Option String

unfoldable pub too_small_limit : AppError
too_small_limit =
    validation_error
      (too_small "number" (pos 0) false (some "limit") "Too small: expected number to be >0")

-- The last arm of `parse_limit`, for what is no number.
unfoldable pub nan_limit : AppError
nan_limit = validation_error (
    invalid_type "number" (some "NaN") (some "limit")
      "Invalid input: expected number, received NaN")

-- The matches of `parse_limit`, on a text that is not empty.
unfoldable pub classify : Option ℕ → Option ℤ → Result ℕ AppError
classify (some v) i = if ltb 0 v then ok v else err too_small_limit
classify none (some i) = err too_small_limit
classify none none = err nan_limit

unfoldable pub parse_limit : Text → Result ℕ AppError
unfolding classify
parse_limit [] = err too_small_limit
parse_limit (c ∷ s) = classify (parse_u64 (c ∷ s)) (parse_i128 (c ∷ s))

unfoldable pub direction_for : Option Bool → SortDirection
direction_for (some true) = SortDirection.ascending
direction_for (some false) = SortDirection.descending
direction_for none = SortDirection.descending

abbrev pub unwrap_or : Option ℕ → ℕ → ℕ
unwrap_or none d = d
unwrap_or (some n) d = n

-- `limit.map(parse_limit).transpose()`, as the match spells it.
unfoldable pub parsed_limit : Option Text → Result (Option ℕ) AppError
parsed_limit none = ok none
parsed_limit (some raw) = elim (parse_limit raw) [ ok v ↦ ok (some v) | err e ↦ err e ]

-- What `resolve` returns, once the limit is parsed.
unfoldable pub resolved_of : Option ℕ → Option String → Option Bool → Resolved
unfolding direction_for
resolved_of parsed page_token asc = record {
  limit =
      if leb (unwrap_or parsed default_limit) max_limit
      then unwrap_or parsed default_limit
      else max_limit;
  echo_limit = parsed;
  direction = direction_for asc;
  page_token = page_token;
}

unfoldable pub resolve : Option Text → Option String → Option Bool → Result Resolved AppError
unfolding parsed_limit resolved_of
resolve limit page_token asc = do
  parsed ← parsed_limit limit
  ok (resolved_of parsed page_token asc)
