-- ===== src/Types/ErrorCode.antt =====
-- crates/amk-types/src/error.rs: the body of the gateway's errors, and the catalog of codes.
use agent_mail_kit.Prelude.{ℕ, String}
use Prim.Native.String

pub record GatewayError : Type 0 where
  pub message : String

abbrev pub gateway_unauthorized : GatewayError
gateway_unauthorized = record { message = "Unauthorized" }

abbrev pub gateway_forbidden : GatewayError
gateway_forbidden = record { message = "Forbidden" }

pub data ErrorCode : Type 0 where
  missing_authorization : ErrorCode
  invalid_token_type : ErrorCode
  unknown_api_key : ErrorCode
  unauthorized : ErrorCode
  missing_permission : ErrorCode
  permission_escalation : ErrorCode
  unrestricted_key_required : ErrorCode
  forbidden : ErrorCode
  message_rejected : ErrorCode
  already_exists : ErrorCode
  resource_taken : ErrorCode
  limit_exceeded : ErrorCode
  domain_not_verified : ErrorCode
  validation_error : ErrorCode
  not_found : ErrorCode
  unprocessable : ErrorCode
  query_range_too_wide : ErrorCode
  conflict : ErrorCode
  race_condition : ErrorCode
  resource_deleting : ErrorCode
  cannot_delete : ErrorCode
  rate_limit_exceeded : ErrorCode
  service_unavailable : ErrorCode
  internal_error : ErrorCode

unfoldable pub status : ErrorCode → ℕ
status missing_authorization = 401
status invalid_token_type = 401
status unknown_api_key = 401
status unauthorized = 401
status missing_permission = 403
status permission_escalation = 403
status unrestricted_key_required = 403
status forbidden = 403
status message_rejected = 403
status already_exists = 403
status resource_taken = 403
status limit_exceeded = 403
status domain_not_verified = 403
status validation_error = 400
status not_found = 404
status unprocessable = 422
status query_range_too_wide = 400
status conflict = 409
status race_condition = 409
status resource_deleting = 409
status cannot_delete = 409
status rate_limit_exceeded = 429
status service_unavailable = 503
status internal_error = 500

unfoldable pub legacy_name : ErrorCode → String
legacy_name message_rejected = "MessageRejectedError"
legacy_name already_exists = "AlreadyExistsError"
legacy_name limit_exceeded = "LimitExceededError"
legacy_name validation_error = "ValidationError"
legacy_name not_found = "NotFoundError"
legacy_name unprocessable = "UnprocessableError"
legacy_name conflict = "ConflictError"
legacy_name race_condition = "ConflictError"
legacy_name resource_deleting = "ConflictError"
legacy_name rate_limit_exceeded = "RateLimitError"
legacy_name service_unavailable = "InternalError"
legacy_name internal_error = "InternalError"
legacy_name _ = "Error"

unfoldable pub as_str : ErrorCode → String
as_str missing_authorization = "missing_authorization"
as_str invalid_token_type = "invalid_token_type"
as_str unknown_api_key = "unknown_api_key"
as_str unauthorized = "unauthorized"
as_str missing_permission = "missing_permission"
as_str permission_escalation = "permission_escalation"
as_str unrestricted_key_required = "unrestricted_key_required"
as_str forbidden = "forbidden"
as_str message_rejected = "message_rejected"
as_str already_exists = "already_exists"
as_str resource_taken = "resource_taken"
as_str limit_exceeded = "limit_exceeded"
as_str domain_not_verified = "domain_not_verified"
as_str validation_error = "validation_error"
as_str not_found = "not_found"
as_str unprocessable = "unprocessable"
as_str query_range_too_wide = "query_range_too_wide"
as_str conflict = "conflict"
as_str race_condition = "race_condition"
as_str resource_deleting = "resource_deleting"
as_str cannot_delete = "cannot_delete"
as_str rate_limit_exceeded = "rate_limit_exceeded"
as_str service_unavailable = "service_unavailable"
as_str internal_error = "internal_error"

unfoldable pub docs_url : ErrorCode → String
unfolding as_str
docs_url code = String.◌++◌ "https://docs.agentmail.to/errors#" (as_str code)
