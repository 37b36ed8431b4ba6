-- ===== src/Shared/Errors.antt =====
-- packages/shared/src/errors.ts: the error codes and the HTTP status of each.
use serv_grid.Common.{ℕ}

pub data ErrorCode : Type 0 where
  unauthenticated token_reused forbidden out_of_scope not_found precondition_required : ErrorCode
  version_conflict illegal_transition job_already_closed duplicate_entity : ErrorCode
  reconciliation_confirmed employee_has_open_work flag_disabled idempotency_in_flight : ErrorCode
  payload_too_large idempotency_key_reused validation_failed rate_limited internal : ErrorCode

unfoldable pub error_http_status : ErrorCode → ℕ
error_http_status unauthenticated = 401
error_http_status token_reused = 401
error_http_status forbidden = 403
error_http_status out_of_scope = 403
error_http_status not_found = 404
error_http_status precondition_required = 428
error_http_status version_conflict = 409
error_http_status illegal_transition = 409
error_http_status job_already_closed = 409
error_http_status duplicate_entity = 409
error_http_status reconciliation_confirmed = 409
error_http_status employee_has_open_work = 409
error_http_status flag_disabled = 409
error_http_status idempotency_in_flight = 409
error_http_status payload_too_large = 413
error_http_status idempotency_key_reused = 422
error_http_status validation_failed = 422
error_http_status rate_limited = 429
error_http_status internal = 500
