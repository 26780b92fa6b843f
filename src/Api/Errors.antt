-- ===== src/Api/Errors.antt =====
-- api-backend/src/error.rs: the errors of the API with their codes and HTTP statuses, and what the
-- errors of the pool and of diesel become.
use Prim.Native.String
use aigis_zero.Prelude.{ℕ, String, ◌<>◌}

pub data AppError : Type 0 where
  unauthorized forbidden not_found validation_error conflict : String → AppError
  database_error kafka_error external_service_error internal_server_error : String → AppError

-- `AppError::error_code`
unfoldable pub error_code : AppError → String
error_code (unauthorized m) = "UNAUTHORIZED"
error_code (forbidden m) = "FORBIDDEN"
error_code (not_found m) = "RESOURCE_NOT_FOUND"
error_code (validation_error m) = "VALIDATION_ERROR"
error_code (conflict m) = "CONFLICT"
error_code (database_error m) = "DATABASE_ERROR"
error_code (kafka_error m) = "KAFKA_ERROR"
error_code (external_service_error m) = "EXTERNAL_SERVICE_ERROR"
error_code (internal_server_error m) = "INTERNAL_SERVER_ERROR"

-- `AppError::status_code`
unfoldable pub status_code : AppError → ℕ
status_code (unauthorized m) = 401
status_code (forbidden m) = 403
status_code (not_found m) = 404
status_code (validation_error m) = 400
status_code (conflict m) = 409
status_code (database_error m) = 500
status_code (kafka_error m) = 500
status_code (external_service_error m) = 502
status_code (internal_server_error m) = 500

-- `AppError::to_string`
unfoldable pub error_text : AppError → String
error_text (unauthorized m) = "Authentication failed: " <> m
error_text (forbidden m) = "Forbidden: " <> m
error_text (not_found m) = "Resource not found: " <> m
error_text (validation_error m) = "Validation error: " <> m
error_text (conflict m) = "Conflict: " <> m
error_text (database_error m) = "Database error: " <> m
error_text (kafka_error m) = "Kafka error: " <> m
error_text (external_service_error m) = "External service error: " <> m
error_text (internal_server_error m) = "Internal server error: " <> m

-- `diesel::result::Error`, as far as the conversion tells its cases apart.
pub data DieselError : Type 0 where
  no_row : DieselError
  unique_violation other : String → DieselError

-- `From<PoolError>` and `From<diesel::result::Error>`
abbrev pub from_pool : String → AppError
from_pool e = database_error (String.◌++◌ "Connection pool error: " e)

unfoldable pub from_diesel : DieselError → AppError
from_diesel no_row = not_found "Requested record not found"
from_diesel (unique_violation m) = conflict m
from_diesel (other e) = database_error e

-- `AppError::NotFound(format!("… with id '{id}' not found"))`, for the id's text.
abbrev pub missing : String → String → AppError
missing what id =
    not_found (String.◌++◌ what (String.◌++◌ " with id '" (String.◌++◌ id "' not found")))
