-- ===== src/Handlers.antt =====
-- hiring-service/src/app/api/handlers/exception_handlers.py. Logging is left out.
pub mod Responses
use globant.Base.{ℕ, Option, none, some, Text}
use globant.Errors.{
  Exc, Context, integrity_error, operational_error, http_exception, base_error, other,
}

-- `JSONResponse`
pub record JsonResponse : Type 0 where
  pub status_code : ℕ
  pub message : Text
  pub code : Text
  pub context : Context

-- `base_error_handler`, which FastAPI calls for a `BaseError` only.
unfoldable pub base_error_handler : Exc → Option JsonResponse
base_error_handler (base_error message code context cause http_status) =
    some (record { status_code = http_status; message = message; code = code; context = context })
base_error_handler (integrity_error _) = none
base_error_handler (operational_error _) = none
base_error_handler (http_exception _ _) = none
base_error_handler (other _) = none
