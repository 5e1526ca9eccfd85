-- ===== src/Core/Errors.antt =====
-- app/core/exceptions.py and app/core/error_handlers.py: the exceptions of the application, and the
-- JSON envelope that each becomes.
use repo_info_backend.Prelude.{Bool, Option, String, false, none, some, ℕ}

-- One constructor for each class below `AppError`, with the arguments of its `__init__`; the
-- optional code of the classes that inherit `AppError.__init__` is an `Option`.
pub data AppError : Type 0 where
  bad_request validation unauthorized conflict external_service quota_exceeded :
      String → Option String → AppError
  invalid_credentials : AppError
  token_expired token_invalid forbidden not_found rate_limit_exceeded : String → AppError

abbrev pub code_or : Option String → String → String
code_or none code = code
code_or (some given) code = given

unfoldable pub status_code : AppError → ℕ
status_code (AppError.bad_request m c) = 400
status_code (AppError.validation m c) = 422
status_code (AppError.unauthorized m c) = 401
status_code AppError.invalid_credentials = 401
status_code (AppError.token_expired m) = 401
status_code (AppError.token_invalid m) = 401
status_code (AppError.forbidden m) = 403
status_code (AppError.not_found resource) = 404
status_code (AppError.conflict m c) = 409
status_code (AppError.rate_limit_exceeded m) = 429
status_code (AppError.external_service m c) = 502
status_code (AppError.quota_exceeded m c) = 402

unfoldable pub error_code : AppError → String
error_code (AppError.bad_request m c) = code_or c "bad_request"
error_code (AppError.validation m c) = code_or c "validation_error"
error_code (AppError.unauthorized m c) = code_or c "unauthorized"
error_code AppError.invalid_credentials = "invalid_credentials"
error_code (AppError.token_expired m) = "token_expired"
error_code (AppError.token_invalid m) = "token_invalid"
error_code (AppError.forbidden m) = "forbidden"
error_code (AppError.not_found resource) = "not_found"
error_code (AppError.conflict m c) = code_or c "conflict"
error_code (AppError.rate_limit_exceeded m) = "rate_limit_exceeded"
error_code (AppError.external_service m c) = code_or c "external_service_error"
error_code (AppError.quota_exceeded m c) = code_or c "quota_exceeded"

-- What a request can raise: an `AppError`, or an exception of one of the libraries that
-- `register_exception_handlers` names, or any other.
pub data Exception : Type 0 where
  app : AppError → Exception
  request_validation expired_signature py_jwt integrity sqlalchemy : Exception
  other : String → Exception

-- `{success: false, message, code, statusCode}`, without the message
pub record ErrorBody : Type 0 where
  pub status : ℕ
  pub success : Bool
  pub code : String
  pub status_code : ℕ

unfoldable pub error_response : ℕ → String → ErrorBody
error_response status code = record {
  status = status;
  success = false;
  code = code;
  status_code = status;
}

-- The handler that the exception's class selects.
unfoldable pub handle_exception : Exception → ErrorBody
unfolding error_response status_code error_code
handle_exception (Exception.app e) = error_response (status_code e) (error_code e)
handle_exception Exception.request_validation = error_response 422 "validation_error"
handle_exception Exception.expired_signature = error_response 401 "token_expired"
handle_exception Exception.py_jwt = error_response 401 "token_invalid"
handle_exception Exception.integrity = error_response 409 "conflict"
handle_exception Exception.sqlalchemy = error_response 500 "database_error"
handle_exception (Exception.other what) = error_response 500 "internal_error"
