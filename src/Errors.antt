-- ===== src/Errors.antt =====
-- src/lib/errors.ts: the one error type of the backend, and the errors that Prisma raises itself.
-- Messages are not modelled: routes and clients tell errors apart by status and code.
pub mod Code
use backend_v.Prelude.{ℕ}
use Code.{ErrorCode}

-- `class AppError`.
pub record AppError : Type 0 where
  pub status_code : ℕ
  pub code : ErrorCode

unfoldable pub validation : AppError
validation = record { status_code = 422; code = ErrorCode.validation_error }

unfoldable pub bad_request : ErrorCode → AppError
bad_request code = record { status_code = 400; code = code }

unfoldable pub unauthorized : ErrorCode → AppError
unauthorized code = record { status_code = 401; code = code }

unfoldable pub forbidden : ErrorCode → AppError
forbidden code = record { status_code = 403; code = code }

unfoldable pub not_found : ErrorCode → AppError
not_found code = record { status_code = 404; code = code }

unfoldable pub conflict : ErrorCode → AppError
conflict code = record { status_code = 409; code = code }

unfoldable pub rate_limited : AppError
rate_limited = record { status_code = 429; code = ErrorCode.rate_limited }

unfoldable pub internal : AppError
internal = record { status_code = 500; code = ErrorCode.internal_error }

-- Prisma's own errors, by code: P2002 (a unique index), P2003 (a foreign key) and P2025 (no row).
-- A rejected row of the audit log has an error of its own, whatever its code: no handler that meets
-- it tells codes apart but for P2002, and the one unique index of the log is on its random id.
pub data DbError : Type 0 where
  unique_violation foreign_key_violation record_not_found log_rejected : DbError

-- What a handler can throw.
pub data Failure : Type 0 where
  app : AppError → Failure
  db : DbError → Failure

pub data Result {ℓ} (A : Type ℓ) : Type ℓ where
  ok : A → Result A
  err : Failure → Result A
