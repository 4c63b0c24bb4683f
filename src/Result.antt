-- ===== src/Result.antt =====
-- internal/drive/errors.go: the error codes and `Error`, less its message and its cause, and the
-- result of a method that may fail. A method that may change the repository returns an `Outcome`:
-- what was written before an error stays written.
use asteria_drive.Prelude.{Bool, true, false}

pub data ErrorCode : Type 0 where
  invalid_request invalid_cursor unauthenticated forbidden not_found name_conflict invalid_state
        idempotency_conflict restore_conflict revision_mismatch request_too_large
        unsupported_media_type dependency_unavailable internal :
      ErrorCode

pub record DriveError : Type 0 where
  pub code : ErrorCode
  pub retryable : Bool

pub data Result {ℓ} (A : Type ℓ) : Type ℓ where
  ok : A → Result A
  err : DriveError → Result A

-- `E(code, message)`
abbrev pub fail {ℓ} : {A : Type ℓ} → ErrorCode → Result A
fail c = err (record { code = c; retryable = false })

-- `Retryable(code, message, cause)`
abbrev pub fail_retryable {ℓ} : {A : Type ℓ} → ErrorCode → Result A
fail_retryable c = err (record { code = c; retryable = true })

-- The model's errors are all of type `Error`, so `errors.As` always finds the code.
abbrev pub code_of : DriveError → ErrorCode
code_of e = e.code
