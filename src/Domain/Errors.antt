-- ===== src/Domain/Errors.antt =====
-- domain/errors.ts: an error is its class, the messages are left out. `failure` is a plain
-- JavaScript `Error`, which the in-memory stores throw.
use bianhao.Base.{ℕ, Bool, true, false, String}

pub data Error : Type 0 where
  not_found validation signature invalid_state amount_mismatch provider config failure : Error

pub data Result {ℓ} (A : Type ℓ) : Type ℓ where
  ok : A → Result A
  err : Error → Result A

-- `AppError.code`; a plain `Error` has none.
pub code : Error → String
code Error.not_found = "NOT_FOUND"
code Error.validation = "VALIDATION_ERROR"
code Error.signature = "SIGNATURE_ERROR"
code Error.invalid_state = "INVALID_STATE"
code Error.amount_mismatch = "AMOUNT_MISMATCH"
code Error.provider = "PROVIDER_ERROR"
code Error.config = "CONFIG_ERROR"
code Error.failure = ""

-- `AppError.httpStatus`; the router answers 500 to a plain `Error`.
pub http_status : Error → ℕ
http_status Error.not_found = 404
http_status Error.validation = 400
http_status Error.signature = 401
http_status Error.invalid_state = 409
http_status Error.amount_mismatch = 409
http_status Error.provider = 502
http_status Error.config = 500
http_status Error.failure = 500

-- `err instanceof AmountMismatchError`, and the like.
abbrev pub error_eq : Error → Error → Bool
error_eq Error.not_found Error.not_found = true
error_eq Error.validation Error.validation = true
error_eq Error.signature Error.signature = true
error_eq Error.invalid_state Error.invalid_state = true
error_eq Error.amount_mismatch Error.amount_mismatch = true
error_eq Error.provider Error.provider = true
error_eq Error.config Error.config = true
error_eq Error.failure Error.failure = true
error_eq _ _ = false
