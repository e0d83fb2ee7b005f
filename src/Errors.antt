-- ===== src/Errors.antt =====
-- The errors that the client throws: src/errors.ts, and the two `DOMException`s and the `TypeError` of
-- src/internal/transport.ts. Messages are fixed by the class and the code, and are left out.
use cuna_lib_ts.Base.{ℕ, Option, none, some}

-- `ApiError.code`
pub data ApiCode : Type 0 where
  plain malformed_response : ApiCode

-- `abort_error` and `timeout_error` are the `DOMException`s of those names. `P` is the type of the
-- problem metadata that `API_PROBLEMS` keeps for an `ApiError`.
pub data Thrown (P : Type 0) : Type 0 where
  config_error : Thrown P
  api_error : ℕ → ApiCode → Option P → Thrown P
  type_error : Thrown P
  abort_error : Thrown P
  timeout_error : Thrown P

-- `apiErrorWithProblem`
unfoldable pub api_error_with_problem : {P : Type 0} → ℕ → P → Thrown P
api_error_with_problem status problem = api_error status plain (some problem)

-- What an asynchronous call comes to.
pub data Result (P A : Type 0) : Type 0 where
  ok : A → Result P A
  thrown : Thrown P → Result P A

abbrev pub malformed : {P A : Type 0} → ℕ → Result P A
malformed status = thrown (api_error status malformed_response none)
