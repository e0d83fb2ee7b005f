-- ===== src/Transport/Observer.antt =====
-- What an operation reports of itself: `OperationObserver` of src/internal/observer.ts. The fields that
-- all events of an operation share (`#base`) are left out. A hook that throws or rejects changes
-- nothing, so the calls alone are modelled.
use cuna_lib_ts.Base.{ℕ, if◌then◌else◌, Bool, true, false, Option, none, some, List, [], ◌∷◌, ◌++◌}
use cuna_lib_ts.Errors.{
  Thrown, config_error, api_error, type_error, abort_error, timeout_error, ApiCode, plain,
  malformed_response,
}

pub data Outcome : Type 0 where
  success error cancelled : Outcome

pub data Severity : Type 0 where
  debug info warn severe : Severity

-- `NormalizedErrorCode`
pub data ErrorCode : Type 0 where
  code_config code_api code_malformed : ErrorCode

pub record End : Type 0 where
  pub severity : Severity
  pub attempt : ℕ
  pub elapsed_ms : ℕ
  pub outcome : Outcome
  pub error_code : Option ErrorCode
  pub http_status : Option ℕ

pub data Event : Type 0 where
  operation_start : Event
  attempt_start : ℕ → Event
  retry_scheduled : ℕ → ℕ → Event
  operation_end : End → Event

-- The sinks that the configuration gives, and whether `startSpan` returns.
pub record Hooks : Type 0 where
  pub diagnostics : Bool
  pub tracing : Bool
  pub span_opens : Bool

pub data Call : Type 0 where
  emit add_event : Event → Call
  start_span : Call
  end_span : End → Call

abbrev has_span : Hooks → Bool
has_span h = if h.tracing then h.span_opens else false

abbrev when : Bool → List Call → List Call
when true calls = calls
when false calls = []

-- The calls of the hooks for one event.
unfoldable pub calls : Hooks → Event → List Call
calls h operation_start =
    when h.diagnostics (emit operation_start ∷ [])
    ++ (when h.tracing (start_span ∷ []) ++ when (has_span h) (add_event operation_start ∷ []))
calls h (operation_end e) =
    when h.diagnostics (emit (operation_end e) ∷ [])
    ++ when (has_span h) (add_event (operation_end e) ∷ end_span e ∷ [])
calls h event = when h.diagnostics (emit event ∷ []) ++ when (has_span h) (add_event event ∷ [])

abbrev api_code : ApiCode → ErrorCode
api_code plain = code_api
api_code malformed_response = code_malformed

-- `end`, for an attempt, the time since the construction, and the error if there is one.
unfoldable pub end_of : {P : Type 0} → ℕ → ℕ → Option (Thrown P) → End
end_of attempt elapsed none = record {
  severity = info;
  attempt = attempt;
  elapsed_ms = elapsed;
  outcome = success;
  error_code = none;
  http_status = none;
}
end_of attempt elapsed (some abort_error) = record {
  severity = warn;
  attempt = attempt;
  elapsed_ms = elapsed;
  outcome = cancelled;
  error_code = none;
  http_status = none;
}
end_of attempt elapsed (some timeout_error) = record {
  severity = warn;
  attempt = attempt;
  elapsed_ms = elapsed;
  outcome = cancelled;
  error_code = none;
  http_status = none;
}
end_of attempt elapsed (some config_error) = record {
  severity = severe;
  attempt = attempt;
  elapsed_ms = elapsed;
  outcome = error;
  error_code = some code_config;
  http_status = none;
}
end_of attempt elapsed (some (api_error status code problem)) = record {
  severity = severe;
  attempt = attempt;
  elapsed_ms = elapsed;
  outcome = error;
  error_code = some (api_code code);
  http_status = some status;
}
end_of attempt elapsed (some type_error) = record {
  severity = severe;
  attempt = attempt;
  elapsed_ms = elapsed;
  outcome = error;
  error_code = none;
  http_status = none;
}
