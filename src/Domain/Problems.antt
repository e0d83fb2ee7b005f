-- ===== src/Domain/Problems.antt =====
-- `decodeProblem` and `decodeWorkspaceSyncProblem` of src/domain.ts, into the types of src/errors.ts and
-- src/workspace-sync.ts.
pub mod Namespace
mod Tests
use cuna_lib_ts.Base.{
  ℕ, leb, ◌==◌, Bool, false, ◌&&◌, Option, none, some, List, [], ◌∷◌, ◌++◌, Text, lit, same, all,
  any, length, map,
}
use cuna_lib_ts.Json.{Json, nil}
use cuna_lib_ts.Wire.{branded_api_origins}
use cuna_lib_ts.Domain.Grammar.{is_code, is_word, after_prefix}
use cuna_lib_ts.Domain.Read.{
  ◌>>=◌, ◌>>◌, check, get, closed, string_of, boolean_of, uuid, bounded_string, enum_value,
  safe_integer, optional_of, nullable,
}
use cuna_lib_ts.Domain.Agents.Auth.{required}
use cuna_lib_ts.Domain.Sync.Entries.{sync_protocol, sync_capabilities}

pub record Problem : Type 0 where
  pub type : Text
  pub title : Text
  pub status : ℕ
  pub code : Text
  pub request_id : Text
  pub retryable : Bool
  pub detail : Option Text
  pub action : Option Text

pub record SyncProblem : Type 0 where
  pub type : Text
  pub title : Text
  pub status : ℕ
  pub code : Text
  pub request_id : Text
  pub retryable : Bool
  pub action : Text
  pub selected_protocol : Option ℕ
  pub capabilities : List Text
  pub detail : Text

abbrev pub problem_path : Text
problem_path = lit "/problems/"

-- What follows a prefix satisfies a test.
abbrev pub rest_satisfies : (Text → Bool) → Option Text → Bool
rest_satisfies p none = false
rest_satisfies p (some s) = p s

-- `PROBLEM_TYPE`
unfoldable pub is_problem_type : Text → Bool
unfolding is_code
is_problem_type type =
    any (λ origin. rest_satisfies is_code (after_prefix (origin ++ problem_path) type))
      (branded_api_origins (lit "https"))

-- `problemTypesFor`
abbrev pub problem_types_for : Text → List Text
problem_types_for code =
    map (λ origin. origin ++ (problem_path ++ code)) (branded_api_origins (lit "https"))

-- `[a-z0-9_]{2,48}`
abbrev pub is_sync_name : Text → Bool
is_sync_name s = all is_word s && (leb 2 (length s) && leb (length s) 48)

-- `^workspace_sync_[a-z0-9_]{2,48}$`
unfoldable pub is_sync_code : Text → Bool
is_sync_code code = rest_satisfies is_sync_name (after_prefix (lit "workspace_sync_") code)

unfoldable pub decode_problem : Json → ℕ → Option Problem
decode_problem value expected_status = do
  source ←
      closed ("type" ∷ "title" ∷ "status" ∷ "code" ∷ "request_id" ∷ "retryable" ∷ [])
        ("detail" ∷ "action" ∷ []) value
  type ← required "type" string_of source
  title ← required "title" (bounded_string 1 120) source
  status ← required "status" (safe_integer 400) source
  code ← required "code" string_of source
  check (leb status 599 && status == expected_status && (is_code code && is_problem_type type))
  retryable ← required "retryable" boolean_of source
  detail ← optional_of (bounded_string 0 500) (get "detail" source)
  action ←
      optional_of (enum_value ("retry" ∷ "sign_in" ∷ "open_web" ∷ "contact_support" ∷ "none" ∷ []))
        (get "action" source)
  request_id ← required "request_id" uuid source
  some (record {
    type = type;
    title = title;
    status = status;
    code = code;
    request_id = request_id;
    retryable = retryable;
    detail = detail;
    action = action;
  })

-- `capabilities` of a problem: none without a selected protocol, all of them with one.
unfoldable pub problem_capabilities : Option ℕ → Json → Option (List Text)
problem_capabilities none (Json.array nil) = some []
problem_capabilities none _ = none
problem_capabilities (some n) value = sync_capabilities value

unfoldable pub decode_workspace_sync_problem : Json → ℕ → Option SyncProblem
decode_workspace_sync_problem value expected_status = do
  source ←
      closed
        ("type" ∷ "title" ∷ "status" ∷ "code" ∷ "request_id" ∷ "retryable" ∷ "action"
          ∷ "selected_protocol" ∷ "capabilities" ∷ "detail" ∷ [])
        [] value
  status ← required "status" (safe_integer 400) source
  code ← required "code" string_of source
  type ← required "type" string_of source
  check (
      leb status 599
      && status == expected_status
      && (is_sync_code code && any (same type) (problem_types_for code)))
  retryable ← required "retryable" boolean_of source
  action ← required "action" (enum_value ("retry" ∷ "none" ∷ [])) source
  selected_protocol ← required "selected_protocol" (nullable sync_protocol) source
  capabilities ← required "capabilities" (problem_capabilities selected_protocol) source
  title ← required "title" (bounded_string 1 120) source
  request_id ← required "request_id" uuid source
  detail ← required "detail" (bounded_string 1 500) source
  some (record {
    type = type;
    title = title;
    status = status;
    code = code;
    request_id = request_id;
    retryable = retryable;
    action = action;
    selected_protocol = selected_protocol;
    capabilities = capabilities;
    detail = detail;
  })
