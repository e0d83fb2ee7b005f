-- ===== src/Domain/Problems/Tests.antt =====
-- Problems, and the theorems at them.
use cuna_lib_ts.Base.{◌≡◌, ◌≤◌, some, none, refl, true, [], Text, lit, same}
use cuna_lib_ts.Json.{Json, whole, nil, end, field}
use cuna_lib_ts.Wire.{api_host}
use cuna_lib_ts.Domain.Grammar.{is_code, is_word, after_prefix}
use cuna_lib_ts.Domain.Read.{
  ◌>>=◌, ◌>>◌, check, get, exact, safe_integer, uuid, enum_value, bounded_string,
}
use cuna_lib_ts.Domain.Agents.Auth.{required}
use cuna_lib_ts.Domain.Problems.{
  Problem, SyncProblem, is_problem_type, is_sync_code, problem_capabilities, decode_problem,
  decode_workspace_sync_problem,
}
use cuna_lib_ts.Domain.Problems.Namespace.{
  InNamespace, Bound, decode_problem_namespaced, decode_workspace_sync_problem-Bound,
}

abbrev an_id : Text
an_id = lit "01234567-89ab-cdef-0123-456789abcdef"

abbrev problem_json : Json
problem_json = Json.object (
    field (lit "type") (Json.string (lit "https://api.runacode.io/problems/not_found")) (
      field (lit "title") (Json.string (lit "Not found")) (
        field (lit "status") (Json.number (whole 404)) (
          field (lit "code") (Json.string (lit "not_found")) (
            field (lit "request_id") (Json.string an_id)
              (field (lit "retryable") (Json.boolean true) end))))))

abbrev problem_value : Problem
problem_value = record {
  type = lit "https://api.runacode.io/problems/not_found";
  title = lit "Not found";
  status = 404;
  code = lit "not_found";
  request_id = an_id;
  retryable = true;
  detail = none;
  action = none;
}

problem_accepted : decode_problem problem_json 404 ≡ some problem_value
unfolding decode_problem is_problem_type is_code api_host after_prefix required ◌>>=◌ ◌>>◌ check
    exact get safe_integer uuid bounded_string same lit
problem_accepted = refl

decode_problem_namespaced_example :
    (problem_value.status ≡ 404)
    × (400 ≤ problem_value.status)
    × (problem_value.status ≤ 599)
    × ((name : Text) × (is_code name ≡ true) × InNamespace problem_value.type name)
decode_problem_namespaced_example = decode_problem_namespaced problem_json 404 problem_accepted

abbrev conflict_json : Json
conflict_json = Json.object (
    field (lit "type") (Json.string (lit "https://api.getcuna.com/problems/workspace_sync_stale")) (
      field (lit "title") (Json.string (lit "Stale")) (
        field (lit "status") (Json.number (whole 409)) (
          field (lit "code") (Json.string (lit "workspace_sync_stale")) (
            field (lit "request_id") (Json.string an_id) (
              field (lit "retryable") (Json.boolean true) (
                field (lit "action") (Json.string (lit "retry")) (
                  field (lit "selected_protocol") Json.null (
                    field (lit "capabilities") (Json.array nil)
                      (field (lit "detail") (Json.string (lit "Read again.")) end))))))))))

abbrev conflict_value : SyncProblem
conflict_value = record {
  type = lit "https://api.getcuna.com/problems/workspace_sync_stale";
  title = lit "Stale";
  status = 409;
  code = lit "workspace_sync_stale";
  request_id = an_id;
  retryable = true;
  action = lit "retry";
  selected_protocol = none;
  capabilities = [];
  detail = lit "Read again.";
}

conflict_accepted : decode_workspace_sync_problem conflict_json 409 ≡ some conflict_value
unfolding decode_workspace_sync_problem is_sync_code is_word problem_capabilities api_host
    after_prefix required ◌>>=◌ ◌>>◌ check exact get safe_integer uuid bounded_string enum_value
    same lit
conflict_accepted = refl

decode_workspace_sync_problem-Bound_example : Bound 409 conflict_value
decode_workspace_sync_problem-Bound_example =
    decode_workspace_sync_problem-Bound conflict_json 409 conflict_accepted
