-- ===== src/Domain/Agents/Sessions.antt =====
-- `decodeAgentSession` and `decodeAgentSessionPage` of src/domain.ts.
use cuna_lib_ts.Base.{
  ℕ, leb, ◌==◌, Bool, true, false, ◌&&◌, ◌||◌, not, Option, none, some, List, [], ◌∷◌, Text, lit,
  all,
}
use cuna_lib_ts.Json.{Json, Fields}
use cuna_lib_ts.Domain.Grammar.{after_prefix}
use cuna_lib_ts.Domain.Read.{
  ◌>>=◌, ◌>>◌, check, get, has_own, closed, items_of, uuid, enum_value, bounded_string,
  safe_integer, optional_of, map_items, count_items,
}
use cuna_lib_ts.Domain.Dates.{DateParse, date_time}
use cuna_lib_ts.Domain.Agents.Auth.{required}

-- The fields of `AgentSession` that stand in every answer.
pub record Standing : Type 0 where
  pub id : Text
  pub machine_id : Text
  pub name : Text
  pub agent : Text
  pub cwd : Text
  pub auth_mode : Text
  pub desired_state : Text
  pub request_state : Text
  pub process_state : Text
  pub row_version : ℕ
  pub created_at : Text
  pub updated_at : Text

-- Those that may be missing.
pub record Passing : Type 0 where
  pub workspace_binding_id : Option Text
  pub workspace_generation : Option ℕ
  pub process_epoch : Option Text
  pub runtime_observed_at : Option Text
  pub runtime_expires_at : Option Text
  pub termination_requested_at : Option Text

pub record AgentSession : Type 0 where
  pub standing : Standing
  pub passing : Passing

pub record AgentSessionPage : Type 0 where
  pub items : List AgentSession
  pub next_cursor : Option Text

-- `.` of a pattern: anything but a line terminator.
is_dot : ℕ → Bool
is_dot c = not (c == 0xa || (c == 0xd || (c == 0x2028 || c == 0x2029)))

below : Option Text → Bool
unfolding is_dot
below none = false
below (some []) = true
below (some (c ∷ s)) = c == 0x2f && all is_dot s

-- `AGENT_SESSION_CWD`, `^\/workspace(?:\/.*)?$`
unfoldable pub is_cwd : Text → Bool
unfolding below lit after_prefix
is_cwd s = below (after_prefix (lit "/workspace") s)

read_standing : DateParse → Fields → Option Standing
unfolding is_cwd
read_standing date_parse source = do
  name ← required "name" (bounded_string 1 80) source
  agent ← required "agent" (enum_value ("claude-code" ∷ "codex" ∷ "openclaw" ∷ [])) source
  cwd ← required "cwd" (bounded_string 10 1024) source
  check (is_cwd cwd)
  auth_mode ←
      required "auth_mode" (enum_value ("interactive_login" ∷ "credential_binding" ∷ [])) source
  desired_state ← required "desired_state" (enum_value ("running" ∷ "terminated" ∷ [])) source
  request_state ←
      required "request_state"
        (enum_value (
          "launch_pending" ∷ "runtime_claimed" ∷ "launched" ∷ "termination_pending" ∷ "terminal"
          ∷ "failed" ∷ []))
        source
  process_state ←
      required "process_state"
        (enum_value (
          "unknown" ∷ "starting" ∷ "ready" ∷ "running" ∷ "exited" ∷ "failed" ∷ "terminating"
          ∷ "terminated" ∷ []))
        source
  id ← required "id" uuid source
  machine_id ← required "machine_id" uuid source
  row_version ← required "row_version" (safe_integer 0) source
  created_at ← required "created_at" (date_time date_parse) source
  updated_at ← required "updated_at" (date_time date_parse) source
  some (record {
    id = id;
    machine_id = machine_id;
    name = name;
    agent = agent;
    cwd = cwd;
    auth_mode = auth_mode;
    desired_state = desired_state;
    request_state = request_state;
    process_state = process_state;
    row_version = row_version;
    created_at = created_at;
    updated_at = updated_at;
  })

-- Two properties that stand together or not at all.
abbrev pub both_or_neither : Bool → Bool → Bool
both_or_neither true b = b
both_or_neither false b = not b

unfoldable pub read_passing : DateParse → Fields → Option Passing
read_passing date_parse source = do
  process_epoch ← optional_of uuid (get "process_epoch" source)
  workspace_binding_id ← optional_of uuid (get "workspace_binding_id" source)
  workspace_generation ← optional_of (safe_integer 1) (get "workspace_generation" source)
  check (
      both_or_neither (has_own "workspace_binding_id" source)
        (has_own "workspace_generation" source))
  runtime_observed_at ← optional_of (date_time date_parse) (get "runtime_observed_at" source)
  runtime_expires_at ← optional_of (date_time date_parse) (get "runtime_expires_at" source)
  termination_requested_at ←
      optional_of (date_time date_parse) (get "termination_requested_at" source)
  some (record {
    workspace_binding_id = workspace_binding_id;
    workspace_generation = workspace_generation;
    process_epoch = process_epoch;
    runtime_observed_at = runtime_observed_at;
    runtime_expires_at = runtime_expires_at;
    termination_requested_at = termination_requested_at;
  })

unfoldable pub decode_agent_session : DateParse → Json → Option AgentSession
unfolding read_standing
decode_agent_session date_parse value = do
  source ←
      closed
        ("id" ∷ "machine_id" ∷ "name" ∷ "agent" ∷ "cwd" ∷ "auth_mode" ∷ "desired_state"
          ∷ "request_state" ∷ "process_state" ∷ "row_version" ∷ "created_at" ∷ "updated_at" ∷ [])
        ("process_epoch" ∷ "workspace_binding_id" ∷ "workspace_generation" ∷ "runtime_observed_at"
          ∷ "runtime_expires_at" ∷ "termination_requested_at" ∷ [])
        value
  standing ← read_standing date_parse source
  passing ← read_passing date_parse source
  some (record { standing = standing; passing = passing })

unfoldable pub decode_agent_session_page : DateParse → Json → Option AgentSessionPage
decode_agent_session_page date_parse value = do
  source ← closed ("items" ∷ []) ("next_cursor" ∷ []) value
  sent ← required "items" items_of source
  check (leb (count_items sent) 100)
  next_cursor ← optional_of (bounded_string 1 512) (get "next_cursor" source)
  items ← map_items (decode_agent_session date_parse) sent
  some (record { items = items; next_cursor = next_cursor })
