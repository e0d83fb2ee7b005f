-- ===== src/Domain/Agents/Tests.antt =====
-- Answers about the sessions of agents, and the theorems at them.
use cuna_lib_ts.Base.{
  if◌then◌else◌, ◌≡◌, ◌≤◌, some, none, refl, [], ◌∷◌, Text, lit, same, length, All,
}
use cuna_lib_ts.Json.{Json, whole, nil, cons, end, field}
use cuna_lib_ts.Domain.Read.{
  ◌>>=◌, ◌>>◌, check, get, exact, safe_integer, uuid, enum_value, bounded_string, map_items,
  count_items,
}
use cuna_lib_ts.Requests.Agents.{agent_auth, observed_of}
use cuna_lib_ts.Domain.Grammar.{is_uuid}
use cuna_lib_ts.Domain.Dates.{DateParse, date_time}
use cuna_lib_ts.Domain.Agents.Auth.{
  AgentSessionAuth, required, is_version, is_fresh, is_evidence, read_auth,
  decode_agent_session_auth,
}
use cuna_lib_ts.Domain.Agents.Evidence.{Evident, decode_agent_session_auth-Evident}
use cuna_lib_ts.Domain.Agents.Sessions.{
  AgentSession, AgentSessionPage, is_cwd, read_passing, decode_agent_session,
  decode_agent_session_page,
}
use cuna_lib_ts.Domain.Agents.Paired.{Paired, decode_agent_session_page-Paired}
use cuna_lib_ts.Requests.Agents.Answered.{Observed, agent_auth-Observed}
use cuna_lib_ts.Requests.Call.{perform, decoding}
use cuna_lib_ts.Errors.{ok}

abbrev an_id : Text
an_id = lit "01234567-89ab-cdef-0123-456789abcdef"

abbrev earlier : Text
earlier = lit "2026-02-28T12:00:00Z"

abbrev later : Text
later = lit "2026-02-28T12:00:20Z"

-- The milliseconds of the one digit in which the two instants differ.
abbrev clock : DateParse
clock s = if same s later then some 120000 else some 100000

abbrev auth_json : Json
auth_json = Json.object (
    field (lit "observation_id") (Json.string an_id) (
      field (lit "agent_session_id") (Json.string an_id) (
        field (lit "process_epoch") (Json.string an_id) (
          field (lit "auth_mode") (Json.string (lit "interactive_login")) (
            field (lit "agent_version") (Json.string (lit "1.20.3")) (
              field (lit "adapter_version") (Json.string (lit "runa.agent-auth.v1")) (
                field (lit "evidence_class") (Json.string (lit "provider_cli_login_status")) (
                  field (lit "observed_at") (Json.string earlier) (
                    field (lit "valid_until") (Json.string later)
                      (field (lit "state") (Json.string (lit "authenticated")) end))))))))))

abbrev auth_value : AgentSessionAuth
auth_value = record {
  observation_id = an_id;
  agent_session_id = an_id;
  process_epoch = some an_id;
  auth_mode = lit "interactive_login";
  agent_version = lit "1.20.3";
  adapter_version = lit "runa.agent-auth.v1";
  evidence_class = lit "provider_cli_login_status";
  observed_at = earlier;
  valid_until = later;
  state = lit "authenticated";
}

auth_accepted : decode_agent_session_auth clock 110000 auth_json ≡ some auth_value
unfolding decode_agent_session_auth read_auth is_evidence is_fresh is_version required ◌>>=◌ ◌>>◌
    check exact enum_value uuid date_time same lit
auth_accepted = refl

auth_expired : decode_agent_session_auth clock 120000 auth_json ≡ none
unfolding decode_agent_session_auth read_auth is_evidence is_fresh is_version required ◌>>=◌ ◌>>◌
    check exact enum_value uuid date_time same lit
auth_expired = refl

decode_agent_session_auth-Evident_example : Evident clock 110000 auth_value
decode_agent_session_auth-Evident_example =
    decode_agent_session_auth-Evident clock 110000 auth_json auth_accepted

abbrev session_json : Json
session_json = Json.object (
    field (lit "id") (Json.string an_id) (
      field (lit "machine_id") (Json.string an_id) (
        field (lit "name") (Json.string (lit "main")) (
          field (lit "agent") (Json.string (lit "codex")) (
            field (lit "cwd") (Json.string (lit "/workspace/a")) (
              field (lit "auth_mode") (Json.string (lit "credential_binding")) (
                field (lit "desired_state") (Json.string (lit "running")) (
                  field (lit "request_state") (Json.string (lit "launched")) (
                    field (lit "process_state") (Json.string (lit "ready")) (
                      field (lit "row_version") (Json.number (whole 4)) (
                        field (lit "workspace_binding_id") (Json.string an_id) (
                          field (lit "workspace_generation") (Json.number (whole 1)) (
                            field (lit "created_at") (Json.string earlier)
                              (field (lit "updated_at") (Json.string later) end))))))))))))))

abbrev session_value : AgentSession
session_value = record {
  standing = record {
    id = an_id;
    machine_id = an_id;
    name = lit "main";
    agent = lit "codex";
    cwd = lit "/workspace/a";
    auth_mode = lit "credential_binding";
    desired_state = lit "running";
    request_state = lit "launched";
    process_state = lit "ready";
    row_version = 4;
    created_at = earlier;
    updated_at = later;
  };
  passing = record {
    workspace_binding_id = some an_id;
    workspace_generation = some 1;
    process_epoch = none;
    runtime_observed_at = none;
    runtime_expires_at = none;
    termination_requested_at = none;
  };
}

-- A session that a user has logged in to.
abbrev observed_session : AgentSession
observed_session = record {
  standing = record session_value.standing { auth_mode = lit "interactive_login" };
  passing = record session_value.passing { process_epoch = some an_id };
}

abbrev page_json : Json
page_json = Json.object (field (lit "items") (Json.array (cons session_json nil)) end)

abbrev page_value : AgentSessionPage
page_value = record { items = session_value ∷ []; next_cursor = none }

page_accepted : decode_agent_session_page clock page_json ≡ some page_value
unfolding decode_agent_session_page decode_agent_session read_passing is_cwd required map_items
    count_items ◌>>=◌ ◌>>◌ check exact get enum_value bounded_string safe_integer uuid date_time
    same lit
page_accepted = refl

decode_agent_session_page-Paired_example :
    (length page_value.items ≤ 100) × All Paired page_value.items
decode_agent_session_page-Paired_example =
    decode_agent_session_page-Paired clock page_json page_accepted

auth_observed :
    perform
      (decoding {P = Unit}
        (λ key. decode_agent_session_auth clock 110000)
        (λ key input. ok auth_json))
      (agent_auth observed_session)
    ≡ ok auth_value
unfolding perform agent_auth observed_of decode_agent_session_auth read_auth is_evidence is_fresh
    is_version required ◌>>=◌ ◌>>◌ check exact enum_value uuid date_time same lit is_uuid
auth_observed = refl

agent_auth-Observed_example : Observed clock 110000 observed_session auth_value
agent_auth-Observed_example =
    agent_auth-Observed {P = Unit} clock 110000 (λ key input. ok auth_json) observed_session
      auth_observed
