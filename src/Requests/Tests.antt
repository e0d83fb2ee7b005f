-- ===== src/Requests/Tests.antt =====
-- Calls of the bindings and agent sessions managers, and the theorems at them.
use cuna_lib_ts.Requests.Samples.{an_id, a_digest, members, number, id_value, sha_value, a_key}
use cuna_lib_ts.Requests.Bindings
use cuna_lib_ts.Requests.Agents
use cuna_lib_ts.Domain.Sync.Entries.{distinct}
use cuna_lib_ts.Domain.Grammar.{size}
use cuna_lib_ts.Domain.Agents.Sessions.{is_cwd}
use cuna_lib_ts.Base.{refl, same}
use cuna_lib_ts.Domain.Read.{◌>>=◌, ◌>>◌, check}
use cuna_lib_ts.Requests.Value.{
  named_in, owned_all, text_value, read, integer_value, count_values, map_values,
  is_idempotency_key,
}
use cuna_lib_ts.Domain.Grammar.{is_sha256, is_uuid}
use cuna_lib_ts.Requests.Bindings.{is_dotted}
use cuna_lib_ts.Requests.Value.{Value, item, no_more}
use cuna_lib_ts.Domain.Bindings.{WorkspaceBinding}
use cuna_lib_ts.Base.{Text, List, [], lit, String, ◌∷◌, some, none, ◌≡◌}
use cuna_lib_ts.Requests.Call.{perform, Port}
use cuna_lib_ts.Domain.Agents.Sessions.{AgentSession}
use cuna_lib_ts.Requests.Bindings.{is_canonical, split_slash, create_value, identity_value}
use cuna_lib_ts.Errors.{ok}
use cuna_lib_ts.Requests.Bindings.Prefixes.{walk, under, join_slash, is_canonical-walk}
use cuna_lib_ts.Requests.Agents.{CreateOptions, create_options}
use cuna_lib_ts.Requests.Sync.Methods.{uuid_value}
use cuna_lib_ts.Requests.Agents.Answered.{Created, create-Created}

is_canonical-walk_example :
    (walk (split_slash (lit "a/b")) (lit "r" ∷ [])
      ≡ some (under (split_slash (lit "a/b")) (lit "r" ∷ [])))
    × (join_slash (split_slash (lit "a/b")) ≡ lit "a/b")
unfolding is_canonical lit split_slash is_dotted same
is_canonical-walk_example = is_canonical-walk (lit "a/b") (lit "r" ∷ []) refl

abbrev identity_members : List (String × Value)
identity_members =
    ("workspaceId", id_value)
    ∷ ("projectId", id_value)
    ∷ ("localInstanceId", id_value)
    ∷ ("machineId", id_value)
    ∷ ("exclusionPolicyDigest", sha_value)
    ∷ []

abbrev create_request : Value
create_request = Value.object (
    members (
      ("excludedPrefixes", Value.array (item (Value.string (lit "a/b")) no_more))
      ∷ identity_members))

abbrev binding_value : WorkspaceBinding
binding_value = record {
  binding_id = an_id;
  workspace_id = an_id;
  project_id = an_id;
  local_instance_id = an_id;
  machine_id = an_id;
  remote_root = [];
  exclusion_policy_digest = a_digest;
  active_generation = 0;
  active_manifest_root = a_digest;
  binding_epoch = 1;
  minimum_reader = 1;
  minimum_writer = 1;
  created_at = [];
  updated_at = [];
}

abbrev binding_answers : Port Unit WorkspaceBinding
binding_answers key input = ok binding_value

binding_created : perform binding_answers (Bindings.create create_request a_key) ≡ ok binding_value
unfolding Bindings.create create_value Bindings.identity_of count_values map_values is_canonical
    split_slash is_dotted distinct Bindings.has_identity perform is_uuid lit is_idempotency_key
    ◌>>=◌ ◌>>◌ check named_in owned_all text_value read integer_value is_sha256
binding_created = refl

-- The identity that a binding is read by.
binding_read :
    perform binding_answers (Bindings.get id_value (Value.object (members identity_members)))
    ≡ ok binding_value
unfolding Bindings.get Bindings.identity_value Bindings.identity_of Bindings.has_identity perform
    is_uuid lit ◌>>=◌ ◌>>◌ check named_in owned_all text_value read is_sha256
binding_read = refl

abbrev agent_options : Value
agent_options = Value.object (
    members (
      ("idempotencyKey", a_key)
      ∷ ("agent", Value.string (lit "codex"))
      ∷ ("cwd", Value.string (lit "/workspace"))
      ∷ ("workspaceBindingId", id_value)
      ∷ ("workspaceGeneration", number 1)
      ∷ ("authMode", Value.string (lit "interactive_login"))
      ∷ []))

abbrev agent_session : AgentSession
agent_session = record {
  standing = record {
    id = an_id;
    machine_id = an_id;
    name = lit "main";
    agent = lit "codex";
    cwd = lit "/workspace";
    auth_mode = lit "interactive_login";
    desired_state = lit "running";
    request_state = lit "launched";
    process_state = lit "ready";
    row_version = 4;
    created_at = [];
    updated_at = [];
  };
  passing = record {
    workspace_binding_id = some an_id;
    workspace_generation = some 1;
    process_epoch = some an_id;
    runtime_observed_at = none;
    runtime_expires_at = none;
    termination_requested_at = none;
  };
}

abbrev agent_answers : Port Unit AgentSession
agent_answers key input = ok agent_session

agent_created : perform agent_answers (Agents.create id_value agent_options) ≡ ok agent_session
unfolding Agents.create create_options size is_cwd Agents.is_bound Agents.created perform is_uuid
    lit is_idempotency_key ◌>>=◌ ◌>>◌ check named_in owned_all text_value read integer_value
    is_sha256
agent_created = refl

create-Created_example :
    (id : Text) × (o : CreateOptions) × (uuid_value id_value ≡ some id)
    × (create_options agent_options ≡ some o)
    × Created id o agent_session
create-Created_example = create-Created agent_answers id_value agent_options agent_created
