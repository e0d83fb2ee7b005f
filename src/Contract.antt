-- ===== src/Contract.antt =====
-- The operations of the API and their descriptors: src/internal/contract/index.ts, and the table
-- of src/internal/contract/generated/operation-metadata.ts that it extends.
pub mod Safety
mod Tests
use cuna_lib_ts.Base.{ℕ, String, Bool, true, false, Text, lit}

-- `keyof typeof CANONICAL_OPERATIONS`; a dot or a capital of the key is an underscore here.
pub data OperationKey : Type 0 where
  agent_sessions_agent_auth agent_sessions_create : OperationKey
  agent_sessions_create_terminal_connection agent_sessions_get agent_sessions_list : OperationKey
  agent_sessions_rename agent_sessions_terminate capabilities_get machine_creates_get : OperationKey
  machine_creates_reconcile me_get records_list sessions_agent_auth sessions_checkpoint :
      OperationKey
  sessions_create sessions_delete sessions_exec sessions_get sessions_list sessions_open :
      OperationKey
  sessions_pause sessions_resume sessions_start sessions_stop workspace_bindings_create :
      OperationKey
  workspace_bindings_get workspaces_sync_begin workspaces_sync_changes : OperationKey
  workspaces_sync_chunk workspaces_sync_chunk_download workspaces_sync_commit : OperationKey
  workspaces_sync_negotiate workspaces_sync_reconcile : OperationKey

pub data Method : Type 0 where
  get post put patch delete : Method

-- An entry of the generated table, but for its list of path parameters, which no code reads.
pub record Generated : Type 0 where
  pub has_request_body : Bool
  pub method : Method
  pub path_template : Text
  pub success_status : ℕ

abbrev entry : Bool → Method → String → ℕ → Generated
entry b m p s = record {
  has_request_body = b;
  method = m;
  path_template = lit p;
  success_status = s;
}

unfoldable pub generated : OperationKey → Generated
generated agent_sessions_agent_auth = entry false get "/v1/agent-sessions/:id/agent-auth" 200
generated agent_sessions_create = entry true post "/v1/sessions/:id/agent-sessions" 201
generated agent_sessions_create_terminal_connection =
    entry true post "/v1/agent-sessions/:id/terminal-connections" 201
generated agent_sessions_get = entry false get "/v1/agent-sessions/:id" 200
generated agent_sessions_list = entry false get "/v1/sessions/:id/agent-sessions" 200
generated agent_sessions_rename = entry true patch "/v1/agent-sessions/:id" 200
generated agent_sessions_terminate = entry false post "/v1/agent-sessions/:id/terminate" 200
generated capabilities_get = entry false get "/v1/capabilities" 200
generated machine_creates_get = entry false get "/v1/machine-creates/:id" 200
generated machine_creates_reconcile = entry false post "/v1/machine-creates/:id/reconcile" 200
generated me_get = entry false get "/v1/me" 200
generated records_list = entry false get "/v1/records" 200
generated sessions_agent_auth = entry false get "/v1/sessions/:id/agent-auth" 200
generated sessions_checkpoint = entry true post "/v1/sessions/:id/checkpoint" 200
generated sessions_create = entry true post "/v1/sessions" 201
generated sessions_delete = entry false delete "/v1/sessions/:id" 200
generated sessions_exec = entry true post "/v1/sessions/:id/exec" 200
generated sessions_get = entry false get "/v1/sessions/:id" 200
generated sessions_list = entry false get "/v1/sessions" 200
generated sessions_open = entry false post "/v1/sessions/:id/open" 200
generated sessions_pause = entry false post "/v1/sessions/:id/pause" 200
generated sessions_resume = entry false post "/v1/sessions/:id/resume" 200
generated sessions_start = entry false post "/v1/sessions/:id/start" 200
generated sessions_stop = entry false post "/v1/sessions/:id/stop" 200
generated workspace_bindings_create = entry true post "/v1/workspace-bindings" 200
generated workspace_bindings_get = entry false get "/v1/workspace-bindings/:binding_id" 200
generated workspaces_sync_begin = entry true post "/v1/workspaces/:id/sync-sessions" 200
generated workspaces_sync_changes = entry false get "/v1/workspace-sync/:id/changes" 200
generated workspaces_sync_chunk = entry false put "/v1/workspace-sync/:id/chunks/:digest" 200
generated workspaces_sync_chunk_download =
    entry false get "/v1/workspace-sync/:id/chunks/:digest" 200
generated workspaces_sync_commit = entry true post "/v1/workspace-sync/:id/commit" 200
generated workspaces_sync_negotiate = entry true post "/v1/workspace-sync/:id/manifests" 200
generated workspaces_sync_reconcile = entry true post "/v1/workspaces/:id/reconcile" 200

pub data ResponseKind : Type 0 where
  acknowledgement agent_auth agent_session agent_session_page : ResponseKind
  terminal_connection_grant capability_snapshot exec me open_result records session : ResponseKind
  sessions workspace_binding workspace_sync machine_create : ResponseKind

pub data ErrorKind : Type 0 where
  legacy problem : ErrorKind

-- `RESPONSE_KINDS`
unfoldable pub response_kind : OperationKey → ResponseKind
response_kind agent_sessions_agent_auth = agent_auth
response_kind agent_sessions_create = agent_session
response_kind agent_sessions_create_terminal_connection = terminal_connection_grant
response_kind agent_sessions_get = agent_session
response_kind agent_sessions_list = agent_session_page
response_kind agent_sessions_rename = agent_session
response_kind agent_sessions_terminate = agent_session
response_kind capabilities_get = capability_snapshot
response_kind machine_creates_get = machine_create
response_kind machine_creates_reconcile = machine_create
response_kind me_get = me
response_kind records_list = records
response_kind sessions_agent_auth = agent_auth
response_kind sessions_checkpoint = acknowledgement
response_kind sessions_create = session
response_kind sessions_delete = acknowledgement
response_kind sessions_exec = exec
response_kind sessions_get = session
response_kind sessions_list = sessions
response_kind sessions_open = open_result
response_kind sessions_pause = session
response_kind sessions_resume = session
response_kind sessions_start = session
response_kind sessions_stop = session
response_kind workspace_bindings_create = workspace_binding
response_kind workspace_bindings_get = workspace_binding
response_kind workspaces_sync_begin = workspace_sync
response_kind workspaces_sync_changes = workspace_sync
response_kind workspaces_sync_chunk = workspace_sync
response_kind workspaces_sync_chunk_download = workspace_sync
response_kind workspaces_sync_commit = workspace_sync
response_kind workspaces_sync_negotiate = workspace_sync
response_kind workspaces_sync_reconcile = workspace_sync

-- Membership in `PROBLEM_OPERATIONS`.
unfoldable pub error_kind : OperationKey → ErrorKind
error_kind me_get = legacy
error_kind records_list = legacy
error_kind sessions_checkpoint = legacy
error_kind sessions_delete = legacy
error_kind sessions_exec = legacy
error_kind sessions_get = legacy
error_kind sessions_list = legacy
error_kind sessions_open = legacy
error_kind sessions_pause = legacy
error_kind sessions_resume = legacy
error_kind sessions_start = legacy
error_kind sessions_stop = legacy
error_kind _ = problem

-- `OperationDescriptor`
pub record Descriptor : Type 0 where
  pub generated_part : Generated
  pub open generated_part use *
  pub response : ResponseKind
  pub error : ErrorKind

unfoldable pub operation_descriptor : OperationKey → Descriptor
unfolding generated response_kind error_kind
operation_descriptor key = record {
  generated_part = generated key;
  response = response_kind key;
  error = error_kind key;
}
