-- ===== src/Contract/Safety.antt =====
-- Which operations the transport may repeat, and what the descriptor table says of them.
use cuna_lib_ts.Base.{◌≡◌, refl, Bool, true, false, ◌&&◌, not, arith}
use cuna_lib_ts.Contract.{
  OperationKey, agent_sessions_list, agent_sessions_get, agent_sessions_agent_auth,
  capabilities_get, me_get, sessions_list, sessions_get, records_list, workspaces_sync_changes,
  workspaces_sync_chunk_download, machine_creates_get, workspace_bindings_get, Method, get,
  operation_descriptor, sessions_agent_auth, agent_sessions_create,
  agent_sessions_create_terminal_connection, sessions_create, workspace_bindings_create,
  workspaces_sync_begin, workspaces_sync_negotiate, workspaces_sync_chunk, workspaces_sync_commit,
  workspaces_sync_reconcile,
}

-- Membership in `READS` of src/internal/transport.ts.
unfoldable pub is_read : OperationKey → Bool
is_read agent_sessions_list = true
is_read agent_sessions_get = true
is_read agent_sessions_agent_auth = true
is_read capabilities_get = true
is_read me_get = true
is_read sessions_list = true
is_read sessions_get = true
is_read records_list = true
is_read workspaces_sync_changes = true
is_read workspaces_sync_chunk_download = true
is_read machine_creates_get = true
is_read workspace_bindings_get = true
is_read _ = false

-- `needsIdempotencyKey` of `prepare` in the same file.
unfoldable pub needs_idempotency_key : OperationKey → Bool
needs_idempotency_key agent_sessions_create = true
needs_idempotency_key agent_sessions_create_terminal_connection = true
needs_idempotency_key sessions_create = true
needs_idempotency_key workspace_bindings_create = true
needs_idempotency_key workspaces_sync_begin = true
needs_idempotency_key workspaces_sync_negotiate = true
needs_idempotency_key workspaces_sync_chunk = true
needs_idempotency_key workspaces_sync_commit = true
needs_idempotency_key workspaces_sync_reconcile = true
needs_idempotency_key _ = false

abbrev pub is_get : Method → Bool
is_get get = true
is_get _ = false

abbrev pub is_sessions_agent_auth : OperationKey → Bool
is_sessions_agent_auth sessions_agent_auth = true
is_sessions_agent_auth _ = false

-- An operation is repeatable exactly if its method is GET and it is not the machine-level agentAuth.
pub is_read-eq-is_get :
    (key : OperationKey)
    → is_read key ≡ (is_get (operation_descriptor key).method && not (is_sessions_agent_auth key))
unfolding is_read operation_descriptor
is_read-eq-is_get agent_sessions_list = refl
is_read-eq-is_get _ = refl

-- A repeatable operation is a GET without a body that carries no idempotency key.
pub is_read_safe :
    (key : OperationKey)
    → is_read key ≡ true
    → ((operation_descriptor key).method ≡ get)
      × ((operation_descriptor key).has_request_body ≡ false)
      × (needs_idempotency_key key ≡ false)
unfolding is_read operation_descriptor needs_idempotency_key
is_read_safe agent_sessions_list h = (refl, refl, refl)
is_read_safe _ h = ground arith
