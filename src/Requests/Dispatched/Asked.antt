-- ===== src/Requests/Dispatched/Asked.antt =====
-- Every call of a manager or of a handle, as the transport prepares it.
use cuna_lib_ts.Requests.Sync.Methods
use cuna_lib_ts.Requests.Bindings
use cuna_lib_ts.Requests.Agents
use cuna_lib_ts.Requests.Sessions
use cuna_lib_ts.Requests.Sessions.Create
use cuna_lib_ts.Base.{some, List, Text, ◌≡◌, Option, ℕ}
use cuna_lib_ts.Contract.{OperationKey}
use cuna_lib_ts.Requests.Call.{DispatchInput, Call}
use cuna_lib_ts.Requests.Value.{Value}
use cuna_lib_ts.Domain.Sync.Envelope.{SyncEnvelope}
use cuna_lib_ts.Domain.Bindings.{WorkspaceBinding}
use cuna_lib_ts.Domain.Agents.Sessions.{AgentSessionPage, AgentSession}
use cuna_lib_ts.Requests.Sessions.{Handle, Replacement, replacement_key}
use cuna_lib_ts.Domain.Sessions.{SessionSnapshot}
use cuna_lib_ts.Domain.Agents.Auth.{AgentSessionAuth}

-- What a method gives to the port for arguments that it accepts; `A` is an answer that the method
-- returns as it is.
pub data Asked (A : Type 0) : OperationKey → DispatchInput → Type 0 where
  sync_begin :
      (w r k : Value) (c : Call SyncEnvelope SyncEnvelope)
      → Methods.begin w r k ≡ some c
      → Asked A c.key c.input
  sync_negotiate :
      (w r k : Value) (c : Call SyncEnvelope SyncEnvelope)
      → Methods.negotiate w r k ≡ some c
      → Asked A c.key c.input
  sync_commit :
      (w r k : Value) (c : Call SyncEnvelope SyncEnvelope)
      → Methods.commit w r k ≡ some c
      → Asked A c.key c.input
  sync_changes :
      (w r : Value) (c : Call SyncEnvelope SyncEnvelope)
      → Methods.changes w r ≡ some c
      → Asked A c.key c.input
  sync_reconcile :
      (w r k : Value) (c : Call SyncEnvelope SyncEnvelope)
      → Methods.reconcile w r k ≡ some c
      → Asked A c.key c.input
  binding_create :
      (r k : Value) (c : Call WorkspaceBinding WorkspaceBinding)
      → Bindings.create r k ≡ some c
      → Asked A c.key c.input
  agents_list :
      (w r : Value) (c : Call AgentSessionPage AgentSessionPage)
      → Agents.list w r ≡ some c
      → Asked A c.key c.input
  agents_create :
      (w r : Value) (c : Call AgentSession AgentSession)
      → Agents.create w r ≡ some c
      → Asked A c.key c.input
  agents_connect :
      (w r : Value) (c : Call A A)
      → Agents.create_terminal_connection {Grant = A} w r ≡ some c
      → Asked A c.key c.input
  session_delete :
      (h : Handle) (c : Call A A) → Sessions.delete {A = A} h ≡ some c → Asked A c.key c.input
  session_open :
      (h : Handle) (c : Call A A) → Sessions.open_session {A = A} h ≡ some c → Asked A c.key c.input
  session_checkpoint :
      (h : Handle) (r : Value) (c : Call A A)
      → Sessions.checkpoint {A = A} h r ≡ some c
      → Asked A c.key c.input
  session_exec :
      (h : Handle) (r k : Value) (c : Call A A)
      → Sessions.exec {A = A} h r k ≡ some c
      → Asked A c.key c.input
  sessions_got :
      (w : Value) (c : Call SessionSnapshot Handle)
      → Sessions.get w ≡ some c
      → Asked A c.key c.input
  session_made :
      (fresh : Text) (w r : Value) (c : Call SessionSnapshot Handle)
      → Create.create fresh w r ≡ some c
      → Asked A c.key c.input
  create_got :
      (w : Value) (c : Call A A) → Sessions.get_create {A = A} w ≡ some c → Asked A c.key c.input
  create_reconciled :
      (w : Value) (c : Call A A)
      → Sessions.reconcile_create {A = A} w ≡ some c
      → Asked A c.key c.input
  sync_upload :
      (w d : Value) (bytes : Option (List ℕ)) (k : Value) (c : Call SyncEnvelope SyncEnvelope)
      → Methods.upload_chunk w d bytes k ≡ some c
      → Asked A c.key c.input
  sync_download :
      (w d : Value) (c : Call SyncEnvelope (List ℕ))
      → Methods.download_chunk w d ≡ some c
      → Asked A c.key c.input
  binding_get :
      (w r : Value) (c : Call WorkspaceBinding WorkspaceBinding)
      → Bindings.get w r ≡ some c
      → Asked A c.key c.input
  agents_get :
      (w : Value) (c : Call AgentSession AgentSession)
      → Agents.get w ≡ some c
      → Asked A c.key c.input
  agents_terminate :
      (w : Value) (c : Call AgentSession AgentSession)
      → Agents.terminate w ≡ some c
      → Asked A c.key c.input
  agents_rename :
      (w r : Value) (c : Call AgentSession AgentSession)
      → Agents.rename w r ≡ some c
      → Asked A c.key c.input
  agents_auth :
      (s : AgentSession) (c : Call AgentSessionAuth AgentSessionAuth)
      → Agents.agent_auth s ≡ some c
      → Asked A c.key c.input
  session_replaced :
      (method : Replacement) (h : Handle) (c : Call SessionSnapshot Handle)
      → Sessions.replace (replacement_key method) h ≡ some c
      → Asked A c.key c.input
  capabilities_got :
      (subject_scope : A → Text) (subject_id : A → Option Text) (w r : Value) (c : Call A A)
      → Sessions.get_capabilities subject_scope subject_id w r ≡ some c
      → Asked A c.key c.input
  sessions_listed : Asked A Sessions.list.key Sessions.list.input
  records_listed : Asked A (Sessions.list_records {A = A}).key (Sessions.list_records {A = A}).input
  me_asked : Asked A (Sessions.me_call {A = A}).key (Sessions.me_call {A = A}).input
