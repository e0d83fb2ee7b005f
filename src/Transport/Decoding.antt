-- ===== src/Transport/Decoding.antt =====
-- The decoder of each operation, as `disposition` and `problemFailure` choose them.
pub mod Kinds
mod Tests
use cuna_lib_ts.Base.{some, List, [], Text, ℕ, Option, Bool}
use cuna_lib_ts.Domain.Read.{◌>>=◌}
use cuna_lib_ts.Contract.{
  workspaces_sync_begin, workspaces_sync_negotiate, workspaces_sync_chunk,
  workspaces_sync_chunk_download, workspaces_sync_commit, workspaces_sync_changes, OperationKey,
  ResponseKind, response_kind,
}
use cuna_lib_ts.Domain.Sync.Envelope.{
  begin, negotiate, chunk, chunk_download, commit, changes, reconcile, SyncOperation, SyncEnvelope,
  decode_workspace_sync_envelope,
}
use cuna_lib_ts.Contract.{
  acknowledgement, agent_auth, agent_session, agent_session_page, terminal_connection_grant,
  capability_snapshot, exec, me, open_result, records, session, sessions, workspace_binding,
  workspace_sync, machine_create,
}
use cuna_lib_ts.Domain.Problems.{
  Problem, SyncProblem, decode_problem, decode_workspace_sync_problem,
}
use cuna_lib_ts.Boundary.Escapes.{Platform}
use cuna_lib_ts.Domain.Agents.Auth.{AgentSessionAuth, decode_agent_session_auth}
use cuna_lib_ts.Domain.Sync.Records.{Outside}
use cuna_lib_ts.Domain.Agents.Sessions.{
  AgentSession, AgentSessionPage, decode_agent_session, decode_agent_session_page,
}
use cuna_lib_ts.Transport.Body.{Bytes}
use cuna_lib_ts.Json.{Json, Number}
use cuna_lib_ts.Domain.Sessions.{
  decode_acknowledgement, ExecResult, Entry, SessionSnapshot, decode_exec, decode_records,
  decode_session, decode_sessions,
}
use cuna_lib_ts.Domain.Terminal.{TerminalGrant, decode_terminal_connection_grant}
use cuna_lib_ts.Transport.Disposition.{Decoders}
use cuna_lib_ts.Domain.Capabilities.{CapabilitySnapshot, decode_capability_snapshot}
use cuna_lib_ts.Domain.Handoff.{OpenUrl, decode_open}
use cuna_lib_ts.Domain.Me.{Me, decode_me}
use cuna_lib_ts.Domain.Bindings.{
  WorkspaceBinding, MachineCreateRequest, decode_workspace_binding, decode_machine_create_request,
}

-- `DispatchResult`; that of `workspaces.sync` is an envelope.
pub data Answer : Type 0 where
  acknowledged : Answer
  of_auth : AgentSessionAuth → Answer
  of_agent_session : AgentSession → Answer
  of_agent_sessions : AgentSessionPage → Answer
  of_grant : TerminalGrant → Answer
  of_capabilities : CapabilitySnapshot → Answer
  of_exec : ExecResult → Answer
  of_me : Me → Answer
  of_handoff : Text → Answer
  of_records : List Entry → Answer
  of_session : SessionSnapshot → Answer
  of_sessions : List SessionSnapshot → Answer
  of_binding : WorkspaceBinding → Answer
  of_sync : SyncEnvelope → Answer
  of_machine_create : MachineCreateRequest → Answer

-- What the decoders take from the platform besides: the clock, `Number.isFinite` and `new URL`.
pub record Environment : Type 0 where
  pub outside : Outside
  pub now : ℕ
  pub is_finite : Number → Bool
  pub parse_url : Text → Option OpenUrl

-- The operation that the transport hands to the decoder.
unfoldable pub sync_operation : OperationKey → SyncOperation
sync_operation workspaces_sync_begin = begin
sync_operation workspaces_sync_negotiate = negotiate
sync_operation workspaces_sync_chunk = chunk
sync_operation workspaces_sync_chunk_download = chunk_download
sync_operation workspaces_sync_commit = commit
sync_operation workspaces_sync_changes = changes
sync_operation _ = reconcile

-- The `switch` of `disposition`.
unfoldable pub decode_kind : Environment → SyncOperation → ResponseKind → Json → Option Answer
decode_kind w operation acknowledgement value = do
  _ ← decode_acknowledgement value
  some acknowledged
decode_kind w operation agent_auth value = do
  a ← decode_agent_session_auth w.outside.date_parse w.now value
  some (of_auth a)
decode_kind w operation agent_session value = do
  a ← decode_agent_session w.outside.date_parse value
  some (of_agent_session a)
decode_kind w operation agent_session_page value = do
  a ← decode_agent_session_page w.outside.date_parse value
  some (of_agent_sessions a)
decode_kind w operation terminal_connection_grant value = do
  a ← decode_terminal_connection_grant w.outside.date_parse value
  some (of_grant a)
decode_kind w operation capability_snapshot value = do
  a ← decode_capability_snapshot w.outside.date_parse value
  some (of_capabilities a)
decode_kind w operation exec value = do a ← decode_exec value; some (of_exec a)
decode_kind w operation me value = do a ← decode_me w.is_finite value; some (of_me a)
decode_kind w operation open_result value = do
  a ← decode_open w.parse_url value
  some (of_handoff a)
decode_kind w operation records value = do
  a ← decode_records w.outside.date_parse value
  some (of_records a)
decode_kind w operation session value = do
  a ← decode_session w.outside.date_parse value
  some (of_session a)
decode_kind w operation sessions value = do
  a ← decode_sessions w.outside.date_parse value
  some (of_sessions a)
decode_kind w operation workspace_binding value = do
  a ← decode_workspace_binding w.outside.date_parse value
  some (of_binding a)
decode_kind w operation workspace_sync value = do
  a ← decode_workspace_sync_envelope w.outside operation value
  some (of_sync a)
decode_kind w operation machine_create value = do
  a ← decode_machine_create_request w.outside.date_parse value
  some (of_machine_create a)

unfoldable pub decode_answer : Environment → OperationKey → Json → Option Answer
decode_answer w key value = decode_kind w (sync_operation key) (response_kind key) value

abbrev etag_of : Answer → Text
etag_of (of_capabilities a) = a.etag
etag_of _ = []

-- The metadata that `API_PROBLEMS` keeps.
pub data Metadata : Type 0 where
  of_problem : Problem → Metadata
  of_sync_problem : SyncProblem → Metadata

-- The decoders of the package, with `parse` a fatal UTF-8 decoding followed by `JSON.parse`.
unfoldable pub decoders : Platform → (Bytes → Option Json) → Environment → Decoders Metadata Answer
decoders platform parse w = record {
  platform = platform;
  parse = parse;
  decode = decode_answer w;
  etag_of = etag_of;
  decode_problem = λ value status. (do p ← decode_problem value status; some (of_problem p));
  decode_sync_problem =
      λ value status. (do p ← decode_workspace_sync_problem value status; some (of_sync_problem p));
}
