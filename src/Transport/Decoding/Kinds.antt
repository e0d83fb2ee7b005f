-- ===== src/Transport/Decoding/Kinds.antt =====
-- What kind of value an operation returns.
use cuna_lib_ts.Base.{none, some, ap, ◌≡◌, Option, ℕ}
use cuna_lib_ts.Contract.{
  acknowledgement, agent_auth, agent_session, agent_session_page, terminal_connection_grant,
  capability_snapshot, exec, me, open_result, records, session, sessions, workspace_binding,
  workspace_sync, machine_create, ResponseKind, operation_descriptor, OperationKey, response_kind,
}
use cuna_lib_ts.Transport.Decoding.{
  Answer, acknowledged, of_auth, of_agent_session, of_agent_sessions, of_grant, of_capabilities,
  of_exec, of_me, of_handoff, of_records, of_session, of_sessions, of_binding, of_sync,
  of_machine_create, decoders, decode_kind, decode_answer, Environment, Metadata, sync_operation,
}
use cuna_lib_ts.Domain.Sync.Envelope.{SyncOperation}
use cuna_lib_ts.Boundary.Escapes.{Platform}
use cuna_lib_ts.Json.{Json}
use cuna_lib_ts.Transport.Body.{Bytes}
use cuna_lib_ts.Domain.Chains.{>>=-some, some_injective}
use cuna_lib_ts.Transport.Execute.{Round, Trace, execute}
use cuna_lib_ts.Errors.{ok}
use cuna_lib_ts.Transport.Execute.Report.{execute-ok}
use cuna_lib_ts.Transport.Disposition.Outcomes.{disposition-Accepted}

abbrev pub kind_of : Answer → ResponseKind
kind_of acknowledged = acknowledgement
kind_of (of_auth a) = agent_auth
kind_of (of_agent_session a) = agent_session
kind_of (of_agent_sessions a) = agent_session_page
kind_of (of_grant a) = terminal_connection_grant
kind_of (of_capabilities a) = capability_snapshot
kind_of (of_exec a) = exec
kind_of (of_me a) = me
kind_of (of_handoff a) = open_result
kind_of (of_records a) = records
kind_of (of_session a) = session
kind_of (of_sessions a) = sessions
kind_of (of_binding a) = workspace_binding
kind_of (of_sync a) = workspace_sync
kind_of (of_machine_create a) = machine_create

decode_kind-kind_of :
    (w : Environment) (operation : SyncOperation) (kind : ResponseKind) (value : Json) {a : Answer}
    → decode_kind w operation kind value ≡ some a
    → kind_of a ≡ kind
unfolding decode_kind
decode_kind-kind_of w operation acknowledgement value h =
    let (_, _, e) = >>=-some h in ap kind_of (some_injective e)
decode_kind-kind_of w operation agent_auth value h =
    let (_, _, e) = >>=-some h in ap kind_of (some_injective e)
decode_kind-kind_of w operation agent_session value h =
    let (_, _, e) = >>=-some h in ap kind_of (some_injective e)
decode_kind-kind_of w operation agent_session_page value h =
    let (_, _, e) = >>=-some h in ap kind_of (some_injective e)
decode_kind-kind_of w operation terminal_connection_grant value h =
    let (_, _, e) = >>=-some h in ap kind_of (some_injective e)
decode_kind-kind_of w operation capability_snapshot value h =
    let (_, _, e) = >>=-some h in ap kind_of (some_injective e)
decode_kind-kind_of w operation exec value h =
    let (_, _, e) = >>=-some h in ap kind_of (some_injective e)
decode_kind-kind_of w operation me value h =
    let (_, _, e) = >>=-some h in ap kind_of (some_injective e)
decode_kind-kind_of w operation open_result value h =
    let (_, _, e) = >>=-some h in ap kind_of (some_injective e)
decode_kind-kind_of w operation records value h =
    let (_, _, e) = >>=-some h in ap kind_of (some_injective e)
decode_kind-kind_of w operation session value h =
    let (_, _, e) = >>=-some h in ap kind_of (some_injective e)
decode_kind-kind_of w operation sessions value h =
    let (_, _, e) = >>=-some h in ap kind_of (some_injective e)
decode_kind-kind_of w operation workspace_binding value h =
    let (_, _, e) = >>=-some h in ap kind_of (some_injective e)
decode_kind-kind_of w operation workspace_sync value h =
    let (_, _, e) = >>=-some h in ap kind_of (some_injective e)
decode_kind-kind_of w operation machine_create value h =
    let (_, _, e) = >>=-some h in ap kind_of (some_injective e)

-- A value that an operation returns, with the decoders of the package, is of the kind that the contract
-- has for the operation.
pub execute-kind_of :
    (platform : Platform) (parse : Bytes → Option Json) (w : Environment) (key : OperationKey)
    (timeout_secs : Option ℕ) (made started ended : ℕ) (world : ℕ → Round)
    {t : Trace Metadata Answer} {a : Answer}
    → execute (decoders platform parse w) key timeout_secs none made started ended world ≡ some t
    → t.result ≡ ok a
    → kind_of a ≡ (operation_descriptor key).response
unfolding decoders decode_answer operation_descriptor
execute-kind_of platform parse w key timeout_secs made started ended world {t} {a} h e =
    let served =
      execute-ok (decoders platform parse w) key timeout_secs made started ended world h e in
    let accepted =
      disposition-Accepted (decoders platform parse w) key served.response served.decoded in
    decode_kind-kind_of w (sync_operation key) (response_kind key) accepted.value accepted.decoded
