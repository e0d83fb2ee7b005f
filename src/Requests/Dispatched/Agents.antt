-- ===== src/Requests/Dispatched/Agents.antt =====
-- Every call of the agent sessions and of the bindings manager fits the operation that it names.
use cuna_lib_ts.Domain.Grammar.{around}
use cuna_lib_ts.Requests.Call.{Call, no_input}
use cuna_lib_ts.Requests.Agents
use cuna_lib_ts.Requests.Bindings
use cuna_lib_ts.Base.{none, some, true, false, refl, Option, lit, ◌≡◌, Text}
use cuna_lib_ts.Contract.{
  agent_sessions_get, agent_sessions_terminate, agent_sessions_rename, OperationKey, generated,
}
use cuna_lib_ts.Transport.Prepare.{Web, body_of, is_chunk, Body}
use cuna_lib_ts.Contract.Safety.{needs_idempotency_key}
use cuna_lib_ts.Json.{Json}
use cuna_lib_ts.Requests.Value.{Value}
use cuna_lib_ts.Requests.Dispatched.Shapes.{is_split, binding-Fits, alone-Fits, id-Fits}
use cuna_lib_ts.Transport.Prepare.Paths.{is_path, is_plain_unit}
use cuna_lib_ts.Domain.Grammar.{after_prefix, is_uuid}
use cuna_lib_ts.Domain.Agents.Sessions.{AgentSession, AgentSessionPage}
use cuna_lib_ts.Domain.Agents.Auth.{AgentSessionAuth}
use cuna_lib_ts.Domain.Bindings.{WorkspaceBinding}
use cuna_lib_ts.Requests.Dispatched.{Fits}
use cuna_lib_ts.Domain.Chains.{>>=-some, >>-some, some_injective}
use cuna_lib_ts.Requests.Value.Laws.{text_value-satisfies}

pub binding_create-Fits :
    (web : Web) (r k : Value) (c : Call WorkspaceBinding WorkspaceBinding)
    → Bindings.create r k ≡ some c
    → Fits web c.key c.input
unfolding Bindings.create body_of is_chunk generated needs_idempotency_key is_split around lit
    is_path after_prefix is_plain_unit
binding_create-Fits web r k c g =
    let (_, _, g1) = >>=-some g in
    let (_, _, g2) = >>=-some g1 in
    rw (some_injective g2) (alone-Fits web _ _ _ refl refl refl refl refl refl)

pub agents_list-Fits :
    (web : Web) (w r : Value) (c : Call AgentSessionPage AgentSessionPage)
    → Agents.list w r ≡ some c
    → Fits web c.key c.input
unfolding Agents.list body_of is_chunk generated needs_idempotency_key is_split around lit is_path
    after_prefix is_plain_unit
agents_list-Fits web w r c g =
    let (id, u, g1) = >>=-some g in
    let (_, _, g2) = >>=-some g1 in
    let (_, _, g3) = >>=-some g2 in
    let (_, _, g4) = >>=-some g3 in
    rw (some_injective g4)
      (id-Fits web _ _ id _ refl refl refl refl (text_value-satisfies is_uuid _ u) refl refl)

pub agents_create-Fits :
    (web : Web) (w r : Value) (c : Call AgentSession AgentSession)
    → Agents.create w r ≡ some c
    → Fits web c.key c.input
unfolding Agents.create body_of is_chunk generated needs_idempotency_key is_split around lit is_path
    after_prefix is_plain_unit
agents_create-Fits web w r c g =
    let (id, u, g1) = >>=-some g in
    let (_, _, g2) = >>=-some g1 in
    rw (some_injective g2)
      (id-Fits web _ _ id _ refl refl refl refl (text_value-satisfies is_uuid _ u) refl refl)

pub agents_connect-Fits :
    {A : Type 0} (web : Web) (w r : Value) (c : Call A A)
    → Agents.create_terminal_connection {Grant = A} w r ≡ some c
    → Fits web c.key c.input
unfolding Agents.create_terminal_connection body_of is_chunk generated needs_idempotency_key
    is_split around lit is_path after_prefix is_plain_unit
agents_connect-Fits web w r c g =
    let (id, u, g1) = >>=-some g in
    let (_, _, g2) = >>=-some g1 in
    let (_, g3) = >>-some g2 in
    let (_, _, g4) = >>=-some g3 in
    let (_, _, g5) = >>=-some g4 in
    let (_, _, g6) = >>=-some g5 in
    let (_, _, g7) = >>=-some g6 in
    rw (some_injective g7)
      (id-Fits web _ _ id _ refl refl refl refl (text_value-satisfies is_uuid _ u) refl refl)

one-Fits :
    (web : Web) (key : OperationKey) (request : Option Json) (w : Value)
    (c : Call AgentSession AgentSession) (body : Option Body)
    → is_split (around (lit ":id") (generated key).path_template) ≡ true
    → ((id : Text) → body_of web key (record no_input { id = some id; body = request }) ≡ some body)
    → needs_idempotency_key key ≡ false
    → Agents.one key request w ≡ some c
    → Fits web c.key c.input
unfolding Agents.one
one-Fits web key request w c body t b n g =
    let (id, u, g1) = >>=-some g in
    rw (some_injective g1)
      (id-Fits web key _ id body t refl refl refl (text_value-satisfies is_uuid _ u) (b id) n)

pub agents_get-Fits :
    (web : Web) (w : Value) (c : Call AgentSession AgentSession)
    → Agents.get w ≡ some c
    → Fits web c.key c.input
unfolding Agents.get body_of is_chunk generated needs_idempotency_key is_split around lit is_path
    after_prefix is_plain_unit
agents_get-Fits web w c g = one-Fits web agent_sessions_get none w c none refl (λ id. refl) refl g

pub agents_terminate-Fits :
    (web : Web) (w : Value) (c : Call AgentSession AgentSession)
    → Agents.terminate w ≡ some c
    → Fits web c.key c.input
unfolding Agents.terminate body_of is_chunk generated needs_idempotency_key is_split around lit
    is_path after_prefix is_plain_unit
agents_terminate-Fits web w c g =
    one-Fits web agent_sessions_terminate none w c none refl (λ id. refl) refl g

pub agents_rename-Fits :
    (web : Web) (w r : Value) (c : Call AgentSession AgentSession)
    → Agents.rename w r ≡ some c
    → Fits web c.key c.input
unfolding Agents.rename body_of is_chunk generated needs_idempotency_key is_split around lit is_path
    after_prefix is_plain_unit
agents_rename-Fits web w r c g =
    let (s, _, g1) = >>=-some g in
    let (d, e, g2) = >>=-some g1 in
    rw (some_injective g2) (one-Fits web agent_sessions_rename _ w d _ refl (λ id. refl) refl e)

pub agents_auth-Fits :
    (web : Web) (s : AgentSession) (c : Call AgentSessionAuth AgentSessionAuth)
    → Agents.agent_auth s ≡ some c
    → Fits web c.key c.input
unfolding Agents.agent_auth body_of is_chunk generated needs_idempotency_key is_split around lit
    is_path after_prefix is_plain_unit
agents_auth-Fits web s c g =
    let (u, g1) = >>-some g in
    rw (some_injective g1) (id-Fits web _ _ s.standing.id _ refl refl refl refl u refl refl)

pub binding_get-Fits :
    (web : Web) (w r : Value) (c : Call WorkspaceBinding WorkspaceBinding)
    → Bindings.get w r ≡ some c
    → Fits web c.key c.input
unfolding Bindings.get body_of is_chunk generated needs_idempotency_key is_split around lit is_path
    after_prefix is_plain_unit
binding_get-Fits web w r c g =
    let (id, u, g1) = >>=-some g in
    let (_, _, g2) = >>=-some g1 in
    rw (some_injective g2)
      (binding-Fits web _ _ id _ refl refl refl refl (text_value-satisfies is_uuid _ u) refl refl)
