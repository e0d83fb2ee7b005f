-- ===== src/Requests/Agents/Answered.antt =====
-- What a method of the agent sessions manager returns.
use cuna_lib_ts.Base.{
  ◌≡◌, refl, ap, ℕ, true, Option, none, some, Text, lit, same, same→eq, same_refl, is_some, arith,
}
use cuna_lib_ts.Json.{Json}
use cuna_lib_ts.Contract.{OperationKey}
use cuna_lib_ts.Errors.{Result, ok}
use cuna_lib_ts.Domain.Chains.{>>=-some, >>-some, some_injective}
use cuna_lib_ts.Domain.Dates.{DateParse}
use cuna_lib_ts.Domain.Agents.Auth.{AgentSessionAuth, decode_agent_session_auth}
use cuna_lib_ts.Domain.Agents.Evidence.{Evident, decode_agent_session_auth-Evident}
use cuna_lib_ts.Domain.Agents.Sessions.{AgentSession}
use cuna_lib_ts.Requests.Value.{Value}
use cuna_lib_ts.Requests.Call.{DispatchInput, Port, perform, decoding}
use cuna_lib_ts.Requests.Call.Laws.{perform-ok, given-settled, decoded_by-ok}
use cuna_lib_ts.Requests.Sync.Methods.{uuid_value}
use cuna_lib_ts.Requests.Agents.{
  CreateOptions, create_options, effective_mode, is_bound, created, create, observed_of, agent_auth,
  same_epoch, is_number, is_text,
}

-- A session as it was asked for.
pub record Created (id : Text) (o : CreateOptions) (a : AgentSession) : Type 0 where
  pub machine : a.standing.machine_id ≡ id
  pub agent : a.standing.agent ≡ o.agent
  pub cwd : a.standing.cwd ≡ o.cwd
  pub binding : a.passing.workspace_binding_id ≡ some o.workspace_binding_id
  pub generation : a.passing.workspace_generation ≡ some o.workspace_generation
  pub credential :
      effective_mode o.agent o.auth_mode ≡ lit "credential_binding"
      → is_some o.credential_binding_id ≡ true
  pub login :
      effective_mode o.agent o.auth_mode ≡ lit "interactive_login" → o.credential_binding_id ≡ none

is_text-some : (o : Option Text) (s : Text) → is_text o s ≡ true → o ≡ some s
is_text-some none s h = cc
is_text-some (some t) s h = ap some (same→eq t s h)

is_number-some : (o : Option ℕ) (n : ℕ) → is_number o n ≡ true → o ≡ some n
is_number-some none n h = cc
is_number-some (some m) n h = ground arith

bound_credential :
    (mode : Text) (c : Option Text)
    → is_bound mode c ≡ true
    → mode ≡ lit "credential_binding"
    → is_some c ≡ true
unfolding is_bound
bound_credential mode c h e =
    let s : same mode (lit "credential_binding") ≡ true =
      rw e (same_refl (lit "credential_binding")) in
    ground arith

bound_login :
    (mode : Text) (c : Option Text)
    → is_bound mode c ≡ true
    → mode ≡ lit "interactive_login"
    → c ≡ none
unfolding is_bound
bound_login mode none h e = refl
bound_login mode (some c) h e =
    let s : same mode (lit "interactive_login") ≡ true =
      rw e (same_refl (lit "interactive_login")) in
    absurd (ground arith)

create_options-bound :
    (value : Value) {o : CreateOptions}
    → create_options value ≡ some o
    → is_bound (effective_mode o.agent o.auth_mode) o.credential_binding_id ≡ true
unfolding create_options
create_options-bound value h =
    let (_, _, h1) = >>=-some h in
    let (_, h2) = >>-some h1 in
    let (_, _, h3) = >>=-some h2 in
    let (_, _, h4) = >>=-some h3 in
    let (_, _, h5) = >>=-some h4 in
    let (_, _, h6) = >>=-some h5 in
    let (_, _, h7) = >>=-some h6 in
    let (_, _, h8) = >>=-some h7 in
    let (_, _, h9) = >>=-some h8 in
    let (_, _, h10) = >>=-some h9 in let (t, h11) = >>-some h10 in rw (some_injective h11) t

created-Created :
    (id : Text) (o : CreateOptions) (a : AgentSession)
    → is_bound (effective_mode o.agent o.auth_mode) o.credential_binding_id ≡ true
    → created id o a ≡ true
    → Created id o a
unfolding created
created-Created id o a b h = record {
  machine = same→eq _ _ (ground arith);
  agent = same→eq _ _ (ground arith);
  cwd = same→eq _ _ (ground arith);
  binding = is_text-some _ _ (ground arith);
  generation = is_number-some _ _ (ground arith);
  credential = bound_credential _ _ b;
  login = bound_login _ _ b;
}

-- A session that `create` returns is of the machine, the agent, the directory, the workspace binding and
-- the generation that the caller asked for; and the caller named a credential if the session is to be
-- authenticated by one, and none if by a login, the mode being that of the agent where none was named.
pub create-Created :
    {P : Type 0} (port : Port P AgentSession) (machine_id options : Value) {a : AgentSession}
    → perform port (create machine_id options) ≡ ok a
    → (id : Text) × (o : CreateOptions) × (uuid_value machine_id ≡ some id)
      × (create_options options ≡ some o)
      × Created id o a
unfolding create
create-Created port machine_id options h =
    let (c, answer, made, _, settled) = perform-ok port _ h in
    let (id, i, h1) = >>=-some made in
    let (o, v, h2) = >>=-some h1 in
    let (t, q) = given-settled (some_injective h2) settled refl in
    (id, o, i, v, rw q (created-Created id o answer (create_options-bound options v) t))

-- Evidence of the authentication of a session.
pub record Observed (date_parse : DateParse) (now : ℕ) (session : AgentSession)
    (a : AgentSessionAuth) : Type 0 where
  pub of_session : a.agent_session_id ≡ session.standing.id
  pub of_mode : a.auth_mode ≡ session.standing.auth_mode
  pub of_process : a.process_epoch ≡ session.passing.process_epoch
  pub evident : Evident date_parse now a

same_epoch-eq : (o p : Option Text) → same_epoch o p ≡ true → o ≡ p
same_epoch-eq none none h = refl
same_epoch-eq (some s) (some t) h = ap some (same→eq s t h)
same_epoch-eq none (some t) h = cc
same_epoch-eq (some s) none h = cc

observed_of-Observed :
    (date_parse : DateParse) (now : ℕ) (session : AgentSession) (a : AgentSessionAuth)
    → observed_of session a ≡ true
    → Evident date_parse now a
    → Observed date_parse now session a
unfolding observed_of
observed_of-Observed date_parse now session a h e = record {
  of_session = same→eq _ _ (ground arith);
  of_mode = same→eq _ _ (ground arith);
  of_process = same_epoch-eq _ _ (ground arith);
  evident = e;
}

-- The observation that `agentAuth` returns, of whatever the service sent, is of the session that it was
-- asked about, in the mode and of the process of that session, and is evidence that is current now, or
-- says that the state is unavailable, which holds for no time and is not compared with now.
pub agent_auth-Observed :
    {P : Type 0} (date_parse : DateParse) (now : ℕ)
    (respond : OperationKey → DispatchInput → Result P Json) (session : AgentSession)
    {a : AgentSessionAuth}
    → perform
        (decoding (λ key. decode_agent_session_auth date_parse now) respond)
        (agent_auth session)
      ≡ ok a
    → Observed date_parse now session a
unfolding agent_auth
agent_auth-Observed {P} date_parse now respond session h =
    let (c, answer, made, answered, settled) =
      perform-ok (decoding (λ key. decode_agent_session_auth date_parse now) respond) _ h in
    let (_, h1) = >>-some made in
    let (t, q) = given-settled (some_injective h1) settled refl in
    let (value, d) =
      decoded_by-ok {P = P} (decode_agent_session_auth date_parse now) (respond c.key c.input)
        answered in
    rw q (
      observed_of-Observed date_parse now session answer t
        (decode_agent_session_auth-Evident date_parse now value d))
