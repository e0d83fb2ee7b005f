-- ===== src/Requests/Agents.antt =====
-- The agent sessions manager of src/agent-sessions.ts.
pub mod Answered
use cuna_lib_ts.Base.{
  ℕ, ◌==◌, Bool, true, false, ◌&&◌, ◌||◌, not, if◌then◌else◌, Option, none, some, List, [], ◌∷◌,
  ◌++◌, Text, String, lit, same, any, all, is_some, length,
}
use cuna_lib_ts.Json.{Json}
use cuna_lib_ts.Wire.{brand_name, wire_brands}
use cuna_lib_ts.Contract.{
  OperationKey, agent_sessions_list, agent_sessions_create, agent_sessions_get,
  agent_sessions_agent_auth, agent_sessions_rename, agent_sessions_terminate,
  agent_sessions_create_terminal_connection,
}
use cuna_lib_ts.Domain.Grammar.{is_uuid, between, one_of, size}
use cuna_lib_ts.Domain.Read.{◌>>=◌, ◌>>◌, check, max_safe}
use cuna_lib_ts.Domain.Agents.Auth.{AgentSessionAuth}
use cuna_lib_ts.Domain.Agents.Sessions.{AgentSession, AgentSessionPage, is_cwd}
use cuna_lib_ts.Requests.Value.{
  Value, no_more, Members, last, plain_object, read, named_in, text_value, integer_value,
  unless_undefined, json, natural,
}
use cuna_lib_ts.Requests.Call.{Call, no_input, given}
use cuna_lib_ts.Requests.Sync.Methods.{uuid_value, key_value, parameter, decimal_of}

-- `typeof options === "object"`, for options whose names are all known; `undefined` is the default.
unfoldable pub options_of : List String → Value → Option Members
options_of names Value.undefined = some last
options_of names (Value.array no_more) = some last
options_of names value = do source ← plain_object value; check (named_in names source); some source

-- `validName`
abbrev pub name_value : Value → Option Text
name_value = text_value (λ s. between 1 80 (size s))

unfoldable pub list : (machine_id options : Value) → Option (Call AgentSessionPage AgentSessionPage)
list machine_id options = do
  id ← uuid_value machine_id
  source ← options_of ("limit" ∷ "cursor" ∷ []) options
  limit ← unless_undefined (integer_value 1 100) (read "limit" source)
  cursor ← unless_undefined (text_value (λ s. between 1 512 (size s))) (read "cursor" source)
  some (record {
    key = agent_sessions_list;
    input = record no_input {
      id = some id;
      query = some (parameter "limit" (decimal_of limit) (parameter "cursor" cursor []));
    };
    settle = λ page. given (all (λ item. same item.standing.machine_id id) page.items) page;
    status = 200;
  })

-- `AgentSessionCreateOptions`
pub record CreateOptions : Type 0 where
  pub idempotency_key : Text
  pub agent : Text
  pub cwd : Text
  pub workspace_binding_id : Text
  pub workspace_generation : ℕ
  pub name : Option Text
  pub auth_mode : Option Text
  pub credential_binding_id : Option Text

-- `effectiveMode`
abbrev pub effective_mode : Text → Option Text → Text
effective_mode agent (some mode) = mode
effective_mode agent none =
    if same agent (lit "openclaw") then lit "credential_binding" else lit "interactive_login"

-- The last test of `validateCreate`, negated.
unfoldable pub is_bound : (mode : Text) → Option Text → Bool
is_bound mode credential =
    not (same mode (lit "interactive_login") && is_some credential)
    && not (same mode (lit "credential_binding") && not (is_some credential))

-- `validateCreate`
unfoldable pub create_options : Value → Option CreateOptions
create_options value = do
  source ← plain_object value
  check (
      named_in
        ("idempotencyKey" ∷ "agent" ∷ "cwd" ∷ "workspaceBindingId" ∷ "workspaceGeneration" ∷ "name"
          ∷ "authMode" ∷ "credentialBindingId" ∷ [])
        source)
  agent ← text_value (one_of ("claude-code" ∷ "codex" ∷ "openclaw" ∷ [])) (read "agent" source)
  cwd ← text_value (λ s. between 10 1024 (size s) && is_cwd s) (read "cwd" source)
  idempotency_key ← key_value (read "idempotencyKey" source)
  workspace_generation ← integer_value 1 max_safe (read "workspaceGeneration" source)
  workspace_binding_id ← uuid_value (read "workspaceBindingId" source)
  name ← unless_undefined name_value (read "name" source)
  auth_mode ←
      unless_undefined (text_value (one_of ("interactive_login" ∷ "credential_binding" ∷ [])))
        (read "authMode" source)
  credential_binding_id ← unless_undefined uuid_value (read "credentialBindingId" source)
  check (is_bound (effective_mode agent auth_mode) credential_binding_id)
  some (record {
    idempotency_key = idempotency_key;
    agent = agent;
    cwd = cwd;
    workspace_binding_id = workspace_binding_id;
    workspace_generation = workspace_generation;
    name = name;
    auth_mode = auth_mode;
    credential_binding_id = credential_binding_id;
  })

-- A property of a body that may be missing.
abbrev pub optional_member : String → Option Text → List (String × Json) → List (String × Json)
optional_member name none more = more
optional_member name (some s) more = (name, Json.string s) ∷ more

unfoldable pub create_json : CreateOptions → Json
create_json o = json (
    ("agent", Json.string o.agent)
    ∷ ("cwd", Json.string o.cwd)
    ∷ ("workspace_binding_id", Json.string o.workspace_binding_id)
    ∷ ("workspace_generation", natural o.workspace_generation)
    ∷ optional_member "name" o.name (
        optional_member "auth_mode" o.auth_mode
          (optional_member "credential_binding_id" o.credential_binding_id [])))

abbrev is_text : Option Text → Text → Bool
is_text none s = false
is_text (some t) s = same t s

abbrev is_number : Option ℕ → ℕ → Bool
is_number none n = false
is_number (some m) n = m == n

unfoldable pub created : Text → CreateOptions → AgentSession → Bool
created id o a =
    same a.standing.machine_id id
    && same a.standing.agent o.agent
    && same a.standing.cwd o.cwd
    && (is_text a.passing.workspace_binding_id o.workspace_binding_id
        && is_number a.passing.workspace_generation o.workspace_generation)

unfoldable pub create : (machine_id options : Value) → Option (Call AgentSession AgentSession)
create machine_id options = do
  id ← uuid_value machine_id
  o ← create_options options
  some (record {
    key = agent_sessions_create;
    input = record no_input {
      id = some id;
      body = some (create_json o);
      idempotency_key = some o.idempotency_key;
    };
    settle = λ a. given (created id o a) a;
    status = 201;
  })

-- `#one`
unfoldable pub one : OperationKey → Option Json → Value → Option (Call AgentSession AgentSession)
one key body agent_session_id = do
  id ← uuid_value agent_session_id
  some (record {
    key = key;
    input = record no_input { id = some id; body = body };
    settle = λ a. given (same a.standing.id id) a;
    status = 200;
  })

unfoldable pub get : Value → Option (Call AgentSession AgentSession)
get = one agent_sessions_get none

unfoldable pub terminate : Value → Option (Call AgentSession AgentSession)
terminate = one agent_sessions_terminate none

unfoldable pub rename : (agent_session_id name : Value) → Option (Call AgentSession AgentSession)
rename agent_session_id name = do
  s ← name_value name
  c ← one agent_sessions_rename (some (json (("name", Json.string s) ∷ []))) agent_session_id
  some (record c { settle = λ a. c.settle a >>= λ b. given (same b.standing.name s) b })

abbrev same_epoch : Option Text → Option Text → Bool
same_epoch none none = true
same_epoch (some s) (some t) = same s t
same_epoch _ _ = false

unfoldable pub observed_of : AgentSession → AgentSessionAuth → Bool
observed_of session a =
    same a.agent_session_id session.standing.id
    && same a.auth_mode session.standing.auth_mode
    && same_epoch a.process_epoch session.passing.process_epoch

-- `agentAuth`, for a session that an answer held.
unfoldable pub agent_auth : AgentSession → Option (Call AgentSessionAuth AgentSessionAuth)
agent_auth session = do
  check (is_uuid session.standing.id)
  some (record {
    key = agent_sessions_agent_auth;
    input = record no_input { id = some session.standing.id };
    settle = λ a. given (observed_of session a) a;
    status = 200;
  })

-- `^[A-Za-z0-9._:-]{1,256}$`
is_instance_id : Text → Bool
is_instance_id s =
    all
      (λ c.
        between 0x41 0x5a c
        || between 0x61 0x7a c
        || between 0x30 0x39 c
        || (c == 0x2e || (c == 0x5f || (c == 0x3a || c == 0x2d))))
      s
    && between 1 256 (length s)

-- `brandedProtocols("terminal.v1")`
is_terminal_protocol : Text → Bool
is_terminal_protocol s = any (λ brand. same s (brand_name brand ++ lit ".terminal.v1")) wire_brands

-- `createTerminalConnection`, whose grant is returned as it is.
unfoldable pub create_terminal_connection :
    {Grant : Type 0} → (agent_session_id options : Value) → Option (Call Grant Grant)
unfolding is_instance_id is_terminal_protocol
create_terminal_connection agent_session_id options = do
  id ← uuid_value agent_session_id
  source ← plain_object options
  check (named_in ("idempotencyKey" ∷ "clientInstanceId" ∷ "protocol" ∷ "resumeHandle" ∷ []) source)
  idempotency_key ← key_value (read "idempotencyKey" source)
  instance_id ← text_value is_instance_id (read "clientInstanceId" source)
  _ ← unless_undefined (text_value is_terminal_protocol) (read "protocol" source)
  resume_handle ← unless_undefined uuid_value (read "resumeHandle" source)
  some (record {
    key = agent_sessions_create_terminal_connection;
    input = record no_input {
      id = some id;
      idempotency_key = some idempotency_key;
      body = some (
          json (
            ("protocol", Json.string (lit "runa.terminal.v1"))
            ∷ ("client_instance_id", Json.string instance_id)
            ∷ optional_member "resume_handle" resume_handle []));
    };
    settle = some;
    status = 200;
  })
