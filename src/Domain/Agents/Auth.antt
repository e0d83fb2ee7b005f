-- ===== src/Domain/Agents/Auth.antt =====
-- `decodeAgentSessionAuth` of src/domain.ts.
use cuna_lib_ts.Base.{
  ℕ, zero, suc, ◌+◌, ltb, leb, ◌==◌, if◌then◌else◌, Bool, true, false, ◌&&◌, ◌||◌, Option, some, [],
  ◌∷◌, Text, String, same, is_some, lit,
}
use cuna_lib_ts.Json.{Json, Fields}
use cuna_lib_ts.Domain.Grammar.{between, one_of}
use cuna_lib_ts.Domain.Read.{◌>>◌, ◌>>=◌, check, get, closed, string_of, uuid, enum_value, nullable}
use cuna_lib_ts.Domain.Dates.{DateParse, date_time}

pub record AgentSessionAuth : Type 0 where
  pub observation_id : Text
  pub agent_session_id : Text
  pub process_epoch : Option Text
  pub auth_mode : Text
  pub agent_version : Text
  pub adapter_version : Text
  pub evidence_class : Text
  pub observed_at : Text
  pub valid_until : Text
  pub state : Text

-- The decoder of a property on the property.
unfoldable pub required : {A : Type 0} → String → (Json → Option A) → Fields → Option A
unfolding ◌>>=◌ get
required key decode source = get key source >>= decode

-- `[0-9]+` as often as the number says, with a full stop between two of them, and no more. The flag says
-- that the run has begun.
digit_groups : ℕ → Bool → Text → Bool
digit_groups zero begun [] = begun
digit_groups (suc n) begun [] = false
digit_groups zero begun (c ∷ s) = between 0x30 0x39 c && digit_groups zero true s
digit_groups (suc n) begun (c ∷ s) =
    let same_group = digit_groups (suc n) true s in
    let next_group = digit_groups n false s in
    if c == 0x2e then begun && next_group else between 0x30 0x39 c && same_group

-- `AGENT_VERSION`
unfoldable pub is_version : Text → Bool
unfolding digit_groups
is_version = digit_groups 2 false

abbrev pub max_auth_ttl_ms : ℕ
max_auth_ttl_ms = 30000

abbrev pub max_auth_future_skew_ms : ℕ
max_auth_future_skew_ms = 5000

abbrev pub is_unavailable : (evidence state : Text) → Bool
is_unavailable evidence state = same evidence (lit "insufficient") && same state (lit "unavailable")

abbrev pub is_interactive : (mode evidence state : Text) → Bool
is_interactive mode evidence state =
    same mode (lit "interactive_login")
    && same evidence (lit "provider_cli_login_status")
    && (same state (lit "login_required") || same state (lit "authenticated"))

abbrev pub is_credential : (mode evidence state : Text) → Bool
is_credential mode evidence state =
    same mode (lit "credential_binding")
    && same evidence (lit "credential_binding_authority")
    && same state (lit "configured")

-- The part of the long test that is for evidence, with the times in milliseconds.
unfoldable pub is_fresh : (epoch : Option Text) → (version : Text) → (now observed valid : ℕ) → Bool
is_fresh epoch version now observed valid =
    is_some epoch
    && is_version version
    && (ltb observed valid && leb valid (observed + max_auth_ttl_ms))
    && (leb observed (now + max_auth_future_skew_ms) && ltb now valid)

-- The long test, negated: whether the answer is a proper one.
unfoldable pub is_evidence : (now observed valid : ℕ) → AgentSessionAuth → Bool
is_evidence now observed valid a =
    let unavailable = is_unavailable a.evidence_class a.state in
    one_of ("cuna.agent-auth.v1" ∷ "runa.agent-auth.v1" ∷ []) a.adapter_version
    && (unavailable
        || is_interactive a.auth_mode a.evidence_class a.state
        || is_credential a.auth_mode a.evidence_class a.state)
    && (if unavailable
        then valid == observed
        else is_fresh a.process_epoch a.agent_version now observed valid)

-- The first half of the decoder: what each property must be by itself.
unfoldable pub read_auth : DateParse → Json → Option AgentSessionAuth
read_auth date_parse value = do
  source ←
      closed
        ("observation_id" ∷ "agent_session_id" ∷ "process_epoch" ∷ "auth_mode" ∷ "agent_version"
          ∷ "adapter_version" ∷ "evidence_class" ∷ "observed_at" ∷ "valid_until" ∷ "state" ∷ [])
        [] value
  observation_id ← required "observation_id" uuid source
  agent_session_id ← required "agent_session_id" uuid source
  process_epoch ← required "process_epoch" (nullable uuid) source
  auth_mode ←
      required "auth_mode" (enum_value ("interactive_login" ∷ "credential_binding" ∷ [])) source
  agent_version ← required "agent_version" string_of source
  adapter_version ← required "adapter_version" string_of source
  evidence_class ←
      required "evidence_class"
        (enum_value
          ("provider_cli_login_status" ∷ "credential_binding_authority" ∷ "insufficient" ∷ []))
        source
  observed_at ← required "observed_at" (date_time date_parse) source
  valid_until ← required "valid_until" (date_time date_parse) source
  state ← required "state" string_of source
  some (record {
    observation_id = observation_id;
    agent_session_id = agent_session_id;
    process_epoch = process_epoch;
    auth_mode = auth_mode;
    agent_version = agent_version;
    adapter_version = adapter_version;
    evidence_class = evidence_class;
    observed_at = observed_at;
    valid_until = valid_until;
    state = state;
  })

unfoldable pub decode_agent_session_auth :
    (date_parse : DateParse) (now : ℕ) → Json → Option AgentSessionAuth
decode_agent_session_auth date_parse now value = do
  auth ← read_auth date_parse value
  observed_ms ← date_parse auth.observed_at
  valid_until_ms ← date_parse auth.valid_until
  check (is_evidence now observed_ms valid_until_ms auth)
  some auth
