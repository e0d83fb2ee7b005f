-- ===== src/Domain/Bindings.antt =====
-- `decodeWorkspaceBinding` and `decodeMachineCreateRequest` of src/domain.ts, into the types of
-- src/workspace-bindings.ts and src/machine-creates.ts.
use cuna_lib_ts.Base.{ℕ, Bool, Option, some, [], ◌∷◌, ◌++◌, Text, lit, same}
use cuna_lib_ts.Json.{Json}
use cuna_lib_ts.Domain.Read.{
  ◌>>=◌, ◌>>◌, check, closed, string_of, boolean_of, uuid, sha256, enum_value, safe_integer,
}
use cuna_lib_ts.Domain.Dates.{DateParse, date_time}
use cuna_lib_ts.Domain.Agents.Auth.{required}

pub record WorkspaceBinding : Type 0 where
  pub binding_id : Text
  pub workspace_id : Text
  pub project_id : Text
  pub local_instance_id : Text
  pub machine_id : Text
  pub remote_root : Text
  pub exclusion_policy_digest : Text
  pub active_generation : ℕ
  pub active_manifest_root : Text
  pub binding_epoch : ℕ
  pub minimum_reader : ℕ
  pub minimum_writer : ℕ
  pub created_at : Text
  pub updated_at : Text

unfoldable pub decode_workspace_binding : DateParse → Json → Option WorkspaceBinding
decode_workspace_binding date_parse value = do
  source ←
      closed
        ("binding_id" ∷ "workspace_id" ∷ "project_id" ∷ "local_instance_id" ∷ "machine_id"
          ∷ "remote_root" ∷ "exclusion_policy_digest" ∷ "active_generation" ∷ "active_manifest_root"
          ∷ "binding_epoch" ∷ "minimum_reader" ∷ "minimum_writer" ∷ "created_at" ∷ "updated_at"
          ∷ [])
        [] value
  project_id ← required "project_id" uuid source
  remote_root ← required "remote_root" string_of source
  check (same remote_root (lit "/workspace/projects/" ++ project_id))
  binding_id ← required "binding_id" uuid source
  workspace_id ← required "workspace_id" uuid source
  local_instance_id ← required "local_instance_id" uuid source
  machine_id ← required "machine_id" uuid source
  exclusion_policy_digest ← required "exclusion_policy_digest" sha256 source
  active_generation ← required "active_generation" (safe_integer 0) source
  active_manifest_root ← required "active_manifest_root" sha256 source
  binding_epoch ← required "binding_epoch" (safe_integer 1) source
  minimum_reader ← required "minimum_reader" (safe_integer 1) source
  minimum_writer ← required "minimum_writer" (safe_integer 1) source
  created_at ← required "created_at" (date_time date_parse) source
  updated_at ← required "updated_at" (date_time date_parse) source
  some (record {
    binding_id = binding_id;
    workspace_id = workspace_id;
    project_id = project_id;
    local_instance_id = local_instance_id;
    machine_id = machine_id;
    remote_root = remote_root;
    exclusion_policy_digest = exclusion_policy_digest;
    active_generation = active_generation;
    active_manifest_root = active_manifest_root;
    binding_epoch = binding_epoch;
    minimum_reader = minimum_reader;
    minimum_writer = minimum_writer;
    created_at = created_at;
    updated_at = updated_at;
  })

pub record MachineCreateRequest : Type 0 where
  pub id : Text
  pub machine_id : Text
  pub state : Text
  pub retryable : Bool
  pub action : Text
  pub updated_at : Text

unfoldable pub decode_machine_create_request : DateParse → Json → Option MachineCreateRequest
decode_machine_create_request date_parse value = do
  source ←
      closed ("id" ∷ "machine_id" ∷ "state" ∷ "retryable" ∷ "action" ∷ "updated_at" ∷ []) [] value
  retryable ← required "retryable" boolean_of source
  id ← required "id" uuid source
  machine_id ← required "machine_id" uuid source
  state ←
      required "state"
        (enum_value (
          "prepared" ∷ "in_progress" ∷ "unknown" ∷ "provider_succeeded" ∷ "settled"
          ∷ "terminal_failed" ∷ []))
        source
  action ←
      required "action" (enum_value ("retry_create" ∷ "reconcile" ∷ "wait" ∷ "none" ∷ [])) source
  updated_at ← required "updated_at" (date_time date_parse) source
  some (record {
    id = id;
    machine_id = machine_id;
    state = state;
    retryable = retryable;
    action = action;
    updated_at = updated_at;
  })
