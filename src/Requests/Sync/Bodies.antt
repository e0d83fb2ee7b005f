-- ===== src/Requests/Sync/Bodies.antt =====
-- The request bodies of src/workspace-sync.ts. Of each there is what the code takes from the argument,
-- and the object that it makes of it.
use cuna_lib_ts.Base.{ℕ, Bool, leb, Option, some, List, [], ◌∷◌, Text}
use cuna_lib_ts.Json.{Json}
use cuna_lib_ts.Domain.Grammar.{is_sha256, is_uuid}
use cuna_lib_ts.Domain.Read.{◌>>=◌, ◌>>◌, check, max_safe}
use cuna_lib_ts.Domain.Sync.Records.{ManifestEntry}
use cuna_lib_ts.Requests.Value.{
  Value, exactly, read, text_value, boolean_value, values_of, integer_value, count_values,
  map_values, json, natural,
}
use cuna_lib_ts.Requests.Sync.Entries.{entry_value, entry_json, items_json}

-- `WorkspaceSyncProtocolRange`
pub record ProtocolRange : Type 0 where
  pub minimum : ℕ
  pub maximum : ℕ

-- `WorkspaceSyncBeginRequest`
pub record BeginRequest : Type 0 where
  pub workspace_binding_id : Text
  pub machine_id : Text
  pub base_generation : ℕ
  pub exclusion_policy_digest : Text
  pub protocol : ProtocolRange
  pub minimum_reader : ℕ
  pub minimum_writer : ℕ

-- `WorkspaceSyncManifestPageRequest`
pub record PageRequest : Type 0 where
  pub page_index : ℕ
  pub is_last : Bool
  pub minimum_reader : ℕ
  pub minimum_writer : ℕ
  pub entries : List ManifestEntry

-- `WorkspaceSyncCommitRequest`
pub record CommitRequest : Type 0 where
  pub expected_generation : ℕ
  pub exclusion_policy_digest : Text
  pub manifest_root : Text
  pub minimum_reader : ℕ
  pub minimum_writer : ℕ

-- `WorkspaceSyncReconcileRequest`
pub record ReconcileRequest : Type 0 where
  pub workspace_binding_id : Text
  pub machine_id : Text
  pub observed_generation : ℕ
  pub exclusion_policy_digest : Text
  pub manifest_root : Text
  pub protocol : ProtocolRange

-- `integer(value, minimum)`
abbrev pub at_least : ℕ → Value → Option ℕ
at_least minimum = integer_value minimum max_safe

-- `protocol`
unfoldable pub protocol_value : Value → Option ProtocolRange
protocol_value value = do
  source ← exactly ("minimum" ∷ "maximum" ∷ []) value
  minimum ← at_least 1 (read "minimum" source)
  maximum ← at_least 1 (read "maximum" source)
  check (leb minimum maximum)
  some (record { minimum = minimum; maximum = maximum })

abbrev pub protocol_json : ProtocolRange → Json
protocol_json range =
    json (("minimum", natural range.minimum) ∷ ("maximum", natural range.maximum) ∷ [])

-- `beginBody`
unfoldable pub begin_value : Value → Option BeginRequest
begin_value value = do
  source ←
      exactly
        ("workspaceBindingId" ∷ "machineId" ∷ "baseGeneration" ∷ "exclusionPolicyDigest"
          ∷ "protocol" ∷ "minimumReader" ∷ "minimumWriter" ∷ [])
        value
  workspace_binding_id ← text_value is_uuid (read "workspaceBindingId" source)
  machine_id ← text_value is_uuid (read "machineId" source)
  base_generation ← at_least 0 (read "baseGeneration" source)
  exclusion_policy_digest ← text_value is_sha256 (read "exclusionPolicyDigest" source)
  protocol ← protocol_value (read "protocol" source)
  minimum_reader ← at_least 1 (read "minimumReader" source)
  minimum_writer ← at_least 1 (read "minimumWriter" source)
  some (record {
    workspace_binding_id = workspace_binding_id;
    machine_id = machine_id;
    base_generation = base_generation;
    exclusion_policy_digest = exclusion_policy_digest;
    protocol = protocol;
    minimum_reader = minimum_reader;
    minimum_writer = minimum_writer;
  })

unfoldable pub begin_json : BeginRequest → Json
begin_json r = json (
    ("workspace_binding_id", Json.string r.workspace_binding_id)
    ∷ ("machine_id", Json.string r.machine_id)
    ∷ ("base_generation", natural r.base_generation)
    ∷ ("exclusion_policy_digest", Json.string r.exclusion_policy_digest)
    ∷ ("protocol", protocol_json r.protocol)
    ∷ ("minimum_reader", natural r.minimum_reader)
    ∷ ("minimum_writer", natural r.minimum_writer)
    ∷ [])

-- `manifestBody`
unfoldable pub page_value : Value → Option PageRequest
page_value value = do
  source ←
      exactly ("pageIndex" ∷ "isLast" ∷ "minimumReader" ∷ "minimumWriter" ∷ "entries" ∷ []) value
  is_last ← boolean_value (read "isLast" source)
  values ← values_of (read "entries" source)
  check (leb (count_values values) 4096)
  page_index ← integer_value 0 255 (read "pageIndex" source)
  minimum_reader ← at_least 1 (read "minimumReader" source)
  minimum_writer ← at_least 1 (read "minimumWriter" source)
  entries ← map_values entry_value values
  some (record {
    page_index = page_index;
    is_last = is_last;
    minimum_reader = minimum_reader;
    minimum_writer = minimum_writer;
    entries = entries;
  })

unfoldable pub page_json : PageRequest → Json
page_json r = json (
    ("page_index", natural r.page_index)
    ∷ ("is_last", Json.boolean r.is_last)
    ∷ ("minimum_reader", natural r.minimum_reader)
    ∷ ("minimum_writer", natural r.minimum_writer)
    ∷ ("entries", Json.array (items_json entry_json r.entries))
    ∷ [])

-- `commitBody`
unfoldable pub commit_value : Value → Option CommitRequest
commit_value value = do
  source ←
      exactly
        ("expectedGeneration" ∷ "exclusionPolicyDigest" ∷ "manifestRoot" ∷ "minimumReader"
          ∷ "minimumWriter" ∷ [])
        value
  expected_generation ← at_least 0 (read "expectedGeneration" source)
  exclusion_policy_digest ← text_value is_sha256 (read "exclusionPolicyDigest" source)
  manifest_root ← text_value is_sha256 (read "manifestRoot" source)
  minimum_reader ← at_least 1 (read "minimumReader" source)
  minimum_writer ← at_least 1 (read "minimumWriter" source)
  some (record {
    expected_generation = expected_generation;
    exclusion_policy_digest = exclusion_policy_digest;
    manifest_root = manifest_root;
    minimum_reader = minimum_reader;
    minimum_writer = minimum_writer;
  })

unfoldable pub commit_json : CommitRequest → Json
commit_json r = json (
    ("expected_generation", natural r.expected_generation)
    ∷ ("exclusion_policy_digest", Json.string r.exclusion_policy_digest)
    ∷ ("manifest_root", Json.string r.manifest_root)
    ∷ ("minimum_reader", natural r.minimum_reader)
    ∷ ("minimum_writer", natural r.minimum_writer)
    ∷ [])

-- `reconcileBody`
unfoldable pub reconcile_value : Value → Option ReconcileRequest
reconcile_value value = do
  source ←
      exactly
        ("workspaceBindingId" ∷ "machineId" ∷ "observedGeneration" ∷ "exclusionPolicyDigest"
          ∷ "manifestRoot" ∷ "protocol" ∷ [])
        value
  workspace_binding_id ← text_value is_uuid (read "workspaceBindingId" source)
  machine_id ← text_value is_uuid (read "machineId" source)
  observed_generation ← at_least 0 (read "observedGeneration" source)
  exclusion_policy_digest ← text_value is_sha256 (read "exclusionPolicyDigest" source)
  manifest_root ← text_value is_sha256 (read "manifestRoot" source)
  protocol ← protocol_value (read "protocol" source)
  some (record {
    workspace_binding_id = workspace_binding_id;
    machine_id = machine_id;
    observed_generation = observed_generation;
    exclusion_policy_digest = exclusion_policy_digest;
    manifest_root = manifest_root;
    protocol = protocol;
  })

unfoldable pub reconcile_json : ReconcileRequest → Json
reconcile_json r = json (
    ("workspace_binding_id", Json.string r.workspace_binding_id)
    ∷ ("machine_id", Json.string r.machine_id)
    ∷ ("observed_generation", natural r.observed_generation)
    ∷ ("exclusion_policy_digest", Json.string r.exclusion_policy_digest)
    ∷ ("manifest_root", Json.string r.manifest_root)
    ∷ ("protocol", protocol_json r.protocol)
    ∷ [])
