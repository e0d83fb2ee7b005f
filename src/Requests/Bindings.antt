-- ===== src/Requests/Bindings.antt =====
-- The bindings manager of src/workspace-bindings.ts.
pub mod Prefixes
pub mod Answered
use cuna_lib_ts.Base.{
  ℕ, leb, ◌==◌, Bool, true, false, ◌&&◌, ◌||◌, not, if◌then◌else◌, Option, some, List, [], ◌∷◌,
  Text, lit, same, any, length,
}
use cuna_lib_ts.Json.{Json, Items}
use cuna_lib_ts.Contract.{workspace_bindings_create, workspace_bindings_get}
use cuna_lib_ts.Domain.Grammar.{is_sha256, is_uuid, between}
use cuna_lib_ts.Domain.Read.{◌>>=◌, ◌>>◌, check}
use cuna_lib_ts.Domain.Bindings.{WorkspaceBinding}
use cuna_lib_ts.Domain.Sync.Entries.{distinct}
use cuna_lib_ts.Requests.Value.{
  Value, exactly, read, text_value, values_of, count_values, map_values, json, is_idempotency_key,
}
use cuna_lib_ts.Requests.Call.{Call, no_input, given}
use cuna_lib_ts.Requests.Sync.Entries.{items_json}

-- One more character before the first part.
unfoldable pub before_first : ℕ → List Text → List Text
before_first c [] = (c ∷ []) ∷ []
before_first c (part ∷ parts) = (c ∷ part) ∷ parts

-- `split("/")`
unfoldable pub split_slash : Text → List Text
unfolding before_first
split_slash [] = [] ∷ []
split_slash (c ∷ s) =
    let rest = split_slash s in if c == 0x2f then [] ∷ rest else before_first c rest

-- `part === "" || part === "." || part === ".."`
unfoldable pub is_dotted : Text → Bool
is_dotted [] = true
is_dotted s = same s (0x2e ∷ []) || same s (0x2e ∷ 0x2e ∷ [])

is_control : ℕ → Bool
is_control c = leb c 0x1f || c == 0x7f

-- `^[a-zA-Z]:`
is_drive : Text → Bool
is_drive (c ∷ d ∷ s) = (between 0x61 0x7a c || between 0x41 0x5a c) && d == 0x3a
is_drive _ = false

-- The test of `canonicalPrefix`, negated. A leading slash or backslash is caught by the others.
unfoldable pub is_canonical : Text → Bool
unfolding is_control is_drive
is_canonical s =
    between 1 4096 (length s)
    && not (any (λ c. c == 0x5c) s)
    && not (any is_control s)
    && not (any is_dotted (split_slash s))
    && not (is_drive s)

-- `WorkspaceBindingIdentity`
pub record Identity : Type 0 where
  pub workspace_id : Text
  pub project_id : Text
  pub local_instance_id : Text
  pub machine_id : Text
  pub exclusion_policy_digest : Text

-- `identity`, for the object that both methods give it.
unfoldable pub identity_of :
    (workspace_id project_id local_instance_id machine_id digest : Value) → Option Identity
identity_of workspace_id project_id local_instance_id machine_id digest = do
  workspace ← text_value is_uuid workspace_id
  project ← text_value is_uuid project_id
  local ← text_value is_uuid local_instance_id
  machine ← text_value is_uuid machine_id
  policy ← text_value is_sha256 digest
  some (record {
    workspace_id = workspace;
    project_id = project;
    local_instance_id = local;
    machine_id = machine;
    exclusion_policy_digest = policy;
  })

-- `assertIdentity`
unfoldable pub has_identity : WorkspaceBinding → Identity → Bool
has_identity actual expected =
    same actual.workspace_id expected.workspace_id
    && same actual.project_id expected.project_id
    && (same actual.local_instance_id expected.local_instance_id
        && (same actual.machine_id expected.machine_id
            && same actual.exclusion_policy_digest expected.exclusion_policy_digest))

abbrev strings_json : List Text → Items
strings_json = items_json Json.string

unfoldable pub binding_json : Identity → List Text → Json
binding_json i prefixes = json (
    ("workspace_id", Json.string i.workspace_id)
    ∷ ("project_id", Json.string i.project_id)
    ∷ ("local_instance_id", Json.string i.local_instance_id)
    ∷ ("machine_id", Json.string i.machine_id)
    ∷ ("exclusion_policy_digest", Json.string i.exclusion_policy_digest)
    ∷ ("excluded_prefixes", Json.array (strings_json prefixes))
    ∷ [])

-- What `create` takes from its request.
unfoldable pub create_value : Value → Option (Identity × List Text)
create_value request = do
  source ←
      exactly
        ("workspaceId" ∷ "projectId" ∷ "localInstanceId" ∷ "machineId" ∷ "exclusionPolicyDigest"
          ∷ "excludedPrefixes" ∷ [])
        request
  expected ←
      identity_of (read "workspaceId" source) (read "projectId" source)
        (read "localInstanceId" source) (read "machineId" source)
        (read "exclusionPolicyDigest" source)
  values ← values_of (read "excludedPrefixes" source)
  check (leb (count_values values) 10000)
  prefixes ← map_values (text_value is_canonical) values
  check (distinct prefixes == length prefixes)
  some (expected, prefixes)

unfoldable pub create : (request key : Value) → Option (Call WorkspaceBinding WorkspaceBinding)
create request key = do
  (expected, prefixes) ← create_value request
  idempotency_key ← text_value is_idempotency_key key
  some (record {
    key = workspace_bindings_create;
    input = record no_input {
      body = some (binding_json expected prefixes);
      idempotency_key = some idempotency_key;
    };
    settle = λ binding. given (has_identity binding expected) binding;
    status = 200;
  })

unfoldable pub identity_value : Value → Option Identity
identity_value value = do
  source ←
      exactly
        ("workspaceId" ∷ "projectId" ∷ "localInstanceId" ∷ "machineId" ∷ "exclusionPolicyDigest"
          ∷ [])
        value
  identity_of (read "workspaceId" source) (read "projectId" source) (read "localInstanceId" source)
      (read "machineId" source) (read "exclusionPolicyDigest" source)

unfoldable pub get : (binding_id identity : Value) → Option (Call WorkspaceBinding WorkspaceBinding)
get binding_id identity = do
  id ← text_value is_uuid binding_id
  expected ← identity_value identity
  some (record {
    key = workspace_bindings_get;
    input = record no_input {
      binding_id = some id;
      query = some (
          (lit "workspace_id", expected.workspace_id)
          ∷ (lit "project_id", expected.project_id)
          ∷ (lit "local_instance_id", expected.local_instance_id)
          ∷ (lit "machine_id", expected.machine_id)
          ∷ (lit "exclusion_policy_digest", expected.exclusion_policy_digest)
          ∷ []);
    };
    settle = λ binding. given (same binding.binding_id id && has_identity binding expected) binding;
    status = 200;
  })
