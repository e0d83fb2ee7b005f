-- ===== src/Requests/Bindings/Answered.antt =====
-- What a method of the bindings manager returns.
use cuna_lib_ts.Base.{◌≡◌, refl, true, some, List, Text, same→eq, arith}
use cuna_lib_ts.Errors.{ok}
use cuna_lib_ts.Domain.Chains.{>>=-some, some_injective}
use cuna_lib_ts.Domain.Bindings.{WorkspaceBinding}
use cuna_lib_ts.Requests.Value.{Value}
use cuna_lib_ts.Requests.Call.{Port, perform}
use cuna_lib_ts.Requests.Call.Laws.{perform-ok, given-settled}
use cuna_lib_ts.Requests.Bindings.{
  Identity, identity_value, create_value, has_identity, create, get,
}

-- A binding of the workspace, the project, the instance, the machine and the policy of an identity.
pub record Identified (b : WorkspaceBinding) (i : Identity) : Type 0 where
  pub workspace : b.workspace_id ≡ i.workspace_id
  pub project : b.project_id ≡ i.project_id
  pub instance_there : b.local_instance_id ≡ i.local_instance_id
  pub machine : b.machine_id ≡ i.machine_id
  pub policy : b.exclusion_policy_digest ≡ i.exclusion_policy_digest

has_identity-Identified :
    (b : WorkspaceBinding) (i : Identity) → has_identity b i ≡ true → Identified b i
unfolding has_identity
has_identity-Identified b i h = record {
  workspace = same→eq _ _ (ground arith);
  project = same→eq _ _ (ground arith);
  instance_there = same→eq _ _ (ground arith);
  machine = same→eq _ _ (ground arith);
  policy = same→eq _ _ (ground arith);
}

-- A binding that `create` returns is of exactly the identity that the caller gave, whatever the service
-- sent.
pub create-Identified :
    {P : Type 0} (port : Port P WorkspaceBinding) (request key : Value) {b : WorkspaceBinding}
    → perform port (create request key) ≡ ok b
    → (i : Identity) × (prefixes : List Text) × (create_value request ≡ some (i, prefixes))
      × Identified b i
unfolding create
create-Identified port request key h =
    let (c, answer, made, _, settled) = perform-ok port _ h in
    let ((i, prefixes), v, h1) = >>=-some made in
    let (_, _, h2) = >>=-some h1 in
    let (t, q) = given-settled (some_injective h2) settled refl in
    (i, prefixes, v, rw q (has_identity-Identified answer i t))

-- So is one that `get` returns.
pub get-Identified :
    {P : Type 0} (port : Port P WorkspaceBinding) (binding_id identity : Value)
    {b : WorkspaceBinding}
    → perform port (get binding_id identity) ≡ ok b
    → (i : Identity) × (identity_value identity ≡ some i) × Identified b i
unfolding get
get-Identified port binding_id identity h =
    let (c, answer, made, _, settled) = perform-ok port _ h in
    let (_, _, h1) = >>=-some made in
    let (i, v, h2) = >>=-some h1 in
    let (t, q) = given-settled (some_injective h2) settled refl in
    (i, v, rw q (has_identity-Identified answer i (ground arith)))
