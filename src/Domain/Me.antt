-- ===== src/Domain/Me.antt =====
-- `decodeMe` of src/domain.ts.
use cuna_lib_ts.Base.{none, some, [], ◌∷◌, true, false, Text, Bool, ℕ, Option, if◌then◌else◌}
use cuna_lib_ts.Domain.Read.{◌>>=◌, closed, uuid, object_of, string_of, get, boolean_of}
use cuna_lib_ts.Json.{Json, Number}
use cuna_lib_ts.Domain.Agents.Auth.{required}
use cuna_lib_ts.Domain.Sessions.{natural_of}

pub data Workspace : Type 0 where
  assigned : (id : Text) → (spend remaining : Number) → (note : Text) → Workspace
  waiting : ℕ → Workspace

-- `Me`
pub record Me : Type 0 where
  pub id : Text
  pub email : Text
  pub workspace : Workspace

-- `number`, of which `Number.isFinite` is given.
abbrev finite : (Number → Bool) → Json → Option Number
finite is_finite (Json.number n) = if is_finite n then some n else none
finite is_finite _ = none

-- The last two branches of the decoder.
unfoldable pub workspace_of : (is_finite : Number → Bool) → Json → Bool → Option Workspace
workspace_of is_finite value true = do
  source ← closed ("assigned" ∷ "id" ∷ "usage" ∷ []) [] value
  usage ← required "usage" object_of source
  id ← required "id" uuid source
  spend ← required "est_spend_usd" (finite is_finite) usage
  remaining ← required "est_remaining_usd" (finite is_finite) usage
  note ← required "note" string_of usage
  some (assigned id spend remaining note)
workspace_of is_finite value false = do
  source ← closed ("assigned" ∷ "waitlist_position" ∷ []) [] value
  position ← required "waitlist_position" natural_of source
  some (waiting position)

unfoldable pub decode_me : (is_finite : Number → Bool) → Json → Option Me
decode_me is_finite value = do
  source ← closed ("id" ∷ "email" ∷ "workspace" ∷ []) [] value
  id ← required "id" uuid source
  email ← required "email" string_of source
  workspace_value ← get "workspace" source
  members ← object_of workspace_value
  is_assigned ← required "assigned" boolean_of members
  workspace ← workspace_of is_finite workspace_value is_assigned
  some (record { id = id; email = email; workspace = workspace })
