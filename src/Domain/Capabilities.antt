-- ===== src/Domain/Capabilities.antt =====
-- `decodeCapabilitySnapshot` of src/domain.ts.
use cuna_lib_ts.Base.{
  some, List, [], ◌∷◌, true, false, Text, ℕ, Option, Bool, ◌&&◌, leb, not, if◌then◌else◌, all, ◌==◌,
  ltb, length,
}
use cuna_lib_ts.Domain.Read.{
  ◌>>=◌, ◌>>◌, check, closed, string_of, items_of, count_items, enum_value, map_items, sha256,
  optional_of, get, uuid,
}
use cuna_lib_ts.Domain.Dates.{DateParse, date_time}
use cuna_lib_ts.Json.{Json}
use cuna_lib_ts.Domain.Grammar.{is_word, is_code, between}
use cuna_lib_ts.Domain.Agents.Auth.{required}
use cuna_lib_ts.Domain.Sync.Entries.{distinct}

-- `[a-z][a-z0-9_]*` twice or more, with the separator between two of them. The first flag says that no
-- separator has come yet, the second that a part has begun.
parted : (separator : ℕ) → (missing begun : Bool) → Text → Bool
unfolding is_word
parted separator missing begun [] = begun && not missing
parted separator missing false (c ∷ s) = between 0x61 0x7a c && parted separator missing true s
parted separator missing true (c ∷ s) =
    let part = parted separator missing true s in
    let next = parted separator false false s in if c == separator then next else is_word c && part

-- `CAPABILITY_ID`
unfoldable pub is_capability_id : Text → Bool
unfolding parted
is_capability_id = parted 0x2e true false

-- `PERMISSION`
unfoldable pub is_permission : Text → Bool
unfolding parted
is_permission = parted 0x3a true false

-- `uniqueStrings`
unfoldable pub unique_strings : ℕ → (Text → Bool) → Json → Option (List Text)
unique_strings maximum pattern value = do
  values ← items_of value
  check (leb (count_items values) maximum)
  items ← map_items string_of values
  check (all pattern items && distinct items == length items)
  some items

-- `Capability`
pub record Capability : Type 0 where
  pub id : Text
  pub availability : Text
  pub surfaces : List Text
  pub interaction : Text
  pub mutation_class : Text
  pub required_permissions : List Text
  pub reason_code : Option Text

-- `CapabilitySnapshot`, whose schema version is "1.0".
pub record CapabilitySnapshot : Type 0 where
  pub subject_scope : Text
  pub subject_id : Option Text
  pub observed_at : Text
  pub expires_at : Text
  pub etag : Text
  pub capabilities : List Capability

code_value : Json → Option Text
code_value value = do s ← string_of value; check (is_code s); some s

unfoldable pub decode_capability : Json → Option Capability
unfolding code_value
decode_capability value = do
  source ←
      closed
        ("id" ∷ "availability" ∷ "surfaces" ∷ "interaction" ∷ "mutation_class"
          ∷ "required_permissions" ∷ [])
        ("reason_code" ∷ []) value
  id ← required "id" string_of source
  check (is_capability_id id)
  values ← required "surfaces" items_of source
  check (between 1 3 (count_items values))
  surfaces ← map_items (enum_value ("cli" ∷ "web" ∷ "sdk" ∷ [])) values
  check (distinct surfaces == length surfaces)
  reason_code ← optional_of code_value (get "reason_code" source)
  availability ←
      required "availability"
        (enum_value ("supported" ∷ "unsupported" ∷ "temporarily_unavailable" ∷ "unknown" ∷ []))
        source
  interaction ←
      required "interaction" (enum_value ("native" ∷ "read_only" ∷ "browser_handoff" ∷ [])) source
  mutation_class ←
      required "mutation_class"
        (enum_value ("none" ∷ "reversible" ∷ "destructive" ∷ "secret_revealing" ∷ "financial" ∷ []))
        source
  required_permissions ← required "required_permissions" (unique_strings 16 is_permission) source
  some (record {
    id = id;
    availability = availability;
    surfaces = surfaces;
    interaction = interaction;
    mutation_class = mutation_class;
    required_permissions = required_permissions;
    reason_code = reason_code;
  })

unfoldable pub decode_capability_snapshot : DateParse → Json → Option CapabilitySnapshot
decode_capability_snapshot date_parse value = do
  source ←
      closed
        ("schema_version" ∷ "subject_scope" ∷ "observed_at" ∷ "expires_at" ∷ "etag" ∷ "capabilities"
          ∷ [])
        ("subject_id" ∷ []) value
  _ ← required "schema_version" (enum_value ("1.0" ∷ [])) source
  subject_scope ←
      required "subject_scope" (enum_value ("account" ∷ "machine" ∷ "agent_session" ∷ [])) source
  observed_at ← required "observed_at" (date_time date_parse) source
  expires_at ← required "expires_at" (date_time date_parse) source
  observed_ms ← date_parse observed_at
  expires_ms ← date_parse expires_at
  check (ltb observed_ms expires_ms)
  etag ← required "etag" sha256 source
  values ← required "capabilities" items_of source
  check (leb (count_items values) 128)
  subject_id ← optional_of uuid (get "subject_id" source)
  capabilities ← map_items decode_capability values
  some (record {
    subject_scope = subject_scope;
    subject_id = subject_id;
    observed_at = observed_at;
    expires_at = expires_at;
    etag = etag;
    capabilities = capabilities;
  })
