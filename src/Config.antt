-- ===== src/Config.antt =====
-- How a client finds its configuration: src/config.ts.
pub mod Precedence
pub mod Accepted
mod Tests
use cuna_lib_ts.Base.{
  ltb, Bool, true, false, ◌&&◌, ◌||◌, not, if◌then◌else◌, Option, none, some, List, [], ◌∷◌, ◌++◌,
  Text, String, lit, same, any, is_some, length, trim,
}
use cuna_lib_ts.Json.{Json, Fields, end, field}
use cuna_lib_ts.Wire.{
  cuna, branded_api_origin, branded_api_origins, branded_env_names, branded_credential_prefixes,
}
use cuna_lib_ts.Domain.Grammar.{one_of, after_prefix}
use cuna_lib_ts.Domain.Read.{◌>>=◌, ◌>>◌, check, get}
use cuna_lib_ts.Requests.Value.{Value, Members, last, plain_object, read}

-- The parts of a `URL` that the code looks at.
pub record Url : Type 0 where
  pub protocol : Text
  pub hostname : Text
  pub username : Text
  pub password : Text
  pub pathname : Text
  pub search : Text
  pub hash : Text
  pub origin : Text

-- What the module takes from the platform: `process.env`, the JSON value of a regular file at a path, if
-- there is one in UTF-8, and `new URL`.
pub record Surroundings : Type 0 where
  pub env : Text → Option Text
  pub read_json : Text → Option Json
  pub parse_url : Text → Option Url

-- `apiKeySource` and `baseUrlSource`
pub data Source : Type 0 where
  from_constructor from_environment from_file from_default : Source

pub record ConfigFile : Type 0 where
  pub api_key : Option Text
  pub base_url : Option Text

pub record EffectiveConfig : Type 0 where
  pub api_key : Text
  pub base_url : Text
  pub has_fetch : Bool
  pub has_diagnostics : Bool
  pub has_tracing : Bool
  pub api_key_source : Source
  pub base_url_source : Source

-- A warning: the variable that was chosen, and those that it shadows.
pub record Disclosure : Type 0 where
  pub chosen : Text
  pub shadowed : List Text

-- `ACCEPTED_BASE_URLS` and `DEFAULT_BASE_URL`
abbrev pub accepted_base_urls : List Text
accepted_base_urls = branded_api_origins (lit "https")

unfoldable pub default_base_url : Text
default_base_url = branded_api_origin (lit "https") cuna

-- A property of the file, which is a string if it is there.
abbrev string_or_none : Option Json → Option (Option Text)
string_or_none none = some none
string_or_none (some (Json.string s)) = some (some s)
string_or_none (some _) = none

file_keys : Fields → Bool
unfolding one_of
file_keys end = true
file_keys (field name value fields) = one_of ("api_key" ∷ "base_url" ∷ []) name && file_keys fields

file_of : Json → Option ConfigFile
unfolding file_keys
file_of (Json.object fields) = do
  check (file_keys fields)
  api_key ← string_or_none (get "api_key" fields)
  base_url ← string_or_none (get "base_url" fields)
  some (record { api_key = api_key; base_url = base_url })
file_of _ = none

-- `readConfigFile`
unfoldable pub read_config_file : Surroundings → Text → Option ConfigFile
unfolding file_of
read_config_file world [] = none
read_config_file world path = world.read_json path >>= file_of

-- The use of `configFile` at the head of `resolveConfig`.
unfoldable pub config_file : Surroundings → Value → Option ConfigFile
unfolding read_config_file
config_file world Value.undefined = some (record { api_key = none; base_url = none })
config_file world Value.null = some (record { api_key = none; base_url = none })
config_file world (Value.string path) = read_config_file world path
config_file world _ = none

-- The names that are set to another value than the chosen one.
shadowed_by : Surroundings → Text → List Text → List Text
shadowed_by world value [] = []
shadowed_by world value (name ∷ names) =
    let rest = shadowed_by world value names in
    elim (world.env name) [
      | none ↦ rest
      | some other ↦ if same other value then rest else name ∷ rest
    ]

-- `selectBrandedEnv`, with its warning.
pub record Selected : Type 0 where
  pub name : Text
  pub value : Text
  pub shadowed : List Text

-- A name whose variable is set is selected unless one before it was.
unfoldable pub select_name :
    Surroundings → Text → List Text → Option Selected → Option Text → Option Selected
unfolding shadowed_by
select_name world name names rest none = rest
select_name world name names rest (some value) =
    some (record { name = name; value = value; shadowed = shadowed_by world value names })

unfoldable pub select_branded_env : Surroundings → List Text → Option Selected
unfolding select_name
select_branded_env world [] = none
select_branded_env world (name ∷ names) =
    select_name world name names (select_branded_env world names) (world.env name)

-- `discloseShadowedEnv`, which is called if a name is shadowed.
unfoldable pub disclosures : Option Selected → List Disclosure
disclosures none = []
disclosures (some s) = elim s.shadowed [
  | [] ↦ []
  | other ∷ others ↦ record { chosen = s.name; shadowed = other ∷ others } ∷ []
]

-- `validApiKey`
unfoldable pub valid_api_key : Value → Option Text
valid_api_key (Value.string s) = do
  check (
      ltb 0 (length (trim s))
      && any (λ prefix. is_some (after_prefix prefix s)) (branded_credential_prefixes (lit "sk")))
  some s
valid_api_key _ = none

abbrev is_empty : Text → Bool
is_empty [] = true
is_empty (c ∷ s) = false

-- The test on a parsed address.
unfoldable pub is_accepted_url : Url → Bool
is_accepted_url url =
    same url.protocol (lit "https:")
    && not (is_empty url.hostname)
    && (is_empty url.username && is_empty url.password)
    && (is_empty url.pathname || same url.pathname (lit "/"))
    && (is_empty url.search && is_empty url.hash)
    && any (same url.origin) accepted_base_urls

-- `normalizeBaseUrl`
unfoldable pub normalize_base_url : Surroundings → Value → Option Text
normalize_base_url world (Value.string s) = do
  check (any (λ origin. same s origin || same s (origin ++ lit "/")) accepted_base_urls)
  url ← world.parse_url s
  check (is_accepted_url url)
  some url.origin
normalize_base_url world _ = none

-- The branches of `resolveConfig` that choose a value: the one of the constructor unless it is
-- undefined, that of the environment, that of the file, or the last resort if there is one.
unfoldable pub chosen :
    Value → Option Selected → Option Text → Option Text → Option (Value × Source)
chosen Value.undefined (some s) file resort = some (Value.string s.value, from_environment)
chosen Value.undefined none (some text) resort = some (Value.string text, from_file)
chosen Value.undefined none none (some text) = some (Value.string text, from_default)
chosen Value.undefined none none none = none
chosen value selected file resort = some (value, from_constructor)

abbrev asked : Surroundings → Value → Text → Option Selected
asked world Value.undefined suffix = select_branded_env world (branded_env_names suffix)
asked world value suffix = none

-- `fetch`, `diagnostics` and `tracing`: whether each is given, if it is what it has to be.
unfoldable pub callable : Value → Option Bool
callable Value.undefined = some false
callable Value.function = some true
callable _ = none

unfoldable pub with_method : String → Value → Option Bool
unfolding callable
with_method name Value.undefined = some false
with_method name (Value.object members) = do
  there ← callable (read name members)
  check there
  some true
with_method name _ = none

-- What `resolveConfig` comes to: its warnings, and the configuration unless a `ConfigError` is thrown.
pub record Resolution : Type 0 where
  pub disclosed : List Disclosure
  pub config : Option EffectiveConfig

-- The argument, which is an empty object by default.
unfoldable pub config_members : Value → Option Members
config_members Value.undefined = some last
config_members value = plain_object value

unfoldable pub resolve_key : Surroundings → Members → ConfigFile → Option (Text × Source)
resolve_key world unsafe file = do
  let value = read "apiKey" unsafe
  (raw, source) ← chosen value (asked world value (lit "API_KEY")) file.api_key none
  api_key ← valid_api_key raw
  some (api_key, source)

unfoldable pub resolve_url : Surroundings → Members → ConfigFile → Option (Text × Source)
resolve_url world unsafe file = do
  let value = read "baseUrl" unsafe
  (raw, source) ←
      chosen value (asked world value (lit "BASE_URL")) file.base_url (some default_base_url)
  base_url ← normalize_base_url world raw
  some (base_url, source)

-- From the valid key on.
unfoldable pub resolve_rest :
    Surroundings → Members → ConfigFile → Text × Source → Option EffectiveConfig
resolve_rest world unsafe file (api_key, key_source) = do
  (base_url, url_source) ← resolve_url world unsafe file
  has_fetch ← callable (read "fetch" unsafe)
  has_diagnostics ← with_method "emit" (read "diagnostics" unsafe)
  has_tracing ← with_method "startSpan" (read "tracing" unsafe)
  some (record {
    api_key = api_key;
    base_url = base_url;
    has_fetch = has_fetch;
    has_diagnostics = has_diagnostics;
    has_tracing = has_tracing;
    api_key_source = key_source;
    base_url_source = url_source;
  })

abbrev warnings : Surroundings → Members → String → String → List Disclosure
warnings world unsafe property suffix =
    disclosures (asked world (read property unsafe) (lit suffix))

abbrev pub resolve_with : Surroundings → Members → ConfigFile → Option (Text × Source) → Resolution
resolve_with world unsafe file none = record {
  disclosed = warnings world unsafe "apiKey" "API_KEY";
  config = none;
}
resolve_with world unsafe file (some key) = record {
  disclosed =
      warnings world unsafe "apiKey" "API_KEY" ++ warnings world unsafe "baseUrl" "BASE_URL";
  config = resolve_rest world unsafe file key;
}

abbrev pub refused : Resolution
refused = record { disclosed = []; config = none }

unfoldable pub resolve_members : Surroundings → Members → Resolution
resolve_members world unsafe = elim (config_file world (read "configFile" unsafe)) [
  | none ↦ refused
  | some file ↦ resolve_with world unsafe file (resolve_key world unsafe file)
]

unfoldable pub resolve_config : Surroundings → Value → Resolution
resolve_config world config = elim (config_members config) [
  | none ↦ refused
  | some unsafe ↦ resolve_members world unsafe
]
