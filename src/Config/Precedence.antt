-- ===== src/Config/Precedence.antt =====
-- Which of the sources a configuration comes from, and what it may be.
use cuna_lib_ts.Base.{
  ◌≡◌, refl, sym, ap, ◌∙◌, Option, none, some, List, [], ◌∷◌, ◌++◌, Text, lit, Option-cases, inl,
  inr, arith,
}
use cuna_lib_ts.Wire.{branded_env_names}
use cuna_lib_ts.Domain.Chains.{>>=-some, >>-some, some_injective}
use cuna_lib_ts.Requests.Value.{Value, Members, read}
use cuna_lib_ts.Config.{
  Surroundings, Source, from_constructor, from_environment, from_file, from_default, ConfigFile,
  EffectiveConfig, Selected, default_base_url, config_file, config_members, select_branded_env,
  select_name, chosen, asked, valid_api_key, normalize_base_url, resolve_key, resolve_url,
  resolve_rest, resolve_with, resolve_members, resolve_config,
}

-- The values that a setting has, from the one that goes before all others on: that of the constructor,
-- those of the variables of the environment in the order of the brands, that of the file, and the last
-- resort.
abbrev given_value : Value → List (Value × Source)
given_value Value.undefined = []
given_value value = (value, from_constructor) ∷ []

abbrev as_text : Source → Option Text → List (Value × Source)
as_text source none = []
as_text source (some s) = (Value.string s, source) ∷ []

from_variables : Surroundings → List Text → List (Value × Source)
from_variables world [] = []
from_variables world (name ∷ names) =
    as_text from_environment (world.env name) ++ from_variables world names

unfoldable pub candidates :
    Surroundings → Value → List Text → Option Text → Option Text → List (Value × Source)
unfolding from_variables
candidates world value names file resort =
    given_value value
    ++ (from_variables world names ++ (as_text from_file file ++ as_text from_default resort))

abbrev pub head : {A : Type 0} → List A → Option A
head [] = none
head (x ∷ xs) = some x

abbrev variable : Option Selected → List (Value × Source) → Option (Value × Source)
variable none rest = head rest
variable (some s) rest = some (Value.string s.value, from_environment)

head-variable :
    (world : Surroundings) (name : Text) (names : List Text) (rest : List (Value × Source))
    → head (from_variables world names ++ rest) ≡ variable (select_branded_env world names) rest
    → (o : Option Text)
    → head ((as_text from_environment o ++ from_variables world names) ++ rest)
      ≡ variable (select_name world name names (select_branded_env world names) o) rest
unfolding select_name
head-variable world name names rest h none = h
head-variable world name names rest h (some value) = refl

head-variables :
    (world : Surroundings) (names : List Text) (rest : List (Value × Source))
    → head (from_variables world names ++ rest) ≡ variable (select_branded_env world names) rest
unfolding from_variables select_branded_env
head-variables world [] rest = refl
head-variables world (name ∷ names) rest =
    head-variable world name names rest (head-variables world names rest) (world.env name)

chosen-variable :
    (s : Option Selected) (file resort : Option Text)
    → chosen Value.undefined s file resort
      ≡ variable s (as_text from_file file ++ as_text from_default resort)
unfolding chosen
chosen-variable (some s) file resort = refl
chosen-variable none (some f) resort = refl
chosen-variable none none (some r) = refl
chosen-variable none none none = refl

chosen-head :
    (world : Surroundings) (value : Value) (suffix : Text) (file resort : Option Text)
    → chosen value (asked world value suffix) file resort
      ≡ head (candidates world value (branded_env_names suffix) file resort)
unfolding candidates chosen
chosen-head world Value.undefined suffix file resort =
    chosen-variable (select_branded_env world (branded_env_names suffix)) file resort
    ∙ sym (
        head-variables world (branded_env_names suffix)
          (as_text from_file file ++ as_text from_default resort))
chosen-head world _ suffix file resort = refl

valid_api_key-string :
    (value : Value) {s : Text} → valid_api_key value ≡ some s → value ≡ Value.string s
unfolding valid_api_key
valid_api_key-string (Value.string s) h =
    let (_, e) = >>-some h in ap Value.string (sym (some_injective e))
valid_api_key-string _ h = cc

normalize_base_url-string :
    (world : Surroundings) (value : Value) {s : Text}
    → normalize_base_url world value ≡ some s
    → (raw : Text) × (value ≡ Value.string raw)
unfolding normalize_base_url
normalize_base_url-string world (Value.string raw) h = (raw, refl)
normalize_base_url-string world _ h = cc

-- A setting is the first of its candidates.
pub record Foremost (world : Surroundings) (unsafe : Members) (file : ConfigFile)
    (cfg : EffectiveConfig) : Type 0 where
  pub key_first :
      head (
        candidates world
          (read "apiKey" unsafe)
          (branded_env_names (lit "API_KEY"))
          file.api_key
          none)
      ≡ some (Value.string cfg.api_key, cfg.api_key_source)
  pub key_valid : valid_api_key (Value.string cfg.api_key) ≡ some cfg.api_key
  pub raw : Text
  pub url_first :
      head (
        candidates world
          (read "baseUrl" unsafe)
          (branded_env_names (lit "BASE_URL"))
          file.base_url
          (some default_base_url))
      ≡ some (Value.string raw, cfg.base_url_source)
  pub url_normal : normalize_base_url world (Value.string raw) ≡ some cfg.base_url

resolve_key-first :
    (world : Surroundings) (unsafe : Members) (file : ConfigFile) {key : Text} {source : Source}
    → resolve_key world unsafe file ≡ some (key, source)
    → (head (
          candidates world
            (read "apiKey" unsafe)
            (branded_env_names (lit "API_KEY"))
            file.api_key
            none)
        ≡ some (Value.string key, source))
      × (valid_api_key (Value.string key) ≡ some key)
unfolding resolve_key
resolve_key-first world unsafe file {key} {source} h =
    let ((value, from), c, h1) = >>=-some h in
    let (s, v, h2) = >>=-some h1 in
    let e = valid_api_key-string value v in
    let p : s ≡ key = cc in
    let q : from ≡ source = cc in
    let r : ◌≡◌ {A = Option (Value × Source)} (some (value, from))
        (some (Value.string key, source)) =
      cc in
    let n : valid_api_key (Value.string key) ≡ some key = cc in
    (sym (chosen-head world (read "apiKey" unsafe) (lit "API_KEY") file.api_key none) ∙ (c ∙ r), n)

resolve_url-first :
    (world : Surroundings) (unsafe : Members) (file : ConfigFile) {url : Text} {source : Source}
    → resolve_url world unsafe file ≡ some (url, source)
    → (raw : Text) × (head (
          candidates world
            (read "baseUrl" unsafe)
            (branded_env_names (lit "BASE_URL"))
            file.base_url
            (some default_base_url))
        ≡ some (Value.string raw, source))
      × (normalize_base_url world (Value.string raw) ≡ some url)
unfolding resolve_url
resolve_url-first world unsafe file {url} {source} h =
    let ((value, from), c, h1) = >>=-some h in
    let (s, v, h2) = >>=-some h1 in
    let (raw, e) = normalize_base_url-string world value v in
    let p : s ≡ url = cc in
    let q : from ≡ source = cc in
    let r : ◌≡◌ {A = Option (Value × Source)} (some (value, from))
        (some (Value.string raw, source)) =
      cc in
    let n : normalize_base_url world (Value.string raw) ≡ some url = cc in
    (
      raw,
      sym (
            chosen-head world (read "baseUrl" unsafe) (lit "BASE_URL") file.base_url
              (some default_base_url))
          ∙ (c ∙ r),
      n,
    )

resolve_rest-Foremost :
    (world : Surroundings) (unsafe : Members) (file : ConfigFile) (key : Text) (source : Source)
    {cfg : EffectiveConfig}
    → resolve_key world unsafe file ≡ some (key, source)
    → resolve_rest world unsafe file (key, source) ≡ some cfg
    → Foremost world unsafe file cfg
unfolding resolve_rest
resolve_rest-Foremost world unsafe file key source k h =
    let ((url, from), u, h1) = >>=-some h in
    let (_, _, h2) = >>=-some h1 in
    let (_, _, h3) = >>=-some h2 in
    let (_, _, h4) = >>=-some h3 in
    let (key_first, valid) = resolve_key-first world unsafe file k in
    let (raw, first, normal) = resolve_url-first world unsafe file u in
    rw (some_injective h4) (record {
      key_first = key_first;
      key_valid = valid;
      raw = raw;
      url_first = first;
      url_normal = normal;
    })

resolve_with-config :
    (world : Surroundings) (unsafe : Members) (file : ConfigFile) (o : Option (Text × Source))
    {cfg : EffectiveConfig}
    → (resolve_with world unsafe file o).config ≡ some cfg
    → (key : Text) × (source : Source) × (o ≡ some (key, source))
      × (resolve_rest world unsafe file (key, source) ≡ some cfg)
resolve_with-config world unsafe file none h = cc
resolve_with-config world unsafe file (some (key, source)) h = (key, source, refl, h)

resolve_members-Foremost :
    (world : Surroundings) (unsafe : Members) {cfg : EffectiveConfig}
    → (resolve_members world unsafe).config ≡ some cfg
    → (file : ConfigFile) × (config_file world (read "configFile" unsafe) ≡ some file)
      × Foremost world unsafe file cfg
unfolding resolve_members
resolve_members-Foremost world unsafe {cfg} h =
    elim (Option-cases (config_file world (read "configFile" unsafe))) [
      | inl e ↦ absurd (ground arith)
      | inr (file, e) ↦
          let g : (resolve_with world unsafe file (resolve_key world unsafe file)).config
              ≡ some cfg =
            ground arith in
          let (key, source, k, r) = resolve_with-config world unsafe file _ g in
          (file, e, resolve_rest-Foremost world unsafe file key source k r)
    ]

-- The API key of a configuration and the address that its base URL is made of are each the first of the
-- values that are given: by the constructor, by the variables of the environment in the order of the
-- brands, by the file, and for the address the default. So a value that is given is never passed over,
-- not even where it is not valid.
pub resolve_config-Foremost :
    (world : Surroundings) (config : Value) {cfg : EffectiveConfig}
    → (resolve_config world config).config ≡ some cfg
    → (unsafe : Members) × (config_members config ≡ some unsafe)
      × (file : ConfigFile) × (config_file world (read "configFile" unsafe) ≡ some file)
      × Foremost world unsafe file cfg
unfolding resolve_config
resolve_config-Foremost world config {cfg} h = elim (Option-cases (config_members config)) [
  | inl e ↦ absurd (ground arith)
  | inr (unsafe, e) ↦
      let g : (resolve_members world unsafe).config ≡ some cfg = ground arith in
      let (file, f, v) = resolve_members-Foremost world unsafe g in (unsafe, e, file, f, v)
]
