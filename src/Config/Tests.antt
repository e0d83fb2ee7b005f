-- ===== src/Config/Tests.antt =====
-- A configuration, and the theorems at it.
use cuna_lib_ts.Base.{
  ◌≡◌, refl, true, false, some, none, [], ◌∷◌, Option, Text, lit, same, trim, if◌then◌else◌,
}
use cuna_lib_ts.Wire.{api_host, brand_name, upper_name}
use cuna_lib_ts.Domain.Grammar.{after_prefix}
use cuna_lib_ts.Domain.Read.{◌>>=◌, ◌>>◌, check}
use cuna_lib_ts.Requests.Value.{Value, Members, last, member, read}
use cuna_lib_ts.Config.{
  Surroundings, Url, EffectiveConfig, ConfigFile, from_environment, from_default, default_base_url,
  config_file, config_members, select_branded_env, disclosures, chosen, valid_api_key,
  is_accepted_url, normalize_base_url, callable, with_method, resolve_key, resolve_url,
  resolve_rest, resolve_members, resolve_config,
}
use cuna_lib_ts.Config.Precedence.{Foremost, resolve_config-Foremost}
use cuna_lib_ts.Config.Accepted.{IsKey, IsOrigin, resolve_config_accepted}

abbrev api_url : Url
api_url = record {
  protocol = lit "https:";
  hostname = lit "api.getcuna.com";
  username = [];
  password = [];
  pathname = lit "/";
  search = [];
  hash = [];
  origin = lit "https://api.getcuna.com";
}

-- Both variables of the key are set, and no other.
abbrev environment : Text → Option Text
environment name =
    if same name (lit "CUNA_API_KEY")
    then some (lit "cuna_sk_1")
    else if same name (lit "RUNA_API_KEY")
    then some (lit "runa_sk_2")
    else none

abbrev world : Surroundings
world = record { env = environment; read_json = λ path. none; parse_url = λ s. some api_url }

abbrev effective : EffectiveConfig
effective = record {
  api_key = lit "cuna_sk_1";
  base_url = lit "https://api.getcuna.com";
  has_fetch = true;
  has_diagnostics = false;
  has_tracing = false;
  api_key_source = from_environment;
  base_url_source = from_default;
}

abbrev argument : Value
argument = Value.object (member (lit "fetch") Value.function last)

resolved : (resolve_config world argument).config ≡ some effective
unfolding resolve_config config_members resolve_members config_file resolve_key resolve_url
    resolve_rest default_base_url api_host brand_name upper_name select_branded_env chosen
    valid_api_key is_accepted_url normalize_base_url callable with_method trim after_prefix read
    same lit ◌>>=◌ ◌>>◌ check
resolved = refl

-- The other variable is named in a warning.
disclosed :
    (resolve_config world argument).disclosed
    ≡ record { chosen = lit "CUNA_API_KEY"; shadowed = lit "RUNA_API_KEY" ∷ [] } ∷ []
unfolding resolve_config config_members resolve_members config_file resolve_key default_base_url
    api_host brand_name upper_name select_branded_env disclosures chosen valid_api_key trim
    after_prefix read same lit ◌>>=◌ ◌>>◌ check
disclosed = refl

resolve_config-Foremost_example :
    (unsafe : Members) × (config_members argument ≡ some unsafe)
    × (file : ConfigFile) × (config_file world (read "configFile" unsafe) ≡ some file)
    × Foremost world unsafe file effective
resolve_config-Foremost_example = resolve_config-Foremost world argument resolved

resolve_config_accepted_example : IsKey effective.api_key × IsOrigin effective.base_url
resolve_config_accepted_example = resolve_config_accepted world argument resolved
