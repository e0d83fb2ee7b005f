-- ===== src/Wire.antt =====
-- The names that a brand has on the wire: src/internal/wire-namespaces.ts.
use cuna_lib_ts.Base.{List, [], ◌∷◌, ◌++◌, Text, lit, map}

-- `WireBrand`
pub data Brand : Type 0 where
  cuna : Brand
  runa : Brand

abbrev pub wire_brands : List Brand
wire_brands = cuna ∷ runa ∷ []

-- The spelling of a brand, and the one that `toUpperCase` makes of it.
unfoldable pub brand_name : Brand → Text
unfolding lit
brand_name cuna = lit "cuna"
brand_name runa = lit "runa"

unfoldable pub upper_name : Brand → Text
unfolding lit
upper_name cuna = lit "CUNA"
upper_name runa = lit "RUNA"

-- `brandedEnvNames`
abbrev pub branded_env_names : Text → List Text
branded_env_names suffix = map (λ brand. upper_name brand ++ (lit "_" ++ suffix)) wire_brands

-- `brandedCredentialPrefixes`
abbrev pub branded_credential_prefix : Text → Brand → Text
branded_credential_prefix family brand = brand_name brand ++ (lit "_" ++ (family ++ lit "_"))

abbrev pub branded_credential_prefixes : Text → List Text
branded_credential_prefixes family = map (branded_credential_prefix family) wire_brands

-- `API_HOSTS`
unfoldable pub api_host : Brand → Text
unfolding lit
api_host cuna = lit "api.getcuna.com"
api_host runa = lit "api.runacode.io"

abbrev pub branded_api_origin : Text → Brand → Text
branded_api_origin scheme brand = scheme ++ (lit "://" ++ api_host brand)

-- `brandedApiOrigins`
abbrev pub branded_api_origins : Text → List Text
branded_api_origins scheme = map (branded_api_origin scheme) wire_brands
