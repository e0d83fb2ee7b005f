-- ===== src/Config/Accepted.antt =====
-- What a configuration may hold.
use cuna_lib_ts.Base.{
  ◌≡◌, true, some, ◌++◌, Text, lit, same, same→eq, is_some, Option-cases, Bool-cases, inl, inr,
  arith,
}
use cuna_lib_ts.Wire.{Brand, cuna, runa, branded_api_origin, branded_credential_prefix}
use cuna_lib_ts.Domain.Grammar.{after_prefix}
use cuna_lib_ts.Domain.Grammar.Prefixes.{after_prefix-append}
use cuna_lib_ts.Domain.Chains.{>>=-some, >>-some, some_injective}
use cuna_lib_ts.Requests.Value.{Value}
use cuna_lib_ts.Config.{
  Surroundings, EffectiveConfig, Url, valid_api_key, normalize_base_url, is_accepted_url,
  resolve_config,
}
use cuna_lib_ts.Config.Precedence.{resolve_config-Foremost}

prefix_there :
    (prefix s : Text)
    → is_some (after_prefix prefix s) ≡ true
    → (rest : Text) × (s ≡ prefix ++ rest)
prefix_there prefix s h = elim (Option-cases (after_prefix prefix s)) [
  | inl e ↦ absurd (ground arith)
  | inr (rest, e) ↦ (rest, after_prefix-append prefix s e)
]

-- The opening of an API key that a brand has issued.
abbrev pub IsKey : Text → Type 0
IsKey key =
    (brand : Brand) × (rest : Text) × (key ≡ branded_credential_prefix (lit "sk") brand ++ rest)

issued :
    (brand : Brand) (s : Text)
    → is_some (after_prefix (branded_credential_prefix (lit "sk") brand) s) ≡ true
    → IsKey s
issued brand s h =
    let (rest, e) = prefix_there (branded_credential_prefix (lit "sk") brand) s h in
    (brand, rest, e)

valid_api_key-IsKey : (value : Value) {s : Text} → valid_api_key value ≡ some s → IsKey s
unfolding valid_api_key
valid_api_key-IsKey (Value.string s) h =
    let (t, e) = >>-some h in
    rw (some_injective e)
      (elim (Bool-cases (is_some (after_prefix (branded_credential_prefix (lit "sk") cuna) s))) [
        | inl c ↦ issued cuna s c
        | inr c ↦ issued runa s (ground arith)
      ])
valid_api_key-IsKey _ h = cc

-- The origin of a brand's API.
abbrev pub IsOrigin : Text → Type 0
IsOrigin url = (brand : Brand) × (url ≡ branded_api_origin (lit "https") brand)

accepted-IsOrigin : (url : Url) → is_accepted_url url ≡ true → IsOrigin url.origin
unfolding is_accepted_url
accepted-IsOrigin url h =
    elim (Bool-cases (same url.origin (branded_api_origin (lit "https") cuna))) [
      | inl c ↦ (cuna, same→eq _ _ c)
      | inr c ↦ (runa, same→eq _ _ (ground arith))
    ]

normalize_base_url-IsOrigin :
    (world : Surroundings) (value : Value) {s : Text}
    → normalize_base_url world value ≡ some s
    → IsOrigin s
unfolding normalize_base_url
normalize_base_url-IsOrigin world (Value.string raw) h =
    let (_, h1) = >>-some h in
    let (url, _, h2) = >>=-some h1 in
    let (t, h3) = >>-some h2 in rw (some_injective h3) (accepted-IsOrigin url t)
normalize_base_url-IsOrigin world _ h = cc

-- Every configuration holds a key that begins with the prefix of a brand's secret keys and, as its base
-- URL, the API origin of a brand, without a path, a query, a fragment or credentials.
pub resolve_config_accepted :
    (world : Surroundings) (config : Value) {cfg : EffectiveConfig}
    → (resolve_config world config).config ≡ some cfg
    → IsKey cfg.api_key × IsOrigin cfg.base_url
resolve_config_accepted world config h =
    let (_, _, _, _, v) = resolve_config-Foremost world config h in
    (
      valid_api_key-IsKey _ v.key_valid,
      normalize_base_url-IsOrigin world (Value.string v.raw) v.url_normal,
    )
