-- ===== src/Domain/Handoff.antt =====
-- `decodeOpen` of src/domain.ts. The guard against printing its result is left out.
use cuna_lib_ts.Base.{
  none, some, List, [], ◌∷◌, true, false, Bool, Option, Text, ℕ, ◌&&◌, not, same, map, leb, length,
  any, lit, all, ◌==◌, ◌++◌, ◌||◌,
}
use cuna_lib_ts.Domain.Read.{◌>>=◌, ◌>>◌, check, closed, string_of}
use cuna_lib_ts.Domain.Sessions.{is_slug, at_stop, zones}
use cuna_lib_ts.Domain.Grammar.{after_prefix}
use cuna_lib_ts.Json.{Json}
use cuna_lib_ts.Domain.Agents.Auth.{required}
use cuna_lib_ts.Wire.{brand_name, wire_brands}

-- What `new URL` makes of an address; of the parameters there are their number and the first one of the
-- name "t".
pub record OpenUrl : Type 0 where
  pub protocol : Text
  pub username : Text
  pub password : Text
  pub port : Text
  pub hash : Text
  pub pathname : Text
  pub parameters : ℕ
  pub t : Option Text

-- `brandedReservedPaths("auth")`
abbrev pub open_paths : List Text
open_paths = map (λ brand. lit "/__" ++ (brand_name brand ++ lit "/auth")) wire_brands

is_capability : Option Text → Bool
is_capability none = false
is_capability (some s) = leb 1 (length s) && all (λ c. not (c == 0x26 || c == 0x23)) s

is_located : Option (Text × Text) → Bool
unfolding is_slug is_capability
is_located none = false
is_located (some (label, rest)) =
    is_slug label
    && any
        (λ zone.
          any (λ path. is_capability (after_prefix (zone ++ (path ++ lit "?t=")) rest)) open_paths)
        zones

-- `OPEN_URL`
unfoldable pub is_open_url : Text → Bool
unfolding at_stop is_located
is_open_url s = is_located (after_prefix (lit "https://") s >>= at_stop)

abbrev is_blank : Text → Bool
is_blank [] = true
is_blank (c ∷ s) = false

abbrev has_text : Option Text → Bool
has_text none = false
has_text (some s) = not (is_blank s)

-- The test on the parsed address, negated.
unfoldable pub is_open : OpenUrl → Bool
is_open u =
    same u.protocol (lit "https:")
    && is_blank u.username
    && is_blank u.password
    && is_blank u.port
    && (is_blank u.hash && any (same u.pathname) open_paths && u.parameters == 1 && has_text u.t)

unfoldable pub decode_open : (parse_url : Text → Option OpenUrl) → Json → Option Text
decode_open parse_url value = do
  source ← closed ("url" ∷ []) [] value
  url ← required "url" string_of source
  check (is_open_url url)
  parsed ← parse_url url
  check (is_open parsed)
  some url
