-- ===== src/Domain/Terminal.antt =====
-- `decodeTerminalConnectionGrant` of src/domain.ts.
pub mod Bound
use cuna_lib_ts.Base.{
  none, some, List, [], ◌∷◌, false, Text, ℕ, Option, String, ◌++◌, Bool, all, any, lit, take, ◌&&◌,
  same, ◌||◌, length, ◌==◌, drop, not, is_some, map,
}
use cuna_lib_ts.Domain.Read.{
  ◌>>=◌, ◌>>◌, check, closed, enum_value, uuid, string_of, items_of, count_items, map_items,
}
use cuna_lib_ts.Wire.{branded_api_origins, branded_credential_prefixes, brand_name, wire_brands}
use cuna_lib_ts.Domain.Dates.{DateParse, date_time}
use cuna_lib_ts.Json.{Json}
use cuna_lib_ts.Domain.Grammar.{between, is_uuid, after_prefix, around}
use cuna_lib_ts.Domain.Agents.Auth.{required}
use cuna_lib_ts.Domain.Sync.Entries.{distinct, all_included}

-- `[A-Za-z0-9_-]`
is_token_unit : ℕ → Bool
is_token_unit c =
    between 0x41 0x5a c || between 0x61 0x7a c || between 0x30 0x39 c || (c == 0x5f || c == 0x2d)

token_body : Option Text → Bool
unfolding is_token_unit
token_body none = false
token_body (some s) = all is_token_unit s && length s == 43

-- `TERMINAL_CONNECTION_TOKEN`
unfoldable pub is_connect_token : Text → Bool
unfolding token_body
is_connect_token s =
    any (λ prefix. token_body (after_prefix prefix s)) (branded_credential_prefixes (lit "tc"))

abbrev pub stream_url : (id origin : Text) → Text
stream_url id origin = origin ++ (lit "/v1/terminal-connections/" ++ (id ++ lit "/stream"))

stream_of : Option Text → Bool
stream_of none = false
stream_of (some s) = is_uuid (take 36 s) && same (drop 36 s) (lit "/stream")

-- `TERMINAL_CONNECTION_URL`
unfoldable pub is_connect_url : Text → Bool
unfolding stream_of
is_connect_url s =
    any (λ origin. stream_of (after_prefix (origin ++ lit "/v1/terminal-connections/") s))
      (branded_api_origins (lit "wss"))

-- `expectedConnectUrls.has`
unfoldable pub is_expected_url : (id url : Text) → Bool
is_expected_url id url =
    any (λ origin. same url (stream_url id origin)) (branded_api_origins (lit "wss"))

-- `TERMINAL_PROTOCOLS`
unfoldable pub is_stream_protocol : Text → Bool
is_stream_protocol s = any (λ brand. same s (brand_name brand ++ lit ".terminal.v1")) wire_brands

abbrev pub terminal_names : List String
terminal_names = "acknowledgement" ∷ "heartbeat" ∷ "live_resize" ∷ "resume" ∷ "signals" ∷ []

-- `TerminalConnectionCapability`
pub record TerminalCapability : Type 0 where
  pub name : Text
  pub availability : Text

unfoldable pub terminal_capability : Json → Option TerminalCapability
terminal_capability value = do
  source ← closed ("name" ∷ "availability" ∷ []) [] value
  name ← required "name" (enum_value terminal_names) source
  availability ←
      required "availability" (enum_value ("supported" ∷ "unsupported" ∷ "unknown" ∷ [])) source
  some (record { name = name; availability = availability })

-- `TerminalConnectionGrant`
pub record TerminalGrant : Type 0 where
  pub terminal_session_id : Text
  pub resume_handle : Text
  pub connect_url : Text
  pub connect_token : Text
  pub protocol : Text
  pub capabilities : List TerminalCapability
  pub expires_at : Text

unfoldable pub decode_terminal_connection_grant : DateParse → Json → Option TerminalGrant
decode_terminal_connection_grant date_parse value = do
  source ←
      closed
        ("terminal_session_id" ∷ "resume_handle" ∷ "connect_url" ∷ "connect_token" ∷ "protocol"
          ∷ "capabilities" ∷ "expires_at" ∷ [])
        [] value
  terminal_session_id ← required "terminal_session_id" uuid source
  connect_url ← required "connect_url" string_of source
  connect_token ← required "connect_token" string_of source
  protocol ← required "protocol" string_of source
  check (is_stream_protocol protocol)
  check (is_connect_url connect_url && is_expected_url terminal_session_id connect_url)
  check (is_connect_token connect_token && not (is_some (around connect_token connect_url)))
  items ← required "capabilities" items_of source
  check (count_items items == 5)
  capabilities ← map_items terminal_capability items
  check (
      distinct (map (λ c. c.name) capabilities) == 5
      && all_included terminal_names (map (λ c. c.name) capabilities))
  resume_handle ← required "resume_handle" uuid source
  expires_at ← required "expires_at" (date_time date_parse) source
  some (record {
    terminal_session_id = terminal_session_id;
    resume_handle = resume_handle;
    connect_url = connect_url;
    connect_token = connect_token;
    protocol = protocol;
    capabilities = capabilities;
    expires_at = expires_at;
  })
