-- ===== src/Domain/Sessions.antt =====
-- `decodeSession`, `decodeSessions`, `decodeExec`, `decodeAcknowledgement` and `decodeRecords` of
-- src/domain.ts.
use cuna_lib_ts.Domain.Read.{◌>>=◌, ◌>>◌, check}
use cuna_lib_ts.Json.{Number, Json, whole, minus_suc}
use cuna_lib_ts.Base.{
  Text, Option, List, ℕ, none, Bool, map, ◌∷◌, false, ◌&&◌, some, ◌||◌, any, lit, if◌then◌else◌,
  leb, ◌++◌, length, ◌==◌, ltb, same, [],
}
use cuna_lib_ts.Domain.Dates.{DateParse, date_time}
use cuna_lib_ts.Wire.{brand_name, wire_brands}
use cuna_lib_ts.Domain.Grammar.{between, after_prefix}
use cuna_lib_ts.Domain.Read.{
  ◌>>=◌, string_of, max_safe, closed, items_of, map_items, boolean_of, enum_value, uuid, check, get,
  optional_of,
}
use cuna_lib_ts.Domain.Agents.Auth.{required}

is_label_unit : ℕ → Bool
is_label_unit c = between 0x61 0x7a c || between 0x30 0x39 c

-- Whether a text of such units and hyphens ends with such a unit.
ends_label : Text → Bool
unfolding is_label_unit
ends_label [] = false
ends_label (c ∷ []) = is_label_unit c
ends_label (c ∷ d ∷ s) = (is_label_unit c || c == 0x2d) && ends_label (d ∷ s)

starts_label : Text → Bool
unfolding is_label_unit
starts_label [] = false
starts_label (c ∷ s) = is_label_unit c

-- `SLUG`
unfoldable pub is_slug : Text → Bool
unfolding starts_label ends_label
is_slug s = starts_label s && ends_label s && leb (length s) 63

-- What stands before the first full stop and after it; a label has none.
unfoldable pub at_stop : Text → Option (Text × Text)
at_stop [] = none
at_stop (c ∷ s) =
    let rest = at_stop s in
    if c == 0x2e then some ([], s) else (do (before, after) ← rest; some (c ∷ before, after))

-- `ZONE_ALTERNATION` and what follows it in `brandedZonePattern()`
abbrev pub zones : List Text
zones = map (λ brand. brand_name brand ++ lit "code.cloud") wire_brands

is_zoned : Option (Text × Text) → Bool
unfolding is_slug
is_zoned none = false
is_zoned (some (label, zone)) = is_slug label && any (same zone) zones

-- `RUNTIME_URL`
unfoldable pub is_runtime_url : Text → Bool
unfolding at_stop is_zoned
is_runtime_url s = is_zoned (after_prefix (lit "https://") s >>= at_stop)

-- `SessionSnapshot`
pub record SessionSnapshot : Type 0 where
  pub id : Text
  pub user_id : Text
  pub slug : Text
  pub name : Text
  pub agent : Option Text
  pub vcpus : ℕ
  pub memory_mib : ℕ
  pub status : Text
  pub running_seconds : ℕ
  pub created_at : Text
  pub updated_at : Text
  pub url : Text

-- `integer`, for a bound that is zero.
abbrev pub natural_of : Json → Option ℕ
natural_of (Json.number (whole n)) = some n
natural_of _ = none

-- `integer`, for the bound that stands where none is given.
abbrev pub integer_of : Json → Option Number
integer_of (Json.number (whole n)) = some (whole n)
integer_of (Json.number (minus_suc n)) = if ltb n max_safe then some (minus_suc n) else none
integer_of _ = none

satisfying : (Text → Bool) → Json → Option Text
satisfying p value = do s ← string_of value; check (p s); some s

unfoldable pub decode_session : DateParse → Json → Option SessionSnapshot
unfolding satisfying
decode_session date_parse value = do
  source ←
      closed
        ("id" ∷ "user_id" ∷ "slug" ∷ "name" ∷ "vcpus" ∷ "memory_mib" ∷ "status" ∷ "running_seconds"
          ∷ "created_at" ∷ "updated_at" ∷ "url" ∷ [])
        ("agent" ∷ []) value
  slug ← required "slug" (satisfying is_slug) source
  status ←
      required "status"
        (enum_value
          ("creating" ∷ "running" ∷ "paused" ∷ "suspended" ∷ "stopped" ∷ "deleted" ∷ "error" ∷ []))
        source
  url ← required "url" (satisfying is_runtime_url) source
  agent ← optional_of (enum_value ("claude-code" ∷ "codex" ∷ "openclaw" ∷ [])) (get "agent" source)
  id ← required "id" uuid source
  user_id ← required "user_id" uuid source
  name ← required "name" string_of source
  vcpus ← required "vcpus" natural_of source
  memory_mib ← required "memory_mib" natural_of source
  running_seconds ← required "running_seconds" natural_of source
  created_at ← required "created_at" (date_time date_parse) source
  updated_at ← required "updated_at" (date_time date_parse) source
  some (record {
    id = id;
    user_id = user_id;
    slug = slug;
    name = name;
    agent = agent;
    vcpus = vcpus;
    memory_mib = memory_mib;
    status = status;
    running_seconds = running_seconds;
    created_at = created_at;
    updated_at = updated_at;
    url = url;
  })

unfoldable pub decode_sessions : DateParse → Json → Option (List SessionSnapshot)
decode_sessions date_parse value = do
  items ← items_of value
  map_items (decode_session date_parse) items

-- `ExecResult`
pub record ExecResult : Type 0 where
  pub exit_code : Number
  pub stdout : Text
  pub stderr : Text
  pub duration_ms : ℕ
  pub stdout_truncated : Bool
  pub stderr_truncated : Bool

unfoldable pub decode_exec : Json → Option ExecResult
decode_exec value = do
  source ←
      closed
        ("exit_code" ∷ "stdout" ∷ "stderr" ∷ "duration_ms" ∷ "stdout_truncated" ∷ "stderr_truncated"
          ∷ [])
        [] value
  stdout_truncated ← required "stdout_truncated" boolean_of source
  stderr_truncated ← required "stderr_truncated" boolean_of source
  exit_code ← required "exit_code" integer_of source
  stdout ← required "stdout" string_of source
  stderr ← required "stderr" string_of source
  duration_ms ← required "duration_ms" natural_of source
  some (record {
    exit_code = exit_code;
    stdout = stdout;
    stderr = stderr;
    duration_ms = duration_ms;
    stdout_truncated = stdout_truncated;
    stderr_truncated = stderr_truncated;
  })

-- `decodeAcknowledgement`, whose one result is `{ ok: true }`.
unfoldable pub decode_acknowledgement : Json → Option (Unit {0})
decode_acknowledgement value = do
  source ← closed ("ok" ∷ []) [] value
  answer ← required "ok" boolean_of source
  check answer

-- `Record`; its `detail` is whatever the service sent.
pub record Entry : Type 0 where
  pub id : Text
  pub session_id : Text
  pub kind : Text
  pub summary : Text
  pub detail : Json
  pub created_at : Text

unfoldable pub decode_entry : DateParse → Json → Option Entry
decode_entry date_parse value = do
  source ← closed ("id" ∷ "session_id" ∷ "kind" ∷ "summary" ∷ "detail" ∷ "created_at" ∷ []) [] value
  id ← required "id" uuid source
  session_id ← required "session_id" uuid source
  kind ← required "kind" string_of source
  summary ← required "summary" string_of source
  detail ← get "detail" source
  created_at ← required "created_at" (date_time date_parse) source
  some (record {
    id = id;
    session_id = session_id;
    kind = kind;
    summary = summary;
    detail = detail;
    created_at = created_at;
  })

unfoldable pub decode_records : DateParse → Json → Option (List Entry)
decode_records date_parse value = do
  items ← items_of value
  map_items (decode_entry date_parse) items
