-- ===== src/Requests/Sessions/Create.antt =====
-- `createBody` and `SessionsManagerImplementation.create` of src/client.ts.
use cuna_lib_ts.Domain.Read.{◌>>=◌, ◌>>◌, check}
use cuna_lib_ts.Base.{none, some, List, [], ◌∷◌, true, false}
use cuna_lib_ts.Requests.Value.{
  Value, no_more, values_of, read, named_in, integer_value, text_value, json, count_values, natural,
  map_values,
}
use cuna_lib_ts.Requests.Call.{Call, no_input}
use cuna_lib_ts.Base.{
  Text, List, String, ℕ, ◌∷◌, Bool, Option, lit, if◌then◌else◌, not, false, some, all, true, ◌==◌,
  ◌&&◌, ◌++◌, [], length, leb,
}
use cuna_lib_ts.Requests.Value.{Members, Value, owned, unless_undefined, last, plain_object}
use cuna_lib_ts.Requests.Bindings.{before_first}
use cuna_lib_ts.Domain.Sessions.{is_slug, SessionSnapshot}
use cuna_lib_ts.Json.{Json}
use cuna_lib_ts.Domain.Grammar.{after_prefix, between, one_of}
use cuna_lib_ts.Requests.Agents.{name_value}
use cuna_lib_ts.Requests.Sessions.{Handle}
use cuna_lib_ts.Requests.Sync.Methods.{key_value}
use cuna_lib_ts.Contract.{sessions_create}
use cuna_lib_ts.Domain.Sync.Entries.{distinct}
use cuna_lib_ts.Requests.Sync.Entries.{items_json}

-- `split(".")`
unfoldable pub split_stop : Text → List Text
unfolding before_first
split_stop [] = [] ∷ []
split_stop (c ∷ s) = let rest = split_stop s in if c == 0x2e then [] ∷ rest else before_first c rest

is_number_part : Text → Bool
is_number_part s = all (between 0x30 0x39) s && between 1 3 (length s)

-- `[0-9]{1,3}(?:\.[0-9]{1,3}){3}`
is_address : List Text → Bool
unfolding is_number_part
is_address parts = all is_number_part parts && length parts == 4

-- `hostPattern` after its optional `*.`
is_named : List Text → Bool
unfolding is_address is_slug
is_named parts = not (is_address parts) && all is_slug parts && leb 2 (length parts)

unfoldable pub is_host : Text → Bool
unfolding is_named
is_host s = elim (after_prefix (lit "*.") s) [
  | none ↦ is_named (split_stop s)
  | some rest ↦ is_named (split_stop rest)
]

-- The outbound policy.
unfoldable pub policy_value : Value → Option Json
policy_value value = do
  source ← plain_object value
  check (named_in ("mode" ∷ "hosts" ∷ []) source)
  mode ← text_value (one_of ("allowlist" ∷ "denylist" ∷ [])) (read "mode" source)
  values ← values_of (read "hosts" source)
  check (leb (count_values values) 128)
  hosts ← map_values (text_value (λ s. between 3 253 (length s) && is_host s)) values
  check (distinct hosts == length hosts)
  some (
      json (("mode", Json.string mode) ∷ ("hosts", Json.array (items_json Json.string hosts)) ∷ []))

abbrev is_there : Value → Bool
is_there Value.undefined = false
is_there _ = true

-- A property of a body that may be missing.
abbrev maybe_member : String → Option Json → List (String × Json) → List (String × Json)
maybe_member name none more = more
maybe_member name (some value) more = (name, value) ∷ more

abbrev bounded : (minimum maximum : ℕ) → Value → Option (Option Json)
bounded minimum maximum =
    unless_undefined (λ value. do n ← integer_value minimum maximum value; some (natural n))

hosts_value : Value → Option Json
hosts_value value = do
  values ← values_of value
  check (leb (count_values values) 128)
  hosts ← map_values (text_value (λ s. leb 1 (length s))) values
  some (Json.array (items_json Json.string hosts))

agent_value : Value → Option Json
agent_value value = do
  s ← text_value (one_of ("claude-code" ∷ "codex" ∷ "openclaw" ∷ [])) value
  some (Json.string s)

-- Unlike the others, `agent` may not be there and `undefined`.
abbrev agent_member : Members → Option (Option Json)
agent_member source =
    if owned "agent" source
    then (do a ← agent_value (read "agent" source); some (some a))
    else some none

-- `createBody`
unfoldable pub create_body : (name : Value) → Members → Option Json
unfolding hosts_value agent_value
create_body name source = do
  s ← name_value name
  check (
      named_in
        ("idempotencyKey" ∷ "agent" ∷ "vcpus" ∷ "memoryMiB" ∷ "allowedHosts" ∷ "outboundPolicy"
          ∷ "runtimePort" ∷ [])
        source)
  agent ← agent_member source
  vcpus ← bounded 1 8 (read "vcpus" source)
  memory_mib ← bounded 512 16384 (read "memoryMiB" source)
  allowed_hosts ← unless_undefined hosts_value (read "allowedHosts" source)
  check (not (is_there (read "allowedHosts" source) && is_there (read "outboundPolicy" source)))
  outbound_policy ← unless_undefined policy_value (read "outboundPolicy" source)
  runtime_port ← bounded 1 65535 (read "runtimePort" source)
  some (
      json (
        ("name", Json.string s)
        ∷ maybe_member "agent" agent (
            maybe_member "vcpus" vcpus (
              maybe_member "memory_mib" memory_mib (
                maybe_member "allowed_hosts" allowed_hosts (
                  maybe_member "outbound_policy" outbound_policy
                    (maybe_member "runtime_port" runtime_port [])))))))

-- What `options` may be: an object, an array or nothing.
abbrev members_of : Value → Option Members
members_of Value.undefined = some last
members_of (Value.array no_more) = some last
members_of value = plain_object value

-- The key of a request without one, of what `randomBytes(18).toString("base64url")` gives.
abbrev key_of : (fresh : Text) → Option Text → Text
key_of fresh none = lit "cuna_sdk_" ++ fresh
key_of fresh (some key) = key

-- `SessionsManagerImplementation.create`
unfoldable pub create :
    (fresh : Text) → (name options : Value) → Option (Call SessionSnapshot Handle)
create fresh name options = do
  source ← members_of options
  key ← unless_undefined key_value (read "idempotencyKey" source)
  body ← create_body name source
  some (record {
    key = sessions_create;
    input = record no_input { body = some body; idempotency_key = some (key_of fresh key) };
    settle = λ s. some (record { snapshot = s });
    status = 200;
  })
