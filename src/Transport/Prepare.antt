-- ===== src/Transport/Prepare.antt =====
-- `renderPath` and `prepare`.
pub mod Paths
use cuna_lib_ts.Domain.Grammar.{around}
use cuna_lib_ts.Base.{
  none, some, List, [], ◌∷◌, true, false, Text, Option, lit, ℕ, Bool, if◌then◌else◌, ◌++◌, is_some,
  ◌==◌, length, same, ◌&&◌, ◌||◌, not,
}
use cuna_lib_ts.Domain.Read.{◌>>=◌, ◌>>◌}
use cuna_lib_ts.Contract.{workspaces_sync_chunk}
use cuna_lib_ts.Errors.{Result, ok, thrown, type_error, config_error}
use cuna_lib_ts.Contract.{OperationKey, Method, generated}
use cuna_lib_ts.Requests.Call.{DispatchInput}
use cuna_lib_ts.Json.{Json}
use cuna_lib_ts.Domain.Grammar.{is_sha256}
use cuna_lib_ts.Requests.Value.{decimal}
use cuna_lib_ts.Contract.Safety.{needs_idempotency_key}

-- The replacement that `replace` puts for a match, by its patterns `$$`, `$&`, `` $` `` and `$'`.
unfoldable pub expand : (matched before after : Text) → Text → Text
expand m b a [] = []
expand m b a (c ∷ []) = c ∷ []
expand m b a (c ∷ d ∷ s) =
    let next = expand m b a s in
    let other = expand m b a (d ∷ s) in
    if c == 0x24
    then (if d == 0x24
        then 0x24 ∷ next
        else if d == 0x26
        then m ++ next
        else if d == 0x60
        then b ++ next
        else if d == 0x27
        then a ++ next
        else c ∷ other)
    else c ∷ other

-- A parameter of a path, which is given exactly if the template has it.
unfoldable pub filled :
    Text → (Text → Bool) → Option Text → Text → Option (Text × Text) → Option Text
unfolding expand
filled needle accept none template none = some template
filled needle accept none template (some split) = none
filled needle accept (some value) template none = none
filled needle accept (some value) template (some (before, after)) =
    if accept value then some (before ++ (expand needle before after value ++ after)) else none

abbrev pub fill : Text → (Text → Bool) → Option Text → Text → Option Text
fill needle accept value template = filled needle accept value template (around needle template)

abbrev anything : Text → Bool
anything s = true

-- `renderPath`
unfoldable pub render_path : (template : Text) → (id digest binding_id : Option Text) → Option Text
render_path template id digest binding_id = do
  with_id ← fill (lit ":id") anything id template
  with_digest ← fill (lit ":digest") is_sha256 digest with_id
  fill (lit ":binding_id") anything binding_id with_digest

-- A `URL`.
pub record Target : Type 0 where
  pub origin : Text
  pub href : Text
  pub search : Text

-- What the platform does: `new URL(path, base)`, which may throw, with the parameters appended; and
-- `JSON.stringify` of plain data.
pub record Web : Type 0 where
  pub resolve : (path base : Text) → List (Text × Text) → Option Target
  pub stringify : Json → Text

pub data Body : Type 0 where
  text : Text → Body
  binary : List ℕ → Body

-- `PreparedRequest`
pub record Request : Type 0 where
  pub url : Text
  pub method : Method
  pub headers : List (Text × Text)
  pub body : Option Body

unfoldable pub is_chunk : OperationKey → Bool
is_chunk workspaces_sync_chunk = true
is_chunk _ = false

-- The body, or nothing where there is a wrong one.
unfoldable pub body_of : Web → OperationKey → DispatchInput → Option (Option Body)
unfolding is_chunk
body_of web key input =
    if is_chunk key
    then (elim input.bytes [
      | none ↦ none
      | some bytes ↦ if is_some input.body then none else some (some (binary bytes))
    ])
    else if (generated key).has_request_body
    then (elim input.body [ none ↦ none | some value ↦ some (some (text (web.stringify value))) ])
    else if is_some input.body
    then none
    else some none

abbrev key_header : Option Text → List (Text × Text) → List (Text × Text)
key_header none more = more
key_header (some key) more = (lit "Idempotency-Key", key) ∷ more

abbrev content_headers : Option Body → List (Text × Text)
content_headers none = []
content_headers (some (text s)) = (lit "Content-Type", lit "application/json; charset=utf-8") ∷ []
content_headers (some (binary bytes)) =
    (lit "Content-Type", lit "application/octet-stream")
    ∷ (lit "Content-Length", decimal (length bytes))
    ∷ []

unfoldable pub request_of :
    (api_key : Text) → OperationKey → DispatchInput → Target → Option Body → Request
request_of api_key key input target body = record {
  url = target.href;
  method = (generated key).method;
  headers =
      (lit "Accept", lit "application/json, application/problem+json")
      ∷ (lit "Authorization", lit "Bearer " ++ api_key)
      ∷ (lit "User-Agent", lit "cuna-sdk-typescript/0.1.0")
      ∷ key_header input.idempotency_key (content_headers body);
  body = body;
}

-- The tests of `prepare` after the one of the target.
unfoldable pub with_body :
    {P : Type 0}
    → (api_key : Text) → OperationKey
    → DispatchInput
    → Target
    → Option (Option Body)
    → Result P Request
with_body api_key key input target none = thrown type_error
with_body api_key key input target (some body) =
    if needs_idempotency_key key && is_some input.idempotency_key
      || not (needs_idempotency_key key) && not (is_some input.idempotency_key)
    then ok (request_of api_key key input target body)
    else thrown type_error

abbrev pub query_of : Option (List (Text × Text)) → List (Text × Text)
query_of none = []
query_of (some query) = query

-- What follows `new URL` in `prepare`.
unfoldable pub with_target :
    {P : Type 0}
    → Web
    → (base_url api_key : Text) → OperationKey
    → DispatchInput
    → (path : Text) → Option Target
    → Result P Request
with_target web base_url api_key key input path none = thrown type_error
with_target web base_url api_key key input path (some target) =
    if same target.origin base_url && same target.href (base_url ++ (path ++ target.search))
    then with_body api_key key input target (body_of web key input)
    else thrown config_error

unfoldable pub with_path :
    {P : Type 0}
    → Web
    → (base_url api_key : Text) → OperationKey
    → DispatchInput
    → Option Text
    → Result P Request
with_path web base_url api_key key input none = thrown type_error
with_path web base_url api_key key input (some path) =
    with_target web base_url api_key key input path
      (web.resolve path (base_url ++ lit "/") (query_of input.query))

-- `prepare`
unfoldable pub prepare :
    {P : Type 0} → Web → (base_url api_key : Text) → OperationKey → DispatchInput → Result P Request
prepare web base_url api_key key input =
    with_path web base_url api_key key input
      (render_path (generated key).path_template input.id input.digest input.binding_id)
