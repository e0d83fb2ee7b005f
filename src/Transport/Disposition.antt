-- ===== src/Transport/Disposition.antt =====
-- What the transport makes of a response: `disposition` and `problemFailure` of
-- src/internal/transport.ts.
pub mod Outcomes
use cuna_lib_ts.Base.{
  ℕ, ltb, leb, ◌==◌, if◌then◌else◌, Bool, true, false, ◌&&◌, ◌||◌, not, Option, none, some, [], ◌∷◌,
  ◌++◌, Text, lit, same, trim,
}
use cuna_lib_ts.Boundary.Escapes.{Platform}
use cuna_lib_ts.Json.{Json, sanitize_wire}
use cuna_lib_ts.Contract.{
  OperationKey, agent_sessions_agent_auth, operation_descriptor, ErrorKind, legacy, problem,
  ResponseKind, capability_snapshot, workspace_sync,
}
use cuna_lib_ts.Errors.{
  Result, ok, thrown, malformed, Thrown, api_error, plain, abort_error, api_error_with_problem,
}
use cuna_lib_ts.Transport.Body.{Body, Bytes, read_limited}

-- What the transport asks of the decoders of src/domain.ts, of which `none` is a `DecodeFailure`, and of
-- the platform: `parse` is a fatal UTF-8 decoding followed by `JSON.parse`.
pub record Decoders (P A : Type 0) : Type 0 where
  pub platform : Platform
  pub parse : Bytes → Option Json
  pub decode : OperationKey → Json → Option A
  pub etag_of : A → Text
  pub decode_problem : Json → ℕ → Option P
  pub decode_sync_problem : Json → ℕ → Option P

-- A response, with the state of the signal where the code looks at it: once the status is accepted, once
-- the body is read, once it is parsed, and where a failure to read a problem is caught.
pub record Response : Type 0 where
  pub status : ℕ
  pub content_type : Option Text
  pub cache_control : Option Text
  pub etag : Option Text
  pub body : Option Body
  pub aborted_before_body : Bool
  pub aborted_after_body : Bool
  pub aborted_after_parse : Bool
  pub aborted_on_catch : Bool

-- `split(";", 1)[0]`
before_semicolon : Text → Text
before_semicolon [] = []
before_semicolon (c ∷ s) = let rest = before_semicolon s in if c == 0x3b then [] else c ∷ rest

module _ (platform : Platform) where
  unfoldable pub media_type : Text → Text
  unfolding trim before_semicolon
  media_type s = platform.to_lower_case (trim (before_semicolon s))

  -- `contentType !== null && contentType.split(…) === "application/json"`
  unfoldable pub is_json : Option Text → Bool
  unfolding media_type lit same
  is_json none = false
  is_json (some s) = same (media_type s) (lit "application/json")

  unfoldable pub is_problem_json : Option Text → Bool
  unfolding media_type lit same
  is_problem_json none = false
  is_problem_json (some s) = same (media_type s) (lit "application/problem+json")

  unfoldable pub is_no_store : Option Text → Bool
  unfolding trim lit same
  is_no_store none = false
  is_no_store (some s) = same (platform.to_lower_case (trim s)) (lit "no-store")

-- `"${snapshot.etag}"`, between its quotes.
quoted : Text → Text
quoted s = 0x22 ∷ (s ++ 0x22 ∷ [])

unfoldable pub etag_is : Option Text → Text → Bool
unfolding quoted same
etag_is none s = false
etag_is (some header) s = same header (quoted s)

abbrev pub is_agent_auth : OperationKey → Bool
is_agent_auth agent_sessions_agent_auth = true
is_agent_auth _ = false

abbrev pub is_snapshot : ResponseKind → Bool
is_snapshot capability_snapshot = true
is_snapshot _ = false

abbrev pub is_sync : ResponseKind → Bool
is_sync workspace_sync = true
is_sync _ = false

abbrev pub is_problem : ErrorKind → Bool
is_problem problem = true
is_problem legacy = false

module _ {P A : Type 0} (d : Decoders P A) where
  -- The `catch` of `problemFailure`, for all errors but an abort.
  abbrev pub opaque : Response → Thrown P
  opaque r = if r.aborted_on_catch then abort_error else api_error r.status plain none

  read_problem : Response → Bool → Bytes → Thrown P
  read_problem r sync bytes = if r.aborted_after_body then abort_error else elim (d.parse bytes) [
    | none ↦ opaque r
    | some value ↦ elim (sanitize_wire d.platform value) [
      | none ↦ opaque r
      | some clean ↦
          elim (if sync && is_problem_json d.platform r.content_type
            then d.decode_sync_problem clean r.status
            else d.decode_problem clean r.status) [
              | none ↦ opaque r
              | some found ↦ api_error_with_problem r.status found
            ]
    ]
  ]

  -- Whether an error of the read is the `AbortError`.
  abbrev on_read_error : Response → Thrown P → Thrown P
  on_read_error r abort_error = abort_error
  on_read_error r _ = opaque r

  unfoldable pub problem_failure : Response → Bool → Thrown P
  unfolding read_problem api_error_with_problem
  problem_failure r sync =
      if not (is_json d.platform r.content_type || is_problem_json d.platform r.content_type)
      then api_error r.status plain none
      else elim (read_limited {P = P} r.status r.body) [
        | thrown error ↦ on_read_error r error
        | ok bytes ↦ read_problem r sync bytes
      ]

  -- The `switch` and the `catch` round it.
  unfoldable pub finish_decode : OperationKey → Response → Json → Result P A
  finish_decode key r value = elim (d.decode key value) [
    | none ↦ malformed r.status
    | some a ↦
        if is_snapshot (operation_descriptor key).response && not (etag_is r.etag (d.etag_of a))
        then malformed r.status
        else ok a
  ]

  -- From the bytes of an accepted response on.
  unfoldable pub decode_bytes : OperationKey → Response → Bytes → Result P A
  decode_bytes key r bytes =
      if r.aborted_after_body then thrown abort_error else elim (d.parse bytes) [
        | none ↦ malformed r.status
        | some value ↦ elim (sanitize_wire d.platform value) [
          | none ↦ malformed r.status
          | some clean ↦
              if r.aborted_after_parse then thrown abort_error else finish_decode key r clean
        ]
      ]

  -- What is made of a response whose status is not the expected one.
  unfoldable pub refuse : OperationKey → Response → Result P A
  refuse key r =
      let descriptor = operation_descriptor key in
      if leb 200 r.status && ltb r.status 300
      then malformed r.status
      else if is_problem descriptor.error
      then thrown (problem_failure r (is_sync descriptor.response))
      else thrown (api_error r.status plain none)

  unfoldable pub accept : OperationKey → Response → Result P A
  accept key r =
      if r.aborted_before_body
      then thrown abort_error
      else if is_agent_auth key && not (is_no_store d.platform r.cache_control)
      then malformed r.status
      else if not (is_json d.platform r.content_type)
      then malformed r.status
      else elim (read_limited {P = P} r.status r.body) [
        | thrown error ↦ thrown error
        | ok bytes ↦ decode_bytes key r bytes
      ]

  unfoldable pub disposition : OperationKey → Response → Result P A
  disposition key r =
      if leb 300 r.status && ltb r.status 400
      then malformed r.status
      else if not (r.status == (operation_descriptor key).success_status)
      then refuse key r
      else accept key r
