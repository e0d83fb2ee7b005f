-- ===== src/Transport/Decoding/Tests.antt =====
-- An operation with the decoders of the package, and the theorem there.
use cuna_lib_ts.Transport.Execute.Samples.{toy, answer, rejected}
use cuna_lib_ts.Domain.Read.{◌>>=◌, ◌>>◌, check, exact}
use cuna_lib_ts.Domain.Sessions.{decode_acknowledgement}
use cuna_lib_ts.Domain.Agents.Auth.{required}
use cuna_lib_ts.Boundary.{scan, scan_all}
use cuna_lib_ts.Boundary.Escapes.{contains_prohibited_marker, decode_escapes}
use cuna_lib_ts.Transport.Decoding.{decode_answer, decode_kind, Environment}
use cuna_lib_ts.Base.{ℕ, ◌≡◌, refl, true, some, none, List, [], ◌∷◌, Option}
use cuna_lib_ts.Transport.Decoding.Kinds.{execute-kind_of, kind_of}
use cuna_lib_ts.Transport.Decoding.{decoders, Metadata, Answer, acknowledged}
use cuna_lib_ts.Base.{lit}
use cuna_lib_ts.Json.{object, field, end, boolean, sanitize_wire, Json}
use cuna_lib_ts.Contract.{sessions_delete, operation_descriptor}
use cuna_lib_ts.Errors.{ok}
use cuna_lib_ts.Transport.Body.{read_limited, assemble, zeros}
use cuna_lib_ts.Transport.Disposition.{
  Decoders, disposition, accept, decode_bytes, finish_decode, is_json, is_no_store,
}
use cuna_lib_ts.Transport.Execute.{execute, Trace, observed, loop, round, armed, fetching}
use cuna_lib_ts.Transport.Observer.{
  info, success, end_of, operation_start, operation_end, attempt_start,
}
use cuna_lib_ts.Transport.Deadline.{maximum_attempts, deadline_for, total_deadline_for}
use cuna_lib_ts.Contract.Safety.{is_read}

-- The decoders of the package, for an answer `{"ok":true}`.
abbrev real_parse : List ℕ → Option Json
real_parse bytes = some (object (field (lit "ok") (boolean true) end))

abbrev surroundings : Environment
surroundings = record {
  outside = record {
    date_parse = λ s. none;
    from_base64 = λ s. [];
    to_base64 = λ bytes. [];
    digest_of = λ bytes. [];
  };
  now = 0;
  is_finite = λ n. true;
  parse_url = λ s. none;
}

abbrev real : Decoders Metadata Answer
real = decoders toy.platform real_parse surroundings

abbrev deletion : Trace Metadata Answer
deletion = record {
  acts =
      observed operation_start
      ∷ armed 60000
      ∷ observed (attempt_start 1)
      ∷ fetching
      ∷ observed (
          operation_end (record {
            severity = info;
            attempt = 1;
            elapsed_ms = 9;
            outcome = success;
            error_code = none;
            http_status = none;
          }))
      ∷ [];
  attempt = 1;
  result = ok acknowledged;
}

deleted :
    execute real sessions_delete none none 0 0 9 (λ n. record rejected { fetched = some answer })
    ≡ some deletion
unfolding execute loop round disposition accept decode_bytes finish_decode is_json is_no_store
    read_limited assemble zeros sanitize_wire is_read deadline_for total_deadline_for
    maximum_attempts operation_descriptor end_of decoders contains_prohibited_marker scan_all scan
    decode_escapes decode_answer decode_kind ◌>>=◌ decode_acknowledgement ◌>>◌ check exact required
deleted = refl

execute-kind_of_example : kind_of acknowledged ≡ (operation_descriptor sessions_delete).response
execute-kind_of_example =
    execute-kind_of toy.platform real_parse surroundings sessions_delete none 0 0 9
      (λ n. record rejected { fetched = some answer }) deleted refl
