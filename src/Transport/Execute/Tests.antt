-- ===== src/Transport/Execute/Tests.antt =====
-- Operations against a small world, and the theorems there.
use cuna_lib_ts.Transport.Execute.Samples.{toy, answer_body, answer, rejected}
use cuna_lib_ts.Base.{
  ℕ, zero, suc, ◌≡◌, refl, true, false, some, none, List, [], ◌∷◌, ◌*◌, ◌≤◌, ◌+◌, ◌++◌, length, ◌<◌,
  arith, ◌-◌, ◌↔◌, ◌/◌, ◌%◌,
}
use cuna_lib_ts.Json.{sanitize_wire}
use cuna_lib_ts.Contract.{me_get, sessions_delete, operation_descriptor}
use cuna_lib_ts.Errors.{ok, thrown, type_error, api_error, malformed_response, Thrown}
use cuna_lib_ts.Transport.Body.{read_limited, assemble, zeros, max_response_bytes}
use cuna_lib_ts.Transport.Disposition.{
  disposition, accept, decode_bytes, finish_decode, is_json, is_no_store,
}
use cuna_lib_ts.Transport.Execute.{
  Round, execute, Trace, Act, observed, loop, round, armed, fetching, sleeping, error_in, done,
}
use cuna_lib_ts.Transport.Body.Content.{received, read_limited_content}
use cuna_lib_ts.Transport.Observer.{
  End, info, success, end_of, operation_start, operation_end, attempt_start, retry_scheduled,
  severe, error,
}
use cuna_lib_ts.Transport.Delay.{
  words, uniform_delay_fair, largest_of, uniform_delay, uniform_delay-le-bound, uniform_delay_first,
}
use cuna_lib_ts.Transport.Execute.Report.{Served, execute-ok, Numbered, execute-reports}
use cuna_lib_ts.Transport.Deadline.{maximum_attempts, deadline_for, total_deadline_for}
use cuna_lib_ts.Transport.Disposition.Outcomes.{Accepted, disposition-Accepted}
use cuna_lib_ts.Transport.Execute.Attempts.{
  most_requests, sent, execute-sent, Repeats, again-Repeats,
}
use cuna_lib_ts.Contract.Safety.{is_read, is_get}
use cuna_lib_ts.Transport.Execute.Timers.{Timed, round-Timed}

-- The first request is rejected, all others are answered.
abbrev world : ℕ → Round
world zero = rejected
world (suc n) = record rejected { fetched = some answer }

abbrev read_trace : Trace ℕ ℕ
read_trace = record {
  acts =
      observed operation_start
      ∷ armed 10000
      ∷ observed (attempt_start 1)
      ∷ fetching
      ∷ observed (retry_scheduled 2 57)
      ∷ sleeping 57
      ∷ armed 10000
      ∷ observed (attempt_start 2)
      ∷ fetching
      ∷ observed (
          operation_end (record {
            severity = info;
            attempt = 2;
            elapsed_ms = 9;
            outcome = success;
            error_code = none;
            http_status = none;
          }))
      ∷ [];
  attempt = 2;
  result = ok 7;
}

read_again : execute toy me_get none none 0 0 9 world ≡ some read_trace
unfolding execute loop round uniform_delay disposition accept decode_bytes finish_decode is_json
    is_no_store read_limited assemble zeros sanitize_wire is_read deadline_for total_deadline_for
    maximum_attempts operation_descriptor end_of
read_again = refl

-- A write is not sent again.
write_once :
    execute toy sessions_delete none none 0 0 9 world
    ≡ some (record {
      acts =
          observed operation_start
          ∷ armed 60000
          ∷ observed (attempt_start 1)
          ∷ fetching
          ∷ observed (
              operation_end (record {
                severity = severe;
                attempt = 1;
                elapsed_ms = 9;
                outcome = error;
                error_code = none;
                http_status = none;
              }))
          ∷ [];
      attempt = 1;
      result = thrown type_error;
    })
unfolding execute loop round uniform_delay disposition accept decode_bytes finish_decode is_json
    is_no_store read_limited assemble zeros sanitize_wire is_read deadline_for total_deadline_for
    maximum_attempts operation_descriptor end_of
write_once = refl

execute-sent_example :
    (sent read_trace.acts ≤ most_requests (is_get (operation_descriptor me_get).method))
    × (is_read me_get ≡ false → sent read_trace.acts ≤ 1)
execute-sent_example = execute-sent toy me_get none none 0 0 9 world read_again

execute-ok_example : Served toy me_get none 0 world (maximum_attempts me_get) read_trace 7
execute-ok_example = execute-ok toy me_get none 0 0 9 world read_again refl

execute-reports_example :
    (acts : List Act) × (end : End) × (read_trace.acts
      ≡ observed operation_start ∷ (acts ++ observed (operation_end end) ∷ []))
    × Numbered 1 acts
    × (end.attempt ≡ read_trace.attempt)
    × (end.elapsed_ms ≡ 9 - 0)
    × ((end.outcome ≡ success) ↔ (error_in read_trace.result ≡ none))
execute-reports_example = execute-reports toy me_get none 0 0 9 world read_again

again-Repeats_example : Repeats toy me_get none 0 1 rejected (
    armed 10000
    ∷ observed (attempt_start 1)
    ∷ fetching
    ∷ observed (retry_scheduled 2 57)
    ∷ sleeping 57
    ∷ [])
unfolding execute loop round uniform_delay disposition accept decode_bytes finish_decode is_json
    is_no_store read_limited assemble zeros sanitize_wire is_read deadline_for total_deadline_for
    maximum_attempts operation_descriptor end_of
again-Repeats_example = again-Repeats toy me_get none 0 1 rejected refl

disposition-Accepted_example : Accepted toy me_get answer 7
unfolding execute loop round uniform_delay disposition accept decode_bytes finish_decode is_json
    is_no_store read_limited assemble zeros sanitize_wire is_read deadline_for total_deadline_for
    maximum_attempts operation_descriptor end_of
disposition-Accepted_example = disposition-Accepted toy me_get answer refl

abbrev three_bytes : List ℕ
three_bytes = 116 ∷ 114 ∷ 117 ∷ []

read_limited_content_example :
    (three_bytes ≡ received answer_body.arrivals) × (length three_bytes ≤ max_response_bytes)
unfolding read_limited assemble zeros
read_limited_content_example = read_limited_content {P = ℕ} 200 answer_body refl

abbrev cut : Thrown ℕ
cut = api_error 200 malformed_response none

uniform_delay-le-bound_example : 57 ≤ 100
unfolding uniform_delay
uniform_delay-le-bound_example = uniform_delay-le-bound 100 (57 ∷ []) {d = 57} {more = []} refl

uniform_delay_first_example :
    (uniform_delay 100 ((4294967295 ∷ []) ++ (57 ∷ [])) ≡ some (57 % 101, []))
    × (uniform_delay 100 (4294967295 ∷ []) ≡ none)
    × (words < 2 * largest_of 101)
uniform_delay_first_example =
    uniform_delay_first 100 (4294967295 ∷ []) 57 [] (omega arith) refl (omega arith)

uniform_delay_fair_example :
    (uniform_delay 100 (259 ∷ []) ≡ some (57, []))
    ↔ ((k : ℕ) × (k < words / 101) × (57 ≤ 100) × (259 ≡ k * 101 + 57))
uniform_delay_fair_example = uniform_delay_fair 100 259 57 []

-- A round that begins five milliseconds before the end of the operation's time.
abbrev last_round : Round
last_round = record rejected { now = 29995; fetched = some answer }

round-Timed_example :
    Timed {P = ℕ} {A = ℕ}
      (total_deadline_for me_get none)
      (deadline_for me_get none)
      29995
      2
      (armed 5 ∷ observed (attempt_start 2) ∷ fetching ∷ [])
      (done (ok 7))
    × (is_read me_get ≡ true
        → (deadline_for me_get none ≡ 10000) × (total_deadline_for me_get none ≡ 30000))
    × (is_read me_get ≡ false
        → (deadline_for me_get none ≡ total_deadline_for me_get none)
          × (10000 ≤ total_deadline_for me_get none)
          × (total_deadline_for me_get none ≤ 1860000))
unfolding execute loop round uniform_delay disposition accept decode_bytes finish_decode is_json
    is_no_store read_limited assemble zeros sanitize_wire is_read deadline_for total_deadline_for
    maximum_attempts operation_descriptor end_of
round-Timed_example = round-Timed toy me_get none 0 tt 2 last_round refl
