-- ===== src/Transport/Execute/Samples.antt =====
-- A response and a round for the tests.
use cuna_lib_ts.Base.{ℕ, true, false, some, none, [], ◌∷◌}
use cuna_lib_ts.Json.{boolean}
use cuna_lib_ts.Transport.Body.{Body, chunk, finished}
use cuna_lib_ts.Transport.Disposition.{Decoders, Response}
use cuna_lib_ts.Transport.Execute.{Round}

abbrev pub toy : Decoders ℕ ℕ
toy = record {
  platform = record { decode_uri_component = λ s. some s; to_lower_case = λ s. s };
  parse = λ bytes. some (boolean true);
  decode = λ key value. some 7;
  etag_of = λ a. [];
  decode_problem = λ value status. none;
  decode_sync_problem = λ value status. none;
}

abbrev pub answer_body : Body
answer_body = record {
  aborted_first = false;
  arrivals = chunk (116 ∷ []) ∷ chunk (114 ∷ 117 ∷ []) ∷ finished ∷ [];
  aborted_late = false;
}

abbrev pub answer : Response
answer = record {
  status = 200;
  content_type = some (
      0x61 ∷ 0x70 ∷ 0x70 ∷ 0x6c ∷ 0x69 ∷ 0x63 ∷ 0x61 ∷ 0x74 ∷ 0x69 ∷ 0x6f ∷ 0x6e ∷ 0x2f ∷ 0x6a
      ∷ 0x73 ∷ 0x6f ∷ 0x6e ∷ 0x20 ∷ 0x3b ∷ []);
  cache_control = none;
  etag = none;
  body = some answer_body;
  aborted_before_body = false;
  aborted_after_body = false;
  aborted_after_parse = false;
  aborted_on_catch = false;
}

abbrev pub rejected : Round
rejected = record {
  aborted = false;
  now = 0;
  fetched = none;
  aborted_after_fetch = false;
  timed_out = false;
  now_after_fetch = 5;
  draws = 57 ∷ [];
  now_after_draw = 6;
  slept = true;
  aborted_after_read = false;
}
