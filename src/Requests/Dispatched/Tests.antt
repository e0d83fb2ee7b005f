-- ===== src/Requests/Dispatched/Tests.antt =====
-- Calls of a handle, and what the transport prepares, with the theorems at them.
use cuna_lib_ts.Requests.Agents.{options_of}
use cuna_lib_ts.Requests.Value.{named_in, read, integer_value}
use cuna_lib_ts.Requests.Samples.{an_id, a_digest, members, number}
use cuna_lib_ts.Json.{Json}
use cuna_lib_ts.Requests.Sessions
use cuna_lib_ts.Contract.{sessions_stop, workspaces_sync_chunk_download}
use cuna_lib_ts.Json.{field, end, cons, nil, whole}
use cuna_lib_ts.Requests.Sessions.{stop, refresh, Handle}
use cuna_lib_ts.Base.{true, ◌++◌}
use cuna_lib_ts.Domain.Grammar.{after_prefix}
use cuna_lib_ts.Base.{refl, same}
use cuna_lib_ts.Domain.Read.{◌>>=◌, ◌>>◌, check}
use cuna_lib_ts.Requests.Value.{named_in, read, integer_value, map_values}
use cuna_lib_ts.Domain.Grammar.{is_uuid}
use cuna_lib_ts.Requests.Value.{Value, item, no_more}
use cuna_lib_ts.Base.{Text, ℕ, List, [], lit, ◌∷◌, some, none, false, ◌≡◌}
use cuna_lib_ts.Requests.Call.{perform, Port, Call, no_input}
use cuna_lib_ts.Domain.Sync.Envelope.{SyncEnvelope}
use cuna_lib_ts.Errors.{ok, malformed}
use cuna_lib_ts.Json.{whole}
use cuna_lib_ts.Requests.Sync.Methods.{downloaded}
use cuna_lib_ts.Requests.Sessions.Handles.{after_all, after_all-id}
use cuna_lib_ts.Requests.Sessions.Create.{is_host, split_stop}
use cuna_lib_ts.Domain.Sessions.{is_runtime_url, SessionSnapshot, at_stop, is_slug}
use cuna_lib_ts.Transport.Prepare.{Web}
use cuna_lib_ts.Wire.{brand_name}

abbrev base_url : Text
base_url = lit "https://api.getcuna.com"

-- A platform whose `URL` leaves each path as it is, for calls without parameters.
abbrev web : Web
web = record {
  resolve = λ path base query.
      some (record { origin = base_url; href = base_url ++ (path ++ []); search = [] });
  stringify = λ value. [];
}

abbrev download_call : Call SyncEnvelope (List ℕ)
download_call = record {
  key = workspaces_sync_chunk_download;
  input = record no_input { id = some an_id; digest = some a_digest };
  settle = λ e. downloaded a_digest e e.payload;
  status = 200;
}

abbrev snapshot_of : Text → SessionSnapshot
snapshot_of id = record {
  id = id;
  user_id = an_id;
  slug = lit "a";
  name = lit "main";
  agent = none;
  vcpus = 1;
  memory_mib = 512;
  status = lit "running";
  running_seconds = 0;
  created_at = [];
  updated_at = [];
  url = lit "https://a.cunacode.cloud";
}

abbrev a_handle : Handle
a_handle = record { snapshot = snapshot_of an_id }

-- An answer of another session.
abbrev stray_answers : Port Unit SessionSnapshot
stray_answers key input = ok (snapshot_of (lit "x"))

stray_refused : perform stray_answers (Sessions.replace sessions_stop a_handle) ≡ malformed 200
unfolding perform Sessions.replace is_uuid lit ◌>>=◌ ◌>>◌ check same
stray_refused = refl

after_all-id_example :
    (after_all {P = Unit} a_handle
      ((stop, stray_answers) ∷ (refresh, stray_answers) ∷ [])).snapshot.id
    ≡ an_id
after_all-id_example =
    after_all-id {P = Unit} a_handle ((stop, stray_answers) ∷ (refresh, stray_answers) ∷ [])

-- The hosts of an outbound policy.
hosts :
    (is_host (lit "*.example.com") ≡ true)
    × (is_host (lit "10.0.0.1") ≡ false)
    × (is_host (lit "1.2.3.4.5") ≡ true)
    × (is_host (lit "localhost") ≡ false)
unfolding is_host split_stop is_slug after_prefix lit
hosts = (refl, refl, refl, refl)

zones :
    (is_runtime_url (lit "https://a-b.cunacode.cloud") ≡ true)
    × (is_runtime_url (lit "https://a-.cunacode.cloud") ≡ false)
unfolding is_runtime_url at_stop is_slug after_prefix lit same brand_name ◌>>=◌
zones = (refl, refl)

-- A command with its arguments.
command :
    Sessions.prepare_exec
      (Value.array (item (Value.string (lit "ls")) (item (Value.string (lit "-l")) no_more)))
      (Value.object (members (("timeoutSecs", number 5) ∷ [])))
    ≡ some (
      Json.object (
          field (lit "command") (Json.string (lit "ls")) (
            field
              (lit "args")
              (Json.array (cons (Json.string (lit "-l")) nil))
              (field (lit "timeout_secs") (Json.number (whole 5)) end))),
      some 5,
    )
unfolding Sessions.prepare_exec Sessions.command_members map_values options_of named_in read
    integer_value ◌>>=◌ ◌>>◌ check
command = refl
