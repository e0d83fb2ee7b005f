-- ===== src/Requests/Sessions.antt =====
-- The `Session` handle of src/session.ts, the sessions, records and capabilities managers of
-- src/client.ts, and the manager of src/machine-creates.ts.

pub mod Create
pub mod Handles
use cuna_lib_ts.Domain.Read.{◌>>=◌, ◌>>◌, check}
use cuna_lib_ts.Base.{none, some, List, [], ◌∷◌, true, false, leb, length, if◌then◌else◌, lit, ◌&&◌}
use cuna_lib_ts.Requests.Value.{
  Value, item, text_value, unless_undefined, string_value, json, map_values, read, integer_value,
}
use cuna_lib_ts.Base.{Text, Option, List, String, Bool, some, ℕ, true, ◌∷◌, none, false, same, map}
use cuna_lib_ts.Domain.Sessions.{SessionSnapshot}
use cuna_lib_ts.Requests.Value.{Value, natural}
use cuna_lib_ts.Contract.{
  OperationKey, sessions_get, sessions_start, records_list, me_get, sessions_pause, sessions_list,
  sessions_resume, sessions_stop, machine_creates_get, sessions_exec, sessions_delete,
  sessions_checkpoint, sessions_open, machine_creates_reconcile, capabilities_get,
}
use cuna_lib_ts.Json.{Json}
use cuna_lib_ts.Requests.Call.{DispatchInput, Call, no_input, given}
use cuna_lib_ts.Requests.Sync.Methods.{uuid_value, parameter}
use cuna_lib_ts.Requests.Agents.{options_of, name_value, optional_member}
use cuna_lib_ts.Domain.Grammar.{is_uuid, one_of}
use cuna_lib_ts.Requests.Sync.Entries.{items_json}

-- `Session`, whose one field of its own is the snapshot.
pub record Handle : Type 0 where
  pub snapshot : SessionSnapshot

-- `#replace`
unfoldable pub replace : OperationKey → Handle → Option (Call SessionSnapshot Handle)
replace key h = do
  check (is_uuid h.snapshot.id)
  some (record {
    key = key;
    input = record no_input { id = some h.snapshot.id };
    settle = λ s. given (same s.id h.snapshot.id) (record { snapshot = s });
    status = 200;
  })

-- The five methods that replace the snapshot.
pub data Replacement : Type 0 where
  refresh start pause resume stop : Replacement

abbrev pub replacement_key : Replacement → OperationKey
replacement_key refresh = sessions_get
replacement_key start = sessions_start
replacement_key pause = sessions_pause
replacement_key resume = sessions_resume
replacement_key stop = sessions_stop

-- A call that returns its answer as it is.
abbrev plainly : {A : Type 0} → OperationKey → DispatchInput → Call A A
plainly key input = record { key = key; input = input; settle = some; status = 200 }

-- `delete` and `open`
unfoldable pub delete : {A : Type 0} → Handle → Option (Call A A)
delete h = do
  check (is_uuid h.snapshot.id)
  some (plainly sessions_delete (record no_input { id = some h.snapshot.id }))

unfoldable pub open_session : {A : Type 0} → Handle → Option (Call A A)
open_session h = do
  check (is_uuid h.snapshot.id)
  some (plainly sessions_open (record no_input { id = some h.snapshot.id }))

unfoldable pub checkpoint : {A : Type 0} → Handle → Value → Option (Call A A)
checkpoint h name = do
  s ← name_value name
  check (is_uuid h.snapshot.id)
  some (
      plainly sessions_checkpoint (record no_input {
        id = some h.snapshot.id;
        body = some (json (("name", Json.string s) ∷ []));
      }))

-- The members of a body that stand for a command.
unfoldable pub command_members : Value → Option (List (String × Json))
command_members (Value.string s) = do
  check (leb 1 (length s))
  some (("command", Json.string s) ∷ [])
command_members (Value.array (item first more)) = do
  command ← string_value first
  args ← map_values string_value more
  some (("command", Json.string command) ∷ ("args", Json.array (items_json Json.string args)) ∷ [])
command_members _ = none

abbrev number_member : String → Option ℕ → List (String × Json) → List (String × Json)
number_member name none more = more
number_member name (some n) more = (name, natural n) ∷ more

abbrev joined : List (String × Json) → List (String × Json) → List (String × Json)
joined [] more = more
joined (m ∷ ms) more = m ∷ joined ms more

-- `prepareExec`
unfoldable pub prepare_exec : (command options : Value) → Option (Json × Option ℕ)
prepare_exec command options = do
  members ← command_members command
  source ← options_of ("cwd" ∷ "timeoutSecs" ∷ []) options
  cwd ← unless_undefined string_value (read "cwd" source)
  timeout_secs ← unless_undefined (integer_value 1 600) (read "timeoutSecs" source)
  some (
    json
        (joined members (optional_member "cwd" cwd (number_member "timeout_secs" timeout_secs []))),
    timeout_secs,
  )

unfoldable pub exec : {A : Type 0} → Handle → (command options : Value) → Option (Call A A)
exec h command options = do
  (body, timeout_secs) ← prepare_exec command options
  check (is_uuid h.snapshot.id)
  some (
      plainly sessions_exec (record no_input {
        id = some h.snapshot.id;
        body = some body;
        timeout_secs = timeout_secs;
      }))

-- `SessionsManagerImplementation.list`
unfoldable pub list : Call (List SessionSnapshot) (List Handle)
list = record {
  key = sessions_list;
  input = no_input;
  settle = λ snapshots. some (map (λ s. record { snapshot = s }) snapshots);
  status = 200;
}

-- `SessionsManagerImplementation.get`
unfoldable pub get : Value → Option (Call SessionSnapshot Handle)
get session_id = do
  id ← uuid_value session_id
  some (record {
    key = sessions_get;
    input = record no_input { id = some id };
    settle = λ s. given (same s.id id) (record { snapshot = s });
    status = 200;
  })

-- `RecordsManagerImplementation.list`
unfoldable pub list_records : {A : Type 0} → Call (List A) (List A)
list_records = plainly records_list no_input

-- `Cuna.me`
unfoldable pub me_call : {A : Type 0} → Call A A
me_call = plainly me_get no_input

-- `MachineCreatesManagerImplementation`
unfoldable pub get_create : {A : Type 0} → Value → Option (Call A A)
get_create request_id = do
  id ← uuid_value request_id
  some (plainly machine_creates_get (record no_input { id = some id }))

unfoldable pub reconcile_create : {A : Type 0} → Value → Option (Call A A)
reconcile_create request_id = do
  id ← uuid_value request_id
  some (plainly machine_creates_reconcile (record no_input { id = some id }))

-- What is left of an answer where the resource that it names matters.
abbrev is_resource : Option Text → Option Text → Bool
is_resource subject none = true
is_resource none (some id) = false
is_resource (some s) (some id) = same s id

-- The resource of the account is none, and any other one's is given.
abbrev no_resource : Value → Option (Option Text)
no_resource Value.undefined = some none
no_resource _ = none

abbrev some_resource : Value → Option (Option Text)
some_resource value = do id ← uuid_value value; some (some id)

-- `CapabilitiesManagerImplementation.get`; of an answer its scope and its subject are given.
unfoldable pub get_capabilities :
    {A : Type 0}
    → (subject_scope : A → Text) → (subject_id : A → Option Text) → (scope resource_id : Value)
    → Option (Call A A)
get_capabilities subject_scope subject_id scope resource_id = do
  s ← text_value (one_of ("account" ∷ "machine" ∷ "agent_session" ∷ [])) scope
  resource ← (if same s (lit "account") then no_resource resource_id else some_resource resource_id)
  some (record {
    key = capabilities_get;
    input = record no_input {
      query = some ((lit "scope", s) ∷ parameter "resource_id" resource []);
    };
    settle = λ a. given (same (subject_scope a) s && is_resource (subject_id a) resource) a;
    status = 200;
  })
