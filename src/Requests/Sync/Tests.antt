-- ===== src/Requests/Sync/Tests.antt =====
-- Calls of the synchronisation manager, and the theorems at them.
use cuna_lib_ts.Requests.Samples.{an_id, a_digest, members, number, id_value, sha_value, a_key}
use cuna_lib_ts.Requests.Sync.Methods
use cuna_lib_ts.Base.{refl}
use cuna_lib_ts.Domain.Read.{◌>>=◌, ◌>>◌, check}
use cuna_lib_ts.Requests.Value.{
  named_in, owned_all, text_value, read, integer_value, count_values, map_values,
  is_idempotency_key,
}
use cuna_lib_ts.Domain.Grammar.{is_sha256, is_uuid}
use cuna_lib_ts.Requests.Value.{Value, item, no_more}
use cuna_lib_ts.Domain.Sync.Records.{ManifestEntry, SyncSession}
use cuna_lib_ts.Base.{Text, [], lit, ◌∷◌, some, none, false, ◌≡◌}
use cuna_lib_ts.Requests.Call.{perform, Port}
use cuna_lib_ts.Requests.Sync.Bodies.{
  CommitRequest, BeginRequest, commit_value, begin_value, protocol_value,
}
use cuna_lib_ts.Requests.Sync.Entries.{manifest_entry, entry_value, chunk_value, entry_json}
use cuna_lib_ts.Domain.Sync.Envelope.{SyncEnvelope, SyncData, committed, session}
use cuna_lib_ts.Errors.{ok}
use cuna_lib_ts.Requests.Sync.Methods.{uuid_value}
use cuna_lib_ts.Domain.Sync.Entries.{sync_manifest_entry}
use cuna_lib_ts.Requests.Sync.Answered.{Advanced, commit-Advanced, Begun, begin-Begun}
use cuna_lib_ts.Requests.Sync.Sent.{sync_manifest_entry-manifest_entry}

-- A file of two bytes in one chunk.
abbrev file_value : Value
file_value = Value.object (
    members (
      ("path", Value.string (lit "a"))
      ∷ ("kind", Value.string (lit "file"))
      ∷ ("byteLength", number 2)
      ∷ ("executable", Value.boolean false)
      ∷ (
        "chunks",
        Value.array (
            item (Value.object (members (("digest", sha_value) ∷ ("byteLength", number 2) ∷ [])))
              no_more),
      )
      ∷ ("linkTarget", Value.null)
      ∷ []))

abbrev file_entry : ManifestEntry
file_entry = record {
  path = lit "a";
  kind = lit "file";
  byte_length = 2;
  executable = false;
  chunks = record { digest = a_digest; byte_length = 2 } ∷ [];
  link_target = none;
}

file_sent : manifest_entry file_value ≡ some (entry_json file_entry)
unfolding manifest_entry entry_value chunk_value ◌>>=◌ ◌>>◌ check named_in owned_all text_value read
    integer_value is_sha256 count_values map_values
file_sent = refl

sync_manifest_entry-manifest_entry_example :
    (e : ManifestEntry) × (entry_value file_value ≡ some e)
    × (sync_manifest_entry (entry_json file_entry) ≡ some e)
sync_manifest_entry-manifest_entry_example = sync_manifest_entry-manifest_entry file_value file_sent

abbrev range_value : Value
range_value = Value.object (members (("minimum", number 1) ∷ ("maximum", number 2) ∷ []))

abbrev begin_request : Value
begin_request = Value.object (
    members (
      ("workspaceBindingId", id_value)
      ∷ ("machineId", id_value)
      ∷ ("baseGeneration", number 4)
      ∷ ("exclusionPolicyDigest", sha_value)
      ∷ ("protocol", range_value)
      ∷ ("minimumReader", number 1)
      ∷ ("minimumWriter", number 1)
      ∷ []))

abbrev sync_value : SyncSession
sync_value = record {
  id = an_id;
  workspace_id = an_id;
  machine_id = an_id;
  base_generation = 4;
  exclusion_policy_digest = a_digest;
  selected_protocol = 2;
  capabilities = [];
  state = lit "open";
  manifest_entry_count = 0;
  manifest_encoded_bytes = 0;
  content_bytes = 0;
  last_page_index = none;
  committed_generation = none;
  committed_manifest_root = none;
  expires_at = [];
  created_at = [];
  updated_at = [];
}

abbrev envelope : SyncData → SyncEnvelope
envelope d = record { request_id = an_id; selected_protocol = 2; capabilities = []; payload = d }

abbrev sync_answers : SyncData → Port Unit SyncEnvelope
sync_answers d key input = ok (envelope d)

session_begun :
    perform (sync_answers (session sync_value)) (Methods.begin id_value begin_request a_key)
    ≡ ok (envelope (session sync_value))
unfolding Methods.begin begin_value protocol_value perform is_uuid lit is_idempotency_key ◌>>=◌ ◌>>◌
    check named_in owned_all text_value read integer_value is_sha256
session_begun = refl

begin-Begun_example :
    (id : Text) × (r : BeginRequest) × (uuid_value id_value ≡ some id)
    × (begin_value begin_request ≡ some r)
    × Begun id r (envelope (session sync_value))
begin-Begun_example =
    begin-Begun (sync_answers (session sync_value)) id_value begin_request a_key session_begun

abbrev commit_request : Value
commit_request = Value.object (
    members (
      ("expectedGeneration", number 4)
      ∷ ("exclusionPolicyDigest", sha_value)
      ∷ ("manifestRoot", sha_value)
      ∷ ("minimumReader", number 1)
      ∷ ("minimumWriter", number 1)
      ∷ []))

abbrev fifth : SyncEnvelope
fifth = envelope (
    committed (record {
      selected_protocol = 2;
      generation = 5;
      manifest_root = a_digest;
      committed_at = [];
      minimum_reader = 1;
      minimum_writer = 1;
    }))

generation_committed :
    perform (sync_answers fifth.payload) (Methods.commit id_value commit_request a_key) ≡ ok fifth
unfolding Methods.commit commit_value perform is_uuid lit is_idempotency_key ◌>>=◌ ◌>>◌ check
    named_in owned_all text_value read integer_value is_sha256
generation_committed = refl

commit-Advanced_example :
    (r : CommitRequest) × (commit_value commit_request ≡ some r) × Advanced r fifth
commit-Advanced_example =
    commit-Advanced (sync_answers fifth.payload) id_value commit_request a_key generation_committed
