-- ===== src/Requests/Sync/Methods.antt =====
-- The methods of `WorkspaceSyncManagerImplementation`. The answer to each is the envelope of its
-- operation; the transport makes no other of it.
use cuna_lib_ts.Base.{
  ℕ, ◌+◌, Bool, ◌&&◌, ◌==◌, leb, Option, none, some, List, [], ◌∷◌, Text, same, lit, length, String,
}
use cuna_lib_ts.Contract.{
  workspaces_sync_begin, workspaces_sync_negotiate, workspaces_sync_chunk,
  workspaces_sync_chunk_download, workspaces_sync_commit, workspaces_sync_changes,
  workspaces_sync_reconcile,
}
use cuna_lib_ts.Domain.Grammar.{is_sha256, is_uuid, between}
use cuna_lib_ts.Domain.Read.{◌>>=◌, ◌>>◌, check}
use cuna_lib_ts.Domain.Sync.Entries.{max_chunk}
use cuna_lib_ts.Domain.Sync.Envelope.{
  SyncData, SyncEnvelope, session, manifest, stored_chunk, chunk_content, committed, reconciled,
}
use cuna_lib_ts.Requests.Value.{
  Value, plain_object, named_in, owned, read, text_value, integer_value, unless_undefined,
  is_idempotency_key, decimal,
}
use cuna_lib_ts.Requests.Call.{Call, no_input, given}
use cuna_lib_ts.Requests.Sync.Bodies.{
  BeginRequest, PageRequest, CommitRequest, ReconcileRequest, ProtocolRange, begin_value,
  begin_json, page_value, page_json, commit_value, commit_json, reconcile_value, reconcile_json,
  at_least,
}

abbrev pub uuid_value : Value → Option Text
uuid_value = text_value is_uuid

abbrev pub digest_value : Value → Option Text
digest_value = text_value is_sha256

-- `key`
abbrev pub key_value : Value → Option Text
key_value = text_value is_idempotency_key

-- Whether the selected protocol is one of those that were asked for.
abbrev pub in_range : ProtocolRange → SyncEnvelope → Bool
in_range range e = leb range.minimum e.selected_protocol && leb e.selected_protocol range.maximum

abbrev pub began : Text → BeginRequest → SyncEnvelope → SyncData → Bool
began workspace_id r e (session a) =
    same a.workspace_id workspace_id
    && same a.machine_id r.machine_id
    && (a.base_generation == r.base_generation
        && (same a.exclusion_policy_digest r.exclusion_policy_digest && in_range r.protocol e))
began workspace_id r e _ = Bool.false

unfoldable pub begin :
    (workspace_id request idempotency_key : Value) → Option (Call SyncEnvelope SyncEnvelope)
begin workspace_id request idempotency_key = do
  id ← uuid_value workspace_id
  r ← begin_value request
  key ← key_value idempotency_key
  some (record {
    key = workspaces_sync_begin;
    input = record no_input {
      id = some id;
      body = some (begin_json r);
      idempotency_key = some key;
    };
    settle = λ e. given (began id r e e.payload) e;
    status = 200;
  })

abbrev pub negotiated : Text → PageRequest → SyncData → Bool
negotiated sync_id r (manifest a) = same a.sync.id sync_id && a.page_index == r.page_index
negotiated sync_id r _ = Bool.false

unfoldable pub negotiate :
    (sync_id request idempotency_key : Value) → Option (Call SyncEnvelope SyncEnvelope)
negotiate sync_id request idempotency_key = do
  id ← uuid_value sync_id
  r ← page_value request
  key ← key_value idempotency_key
  some (record {
    key = workspaces_sync_negotiate;
    input = record no_input { id = some id; body = some (page_json r); idempotency_key = some key };
    settle = λ e. given (negotiated id r e.payload) e;
    status = 200;
  })

abbrev pub uploaded : Text → ℕ → SyncData → Bool
uploaded digest n (stored_chunk a) = same a.digest digest && a.byte_length == n
uploaded digest n _ = Bool.false

-- `bytes` is none where the argument is no `Uint8Array`.
unfoldable pub upload_chunk :
    (sync_id expected_digest : Value) (bytes : Option (List ℕ)) (idempotency_key : Value)
    → Option (Call SyncEnvelope SyncEnvelope)
upload_chunk sync_id expected_digest bytes idempotency_key = do
  id ← uuid_value sync_id
  digest ← digest_value expected_digest
  content ← bytes
  check (leb (length content) max_chunk)
  key ← key_value idempotency_key
  some (record {
    key = workspaces_sync_chunk;
    input = record no_input {
      id = some id;
      digest = some digest;
      bytes = some content;
      idempotency_key = some key;
    };
    settle = λ e. given (uploaded digest (length content) e.payload) e;
    status = 200;
  })

-- The bytes of an answer with the digest, the protocol of its envelope, and a reader that there is.
abbrev pub downloaded : Text → SyncEnvelope → SyncData → Option (List ℕ)
downloaded digest e (chunk_content a) =
    given
      (same a.digest digest
        && (a.selected_protocol == e.selected_protocol && leb a.minimum_reader 2))
      a.bytes
downloaded digest e _ = none

unfoldable pub download_chunk :
    (sync_id expected_digest : Value) → Option (Call SyncEnvelope (List ℕ))
download_chunk sync_id expected_digest = do
  id ← uuid_value sync_id
  digest ← digest_value expected_digest
  some (record {
    key = workspaces_sync_chunk_download;
    input = record no_input { id = some id; digest = some digest };
    settle = λ e. downloaded digest e e.payload;
    status = 200;
  })

abbrev pub advanced : CommitRequest → SyncData → Bool
advanced r (committed a) =
    same a.manifest_root r.manifest_root
    && a.generation == r.expected_generation + 1
    && (a.minimum_reader == r.minimum_reader && a.minimum_writer == r.minimum_writer)
advanced r _ = Bool.false

unfoldable pub commit :
    (sync_id request idempotency_key : Value) → Option (Call SyncEnvelope SyncEnvelope)
commit sync_id request idempotency_key = do
  id ← uuid_value sync_id
  r ← commit_value request
  key ← key_value idempotency_key
  some (record {
    key = workspaces_sync_commit;
    input = record no_input {
      id = some id;
      body = some (commit_json r);
      idempotency_key = some key;
    };
    settle = λ e. given (advanced r e.payload) e;
    status = 200;
  })

-- A parameter of a query that may be missing.
abbrev pub parameter : String → Option Text → List (Text × Text) → List (Text × Text)
parameter name none more = more
parameter name (some s) more = (lit name, s) ∷ more

abbrev pub decimal_of : Option ℕ → Option Text
decimal_of none = none
decimal_of (some n) = some (decimal n)

unfoldable pub changes : (sync_id options : Value) → Option (Call SyncEnvelope SyncEnvelope)
changes sync_id options = do
  id ← uuid_value sync_id
  source ← plain_object options
  check
      (named_in ("readerVersion" ∷ "cursor" ∷ "limit" ∷ []) source && owned "readerVersion" source)
  reader_version ← at_least 1 (read "readerVersion" source)
  cursor ← unless_undefined (text_value (λ s. between 1 1024 (length s))) (read "cursor" source)
  limit ← unless_undefined (integer_value 1 1000) (read "limit" source)
  some (record {
    key = workspaces_sync_changes;
    input = record no_input {
      id = some id;
      query = some (
          (lit "reader_version", decimal reader_version)
          ∷ parameter "cursor" cursor (parameter "limit" (decimal_of limit) []));
    };
    settle = λ e. given (leb e.selected_protocol reader_version) e;
    status = 200;
  })

abbrev pub converging : ReconcileRequest → SyncEnvelope → SyncData → Bool
converging r e (reconciled a) =
    same a.exclusion_policy_digest r.exclusion_policy_digest && in_range r.protocol e
converging r e _ = Bool.false

unfoldable pub reconcile :
    (workspace_id request idempotency_key : Value) → Option (Call SyncEnvelope SyncEnvelope)
reconcile workspace_id request idempotency_key = do
  id ← uuid_value workspace_id
  r ← reconcile_value request
  key ← key_value idempotency_key
  some (record {
    key = workspaces_sync_reconcile;
    input = record no_input {
      id = some id;
      body = some (reconcile_json r);
      idempotency_key = some key;
    };
    settle = λ e. given (converging r e e.payload) e;
    status = 200;
  })
