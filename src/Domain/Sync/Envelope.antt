-- ===== src/Domain/Sync/Envelope.antt =====
-- `decodeWorkspaceSyncEnvelope` of src/domain.ts, for each of the seven operations.
use cuna_lib_ts.Base.{ℕ, ◌==◌, Bool, true, false, ◌&&◌, Option, some, List, [], ◌∷◌, Text, same}
use cuna_lib_ts.Json.{Json}
use cuna_lib_ts.Domain.Read.{◌>>=◌, ◌>>◌, check, get, closed, uuid}
use cuna_lib_ts.Domain.Sync.Records.{
  Outside, SyncSession, ManifestReceipt, ChunkReceipt, ChunkContent, CommitReceipt, ChangePage,
  ReconcileReceipt,
}
use cuna_lib_ts.Domain.Sync.Entries.{sync_protocol, sync_capabilities}
use cuna_lib_ts.Domain.Sync.Session.{sync_session, sync_manifest_receipt}
use cuna_lib_ts.Domain.Sync.Chunks.{sync_chunk_receipt, sync_chunk_content}
use cuna_lib_ts.Domain.Sync.Changes.{sync_commit_receipt, sync_change_page, sync_reconcile_receipt}

-- `WorkspaceSyncOperation`
pub data SyncOperation : Type 0 where
  begin : SyncOperation
  negotiate : SyncOperation
  chunk : SyncOperation
  chunk_download : SyncOperation
  commit : SyncOperation
  changes : SyncOperation
  reconcile : SyncOperation

pub data SyncData : Type 0 where
  session : SyncSession → SyncData
  manifest : ManifestReceipt → SyncData
  stored_chunk : ChunkReceipt → SyncData
  chunk_content : ChunkContent → SyncData
  committed : CommitReceipt → SyncData
  change_page : ChangePage → SyncData
  reconciled : ReconcileReceipt → SyncData

pub record SyncEnvelope : Type 0 where
  pub request_id : Text
  pub selected_protocol : ℕ
  pub capabilities : List Text
  pub payload : SyncData

-- The conditional expression that selects the decoder of `data`.
unfoldable pub sync_data : Outside → SyncOperation → Json → Option SyncData
sync_data out begin value = do a ← sync_session out value; some (session a)
sync_data out negotiate value = do a ← sync_manifest_receipt out value; some (manifest a)
sync_data out chunk value = do a ← sync_chunk_receipt out value; some (stored_chunk a)
sync_data out chunk_download value = do a ← sync_chunk_content out value; some (chunk_content a)
sync_data out commit value = do a ← sync_commit_receipt out value; some (committed a)
sync_data out changes value = do a ← sync_change_page out value; some (change_page a)
sync_data out reconcile value = do a ← sync_reconcile_receipt value; some (reconciled a)

-- `nestedProtocol`
unfoldable pub nested_protocol : SyncData → ℕ
nested_protocol (session a) = a.selected_protocol
nested_protocol (manifest a) = a.sync.selected_protocol
nested_protocol (stored_chunk a) = a.selected_protocol
nested_protocol (chunk_content a) = a.selected_protocol
nested_protocol (committed a) = a.selected_protocol
nested_protocol (change_page a) = a.selected_protocol
nested_protocol (reconciled a) = a.selected_protocol

unfoldable pub same_names : List Text → List Text → Bool
same_names [] [] = true
same_names (s ∷ ss) (t ∷ ts) = same s t && same_names ss ts
same_names _ _ = false

-- The last test, of `"capabilities" in data`.
unfoldable pub has_capabilities : List Text → SyncData → Bool
has_capabilities capabilities (session a) = same_names a.capabilities capabilities
has_capabilities capabilities _ = true

unfoldable pub decode_workspace_sync_envelope : Outside → SyncOperation → Json → Option SyncEnvelope
decode_workspace_sync_envelope out operation value = do
  source ← closed ("request_id" ∷ "selected_protocol" ∷ "capabilities" ∷ "data" ∷ []) [] value
  selected_protocol ← sync_protocol (← get "selected_protocol" source)
  capabilities ← sync_capabilities (← get "capabilities" source)
  payload ← sync_data out operation (← get "data" source)
  check (nested_protocol payload == selected_protocol)
  check (has_capabilities capabilities payload)
  request_id ← uuid (← get "request_id" source)
  some (record {
    request_id = request_id;
    selected_protocol = selected_protocol;
    capabilities = capabilities;
    payload = payload;
  })
