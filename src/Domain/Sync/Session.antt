-- ===== src/Domain/Sync/Session.antt =====
-- The decoders of src/domain.ts for a synchronisation session and what answers a manifest page.
use cuna_lib_ts.Base.{Option, some, [], ◌∷◌}
use cuna_lib_ts.Json.{Json}
use cuna_lib_ts.Domain.Read.{
  ◌>>=◌, get, closed, items_of, safe_integer, uuid, sha256, enum_value, optional_of, map_items,
}
use cuna_lib_ts.Domain.Dates.{date_time}
use cuna_lib_ts.Domain.Sync.Records.{Outside, SyncSession, ManifestReceipt}
use cuna_lib_ts.Domain.Sync.Entries.{sync_protocol, sync_capabilities}

module _ (out : Outside) where
  open out use {date_parse}

  -- `syncSession`
  unfoldable pub sync_session : Json → Option SyncSession
  sync_session value = do
    source ←
        closed
          ("id" ∷ "workspace_id" ∷ "machine_id" ∷ "base_generation" ∷ "exclusion_policy_digest"
            ∷ "selected_protocol" ∷ "capabilities" ∷ "state" ∷ "manifest_entry_count"
            ∷ "manifest_encoded_bytes" ∷ "content_bytes" ∷ "expires_at" ∷ "created_at"
            ∷ "updated_at" ∷ [])
          ("last_page_index" ∷ "committed_generation" ∷ "committed_manifest_root" ∷ []) value
    selected_protocol ← sync_protocol (← get "selected_protocol" source)
    capabilities ← sync_capabilities (← get "capabilities" source)
    last_page_index ← optional_of (safe_integer 0) (get "last_page_index" source)
    committed_generation ← optional_of (safe_integer 1) (get "committed_generation" source)
    committed_manifest_root ← optional_of sha256 (get "committed_manifest_root" source)
    id ← uuid (← get "id" source)
    workspace_id ← uuid (← get "workspace_id" source)
    machine_id ← uuid (← get "machine_id" source)
    base_generation ← safe_integer 0 (← get "base_generation" source)
    exclusion_policy_digest ← sha256 (← get "exclusion_policy_digest" source)
    state ←
        enum_value ("staging" ∷ "committed" ∷ "conflicted" ∷ "expired" ∷ []) (← get "state" source)
    manifest_entry_count ← safe_integer 0 (← get "manifest_entry_count" source)
    manifest_encoded_bytes ← safe_integer 0 (← get "manifest_encoded_bytes" source)
    content_bytes ← safe_integer 0 (← get "content_bytes" source)
    expires_at ← date_time date_parse (← get "expires_at" source)
    created_at ← date_time date_parse (← get "created_at" source)
    updated_at ← date_time date_parse (← get "updated_at" source)
    some (record {
      id = id;
      workspace_id = workspace_id;
      machine_id = machine_id;
      base_generation = base_generation;
      exclusion_policy_digest = exclusion_policy_digest;
      selected_protocol = selected_protocol;
      capabilities = capabilities;
      state = state;
      manifest_entry_count = manifest_entry_count;
      manifest_encoded_bytes = manifest_encoded_bytes;
      content_bytes = content_bytes;
      last_page_index = last_page_index;
      committed_generation = committed_generation;
      committed_manifest_root = committed_manifest_root;
      expires_at = expires_at;
      created_at = created_at;
      updated_at = updated_at;
    })

  -- `syncManifestReceipt`
  unfoldable pub sync_manifest_receipt : Json → Option ManifestReceipt
  sync_manifest_receipt value = do
    source ← closed ("sync" ∷ "page_index" ∷ "page_digest" ∷ "missing_digests" ∷ []) [] value
    items ← items_of (← get "missing_digests" source)
    sync ← sync_session (← get "sync" source)
    page_index ← safe_integer 0 (← get "page_index" source)
    page_digest ← sha256 (← get "page_digest" source)
    missing_digests ← map_items sha256 items
    some (record {
      sync = sync;
      page_index = page_index;
      page_digest = page_digest;
      missing_digests = missing_digests;
    })
