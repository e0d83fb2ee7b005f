-- ===== src/Domain/Sync/Changes.antt =====
-- The decoders of src/domain.ts for a commit, the changes after a generation and a reconciliation.
use cuna_lib_ts.Base.{
  leb, Bool, true, ◌&&◌, ◌||◌, not, Option, some, List, [], ◌∷◌, Text, same, is_some, lit,
}
use cuna_lib_ts.Json.{Json}
use cuna_lib_ts.Domain.Read.{
  ◌>>=◌, ◌>>◌, check, get, closed, items_of, safe_integer, sha256, bounded_string, enum_value,
  nullable, map_items, count_items,
}
use cuna_lib_ts.Domain.Dates.{date_time}
use cuna_lib_ts.Domain.Sync.Records.{
  Outside, ManifestEntry, CommitReceipt, ChangeItem, ChangePage, ReconcileReceipt,
}
use cuna_lib_ts.Domain.Sync.Entries.{sync_protocol, sync_manifest_entry}

-- The test of `syncChangeItem` on the operation, the path and the entry.
abbrev pub is_change : Text → Option Text → Option ManifestEntry → Bool
is_change operation path entry = not (
    (same operation (lit "revision") && (is_some path || is_some entry))
    || ((same operation (lit "delete") && (not (is_some path) || is_some entry))
        || (same operation (lit "upsert") && (not (is_some path) || not (is_some entry)))))

module _ (out : Outside) where
  open out use {date_parse}

  -- `syncCommitReceipt`, whose `state` is always "committed".
  unfoldable pub sync_commit_receipt : Json → Option CommitReceipt
  sync_commit_receipt value = do
    source ←
        closed
          ("selected_protocol" ∷ "state" ∷ "generation" ∷ "manifest_root" ∷ "committed_at"
            ∷ "minimum_reader" ∷ "minimum_writer" ∷ [])
          [] value
    _ ← enum_value ("committed" ∷ []) (← get "state" source)
    selected_protocol ← sync_protocol (← get "selected_protocol" source)
    generation ← safe_integer 1 (← get "generation" source)
    manifest_root ← sha256 (← get "manifest_root" source)
    committed_at ← date_time date_parse (← get "committed_at" source)
    minimum_reader ← safe_integer 1 (← get "minimum_reader" source)
    minimum_writer ← safe_integer 1 (← get "minimum_writer" source)
    some (record {
      selected_protocol = selected_protocol;
      generation = generation;
      manifest_root = manifest_root;
      committed_at = committed_at;
      minimum_reader = minimum_reader;
      minimum_writer = minimum_writer;
    })

  -- `syncChangeItem`
  unfoldable pub sync_change_item : Json → Option ChangeItem
  sync_change_item value = do
    source ←
        closed
          ("generation" ∷ "operation" ∷ "path" ∷ "entry" ∷ "manifest_root"
            ∷ "exclusion_policy_digest" ∷ "committed_at" ∷ "minimum_reader" ∷ "minimum_writer" ∷ [])
          [] value
    operation ← enum_value ("revision" ∷ "upsert" ∷ "delete" ∷ []) (← get "operation" source)
    path ← nullable (bounded_string 0 4096) (← get "path" source)
    entry ← nullable sync_manifest_entry (← get "entry" source)
    check (is_change operation path entry)
    generation ← safe_integer 1 (← get "generation" source)
    manifest_root ← sha256 (← get "manifest_root" source)
    exclusion_policy_digest ← sha256 (← get "exclusion_policy_digest" source)
    committed_at ← date_time date_parse (← get "committed_at" source)
    minimum_reader ← safe_integer 1 (← get "minimum_reader" source)
    minimum_writer ← safe_integer 1 (← get "minimum_writer" source)
    some (record {
      generation = generation;
      operation = operation;
      path = path;
      entry = entry;
      manifest_root = manifest_root;
      exclusion_policy_digest = exclusion_policy_digest;
      committed_at = committed_at;
      minimum_reader = minimum_reader;
      minimum_writer = minimum_writer;
    })

-- Whether no item is of an earlier generation than the one before it.
unfoldable pub in_order : List ChangeItem → Bool
in_order [] = true
in_order (item ∷ []) = true
in_order (item ∷ next ∷ items) = leb item.generation next.generation && in_order (next ∷ items)

-- `syncChangePage`
unfoldable pub sync_change_page : Outside → Json → Option ChangePage
sync_change_page out value = do
  source ← closed ("selected_protocol" ∷ "items" ∷ "next_cursor" ∷ []) [] value
  sent ← items_of (← get "items" source)
  check (leb (count_items sent) 1000)
  next_cursor ← nullable (bounded_string 0 1024) (← get "next_cursor" source)
  items ← map_items (sync_change_item out) sent
  check (in_order items)
  selected_protocol ← sync_protocol (← get "selected_protocol" source)
  some (record { selected_protocol = selected_protocol; items = items; next_cursor = next_cursor })

-- `syncReconcileReceipt`
unfoldable pub sync_reconcile_receipt : Json → Option ReconcileReceipt
sync_reconcile_receipt value = do
  source ←
      closed
        ("selected_protocol" ∷ "status" ∷ "active_generation" ∷ "active_manifest_root"
          ∷ "exclusion_policy_digest" ∷ [])
        [] value
  selected_protocol ← sync_protocol (← get "selected_protocol" source)
  status ← enum_value ("converged" ∷ "reconciliation_required" ∷ []) (← get "status" source)
  active_generation ← safe_integer 0 (← get "active_generation" source)
  active_manifest_root ← sha256 (← get "active_manifest_root" source)
  exclusion_policy_digest ← sha256 (← get "exclusion_policy_digest" source)
  some (record {
    selected_protocol = selected_protocol;
    status = status;
    active_generation = active_generation;
    active_manifest_root = active_manifest_root;
    exclusion_policy_digest = exclusion_policy_digest;
  })
