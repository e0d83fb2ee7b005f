-- ===== src/Domain/Sync/Entries.antt =====
-- The decoders of src/domain.ts for a protocol version, capabilities and a manifest entry.
use cuna_lib_ts.Base.{
  ℕ, suc, leb, ◌==◌, if◌then◌else◌, Bool, true, false, ◌&&◌, ◌||◌, Option, some, List, [], ◌∷◌,
  Text, String, same, lit,
}
use cuna_lib_ts.Json.{Json}
use cuna_lib_ts.Domain.Read.{
  ◌>>=◌, ◌>>◌, check, get, closed, boolean_of, items_of, safe_integer, sha256, bounded_string,
  enum_value, nullable, map_items, count_items,
}
use cuna_lib_ts.Domain.Sync.Records.{ChunkReference, ManifestEntry}

-- `syncProtocol`
unfoldable pub sync_protocol : Json → Option ℕ
sync_protocol value = do n ← safe_integer 1 value; check (n == 1 || n == 2); some n

-- `WORKSPACE_SYNC_CAPABILITIES`
abbrev pub sync_capability_names : List String
sync_capability_names =
    "atomic_generation_commit" ∷ "bounded_manifest_pages" ∷ "content_digest_verification"
    ∷ "explicit_reconciliation" ∷ "ordered_generation_changes" ∷ "policy_bound_admission" ∷ []

-- `includes`
unfoldable pub includes : List Text → Text → Bool
includes [] s = false
includes (t ∷ ts) s = same t s || includes ts s

-- `new Set(items).size`
unfoldable pub distinct : List Text → ℕ
unfolding includes
distinct [] = 0
distinct (t ∷ ts) = if includes ts t then distinct ts else suc (distinct ts)

unfoldable pub all_included : List String → List Text → Bool
unfolding includes
all_included [] items = true
all_included (name ∷ names) items = includes items (lit name) && all_included names items

-- `syncCapabilities`
unfoldable pub sync_capabilities : Json → Option (List Text)
sync_capabilities value = do
  items ← items_of value
  check (count_items items == 6)
  names ← map_items (enum_value sync_capability_names) items
  check (distinct names == 6 && all_included sync_capability_names names)
  some names

abbrev pub max_chunk : ℕ
max_chunk = 8388608

unfoldable pub chunk_reference : Json → Option ChunkReference
chunk_reference value = do
  chunk ← closed ("digest" ∷ "byte_length" ∷ []) [] value
  n ← safe_integer 0 (← get "byte_length" chunk)
  check (leb n max_chunk)
  d ← sha256 (← get "digest" chunk)
  some (record { digest = d; byte_length = n })

-- `syncManifestEntry`
unfoldable pub sync_manifest_entry : Json → Option ManifestEntry
unfolding chunk_reference
sync_manifest_entry value = do
  source ←
      closed ("path" ∷ "kind" ∷ "byte_length" ∷ "executable" ∷ "chunks" ∷ "link_target" ∷ []) []
        value
  path ← bounded_string 1 4096 (← get "path" source)
  kind ← enum_value ("directory" ∷ "file" ∷ "symlink" ∷ []) (← get "kind" source)
  executable ← boolean_of (← get "executable" source)
  items ← items_of (← get "chunks" source)
  check (leb (count_items items) 4096)
  link_target ← nullable (bounded_string 0 4096) (← get "link_target" source)
  chunks ← map_items chunk_reference items
  byte_length ← safe_integer 0 (← get "byte_length" source)
  some (record {
    path = path;
    kind = kind;
    byte_length = byte_length;
    executable = executable;
    chunks = chunks;
    link_target = link_target;
  })
