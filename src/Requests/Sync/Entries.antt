-- ===== src/Requests/Sync/Entries.antt =====
-- `manifestEntry` of src/workspace-sync.ts.
use cuna_lib_ts.Base.{leb, Option, none, some, List, [], ◌∷◌, Text, length}
use cuna_lib_ts.Json.{Json, Items, nil, cons}
use cuna_lib_ts.Domain.Grammar.{between, one_of, is_sha256}
use cuna_lib_ts.Domain.Read.{◌>>=◌, ◌>>◌, check, max_safe}
use cuna_lib_ts.Domain.Sync.Records.{ManifestEntry, ChunkReference}
use cuna_lib_ts.Domain.Sync.Entries.{max_chunk}
use cuna_lib_ts.Requests.Value.{
  Value, exactly, read, text_value, boolean_value, values_of, integer_value, unless_null,
  count_values, map_values, json, natural,
}

-- The object that is made of each chunk.
unfoldable pub chunk_value : Value → Option ChunkReference
chunk_value value = do
  chunk ← exactly ("digest" ∷ "byteLength" ∷ []) value
  digest ← text_value is_sha256 (read "digest" chunk)
  byte_length ← integer_value 0 max_chunk (read "byteLength" chunk)
  some (record { digest = digest; byte_length = byte_length })

-- What `manifestEntry` takes from its argument.
unfoldable pub entry_value : Value → Option ManifestEntry
entry_value value = do
  source ←
      exactly ("path" ∷ "kind" ∷ "byteLength" ∷ "executable" ∷ "chunks" ∷ "linkTarget" ∷ []) value
  path ← text_value (λ s. between 1 4096 (length s)) (read "path" source)
  kind ← text_value (one_of ("directory" ∷ "file" ∷ "symlink" ∷ [])) (read "kind" source)
  executable ← boolean_value (read "executable" source)
  link_target ← unless_null (text_value (λ s. leb (length s) 4096)) (read "linkTarget" source)
  values ← values_of (read "chunks" source)
  check (leb (count_values values) 4096)
  chunks ← map_values chunk_value values
  byte_length ← integer_value 0 max_safe (read "byteLength" source)
  some (record {
    path = path;
    kind = kind;
    byte_length = byte_length;
    executable = executable;
    chunks = chunks;
    link_target = link_target;
  })

-- `Object.freeze({ digest: …, byte_length: … })`
abbrev pub chunk_json : ChunkReference → Json
chunk_json chunk =
    json (("digest", Json.string chunk.digest) ∷ ("byte_length", natural chunk.byte_length) ∷ [])

abbrev pub items_json {ℓ} : {A : Type ℓ} → (A → Json) → List A → Items
items_json f [] = nil
items_json f (a ∷ as') = cons (f a) (items_json f as')

abbrev pub nullable_json : Option Text → Json
nullable_json none = Json.null
nullable_json (some s) = Json.string s

-- What `manifestEntry` returns.
unfoldable pub entry_json : ManifestEntry → Json
entry_json e = json (
    ("path", Json.string e.path)
    ∷ ("kind", Json.string e.kind)
    ∷ ("byte_length", natural e.byte_length)
    ∷ ("executable", Json.boolean e.executable)
    ∷ ("chunks", Json.array (items_json chunk_json e.chunks))
    ∷ ("link_target", nullable_json e.link_target)
    ∷ [])

unfoldable pub manifest_entry : Value → Option Json
manifest_entry value = do e ← entry_value value; some (entry_json e)
