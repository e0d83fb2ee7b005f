-- ===== src/Domain/Sync/Chunks.antt =====
-- The decoders of src/domain.ts for a chunk that was stored and a chunk that was sent back.
use cuna_lib_ts.Base.{
  ℕ, leb, ◌==◌, Bool, true, false, ◌&&◌, ◌||◌, Option, some, [], ◌∷◌, Text, same, length,
}
use cuna_lib_ts.Json.{Json}
use cuna_lib_ts.Domain.Grammar.{between}
use cuna_lib_ts.Domain.Read.{
  ◌>>=◌, ◌>>◌, check, get, closed, string_of, boolean_of, safe_integer, sha256,
}
use cuna_lib_ts.Domain.Sync.Records.{Outside, ChunkReceipt, ChunkContent}
use cuna_lib_ts.Domain.Sync.Entries.{sync_protocol, max_chunk}

abbrev ends : Text → Bool
ends [] = true
ends (c ∷ s) = false

-- One character of the base64 alphabet.
is_base64 : ℕ → Bool
is_base64 c =
    between 0x41 0x5a c || between 0x61 0x7a c || between 0x30 0x39 c || c == 0x2b || c == 0x2f

-- `^(?:[A-Za-z0-9+/]{4})*(?:[A-Za-z0-9+/]{2}==|[A-Za-z0-9+/]{3}=)?$`
canonical_base64 : Text → Bool
unfolding is_base64
canonical_base64 [] = true
canonical_base64 (a ∷ b ∷ c ∷ d ∷ s) =
    let more = canonical_base64 s in
    is_base64 a
    && is_base64 b
    && ((is_base64 c && is_base64 d && more) || ((is_base64 c || c == 0x3d) && d == 0x3d && ends s))
canonical_base64 _ = false

module _ (out : Outside) where
  open out use {from_base64, to_base64, digest_of}

  -- `syncChunkReceipt`
  unfoldable pub sync_chunk_receipt : Json → Option ChunkReceipt
  sync_chunk_receipt value = do
    source ← closed ("selected_protocol" ∷ "digest" ∷ "byte_length" ∷ "stored" ∷ []) [] value
    byte_length ← safe_integer 0 (← get "byte_length" source)
    check (leb byte_length max_chunk)
    stored ← boolean_of (← get "stored" source)
    selected_protocol ← sync_protocol (← get "selected_protocol" source)
    digest ← sha256 (← get "digest" source)
    some (record {
      selected_protocol = selected_protocol;
      digest = digest;
      byte_length = byte_length;
      stored = stored;
    })

  -- The test of `syncChunkContent` on what the content decodes to.
  abbrev pub is_content : Text → ℕ → Text → Bool
  is_content text n expected =
      length (from_base64 text) == n
      && (same (to_base64 (from_base64 text)) text && same (digest_of (from_base64 text)) expected)

  -- `syncChunkContent`
  unfoldable pub sync_chunk_content : Json → Option ChunkContent
  unfolding canonical_base64
  sync_chunk_content value = do
    source ←
        closed
          ("selected_protocol" ∷ "digest" ∷ "byte_length" ∷ "minimum_reader" ∷ "content_base64"
            ∷ [])
          [] value
    selected_protocol ← sync_protocol (← get "selected_protocol" source)
    expected ← sha256 (← get "digest" source)
    byte_length ← safe_integer 0 (← get "byte_length" source)
    minimum_reader ← safe_integer 1 (← get "minimum_reader" source)
    check
        (leb byte_length max_chunk && leb minimum_reader 2 && leb minimum_reader selected_protocol)
    text ← string_of (← get "content_base64" source)
    check (canonical_base64 text)
    check (is_content text byte_length expected)
    some (record {
      selected_protocol = selected_protocol;
      digest = expected;
      byte_length = byte_length;
      minimum_reader = minimum_reader;
      bytes = from_base64 text;
    })
