-- ===== src/Requests/Sync/Sent.antt =====
-- A manifest entry is sent in the form in which the service's own entries are accepted.
use cuna_lib_ts.Base.{
  ◌≡◌, ◌≤◌, refl, ap, ℕ, suc, true, leb, le→leb, Option, none, some, List, [], ◌∷◌, Text, lit, same,
  length, All, arith,
}
use cuna_lib_ts.Json.{whole, Json}
use cuna_lib_ts.Domain.Grammar.{between, one_of, is_sha256}
use cuna_lib_ts.Domain.Grammar.Sizes.{size-le-length, size_nonempty}
use cuna_lib_ts.Domain.Read.{
  ◌>>=◌, ◌>>◌, check, exact, get, max_safe, bounded_string, map_items, count_items, nullable,
}
use cuna_lib_ts.Domain.Read.Accepts.{
  safe_integer-whole, sha256-string, bounded_string-string, enum_value-string,
}
use cuna_lib_ts.Domain.Chains.{>>=-some, >>-some, some_injective}
use cuna_lib_ts.Domain.Sync.Records.{ManifestEntry, ChunkReference}
use cuna_lib_ts.Domain.Sync.Entries.{max_chunk, chunk_reference, sync_manifest_entry}
use cuna_lib_ts.Requests.Value.{
  Value, Values, no_more, item, text_value, integer_value, unless_null, count_values, map_values,
}
use cuna_lib_ts.Requests.Sync.Entries.{
  chunk_value, entry_value, chunk_json, entry_json, items_json, nullable_json, manifest_entry,
}
use cuna_lib_ts.Requests.Value.Laws.{text_value-satisfies}

abbrev IsChunk : ChunkReference → Type 0
IsChunk c = (is_sha256 c.digest ≡ true) × (c.byte_length ≤ max_chunk)

record IsEntry (e : ManifestEntry) : Type 0 where
  path_there : 1 ≤ length e.path
  path_short : length e.path ≤ 4096
  kind_known : one_of ("directory" ∷ "file" ∷ "symlink" ∷ []) e.kind ≡ true
  link_short : (s : Text) → e.link_target ≡ some s → length s ≤ 4096
  chunks_few : length e.chunks ≤ 4096
  chunks_sound : All IsChunk e.chunks
  length_safe : e.byte_length ≤ max_safe

integer_value-between :
    (m n : ℕ) (value : Value) {k : ℕ}
    → integer_value m n value ≡ some k
    → (m ≤ k) × (k ≤ n) × (k ≤ max_safe)
unfolding integer_value
integer_value-between m n (Value.number (whole k)) h = ground arith
integer_value-between m n _ h = absurd (ground arith)

map_values-length :
    {A : Type 0} (f : Value → Option A) (values : Values) {as' : List A}
    → map_values f values ≡ some as'
    → length as' ≡ count_values values
unfolding map_values count_values
map_values-length f no_more h = rw (some_injective h) refl
map_values-length f (item value values) h =
    let (a, _, h1) = >>=-some h in
    let (rest, e, h2) = >>=-some h1 in
    let n = map_values-length f values e in rw (some_injective h2) (omega arith)

map_values-All :
    {A : Type 0} (P : A → Type 0) (f : Value → Option A)
    → ((value : Value) (a : A) → f value ≡ some a → P a)
    → (values : Values) {as' : List A} → map_values f values ≡ some as'
    → All P as'
unfolding map_values
map_values-All P f p no_more h = rw (some_injective h) tt
map_values-All P f p (item value values) h =
    let (a, e, h1) = >>=-some h in
    let (rest, g, h2) = >>=-some h1 in
    rw (some_injective h2) (p value a e, map_values-All P f p values g)

chunk_value-IsChunk : (value : Value) (c : ChunkReference) → chunk_value value ≡ some c → IsChunk c
unfolding chunk_value
chunk_value-IsChunk value c h =
    let (_, _, h1) = >>=-some h in
    let (_, d, h2) = >>=-some h1 in
    let (_, n, h3) = >>=-some h2 in
    let (_, le, _) = integer_value-between 0 max_chunk _ n in
    rw (some_injective h3) (text_value-satisfies is_sha256 _ d, le)

unless_null-short :
    (value : Value) {o : Option Text}
    → unless_null (text_value (λ s. leb (length s) 4096)) value ≡ some o
    → (s : Text) → o ≡ some s
    → length s ≤ 4096
unless_null-short Value.null h s e = absurd (ground arith)
unless_null-short value h s e =
    let (a, t, h1) = >>=-some h in
    let le = text_value-satisfies (λ s. leb (length s) 4096) _ t in ground arith

entry_value-IsEntry : (value : Value) {e : ManifestEntry} → entry_value value ≡ some e → IsEntry e
unfolding entry_value
entry_value-IsEntry value h =
    let (source, _, h1) = >>=-some h in
    let (path, p, h2) = >>=-some h1 in
    let (_, k, h3) = >>=-some h2 in
    let (_, _, h4) = >>=-some h3 in
    let (_, l, h5) = >>=-some h4 in
    let (values, _, h6) = >>=-some h5 in
    let (few, h7) = >>-some h6 in
    let (_, c, h8) = >>=-some h7 in
    let (_, b, h9) = >>=-some h8 in
    let between_them = text_value-satisfies (λ s. between 1 4096 (length s)) _ p in
    let n = map_values-length chunk_value values c in
    let (_, _, safe) = integer_value-between 0 max_safe _ b in
    rw (some_injective h9) (record {
      path_there = ground arith;
      path_short = ground arith;
      kind_known = text_value-satisfies _ _ k;
      link_short = unless_null-short _ l;
      chunks_few = ground arith;
      chunks_sound = map_values-All IsChunk chunk_value chunk_value-IsChunk values c;
      length_safe = safe;
    })

chunk_reference-chunk_json :
    (c : ChunkReference) → IsChunk c → chunk_reference (chunk_json c) ≡ some c
unfolding chunk_reference ◌>>=◌ ◌>>◌ check exact get same lit
chunk_reference-chunk_json c (d, n) =
    rw
      (
        safe_integer-whole 0 c.byte_length (omega arith) (omega arith),
        le→leb c.byte_length max_chunk n,
        sha256-string c.digest d,
      )
      refl

map_items-items_json :
    {A : Type 0} (P : A → Type 0) (f : Json → Option A) (g : A → Json)
    → ((a : A) → P a → f (g a) ≡ some a)
    → (as' : List A) → All P as'
    → map_items f (items_json g as') ≡ some as'
unfolding map_items ◌>>=◌
map_items-items_json P f g h [] p = refl
map_items-items_json P f g h (a ∷ as') (p, q) = rw (h a p, map_items-items_json P f g h as' q) refl

count_items-items_json :
    {A : Type 0} (g : A → Json) (as' : List A) → count_items (items_json g as') ≡ length as'
unfolding count_items
count_items-items_json g [] = refl
count_items-items_json g (a ∷ as') = ap suc (count_items-items_json g as')

link_read :
    (o : Option Text)
    → ((s : Text) → o ≡ some s → length s ≤ 4096)
    → nullable (bounded_string 0 4096) (nullable_json o) ≡ some o
unfolding ◌>>=◌
link_read none h = refl
link_read (some s) h =
    let le = size-le-length s in
    let short = h s refl in rw (bounded_string-string 0 4096 s (omega arith) (omega arith)) refl

sync_manifest_entry-entry_json :
    (e : ManifestEntry) → IsEntry e → sync_manifest_entry (entry_json e) ≡ some e
unfolding sync_manifest_entry entry_json ◌>>=◌ ◌>>◌ check exact get same lit
sync_manifest_entry-entry_json e v =
    let short = v.path_short in
    let le = size-le-length e.path in
    let n = size_nonempty e.path v.path_there in
    rw
      (
        bounded_string-string 1 4096 e.path n (omega arith),
        enum_value-string ("directory" ∷ "file" ∷ "symlink" ∷ []) e.kind v.kind_known,
        count_items-items_json chunk_json e.chunks,
        le→leb (length e.chunks) 4096 v.chunks_few,
        link_read e.link_target v.link_short,
        map_items-items_json IsChunk chunk_reference chunk_json chunk_reference-chunk_json e.chunks
            v.chunks_sound,
        safe_integer-whole 0 e.byte_length (omega arith) v.length_safe,
      )
      refl

-- Every manifest entry that the client sends is one that its own decoder of the service's entries reads
-- back as the entry that the caller gave: path, kind, length, flag, chunks and link.
pub sync_manifest_entry-manifest_entry :
    (value : Value) {body : Json}
    → manifest_entry value ≡ some body
    → (e : ManifestEntry) × (entry_value value ≡ some e) × (sync_manifest_entry body ≡ some e)
unfolding manifest_entry
sync_manifest_entry-manifest_entry value h =
    let (e, v, h1) = >>=-some h in
    (e, v, rw (some_injective h1) (sync_manifest_entry-entry_json e (entry_value-IsEntry value v)))
