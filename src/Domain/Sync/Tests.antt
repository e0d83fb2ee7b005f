-- ===== src/Domain/Sync/Tests.antt =====
-- Synchronisation answers, and the theorems at them.
use cuna_lib_ts.Transport.Decoding.{sync_operation}
use cuna_lib_ts.Base.{◌≡◌, some, none, refl, [], ◌∷◌, ℕ, Text, lit, same, length, ◌≤◌}
use cuna_lib_ts.Json.{Json, whole, nil, cons, end, field}
use cuna_lib_ts.Domain.Read.{
  ◌>>=◌, ◌>>◌, check, exact, safe_integer, sha256, uuid, enum_value, bounded_string, map_items,
  count_items,
}
use cuna_lib_ts.Requests.Sync.Methods.{download_chunk, digest_value}
use cuna_lib_ts.Requests.Sync.Received.{download_chunk_digested, sync_port}
use cuna_lib_ts.Requests.Value.{Value, text_value}
use cuna_lib_ts.Requests.Call.{perform}
use cuna_lib_ts.Errors.{ok}
use cuna_lib_ts.Domain.Grammar.{is_uuid, is_sha256}
use cuna_lib_ts.Domain.Dates.{date_time}
use cuna_lib_ts.Domain.Sync.Records.{Outside, ChunkContent, ChangeItem, ChangePage}
use cuna_lib_ts.Domain.Sync.Entries.{
  sync_protocol, sync_capabilities, includes, distinct, all_included, max_chunk,
}
use cuna_lib_ts.Domain.Sync.Chunks.{sync_chunk_content}
use cuna_lib_ts.Domain.Sync.Changes.{sync_change_item, sync_change_page, in_order}
use cuna_lib_ts.Domain.Sync.Envelope.{
  SyncEnvelope, changes, change_page, sync_data, nested_protocol, has_capabilities,
  decode_workspace_sync_envelope,
}
use cuna_lib_ts.Domain.Sync.Laws.{
  Verified, sync_chunk_content-Verified, Shaped, sync_change_item-Shaped,
}
use cuna_lib_ts.Domain.Sync.Pages.{
  Paged, sync_change_page-Paged, Coherent, decode_workspace_sync_envelope-Coherent,
}

abbrev digest : Text
digest = lit "0123456789abcdef0123456789abcdef0123456789abcdef0123456789abcdef"

abbrev outside : Outside
outside = record {
  date_parse = λ s. some 0;
  from_base64 = λ s. 104 ∷ 105 ∷ [];
  to_base64 = λ bytes. lit "aGk=";
  digest_of = λ bytes. digest;
}

abbrev text : Text → Json
text s = Json.string s

abbrev number : ℕ → Json
number n = Json.number (whole n)

abbrev chunk_json : Json
chunk_json = Json.object (
    field (lit "selected_protocol") (number 2) (
      field (lit "digest") (text digest) (
        field (lit "byte_length") (number 2) (
          field (lit "minimum_reader") (number 1)
            (field (lit "content_base64") (text (lit "aGk=")) end)))))

abbrev chunk_value : ChunkContent
chunk_value = record {
  selected_protocol = 2;
  digest = digest;
  byte_length = 2;
  minimum_reader = 1;
  bytes = 104 ∷ 105 ∷ [];
}

chunk_accepted : sync_chunk_content outside chunk_json ≡ some chunk_value
unfolding sync_chunk_content ◌>>=◌ ◌>>◌ check exact sync_protocol sha256 safe_integer same lit
chunk_accepted = refl

sync_chunk_content-Verified_example : Verified outside chunk_value
sync_chunk_content-Verified_example = sync_chunk_content-Verified outside chunk_json chunk_accepted

abbrev instant : Text
instant = lit "2026-02-28T12:00:00.5Z"

abbrev change_json : ℕ → Json
change_json generation = Json.object (
    field (lit "generation") (number generation) (
      field (lit "operation") (text (lit "delete")) (
        field (lit "path") (text (lit "a/b")) (
          field (lit "entry") Json.null (
            field (lit "manifest_root") (text digest) (
              field (lit "exclusion_policy_digest") (text digest) (
                field (lit "committed_at") (text instant) (
                  field (lit "minimum_reader") (number 1)
                    (field (lit "minimum_writer") (number 1) end)))))))))

abbrev change_value : ℕ → ChangeItem
change_value generation = record {
  generation = generation;
  operation = lit "delete";
  path = some (lit "a/b");
  entry = none;
  manifest_root = digest;
  exclusion_policy_digest = digest;
  committed_at = instant;
  minimum_reader = 1;
  minimum_writer = 1;
}

change_accepted : sync_change_item outside (change_json 3) ≡ some (change_value 3)
unfolding sync_change_item ◌>>=◌ ◌>>◌ check exact enum_value bounded_string sha256 safe_integer
    date_time same lit
change_accepted = refl

sync_change_item-Shaped_example : Shaped (change_value 3)
sync_change_item-Shaped_example = sync_change_item-Shaped outside (change_json 3) change_accepted

abbrev page_json : Json
page_json = Json.object (
    field (lit "selected_protocol") (number 1) (
      field (lit "items")
        (Json.array (cons (change_json 3) (cons (change_json 3) (cons (change_json 5) nil))))
        (field (lit "next_cursor") Json.null end)))

abbrev page_value : ChangePage
page_value = record {
  selected_protocol = 1;
  items = change_value 3 ∷ change_value 3 ∷ change_value 5 ∷ [];
  next_cursor = none;
}

page_accepted : sync_change_page outside page_json ≡ some page_value
unfolding sync_change_page sync_change_item map_items count_items in_order ◌>>=◌ ◌>>◌ check exact
    sync_protocol enum_value bounded_string sha256 safe_integer date_time same lit
page_accepted = refl

sync_change_page-Paged_example : Paged page_value
sync_change_page-Paged_example = sync_change_page-Paged outside page_json page_accepted

abbrev names_json : Json
names_json = Json.array (
    cons (text (lit "explicit_reconciliation")) (
      cons (text (lit "atomic_generation_commit")) (
        cons (text (lit "bounded_manifest_pages")) (
          cons (text (lit "content_digest_verification")) (
            cons (text (lit "ordered_generation_changes"))
              (cons (text (lit "policy_bound_admission")) nil))))))

abbrev envelope_json : Json
envelope_json = Json.object (
    field (lit "request_id") (text (lit "01234567-89ab-cdef-0123-456789abcdef")) (
      field (lit "selected_protocol") (number 1)
        (field (lit "capabilities") names_json (field (lit "data") page_json end))))

abbrev envelope_value : SyncEnvelope
envelope_value = record {
  request_id = lit "01234567-89ab-cdef-0123-456789abcdef";
  selected_protocol = 1;
  capabilities =
      lit "explicit_reconciliation"
      ∷ lit "atomic_generation_commit"
      ∷ lit "bounded_manifest_pages"
      ∷ lit "content_digest_verification"
      ∷ lit "ordered_generation_changes"
      ∷ lit "policy_bound_admission"
      ∷ [];
  payload = change_page page_value;
}

envelope_accepted :
    decode_workspace_sync_envelope outside changes envelope_json ≡ some envelope_value
unfolding decode_workspace_sync_envelope sync_data nested_protocol has_capabilities
    sync_capabilities includes distinct all_included uuid sync_change_page sync_change_item
    map_items count_items in_order ◌>>=◌ ◌>>◌ check exact sync_protocol enum_value bounded_string
    sha256 safe_integer date_time same lit
envelope_accepted = refl

decode_workspace_sync_envelope-Coherent_example : Coherent changes envelope_value
decode_workspace_sync_envelope-Coherent_example =
    decode_workspace_sync_envelope-Coherent outside changes envelope_json envelope_accepted

abbrev download_json : Json
download_json = Json.object (
    field (lit "request_id") (text (lit "01234567-89ab-cdef-0123-456789abcdef")) (
      field (lit "selected_protocol") (number 2)
        (field (lit "capabilities") names_json (field (lit "data") chunk_json end))))

chunk_downloaded :
    perform (sync_port {P = Unit} outside (λ key input. ok download_json)) (
      download_chunk
        (Value.string (lit "01234567-89ab-cdef-0123-456789abcdef"))
        (Value.string digest))
    ≡ ok (104 ∷ 105 ∷ [])
unfolding perform download_chunk sync_operation text_value is_uuid is_sha256 sync_chunk_content
    decode_workspace_sync_envelope sync_data nested_protocol has_capabilities sync_capabilities
    includes distinct all_included uuid map_items count_items ◌>>=◌ ◌>>◌ check exact sync_protocol
    enum_value bounded_string sha256 safe_integer date_time same lit
chunk_downloaded = refl

download_chunk_digested_example :
    (d : Text) × (digest_value (Value.string digest) ≡ some d)
    × (outside.digest_of (104 ∷ 105 ∷ []) ≡ d)
    × (length {A = ℕ} (104 ∷ 105 ∷ []) ≤ max_chunk)
download_chunk_digested_example =
    download_chunk_digested {P = Unit} outside (λ key input. ok download_json)
      (Value.string (lit "01234567-89ab-cdef-0123-456789abcdef")) (Value.string digest)
      chunk_downloaded
