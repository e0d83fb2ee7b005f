-- ===== src/Domain/Sync/Records.antt =====
-- The values of src/workspace-sync.ts, and what the decoders take from the platform.
use cuna_lib_ts.Base.{ℕ, Bool, Option, List, Text}
use cuna_lib_ts.Domain.Dates.{DateParse}

-- What the decoders take from the platform: `Date.parse`, `Buffer.from(…, "base64")`, its inverse, and
-- the hexadecimal SHA-256 digest.
pub record Outside : Type 0 where
  pub date_parse : DateParse
  pub from_base64 : Text → List ℕ
  pub to_base64 : List ℕ → Text
  pub digest_of : List ℕ → Text

pub record ChunkReference : Type 0 where
  pub digest : Text
  pub byte_length : ℕ

pub record ManifestEntry : Type 0 where
  pub path : Text
  pub kind : Text
  pub byte_length : ℕ
  pub executable : Bool
  pub chunks : List ChunkReference
  pub link_target : Option Text

pub record SyncSession : Type 0 where
  pub id : Text
  pub workspace_id : Text
  pub machine_id : Text
  pub base_generation : ℕ
  pub exclusion_policy_digest : Text
  pub selected_protocol : ℕ
  pub capabilities : List Text
  pub state : Text
  pub manifest_entry_count : ℕ
  pub manifest_encoded_bytes : ℕ
  pub content_bytes : ℕ
  pub last_page_index : Option ℕ
  pub committed_generation : Option ℕ
  pub committed_manifest_root : Option Text
  pub expires_at : Text
  pub created_at : Text
  pub updated_at : Text

pub record ManifestReceipt : Type 0 where
  pub sync : SyncSession
  pub page_index : ℕ
  pub page_digest : Text
  pub missing_digests : List Text

pub record ChunkReceipt : Type 0 where
  pub selected_protocol : ℕ
  pub digest : Text
  pub byte_length : ℕ
  pub stored : Bool

pub record ChunkContent : Type 0 where
  pub selected_protocol : ℕ
  pub digest : Text
  pub byte_length : ℕ
  pub minimum_reader : ℕ
  pub bytes : List ℕ

pub record CommitReceipt : Type 0 where
  pub selected_protocol : ℕ
  pub generation : ℕ
  pub manifest_root : Text
  pub committed_at : Text
  pub minimum_reader : ℕ
  pub minimum_writer : ℕ

pub record ChangeItem : Type 0 where
  pub generation : ℕ
  pub operation : Text
  pub path : Option Text
  pub entry : Option ManifestEntry
  pub manifest_root : Text
  pub exclusion_policy_digest : Text
  pub committed_at : Text
  pub minimum_reader : ℕ
  pub minimum_writer : ℕ

pub record ChangePage : Type 0 where
  pub selected_protocol : ℕ
  pub items : List ChangeItem
  pub next_cursor : Option Text

pub record ReconcileReceipt : Type 0 where
  pub selected_protocol : ℕ
  pub status : Text
  pub active_generation : ℕ
  pub active_manifest_root : Text
  pub exclusion_policy_digest : Text
