-- ===== src/Domain/Sync/Laws.antt =====
-- What an accepted chunk or change satisfies.
use cuna_lib_ts.Base.{
  ◌≡◌, ◌≤◌, some, none, refl, true, false, is_some, same_refl, arith, length, Text, Option, same,
  lit,
}
use cuna_lib_ts.Json.{Json}
use cuna_lib_ts.Domain.Chains.{>>=-some, >>-some, some_injective}
use cuna_lib_ts.Domain.Sync.Records.{Outside, ChunkContent, ChangeItem, ManifestEntry}
use cuna_lib_ts.Domain.Sync.Entries.{max_chunk}
use cuna_lib_ts.Domain.Sync.Chunks.{sync_chunk_content}
use cuna_lib_ts.Domain.Sync.Changes.{sync_change_item, is_change}

pub record Verified (out : Outside) (c : ChunkContent) : Type 0 where
  pub digested : same (out.digest_of c.bytes) c.digest ≡ true
  pub measured : length c.bytes ≡ c.byte_length
  pub bounded : c.byte_length ≤ max_chunk
  pub readable : c.minimum_reader ≤ c.selected_protocol
  pub known : c.minimum_reader ≤ 2

-- A chunk that is accepted has the digest and the length that the server gave for it, is at most eight
-- mebibytes long, and asks for a reader of a version no later than the protocol of the answer.
pub sync_chunk_content-Verified :
    (out : Outside) (value : Json) {c : ChunkContent}
    → sync_chunk_content out value ≡ some c
    → Verified out c
unfolding sync_chunk_content
sync_chunk_content-Verified out value {c} h =
    let (_, _, h1) = >>=-some h in
    let (_, _, h2) = >>=-some h1 in
    let (_, _, h3) = >>=-some h2 in
    let (_, _, h4) = >>=-some h3 in
    let (_, _, h5) = >>=-some h4 in
    let (_, _, h6) = >>=-some h5 in
    let (_, _, h7) = >>=-some h6 in
    let (_, _, h8) = >>=-some h7 in
    let (_, _, h9) = >>=-some h8 in
    let (bounds, h10) = >>-some h9 in
    let (_, _, h11) = >>=-some h10 in
    let (_, _, h12) = >>=-some h11 in
    let (_, h13) = >>-some h12 in
    let (content, h14) = >>-some h13 in
    rw (some_injective h14) (record {
      digested = ground arith;
      measured = ground arith;
      bounded = ground arith;
      readable = ground arith;
      known = ground arith;
    })

pub record Shaped (c : ChangeItem) : Type 0 where
  pub of_revision : c.operation ≡ lit "revision" → (c.path ≡ none) × (c.entry ≡ none)
  pub of_delete : c.operation ≡ lit "delete" → ((p : Text) × (c.path ≡ some p)) × (c.entry ≡ none)
  pub of_upsert :
      c.operation ≡ lit "upsert"
      → ((p : Text) × (c.path ≡ some p)) × ((e : ManifestEntry) × (c.entry ≡ some e))

some_of : {A : Type 0} (o : Option A) → is_some o ≡ true → (a : A) × (o ≡ some a)
some_of none h = cc
some_of (some a) h = (a, refl)

none_of : {A : Type 0} (o : Option A) → is_some o ≡ false → o ≡ none
none_of none h = refl
none_of (some a) h = cc

shape : (c : ChangeItem) → is_change c.operation c.path c.entry ≡ true → Shaped c
shape c h = record {
  of_revision = λ e.
      let s : same c.operation (lit "revision") ≡ true = rw e (same_refl (lit "revision")) in
      (none_of c.path (ground arith), none_of c.entry (ground arith));
  of_delete = λ e.
      let s : same c.operation (lit "delete") ≡ true = rw e (same_refl (lit "delete")) in
      (some_of c.path (ground arith), none_of c.entry (ground arith));
  of_upsert = λ e.
      let s : same c.operation (lit "upsert") ≡ true = rw e (same_refl (lit "upsert")) in
      (some_of c.path (ground arith), some_of c.entry (ground arith));
}

-- A change that is accepted has neither path nor entry if it is a revision, a path alone if it deletes,
-- and a path with its entry if it puts one.
pub sync_change_item-Shaped :
    (out : Outside) (value : Json) {c : ChangeItem} → sync_change_item out value ≡ some c → Shaped c
unfolding sync_change_item
sync_change_item-Shaped out value {c} h =
    let (_, _, h1) = >>=-some h in
    let (_, _, h2) = >>=-some h1 in
    let (_, _, h3) = >>=-some h2 in
    let (_, _, h4) = >>=-some h3 in
    let (_, _, h5) = >>=-some h4 in
    let (_, _, h6) = >>=-some h5 in
    let (_, _, h7) = >>=-some h6 in
    let (changed, h8) = >>-some h7 in
    let (_, _, h9) = >>=-some h8 in
    let (_, _, h10) = >>=-some h9 in
    let (_, _, h11) = >>=-some h10 in
    let (_, _, h12) = >>=-some h11 in
    let (_, _, h13) = >>=-some h12 in
    let (_, _, h14) = >>=-some h13 in
    let (_, _, h15) = >>=-some h14 in
    let (_, _, h16) = >>=-some h15 in
    let (_, _, h17) = >>=-some h16 in
    let (_, _, h18) = >>=-some h17 in
    let (_, _, h19) = >>=-some h18 in
    let (_, _, h20) = >>=-some h19 in rw (some_injective h20) (shape _ changed)
