-- ===== src/Domain/Sync/Pages.antt =====
-- What an accepted page of changes and an accepted envelope satisfy.
use cuna_lib_ts.Base.{
  sym, ap, ◌∙◌, ◌≡◌, ◌≤◌, some, refl, true, arith, length, Text, ℕ, All, List, [], ◌∷◌, same→eq,
}
use cuna_lib_ts.Json.{Json}
use cuna_lib_ts.Domain.Chains.{map_items-length, map_items-All, >>=-some, >>-some, some_injective}
use cuna_lib_ts.Domain.Sync.Records.{Outside, ChangeItem, ChangePage, SyncSession}
use cuna_lib_ts.Domain.Sync.Changes.{sync_change_item, sync_change_page, in_order}
use cuna_lib_ts.Domain.Sync.Envelope.{
  SyncOperation, SyncData, SyncEnvelope, sync_data, nested_protocol, same_names, has_capabilities,
  decode_workspace_sync_envelope, begin, negotiate, chunk, chunk_download, commit, changes,
  reconcile, session, manifest, stored_chunk, chunk_content, committed, change_page, reconciled,
}
use cuna_lib_ts.Domain.Sync.Laws.{Shaped, sync_change_item-Shaped}

-- Whether no later item is of an earlier generation, whatever stands between the two.
abbrev pub Ordered : List ChangeItem → Type 0
Ordered [] = Unit
Ordered (item ∷ items) = All (λ later. item.generation ≤ later.generation) items × Ordered items

All-le :
    {m n : ℕ} (items : List ChangeItem)
    → m ≤ n
    → All (λ item. n ≤ item.generation) items
    → All (λ item. m ≤ item.generation) items
All-le [] h a = tt
All-le (item ∷ items) h (b, c) = (omega arith, All-le items h c)

in_order-Ordered : (items : List ChangeItem) → in_order items ≡ true → Ordered items
unfolding in_order
in_order-Ordered [] h = tt
in_order-Ordered (item ∷ []) h = (tt, tt)
in_order-Ordered (item ∷ next ∷ items) h =
    let le : item.generation ≤ next.generation = ground arith in
    let (a, b) = in_order-Ordered (next ∷ items) (ground arith) in ((le, All-le items le a), (a, b))

pub record Paged (page : ChangePage) : Type 0 where
  pub bounded : length page.items ≤ 1000
  pub ordered : Ordered page.items
  pub shaped : All Shaped page.items

-- A page of changes that is accepted has at most a thousand of them, none of an earlier generation than
-- any one before it, and each with the path and the entry that its operation calls for.
pub sync_change_page-Paged :
    (out : Outside) (value : Json) {page : ChangePage}
    → sync_change_page out value ≡ some page
    → Paged page
unfolding sync_change_page
sync_change_page-Paged out value {page} h =
    let (_, _, h1) = >>=-some h in
    let (_, _, h2) = >>=-some h1 in
    let (sent, _, h3) = >>=-some h2 in
    let (few, h4) = >>-some h3 in
    let (_, _, h5) = >>=-some h4 in
    let (_, _, h6) = >>=-some h5 in
    let (items, e, h7) = >>=-some h6 in
    let (sorted, h8) = >>-some h7 in
    let (_, _, h9) = >>=-some h8 in
    let (_, _, h10) = >>=-some h9 in
    let n = map_items-length (sync_change_item out) sent e in
    rw (some_injective h10) (record {
      bounded = ground arith;
      ordered = in_order-Ordered items sorted;
      shaped =
          map_items-All Shaped (sync_change_item out)
            (λ value a. sync_change_item-Shaped out value {c = a}) sent e;
    })

-- The kind of answer that an operation has.
pub data Answers : SyncOperation → SyncData → Type 0 where
  of_begin : {a : _} → Answers begin (session a)
  of_negotiate : {a : _} → Answers negotiate (manifest a)
  of_chunk : {a : _} → Answers chunk (stored_chunk a)
  of_chunk_download : {a : _} → Answers chunk_download (chunk_content a)
  of_commit : {a : _} → Answers commit (committed a)
  of_changes : {a : _} → Answers changes (change_page a)
  of_reconcile : {a : _} → Answers reconcile (reconciled a)

sync_data-Answers :
    (out : Outside) (operation : SyncOperation) (value : Json) {d : SyncData}
    → sync_data out operation value ≡ some d
    → Answers operation d
unfolding sync_data
sync_data-Answers out begin value h = let (_, _, e) = >>=-some h in rw (some_injective e) of_begin
sync_data-Answers out negotiate value h =
    let (_, _, e) = >>=-some h in rw (some_injective e) of_negotiate
sync_data-Answers out chunk value h = let (_, _, e) = >>=-some h in rw (some_injective e) of_chunk
sync_data-Answers out chunk_download value h =
    let (_, _, e) = >>=-some h in rw (some_injective e) of_chunk_download
sync_data-Answers out commit value h = let (_, _, e) = >>=-some h in rw (some_injective e) of_commit
sync_data-Answers out changes value h =
    let (_, _, e) = >>=-some h in rw (some_injective e) of_changes
sync_data-Answers out reconcile value h =
    let (_, _, e) = >>=-some h in rw (some_injective e) of_reconcile

same_names→eq : (ss ts : List Text) → same_names ss ts ≡ true → ss ≡ ts
unfolding same_names
same_names→eq [] [] h = refl
same_names→eq [] (t ∷ ts) h = cc
same_names→eq (s ∷ ss) [] h = cc
same_names→eq (s ∷ ss) (t ∷ ts) h = ground (arith, same→eq s t, same_names→eq ss ts)

has_capabilities-session :
    (names : List Text) (a : SyncSession)
    → has_capabilities names (session a) ≡ true
    → a.capabilities ≡ names
unfolding has_capabilities
has_capabilities-session names a h = same_names→eq a.capabilities names h

pub record Coherent (operation : SyncOperation) (e : SyncEnvelope) : Type 0 where
  pub answers : Answers operation e.payload
  pub one_protocol : nested_protocol e.payload ≡ e.selected_protocol
  pub one_set : (a : SyncSession) → e.payload ≡ session a → a.capabilities ≡ e.capabilities

-- An envelope that is accepted holds the kind of answer that its operation has, of the protocol that the
-- envelope names, and, if it is a session, with the capabilities of the envelope in their order.
pub decode_workspace_sync_envelope-Coherent :
    (out : Outside) (operation : SyncOperation) (value : Json) {e : SyncEnvelope}
    → decode_workspace_sync_envelope out operation value ≡ some e
    → Coherent operation e
unfolding decode_workspace_sync_envelope
decode_workspace_sync_envelope-Coherent out operation value h =
    let (_, _, h1) = >>=-some h in
    let (_, _, h2) = >>=-some h1 in
    let (n, _, h3) = >>=-some h2 in
    let (_, _, h4) = >>=-some h3 in
    let (names, _, h5) = >>=-some h4 in
    let (value', _, h6) = >>=-some h5 in
    let (payload, f, h7) = >>=-some h6 in
    let (protocol, h8) = >>-some h7 in
    let (listed, h9) = >>-some h8 in
    let (_, _, h10) = >>=-some h9 in
    let (_, _, h11) = >>=-some h10 in
    rw (some_injective h11) (record {
      answers = sync_data-Answers out operation value' f;
      one_protocol = ground arith;
      one_set = λ a at_session.
          has_capabilities-session names a (ap (has_capabilities names) (sym at_session) ∙ listed);
    })
