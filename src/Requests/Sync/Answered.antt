-- ===== src/Requests/Sync/Answered.antt =====
-- What a method of the synchronisation manager returns.
use cuna_lib_ts.Base.{◌≡◌, ◌≤◌, ◌+◌, refl, true, some, Text, same→eq, arith}
use cuna_lib_ts.Errors.{ok}
use cuna_lib_ts.Domain.Chains.{>>=-some, some_injective}
use cuna_lib_ts.Domain.Sync.Records.{SyncSession, CommitReceipt}
use cuna_lib_ts.Domain.Sync.Envelope.{
  SyncData, SyncEnvelope, session, manifest, stored_chunk, chunk_content, committed, change_page,
  reconciled,
}
use cuna_lib_ts.Requests.Value.{Value}
use cuna_lib_ts.Requests.Call.{Port, perform}
use cuna_lib_ts.Requests.Call.Laws.{perform-ok, given-settled}
use cuna_lib_ts.Requests.Sync.Bodies.{BeginRequest, CommitRequest, begin_value, commit_value}
use cuna_lib_ts.Requests.Sync.Methods.{begin, began, commit, advanced, uuid_value}

-- A session that was begun as it was asked for.
pub record Begun (id : Text) (r : BeginRequest) (e : SyncEnvelope) : Type 0 where
  pub started : SyncSession
  pub held : e.payload ≡ session started
  pub workspace : started.workspace_id ≡ id
  pub machine : started.machine_id ≡ r.machine_id
  pub generation : started.base_generation ≡ r.base_generation
  pub policy : started.exclusion_policy_digest ≡ r.exclusion_policy_digest
  pub from_minimum : r.protocol.minimum ≤ e.selected_protocol
  pub to_maximum : e.selected_protocol ≤ r.protocol.maximum

began-Begun :
    (id : Text) (r : BeginRequest) (e : SyncEnvelope) (d : SyncData)
    → e.payload ≡ d
    → began id r e d ≡ true
    → Begun id r e
began-Begun id r e (session a) p h = record {
  started = a;
  held = p;
  workspace = same→eq _ _ (ground arith);
  machine = same→eq _ _ (ground arith);
  generation = ground arith;
  policy = same→eq _ _ (ground arith);
  from_minimum = ground arith;
  to_maximum = ground arith;
}
began-Begun id r e (manifest a) p h = cc
began-Begun id r e (stored_chunk a) p h = cc
began-Begun id r e (chunk_content a) p h = cc
began-Begun id r e (committed a) p h = cc
began-Begun id r e (change_page a) p h = cc
began-Begun id r e (reconciled a) p h = cc

-- A session that `begin` returns is of the workspace, the machine, the generation and the exclusion
-- policy that the caller asked for, in a protocol of the range that the caller offered.
pub begin-Begun :
    {P : Type 0} (port : Port P SyncEnvelope) (workspace_id request key : Value) {e : SyncEnvelope}
    → perform port (begin workspace_id request key) ≡ ok e
    → (id : Text) × (r : BeginRequest) × (uuid_value workspace_id ≡ some id)
      × (begin_value request ≡ some r)
      × Begun id r e
unfolding begin
begin-Begun port workspace_id request key h =
    let (c, answer, made, _, settled) = perform-ok port _ h in
    let (id, i, h1) = >>=-some made in
    let (r, v, h2) = >>=-some h1 in
    let (_, _, h3) = >>=-some h2 in
    let (t, q) = given-settled (some_injective h3) settled refl in
    (id, r, i, v, rw q (began-Begun id r answer answer.payload refl t))

-- A commit that advanced the workspace by one generation, to the manifest that was sent.
pub record Advanced (r : CommitRequest) (e : SyncEnvelope) : Type 0 where
  pub receipt : CommitReceipt
  pub held : e.payload ≡ committed receipt
  pub root : receipt.manifest_root ≡ r.manifest_root
  pub generation : receipt.generation ≡ r.expected_generation + 1
  pub readers : receipt.minimum_reader ≡ r.minimum_reader
  pub writers : receipt.minimum_writer ≡ r.minimum_writer

advanced-Advanced :
    (r : CommitRequest) (e : SyncEnvelope) (d : SyncData)
    → e.payload ≡ d
    → advanced r d ≡ true
    → Advanced r e
advanced-Advanced r e (committed a) p h = record {
  receipt = a;
  held = p;
  root = same→eq _ _ (ground arith);
  generation = ground arith;
  readers = ground arith;
  writers = ground arith;
}
advanced-Advanced r e (manifest a) p h = cc
advanced-Advanced r e (stored_chunk a) p h = cc
advanced-Advanced r e (chunk_content a) p h = cc
advanced-Advanced r e (session a) p h = cc
advanced-Advanced r e (change_page a) p h = cc
advanced-Advanced r e (reconciled a) p h = cc

-- A commit that returns made the manifest that the caller sent the generation after the one that the
-- caller expected, for the readers and the writers that the caller named.
pub commit-Advanced :
    {P : Type 0} (port : Port P SyncEnvelope) (sync_id request key : Value) {e : SyncEnvelope}
    → perform port (commit sync_id request key) ≡ ok e
    → (r : CommitRequest) × (commit_value request ≡ some r) × Advanced r e
unfolding commit
commit-Advanced port sync_id request key h =
    let (c, answer, made, _, settled) = perform-ok port _ h in
    let (id, i, h1) = >>=-some made in
    let (r, v, h2) = >>=-some h1 in
    let (_, _, h3) = >>=-some h2 in
    let (t, q) = given-settled (some_injective h3) settled refl in
    (r, v, rw q (advanced-Advanced r answer answer.payload refl t))
