-- ===== src/Requests/Dispatched/Sync.antt =====
-- Every call of the synchronisation manager fits the operation that it names.
use cuna_lib_ts.Domain.Grammar.{around}
use cuna_lib_ts.Requests.Call.{Call}
use cuna_lib_ts.Requests.Sync.Methods
use cuna_lib_ts.Base.{some, List, refl, lit, Option, ℕ, ◌≡◌}
use cuna_lib_ts.Transport.Prepare.{body_of, is_chunk, Web}
use cuna_lib_ts.Contract.{generated}
use cuna_lib_ts.Contract.Safety.{needs_idempotency_key}
use cuna_lib_ts.Requests.Dispatched.Shapes.{is_split, chunk-Fits, id-Fits}
use cuna_lib_ts.Transport.Prepare.Paths.{is_path, is_plain_unit}
use cuna_lib_ts.Domain.Grammar.{after_prefix, is_uuid, is_sha256}
use cuna_lib_ts.Requests.Value.{Value}
use cuna_lib_ts.Domain.Sync.Envelope.{SyncEnvelope}
use cuna_lib_ts.Requests.Dispatched.{Fits}
use cuna_lib_ts.Domain.Chains.{>>=-some, some_injective, >>-some}
use cuna_lib_ts.Requests.Value.Laws.{text_value-satisfies}

pub sync_begin-Fits :
    (web : Web) (w r k : Value) (c : Call SyncEnvelope SyncEnvelope)
    → Methods.begin w r k ≡ some c
    → Fits web c.key c.input
unfolding Methods.begin body_of is_chunk generated needs_idempotency_key is_split around lit is_path
    after_prefix is_plain_unit
sync_begin-Fits web w r k c g =
    let (id, u, g1) = >>=-some g in
    let (_, _, g2) = >>=-some g1 in
    let (_, _, g3) = >>=-some g2 in
    rw (some_injective g3)
      (id-Fits web _ _ id _ refl refl refl refl (text_value-satisfies is_uuid _ u) refl refl)

pub sync_negotiate-Fits :
    (web : Web) (w r k : Value) (c : Call SyncEnvelope SyncEnvelope)
    → Methods.negotiate w r k ≡ some c
    → Fits web c.key c.input
unfolding Methods.negotiate body_of is_chunk generated needs_idempotency_key is_split around lit
    is_path after_prefix is_plain_unit
sync_negotiate-Fits web w r k c g =
    let (id, u, g1) = >>=-some g in
    let (_, _, g2) = >>=-some g1 in
    let (_, _, g3) = >>=-some g2 in
    rw (some_injective g3)
      (id-Fits web _ _ id _ refl refl refl refl (text_value-satisfies is_uuid _ u) refl refl)

pub sync_commit-Fits :
    (web : Web) (w r k : Value) (c : Call SyncEnvelope SyncEnvelope)
    → Methods.commit w r k ≡ some c
    → Fits web c.key c.input
unfolding Methods.commit body_of is_chunk generated needs_idempotency_key is_split around lit
    is_path after_prefix is_plain_unit
sync_commit-Fits web w r k c g =
    let (id, u, g1) = >>=-some g in
    let (_, _, g2) = >>=-some g1 in
    let (_, _, g3) = >>=-some g2 in
    rw (some_injective g3)
      (id-Fits web _ _ id _ refl refl refl refl (text_value-satisfies is_uuid _ u) refl refl)

pub sync_changes-Fits :
    (web : Web) (w r : Value) (c : Call SyncEnvelope SyncEnvelope)
    → Methods.changes w r ≡ some c
    → Fits web c.key c.input
unfolding Methods.changes body_of is_chunk generated needs_idempotency_key is_split around lit
    is_path after_prefix is_plain_unit
sync_changes-Fits web w r c g =
    let (id, u, g1) = >>=-some g in
    let (_, _, g2) = >>=-some g1 in
    let (_, g3) = >>-some g2 in
    let (_, _, g4) = >>=-some g3 in
    let (_, _, g5) = >>=-some g4 in
    let (_, _, g6) = >>=-some g5 in
    rw (some_injective g6)
      (id-Fits web _ _ id _ refl refl refl refl (text_value-satisfies is_uuid _ u) refl refl)

pub sync_reconcile-Fits :
    (web : Web) (w r k : Value) (c : Call SyncEnvelope SyncEnvelope)
    → Methods.reconcile w r k ≡ some c
    → Fits web c.key c.input
unfolding Methods.reconcile body_of is_chunk generated needs_idempotency_key is_split around lit
    is_path after_prefix is_plain_unit
sync_reconcile-Fits web w r k c g =
    let (id, u, g1) = >>=-some g in
    let (_, _, g2) = >>=-some g1 in
    let (_, _, g3) = >>=-some g2 in
    rw (some_injective g3)
      (id-Fits web _ _ id _ refl refl refl refl (text_value-satisfies is_uuid _ u) refl refl)

pub sync_upload-Fits :
    (web : Web) (w d : Value) (bytes : Option (List ℕ)) (k : Value)
    (c : Call SyncEnvelope SyncEnvelope)
    → Methods.upload_chunk w d bytes k ≡ some c
    → Fits web c.key c.input
unfolding Methods.upload_chunk body_of is_chunk generated needs_idempotency_key is_split around lit
    is_path after_prefix is_plain_unit
sync_upload-Fits web w d bytes k c g =
    let (id, u, g1) = >>=-some g in
    let (digest, v, g2) = >>=-some g1 in
    let (_, _, g3) = >>=-some g2 in
    let (_, g4) = >>-some g3 in
    let (_, _, g5) = >>=-some g4 in
    rw (some_injective g5) (
      chunk-Fits web _ _ id digest _ refl refl refl refl (text_value-satisfies is_uuid _ u)
        (text_value-satisfies is_sha256 _ v) refl refl)

pub sync_download-Fits :
    (web : Web) (w d : Value) (c : Call SyncEnvelope (List ℕ))
    → Methods.download_chunk w d ≡ some c
    → Fits web c.key c.input
unfolding Methods.download_chunk body_of is_chunk generated needs_idempotency_key is_split around
    lit is_path after_prefix is_plain_unit
sync_download-Fits web w d c g =
    let (id, u, g1) = >>=-some g in
    let (digest, v, g2) = >>=-some g1 in
    rw (some_injective g2) (
      chunk-Fits web _ _ id digest _ refl refl refl refl (text_value-satisfies is_uuid _ u)
        (text_value-satisfies is_sha256 _ v) refl refl)
