-- ===== src/Requests/Sync/Received.antt =====
-- A chunk from the wire to the caller: the decoder of the transport below `downloadChunk`.
use cuna_lib_ts.Transport.Decoding.{sync_operation}
use cuna_lib_ts.Base.{◌≡◌, ◌≤◌, refl, sym, ap, ◌∙◌, ℕ, some, List, Text, same→eq, length, arith}
use cuna_lib_ts.Json.{Json}
use cuna_lib_ts.Contract.{OperationKey}
use cuna_lib_ts.Errors.{Result, ok}
use cuna_lib_ts.Domain.Chains.{>>=-some, >>-some, some_injective}
use cuna_lib_ts.Domain.Sync.Records.{Outside, ChunkContent}
use cuna_lib_ts.Domain.Sync.Entries.{max_chunk}
use cuna_lib_ts.Domain.Sync.Laws.{sync_chunk_content-Verified}
use cuna_lib_ts.Domain.Sync.Envelope.{
  SyncOperation, SyncData, SyncEnvelope, session, manifest, stored_chunk, chunk_content, committed,
  change_page, reconciled, sync_data, decode_workspace_sync_envelope, chunk_download,
}
use cuna_lib_ts.Requests.Value.{Value}
use cuna_lib_ts.Requests.Call.{DispatchInput, Port, perform, decoding}
use cuna_lib_ts.Requests.Call.Laws.{perform-ok, given-some, decoded_by-ok}
use cuna_lib_ts.Requests.Sync.Methods.{download_chunk, downloaded, digest_value}
use cuna_lib_ts.Domain.Sync.Chunks.{sync_chunk_content}

-- A port whose answers have gone through the decoder.
abbrev pub sync_port :
    {P : Type 0} → Outside → (OperationKey → DispatchInput → Result P Json) → Port P SyncEnvelope
sync_port out =
    decoding (λ key value. decode_workspace_sync_envelope out (sync_operation key) value)

payload_decoded :
    (out : Outside) (operation : SyncOperation) (value : Json) {e : SyncEnvelope}
    → decode_workspace_sync_envelope out operation value ≡ some e
    → (data_value : Json) × (sync_data out operation data_value ≡ some e.payload)
unfolding decode_workspace_sync_envelope
payload_decoded out operation value h =
    let (_, _, h1) = >>=-some h in
    let (_, _, h2) = >>=-some h1 in
    let (_, _, h3) = >>=-some h2 in
    let (_, _, h4) = >>=-some h3 in
    let (_, _, h5) = >>=-some h4 in
    let (value', _, h6) = >>=-some h5 in
    let (_, f, h7) = >>=-some h6 in
    let (_, h8) = >>-some h7 in
    let (_, h9) = >>-some h8 in
    let (_, _, h10) = >>=-some h9 in
    let (_, _, h11) = >>=-some h10 in rw (some_injective h11) (value', f)

chunk_decoded :
    (out : Outside) (value : Json) {c : ChunkContent}
    → sync_data out chunk_download value ≡ some (chunk_content c)
    → sync_chunk_content out value ≡ some c
unfolding sync_data
chunk_decoded out value {c} h = let (b, e, h1) = >>=-some h in let q : b ≡ c = cc in e ∙ ap some q

downloaded-chunk_content :
    (digest : Text) (e : SyncEnvelope) (d : SyncData) {bytes : List ℕ}
    → downloaded digest e d ≡ some bytes
    → (c : ChunkContent) × (d ≡ chunk_content c) × (c.digest ≡ digest) × (bytes ≡ c.bytes)
downloaded-chunk_content digest e (chunk_content c) h =
    let (t, q) = given-some _ c.bytes h in (c, refl, same→eq _ _ (ground arith), q)
downloaded-chunk_content digest e (session a) h = cc
downloaded-chunk_content digest e (manifest a) h = cc
downloaded-chunk_content digest e (stored_chunk a) h = cc
downloaded-chunk_content digest e (committed a) h = cc
downloaded-chunk_content digest e (change_page a) h = cc
downloaded-chunk_content digest e (reconciled a) h = cc

-- The bytes that a download returns, of whatever the service sent, have the digest that the caller asked
-- for, and are at most eight mebibytes.
pub download_chunk_digested :
    {P : Type 0} (out : Outside) (respond : OperationKey → DispatchInput → Result P Json)
    (sync_id expected_digest : Value) {bytes : List ℕ}
    → perform (sync_port out respond) (download_chunk sync_id expected_digest) ≡ ok bytes
    → (digest : Text) × (digest_value expected_digest ≡ some digest)
      × (out.digest_of bytes ≡ digest)
      × (length bytes ≤ max_chunk)
unfolding download_chunk sync_operation
download_chunk_digested {P} out respond sync_id expected_digest {bytes} h =
    let (c, e, made, answered, settled) = perform-ok (sync_port out respond) _ h in
    let (_, _, h1) = >>=-some made in
    let (digest, d, h2) = >>=-some h1 in
    let q = some_injective h2 in
    let (a, p, m, b) =
      downloaded-chunk_content digest e e.payload (sym (ap (λ x. x.settle e) q) ∙ settled) in
    let (value, decoded) =
      decoded_by-ok {P = P}
        (λ value. decode_workspace_sync_envelope out (sync_operation c.key) value)
        (respond c.key c.input) answered in
    let operation : sync_operation c.key ≡ chunk_download = ap (λ x. sync_operation x.key) q in
    let (data_value, f) =
      payload_decoded out chunk_download value
        (sym (ap (λ o. decode_workspace_sync_envelope out o value) operation) ∙ decoded) in
    let v =
      sync_chunk_content-Verified out data_value (chunk_decoded out data_value (f ∙ ap some p)) in
    (digest, d, rw (b, same→eq _ _ v.digested) m, rw b (ground arith))
