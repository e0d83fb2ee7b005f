-- ===== src/Transport/Body.antt =====
-- Reading a response's body within a bound: `readLimited` of src/internal/transport.ts.
pub mod Content
use cuna_lib_ts.Base.{
  ℕ, zero, suc, ◌+◌, ltb, if◌then◌else◌, Bool, Option, none, some, List, [], ◌∷◌, ◌++◌, length,
}
use cuna_lib_ts.Errors.{Result, ok, thrown, malformed, abort_error}

abbrev pub max_response_bytes : ℕ
max_response_bytes = 16777216

abbrev pub Bytes : Type 0
Bytes = List ℕ

-- What a race of the reader against the signal gives: a chunk, a read with no value, the end, a
-- rejected read, or the abort of the signal.
pub data Arrival : Type 0 where
  chunk : Bytes → Arrival
  empty finished broken aborted : Arrival

-- A body as the code meets it: whether the signal is aborted when the loop is about to start, what
-- arrives, and whether the signal is aborted when a failure is caught. A body of which no more
-- arrives is cut off by the signal, whose timer runs.
pub record Body : Type 0 where
  pub aborted_first : Bool
  pub arrivals : List Arrival
  pub aborted_late : Bool

-- The `catch` block for an error other than that of the abort.
abbrev pub caught : {P A : Type 0} → Bool → ℕ → Result P A
caught late status = if late then thrown abort_error else malformed status

-- The loop; it returns the total and the chunks, which it is given in reverse.
read_chunks : {P : Type 0} → ℕ → Bool → ℕ → List Bytes → List Arrival → Result P (ℕ × List Bytes)
read_chunks status late total chunks [] = thrown abort_error
read_chunks status late total chunks (aborted ∷ more) = thrown abort_error
read_chunks status late total chunks (broken ∷ more) = caught late status
read_chunks status late total chunks (finished ∷ more) = ok (total, chunks)
read_chunks status late total chunks (empty ∷ more) = read_chunks status late total chunks more
read_chunks status late total chunks (chunk value ∷ more) =
    let rest = read_chunks status late (total + length value) (chunks ++ value ∷ []) more in
    if ltb max_response_bytes (total + length value) then caught late status else rest

-- `bytes.set(chunk, offset)`, for a chunk that fits.
overwrite : Bytes → Bytes → Bytes
overwrite bytes [] = bytes
overwrite [] (c ∷ value) = []
overwrite (b ∷ bytes) (c ∷ value) = c ∷ overwrite bytes value

write_at : Bytes → ℕ → Bytes → Bytes
unfolding overwrite
write_at bytes zero value = overwrite bytes value
write_at [] (suc offset) value = []
write_at (b ∷ bytes) (suc offset) value = b ∷ write_at bytes offset value

-- The last loop.
unfoldable pub assemble : Bytes → ℕ → List Bytes → Bytes
unfolding write_at
assemble bytes offset [] = bytes
assemble bytes offset (value ∷ chunks) =
    assemble (write_at bytes offset value) (offset + length value) chunks

-- `new Uint8Array(total)`
unfoldable pub zeros : ℕ → Bytes
zeros zero = []
zeros (suc n) = 0 ∷ zeros n

abbrev pub finish : {P : Type 0} → Result P (ℕ × List Bytes) → Result P Bytes
finish (ok (total, chunks)) = ok (assemble (zeros total) 0 chunks)
finish (thrown error) = thrown error

unfoldable pub read_limited : {P : Type 0} → ℕ → Option Body → Result P Bytes
unfolding read_chunks assemble write_at zeros
read_limited status none = ok []
read_limited status (some body) =
    if body.aborted_first
    then thrown abort_error
    else finish (read_chunks status body.aborted_late 0 [] body.arrivals)
