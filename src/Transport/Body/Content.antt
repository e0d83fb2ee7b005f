-- ===== src/Transport/Body/Content.antt =====
-- What a bounded read returns.
use mathlib.Core.Path.{subst}
use mathlib.Core.List.{append-nil, append_assoc}
use cuna_lib_ts.Base.{
  ℕ, suc, ◌+◌, ◌≤◌, ◌≡◌, ltb, Bool, true, false, some, List, [], ◌∷◌, ◌++◌, length, length-append,
  arith, refl, ◌∙◌, ap, sym, Bool-cases, inl, inr,
}
use cuna_lib_ts.Errors.{Result, Thrown, ok, thrown}
use cuna_lib_ts.Transport.Body.{
  Bytes, Arrival, chunk, empty, finished, broken, aborted, Body, max_response_bytes, read_chunks,
  overwrite, write_at, assemble, zeros, read_limited, finish, caught,
}

abbrev flat : List Bytes → Bytes
flat [] = []
flat (value ∷ chunks) = value ++ flat chunks

-- The bytes that arrive before the end of a body.
abbrev pub received : List Arrival → Bytes
received [] = []
received (finished ∷ more) = []
received (chunk value ∷ more) = value ++ received more
received (_ ∷ more) = received more

flat-concat :
    (chunks : List Bytes) (value : Bytes) → flat (chunks ++ value ∷ []) ≡ flat chunks ++ value
flat-concat [] value = append-nil value
flat-concat (c ∷ chunks) value = rw (flat-concat chunks value, append_assoc)

overwrite-zeros :
    (value : Bytes) (r : ℕ) → overwrite (zeros (length value + r)) value ≡ value ++ zeros r
unfolding overwrite zeros
overwrite-zeros [] r = ap zeros {x = 0 + r} {y = r} (omega arith)
overwrite-zeros (c ∷ value) r =
    let e : suc (length value) + r ≡ suc (length value + r) = omega arith in
    rw e (ap (λ t. c ∷ t) (overwrite-zeros value r))

write_at-append :
    (p bytes value : Bytes) → write_at (p ++ bytes) (length p) value ≡ p ++ overwrite bytes value
unfolding write_at
write_at-append [] bytes value = refl
write_at-append (b ∷ p) bytes value = ap (λ t. b ∷ t) (write_at-append p bytes value)

assemble-append :
    (p : Bytes) (chunks : List Bytes)
    → assemble (p ++ zeros (length (flat chunks))) (length p) chunks ≡ p ++ flat chunks
unfolding assemble zeros
assemble-append p [] = refl
assemble-append p (value ∷ chunks) = rw (
  length-append value (flat chunks),
  write_at-append p (zeros (length value + length (flat chunks))) value,
  overwrite-zeros value (length (flat chunks)),
  ← append_assoc,
  ← length-append p value,
  assemble-append (p ++ value) chunks,
  append_assoc,
)

-- What a read that ends well has kept.
record Kept (t : ℕ) (cs : List Bytes) (bytes : Bytes) : Type 0 where
  content : flat cs ≡ bytes
  counted : t ≡ length (flat cs)
  bounded : t ≤ max_response_bytes

payload : {P : Type 0} → Result P (ℕ × List Bytes) → ℕ × List Bytes
payload (ok pair) = pair
payload (thrown error) = (0, [])

caught-ne-ok :
    {P A : Type 0} (late : Bool) (status : ℕ) {a : A} → caught {P = P} late status ≡ ok a → ⊥
caught-ne-ok true status h = cc
caught-ne-ok false status h = cc

read_chunks-Kept :
    {P : Type 0} (status : ℕ) (late : Bool) (total : ℕ) (chunks : List Bytes)
    (arrivals : List Arrival) {t : ℕ} {cs : List Bytes}
    → read_chunks {P = P} status late total chunks arrivals ≡ ok (t, cs)
    → total ≡ length (flat chunks)
    → total ≤ max_response_bytes
    → Kept t cs (flat chunks ++ received arrivals)
unfolding read_chunks payload
read_chunks-Kept status late total chunks [] h e l = cc
read_chunks-Kept status late total chunks (finished ∷ more) h e l =
    subst (λ (pair : ℕ × List Bytes). Kept pair.0 pair.1 (flat chunks ++ [])) (ap payload h)
      (record { content = sym (append-nil (flat chunks)); counted = e; bounded = l })
read_chunks-Kept status late total chunks (aborted ∷ more) h e l = cc
read_chunks-Kept status late total chunks (broken ∷ more) h e l =
    absurd (caught-ne-ok late status h)
read_chunks-Kept status late total chunks (empty ∷ more) h e l =
    read_chunks-Kept status late total chunks more h e l
read_chunks-Kept status late total chunks (chunk value ∷ more) {t} {cs} h e l =
    elim (Bool-cases (ltb max_response_bytes (total + length value))) [
      | inl over ↦ absurd (caught-ne-ok late status (rw over at h))
      | inr fits ↦
          let kept =
            read_chunks-Kept status late (total + length value) (chunks ++ value ∷ []) more
              (rw fits at h) (rw flat-concat (rw length-append (omega (arith, e))))
              (ground arith) in
          rw (flat-concat chunks value, append_assoc) at kept
    ]

bytes_of : {P : Type 0} → Result P Bytes → Bytes
bytes_of (ok bytes) = bytes
bytes_of (thrown error) = []

thrown-ne-ok : {P A : Type 0} {error : Thrown P} {a : A} → thrown error ≡ ok a → ⊥
thrown-ne-ok h = cc

finish-content :
    {P : Type 0} (status : ℕ) (late : Bool) (arrivals : List Arrival)
    (r : Result P (ℕ × List Bytes)) {bytes : Bytes}
    → read_chunks status late 0 [] arrivals ≡ r
    → finish r ≡ ok bytes
    → (bytes ≡ received arrivals) × (length bytes ≤ max_response_bytes)
unfolding bytes_of
finish-content status late arrivals (thrown error) e h = cc
finish-content status late arrivals (ok (t, cs)) {bytes} e h =
    let kept = read_chunks-Kept status late 0 [] arrivals e refl (omega arith) in
    let same : bytes ≡ flat cs =
      sym (ap bytes_of h)
      ∙ ap (λ n. assemble (zeros n) 0 cs) kept.counted
      ∙ assemble-append [] cs in
    (same ∙ kept.content, rw same (omega (arith, kept.counted, kept.bounded)))

error_of : {P A : Type 0} → Thrown P → Result P A → Thrown P
error_of other (ok a) = other
error_of other (thrown error) = error

-- A read that ends well returns the bytes that arrived before the end, in their order, and no more than
-- sixteen mebibytes of them.
pub read_limited_content :
    {P : Type 0} (status : ℕ) (body : Body) {bytes : Bytes}
    → read_limited {P = P} status (some body) ≡ ok bytes
    → (bytes ≡ received body.arrivals) × (length bytes ≤ max_response_bytes)
unfolding read_limited
read_limited_content status body h = elim (Bool-cases body.aborted_first) [
  | inl stop ↦ absurd (thrown-ne-ok (rw stop at h))
  | inr go ↦
      finish-content status body.aborted_late body.arrivals
        (read_chunks status body.aborted_late 0 [] body.arrivals) refl (rw go at h)
]
