-- ===== src/Transport/Disposition/Outcomes.antt =====
-- What a response can come to.
use cuna_lib_ts.Base.{
  ◌≤◌, ◌<◌, ◌≡◌, ◌⊎◌, inl, inr, refl, ◌==◌, true, false, some, arith, Bool-cases, Option-cases,
  ==_iff, ◌≢◌,
}
use cuna_lib_ts.Json.{Json, contains_marker, sanitize_wire}
use cuna_lib_ts.Contract.{OperationKey, operation_descriptor}
use cuna_lib_ts.Errors.{Result, ok, thrown, malformed, Thrown}
use cuna_lib_ts.Transport.Body.{Bytes, read_limited}
use cuna_lib_ts.Transport.Disposition.{
  Decoders, Response, is_json, is_no_store, is_agent_auth, accept, refuse, decode_bytes,
  finish_decode, disposition,
}

Result-cases :
    {P A : Type 0} (o : Result P A)
    → ((a : A) × (o ≡ ok a)) ⊎ ((error : Thrown P) × (o ≡ thrown error))
Result-cases (ok a) = inl (a, refl)
Result-cases (thrown error) = inr (error, refl)

module _ {P A : Type 0} (d : Decoders P A) (key : OperationKey) (r : Response) where
  -- The way of a response to a value.
  pub record Accepted (a : A) : Type 0 where
    pub bytes : Bytes
    pub value : Json
    pub expected : r.status ≡ (operation_descriptor key).success_status
    pub typed : is_json d.platform r.content_type ≡ true
    pub uncached : is_agent_auth key ≡ true → is_no_store d.platform r.cache_control ≡ true
    pub complete : read_limited {P = P} r.status r.body ≡ ok bytes
    pub parsed : d.parse bytes ≡ some value
    pub clean : contains_marker d.platform value ≡ false
    pub decoded : d.decode key value ≡ some a

  finish_decode-ok :
      (value : Json) {a : A} → finish_decode d key r value ≡ ok a → d.decode key value ≡ some a
  unfolding finish_decode
  finish_decode-ok value h = ground arith

  decode_bytes-ok :
      (bytes : Bytes) {a : A}
      → decode_bytes d key r bytes ≡ ok a
      → (value : Json) × (d.parse bytes ≡ some value)
        × (contains_marker d.platform value ≡ false)
        × (d.decode key value ≡ some a)
  unfolding decode_bytes sanitize_wire
  decode_bytes-ok bytes {a} h = elim (Option-cases (d.parse bytes)) [
    | inl e ↦ absurd (ground arith)
    | inr (value, e) ↦ (value, e, ground arith, ground (arith, finish_decode-ok value {a = a}))
  ]

  refuse-ne-ok : {a : A} → refuse d key r ≡ ok a → ⊥
  unfolding refuse
  refuse-ne-ok h = ground arith

  accept-Accepted :
      {a : A}
      → r.status ≡ (operation_descriptor key).success_status
      → accept d key r ≡ ok a
      → Accepted a
  unfolding accept
  accept-Accepted {a} s h = elim (Result-cases (read_limited {P = P} r.status r.body)) [
    | inl (bytes, e) ↦
        let body : decode_bytes d key r bytes ≡ ok a = ground arith in
        let (value, f, g, k) = decode_bytes-ok bytes body in
        record {
          bytes = bytes;
          value = value;
          expected = s;
          typed = ground arith;
          uncached = ground arith;
          complete = e;
          parsed = f;
          clean = g;
          decoded = k;
        }
    | inr (error, e) ↦ absurd (ground arith)
  ]

  -- A response becomes a value only if it has the one status that the operation expects, is declared to
  -- be JSON, is marked no-store where it is authentication evidence, was read to its end within the
  -- bound, parsed, was found free of prohibited markers, and was decoded to that value.
  pub disposition-Accepted : {a : A} → disposition d key r ≡ ok a → Accepted a
  unfolding disposition
  disposition-Accepted {a} h =
      elim (Bool-cases (r.status == (operation_descriptor key).success_status)) [
        | inl e ↦ accept-Accepted ((==_iff _ _).0 e) (ground arith)
        | inr e ↦ absurd (refuse-ne-ok {a = a} (ground arith))
      ]

  -- A response with a redirect status, or with a success status other than the expected one, is
  -- malformed, whatever it holds.
  pub disposition-unexpected :
      ((300 ≤ r.status) × (r.status < 400))
        ⊎ ((200 ≤ r.status)
            × (r.status < 300)
            × (r.status ≢ (operation_descriptor key).success_status))
      → disposition d key r ≡ malformed r.status
  unfolding disposition refuse
  disposition-unexpected h = ground arith
