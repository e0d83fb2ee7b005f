-- ===== src/Requests/Call.antt =====
-- A call of a manager: what it asks of `ClientPort.invoke`, and what it makes of the answer. Every
-- method throws a `TypeError` for arguments that it refuses, and otherwise invokes one operation.
pub mod Laws
use cuna_lib_ts.Base.{ℕ, Bool, true, false, Option, none, some, List, Text}
use cuna_lib_ts.Json.{Json}
use cuna_lib_ts.Contract.{OperationKey}
use cuna_lib_ts.Errors.{Result, ok, thrown, type_error, malformed}

-- `DispatchInput`, but for the signal, which no manager gives.
pub record DispatchInput : Type 0 where
  pub id : Option Text
  pub query : Option (List (Text × Text))
  pub body : Option Json
  pub timeout_secs : Option ℕ
  pub idempotency_key : Option Text
  pub binding_id : Option Text
  pub digest : Option Text
  pub bytes : Option (List ℕ)

abbrev pub no_input : DispatchInput
no_input = record {
  id = none;
  query = none;
  body = none;
  timeout_secs = none;
  idempotency_key = none;
  binding_id = none;
  digest = none;
  bytes = none;
}

-- `status` is the one of the `ApiError` that is thrown where the answer is found unfit.
pub record Call {ℓ} (Answer A : Type ℓ) : Type ℓ where
  pub key : OperationKey
  pub input : DispatchInput
  pub settle : Answer → Option A
  pub status : ℕ

-- `ClientPort.invoke`
abbrev pub Port : (P Answer : Type 0) → Type 0
Port P Answer = OperationKey → DispatchInput → Result P Answer

abbrev pub settled_as : {P A : Type 0} → ℕ → Option A → Result P A
settled_as status none = malformed status
settled_as status (some a) = ok a

abbrev pub finish : {P Answer A : Type 0} → Call Answer A → Result P Answer → Result P A
finish c (thrown error) = thrown error
finish c (ok answer) = settled_as c.status (c.settle answer)

unfoldable pub perform : {P Answer A : Type 0} → Port P Answer → Option (Call Answer A) → Result P A
perform port none = thrown type_error
perform port (some c) = finish c (port c.key c.input)

-- `if (!test) throw …; return answer;`
abbrev pub given : {A : Type 0} → Bool → A → Option A
given true a = some a
given false a = none

-- A port whose answers have gone through the decoder of their operation, as the transport's have.
abbrev pub decoded_by :
    {P Answer : Type 0} → (Json → Option Answer) → Result P Json → Result P Answer
decoded_by decode (thrown error) = thrown error
decoded_by decode (ok value) = settled_as 200 (decode value)

abbrev pub decoding :
    {P Answer : Type 0}
    → (OperationKey → Json → Option Answer)
    → (OperationKey → DispatchInput → Result P Json)
    → Port P Answer
decoding decode respond key input = decoded_by (decode key) (respond key input)
