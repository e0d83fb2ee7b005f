-- ===== src/Requests/Value.antt =====
-- What a caller may pass for an argument: JavaScript data, whose objects are plain ones.
pub mod Laws
use cuna_lib_ts.Base.{
  zero, suc, ℕ, Bool, true, false, ◌&&◌, ◌||◌, if◌then◌else◌, leb, Option, none, some, List, [],
  ◌∷◌, Text, String, same, lit, ◌+◌, all, suc, length, ◌/◌, ◌%◌, ltb,
}
use cuna_lib_ts.Json.{Json, Number, whole, Fields, end, field}
use cuna_lib_ts.Domain.Grammar.{one_of, between}
use cuna_lib_ts.Domain.Read.{◌>>=◌, ◌>>◌, check, max_safe}

mutual
  pub data Value : Type 0 where
    undefined : Value
    null : Value
    boolean : Bool → Value
    number : Number → Value
    string : Text → Value
    array : Values → Value
    object : Members → Value
    function : Value
    -- a symbol or a big integer
    other : Value

  pub data Values : Type 0 where
    no_more : Values
    item : Value → Values → Values

  -- The own enumerable properties, in the order of `Object.keys`.
  pub data Members : Type 0 where
    last : Members
    member : Text → Value → Members → Members

-- `Object.hasOwn`
unfoldable pub owned : String → Members → Bool
unfolding same lit
owned key last = false
owned key (member name value members) = same (lit key) name || owned key members

-- `source[key]`
unfoldable pub read : String → Members → Value
unfolding same lit
read key last = Value.undefined
read key (member name value members) =
    let rest = read key members in if same (lit key) name then value else rest

-- `Object.keys(source).some((name) => !names.includes(name))`, negated.
unfoldable pub named_in : List String → Members → Bool
unfolding one_of
named_in names last = true
named_in names (member name value members) = one_of names name && named_in names members

unfoldable pub owned_all : List String → Members → Bool
unfolding owned
owned_all [] members = true
owned_all (key ∷ keys) members = owned key members && owned_all keys members

-- `object` followed by `exact`, as src/workspace-sync.ts has them; `record` followed by `exactKeys` of
-- src/workspace-bindings.ts.
abbrev pub plain_object : Value → Option Members
plain_object (Value.object members) = some members
plain_object _ = none

abbrev pub exactly : List String → Value → Option Members
exactly names value = do
  source ← plain_object value
  check (named_in names source && owned_all names source)
  some source

abbrev pub string_value : Value → Option Text
string_value (Value.string s) = some s
string_value _ = none

abbrev pub boolean_value : Value → Option Bool
boolean_value (Value.boolean b) = some b
boolean_value _ = none

abbrev pub values_of : Value → Option Values
values_of (Value.array values) = some values
values_of _ = none

-- A string that satisfies a test.
unfoldable pub text_value : (Text → Bool) → Value → Option Text
text_value p value = do s ← string_value value; check (p s); some s

-- `integer` of src/workspace-sync.ts, for bounds that are not negative.
unfoldable pub integer_value : (minimum maximum : ℕ) → Value → Option ℕ
integer_value minimum maximum (Value.number (whole n)) =
    if leb n max_safe && (leb minimum n && leb n maximum) then some n else none
integer_value minimum maximum _ = none

unfoldable pub count_values : Values → ℕ
count_values no_more = 0
count_values (item value values) = ℕ.suc (count_values values)

unfoldable pub map_values {ℓ} : {A : Type ℓ} → (Value → Option A) → Values → Option (List A)
map_values f no_more = some []
map_values f (item value values) = do a ← f value; as' ← map_values f values; some (a ∷ as')

-- A value that may be `undefined`.
abbrev pub unless_undefined {ℓ} : {A : Type ℓ} → (Value → Option A) → Value → Option (Option A)
unless_undefined f Value.undefined = some none
unless_undefined f value = do a ← f value; some (some a)

-- A value that may be `null`.
abbrev pub unless_null {ℓ} : {A : Type ℓ} → (Value → Option A) → Value → Option (Option A)
unless_null f Value.null = some none
unless_null f value = do a ← f value; some (some a)

-- An object of a request's body.
abbrev pub fields : List (String × Json) → Fields
fields [] = end
fields ((name, value) ∷ more) = field (lit name) value (fields more)

abbrev pub json : List (String × Json) → Json
json members = Json.object (fields members)

abbrev pub natural : ℕ → Json
natural n = Json.number (whole n)

-- `^[\x21-\x7e]{8,128}$`, the pattern of an idempotency key in each of the files.
unfoldable pub is_idempotency_key : Text → Bool
is_idempotency_key s = all (between 0x21 0x7e) s && between 8 128 (length s)

-- The decimal digits of a number, before those that stand already; `fuel` is more than the number.
unfoldable pub decimal_from : (fuel n : ℕ) → Text → Text
decimal_from zero n s = s
decimal_from (suc fuel) n s =
    let more = decimal_from fuel (n / 10) ((0x30 + n % 10) ∷ s) in
    if ltb n 10 then (0x30 + n) ∷ s else more

-- `String` of a natural number.
unfoldable pub decimal : ℕ → Text
unfolding decimal_from
decimal n = decimal_from (n + 1) n []
