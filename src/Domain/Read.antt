-- ===== src/Domain/Read.antt =====
-- The small decoders that the others are made of: `object`, `exact`, `string`, `uuid`,
-- `boundedString`, `safeInteger`, `sha256` and `enumValue` of src/domain.ts.
pub mod Accepts
use cuna_lib_ts.Base.{
  ℕ, leb, if◌then◌else◌, Bool, true, false, ◌&&◌, Option, none, some, List, [], ◌∷◌, Text, lit,
  same, is_some, String,
}
use cuna_lib_ts.Json.{Json, whole, Items, nil, cons, Fields, end, field}
use cuna_lib_ts.Domain.Grammar.{is_uuid, is_sha256, size, one_of}

infixl 5 ◌>>=◌ ◌>>◌
unfoldable pub ◌>>=◌ {ℓ κ} : {A : Type ℓ} {B : Type κ} → Option A → (A → Option B) → Option B
none >>= k = none
some a >>= k = k a

unfoldable pub ◌>>◌ {ℓ} : {B : Type ℓ} → Option (Unit {0}) → Option B → Option B
unfolding ◌>>=◌
m >> k = m >>= λ _. k

-- `if (!test) malformed();`
unfoldable pub check : Bool → Option (Unit {0})
check true = some tt
check false = none

-- `source[key]`, of which `undefined` is `none`; the properties of a parsed object have distinct names.
unfoldable pub get : String → Fields → Option Json
unfolding same lit
get key end = none
get key (field name value fields) =
    let rest = get key fields in if same (lit key) name then some value else rest

-- `Object.hasOwn`
abbrev pub has_own : String → Fields → Bool
has_own key fields = is_some (get key fields)

names_in : List String → Fields → Bool
unfolding one_of
names_in allowed end = true
names_in allowed (field name value fields) = one_of allowed name && names_in allowed fields

owns : List String → Fields → Bool
owns [] fields = true
owns (key ∷ keys) fields = has_own key fields && owns keys fields

append_names : List String → List String → List String
append_names [] ys = ys
append_names (x ∷ xs) ys = x ∷ append_names xs ys

unfoldable pub exact : List String → List String → Fields → Bool
unfolding owns names_in append_names get
exact required optional source =
    owns required source && names_in (append_names required optional) source

abbrev pub object_of : Json → Option Fields
object_of (Json.object fields) = some fields
object_of _ = none

-- `object` followed by `exact`.
abbrev pub closed : List String → List String → Json → Option Fields
closed required optional value = do
  source ← object_of value
  check (exact required optional source)
  some source

abbrev pub string_of : Json → Option Text
string_of (Json.string s) = some s
string_of _ = none

abbrev pub boolean_of : Json → Option Bool
boolean_of (Json.boolean b) = some b
boolean_of _ = none

abbrev pub items_of : Json → Option Items
items_of (Json.array items) = some items
items_of _ = none

abbrev pub max_safe : ℕ
max_safe = 9007199254740991

-- `safeInteger`, for a bound that is not negative.
unfoldable pub safe_integer : ℕ → Json → Option ℕ
safe_integer minimum (Json.number (whole n)) =
    if leb minimum n && leb n max_safe then some n else none
safe_integer minimum _ = none

unfoldable pub uuid : Json → Option Text
unfolding is_uuid
uuid value = do s ← string_of value; check (is_uuid s); some s

unfoldable pub sha256 : Json → Option Text
unfolding is_sha256
sha256 value = do s ← string_of value; check (is_sha256 s); some s

unfoldable pub bounded_string : ℕ → ℕ → Json → Option Text
unfolding size
bounded_string minimum maximum value = do
  s ← string_of value
  check (leb minimum (size s) && leb (size s) maximum)
  some s

unfoldable pub enum_value : List String → Json → Option Text
unfolding one_of
enum_value allowed value = do s ← string_of value; check (one_of allowed s); some s

-- A property that may be missing: `hasOwn(source, key) ? decode(source[key]) : undefined`.
abbrev pub optional_of {ℓ} : {A : Type ℓ} → (Json → Option A) → Option Json → Option (Option A)
optional_of decode none = some none
optional_of decode (some value) = do a ← decode value; some (some a)

-- A property that may be `null`.
abbrev pub nullable {ℓ} : {A : Type ℓ} → (Json → Option A) → Json → Option (Option A)
nullable decode Json.null = some none
nullable decode value = do a ← decode value; some (some a)

-- `value.map(decode)` over an array, which fails where one element does.
unfoldable pub map_items {ℓ} : {A : Type ℓ} → (Json → Option A) → Items → Option (List A)
map_items decode nil = some []
map_items decode (cons value items) = do
  a ← decode value
  as' ← map_items decode items
  some (a ∷ as')

unfoldable pub count_items : Items → ℕ
count_items nil = 0
count_items (cons value items) = ℕ.suc (count_items items)
