-- ===== src/Domain/Redaction.antt =====
-- `redactOnSerialize` of src/domain.ts: what `JSON.stringify` and `util.inspect` see of a value with
-- secrets, by the hooks that it defines.
use cuna_lib_ts.Base.{some, List, refl, inl, inr, String, ◌≡◌, if◌then◌else◌, lit, Text}
use cuna_lib_ts.Base.{Bool-cases, same, same→eq, arith}
use cuna_lib_ts.Json.{Json, end, field, Fields}
use cuna_lib_ts.Domain.Read.{get}
use cuna_lib_ts.Domain.Grammar.{one_of}

-- The value of a property, or `REDACTED` in its place.
abbrev pub masked : List String → Text → Json → Json
masked secrets name value = if one_of secrets name then Json.string (lit "[redacted]") else value

-- `redacted`, of the properties of a value and the names of its secrets.
unfoldable pub redacted : List String → Fields → Fields
redacted secrets end = end
redacted secrets (field name value fields) =
    let rest = redacted secrets fields in field name (masked secrets name value) rest

-- A property is there as before, and has its value unless it is a secret.
pub get-redacted :
    (secrets : List String) (key : String) (fields : Fields) {w : Json}
    → get key fields ≡ some w
    → get key (redacted secrets fields) ≡ some (masked secrets (lit key) w)
unfolding get redacted
get-redacted secrets key end h = cc
get-redacted secrets key (field name value fields) {w} h = elim (Bool-cases (same (lit key) name)) [
  | inl t ↦
      let q : value ≡ w = ground arith in
      let e : lit key ≡ name = same→eq (lit key) name t in rw (t, e, q) refl
  | inr f ↦
      let g : get key fields ≡ some w = ground arith in rw f (get-redacted secrets key fields g)
]
