-- ===== src/Requests/Samples.antt =====
-- Arguments for the tests.
use cuna_lib_ts.Base.{List, [], ◌∷◌, Text, lit, String, ℕ}
use cuna_lib_ts.Json.{whole}
use cuna_lib_ts.Requests.Value.{Value, Members, last, member}

abbrev pub an_id : Text
an_id = lit "01234567-89ab-cdef-0123-456789abcdef"

abbrev pub a_digest : Text
a_digest = lit "0123456789abcdef0123456789abcdef0123456789abcdef0123456789abcdef"

abbrev pub members : List (String × Value) → Members
members [] = last
members ((name, value) ∷ more) = member (lit name) value (members more)

abbrev pub number : ℕ → Value
number n = Value.number (whole n)

abbrev pub id_value : Value
id_value = Value.string an_id

abbrev pub sha_value : Value
sha_value = Value.string a_digest

abbrev pub a_key : Value
a_key = Value.string (lit "key-0001")
