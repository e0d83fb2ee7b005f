-- ===== src/Json/Tests.antt =====
-- The scan of a response at a small object.
use cuna_lib_ts.Base.{◌≡◌, ◌↔◌, false, some, All, lit}
use cuna_lib_ts.Boundary.Escapes.{Platform, contains_prohibited_marker}
use cuna_lib_ts.Json.{Json, string, object, array, nil, cons, end, field, sanitize_wire}
use cuna_lib_ts.Json.Sanitized.{texts, sanitize_wire-iff-clean}

abbrev plain : Platform
plain = record { decode_uri_component = λ s. some s; to_lower_case = λ s. s }

abbrev small : Json
small = object (field (lit "ok") (array (cons (string (lit "yes")) nil)) end)

sanitize_wire-iff-clean_example :
    (sanitize_wire plain small ≡ some small)
    ↔ All (λ s. contains_prohibited_marker plain s ≡ false) (texts small)
sanitize_wire-iff-clean_example = sanitize_wire-iff-clean plain small
