-- ===== src/Contract/Tests.antt =====
-- The table of operations at one operation.
use cuna_lib_ts.Base.{◌≡◌, refl, false}
use cuna_lib_ts.Contract.{me_get, get, operation_descriptor}
use cuna_lib_ts.Contract.Safety.{is_read, is_read_safe, needs_idempotency_key}

is_read_safe_example :
    ((operation_descriptor me_get).method ≡ get)
    × ((operation_descriptor me_get).has_request_body ≡ false)
    × (needs_idempotency_key me_get ≡ false)
unfolding is_read
is_read_safe_example = is_read_safe me_get refl
