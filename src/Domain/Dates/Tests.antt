-- ===== src/Domain/Dates/Tests.antt =====
-- A date, and the theorem at it.
use cuna_lib_ts.Base.{refl, some, ◌≡◌, true, ◌↔◌, is_some, Text, lit}
use cuna_lib_ts.Json.{Json}
use cuna_lib_ts.Domain.Dates.{Stamp, date_time, DateParse}
use cuna_lib_ts.Domain.Dates.Calendar.{OnCalendar}
use cuna_lib_ts.Domain.Dates.Written.{Writes, date_time_iff}
use cuna_lib_ts.Domain.Read.{◌>>=◌, ◌>>◌, check}

abbrev any_instant : DateParse
any_instant s = some 0

abbrev leap_text : Text
leap_text = lit "2028-02-29T23:59:07.25-05:30"

date_time_iff_example : (date_time any_instant (Json.string leap_text) ≡ some leap_text) ↔ (
    (t : Stamp) × (Json.string leap_text ≡ Json.string leap_text)
    × Writes leap_text t
    × OnCalendar t
    × (is_some (any_instant leap_text) ≡ true))
date_time_iff_example = date_time_iff any_instant (Json.string leap_text) leap_text

leap_text-accepted : date_time any_instant (Json.string leap_text) ≡ some leap_text
unfolding date_time ◌>>=◌ ◌>>◌ check lit
leap_text-accepted = refl
