-- ===== src/Domain/Dates.antt =====
-- `dateTime` of src/domain.ts: RFC 3339 instants.
pub mod Calendar
pub mod Digits
pub mod Parts
pub mod Written
mod Tests
use cuna_lib_ts.Base.{
  ℕ, zero, suc, ◌+◌, ◌-◌, ◌*◌, ◌%◌, leb, ◌==◌, if◌then◌else◌, Bool, true, false, ◌&&◌, ◌||◌, not,
  Option, none, some, [], ◌∷◌, Text, is_some,
}
use cuna_lib_ts.Json.{Json}
use cuna_lib_ts.Domain.Grammar.{between}
use cuna_lib_ts.Domain.Read.{◌>>=◌, ◌>>◌, check, string_of}

-- `\d`
is_digit : ℕ → Bool
is_digit = between 0x30 0x39

-- `\d{n}` as a number, after the digits that the first argument stands for, and what follows it.
pub digits_from : ℕ → ℕ → Text → Option (ℕ × Text)
unfolding is_digit
digits_from acc zero s = some (acc, s)
digits_from acc (suc n) [] = none
digits_from acc (suc n) (c ∷ s) =
    let rest = digits_from (acc * 10 + (c - 0x30)) n s in if is_digit c then rest else none

pub digits : ℕ → Text → Option (ℕ × Text)
unfolding digits_from
digits = digits_from 0

-- One given code unit.
pub expect : ℕ → Text → Option Text
expect c [] = none
expect c (d ∷ s) = if d == c then some s else none

skip_digits : Text → Text
unfolding is_digit
skip_digits [] = []
skip_digits (c ∷ s) = let rest = skip_digits s in if is_digit c then rest else c ∷ s

-- `(?:\.\d+)?`
pub after_fraction : Text → Option Text
unfolding digits skip_digits
after_fraction [] = some []
after_fraction (c ∷ s) =
    if c == 0x2e then (do (d, rest) ← digits 1 s; some (skip_digits rest)) else some (c ∷ s)

-- `$`
abbrev ends : Text → Bool
ends [] = true
ends (c ∷ s) = false

-- `(\d{2}):(\d{2})$`
offset : Text → Option (ℕ × ℕ)
unfolding digits expect
offset s = do
  (hour, s1) ← digits 2 s
  (minute, s2) ← digits 2 (← expect 0x3a s1)
  check (ends s2)
  some (hour, minute)

-- `(?:Z|([+-])(\d{2}):(\d{2}))$`, as the hours and minutes of the offset.
pub zone : Text → Option (ℕ × ℕ)
unfolding offset
zone [] = none
zone (c ∷ s) =
    if c == 0x5a && ends s then some (0, 0) else if c == 0x2b || c == 0x2d then offset s else none

pub record Stamp : Type 0 where
  pub year : ℕ
  pub month : ℕ
  pub day : ℕ
  pub hour : ℕ
  pub minute : ℕ
  pub second : ℕ
  pub offset_hour : ℕ
  pub offset_minute : ℕ

-- `RFC3339.exec`
unfoldable pub rfc3339 : Text → Option Stamp
unfolding digits expect after_fraction zone
rfc3339 s = do
  (year, s1) ← digits 4 s
  (month, s2) ← digits 2 (← expect 0x2d s1)
  (day, s3) ← digits 2 (← expect 0x2d s2)
  (hour, s4) ← digits 2 (← expect 0x54 s3)
  (minute, s5) ← digits 2 (← expect 0x3a s4)
  (second, s6) ← digits 2 (← expect 0x3a s5)
  (offset_hour, offset_minute) ← zone (← after_fraction s6)
  some (record {
    year = year;
    month = month;
    day = day;
    hour = hour;
    minute = minute;
    second = second;
    offset_hour = offset_hour;
    offset_minute = offset_minute;
  })

abbrev pub is_leap : ℕ → Bool
is_leap year = (year % 4 == 0 && not (year % 100 == 0)) || year % 400 == 0

-- The `days` of the code.
unfoldable pub days : ℕ → ℕ → ℕ
days year month =
    if month == 2
    then (if is_leap year then 29 else 28)
    else if month == 4 || (month == 6 || (month == 9 || month == 11))
    then 30
    else 31

-- The test on the numbers.
unfoldable pub in_calendar : Stamp → Bool
unfolding days
in_calendar t =
    leb 1 t.month
    && leb t.month 12
    && (leb 1 t.day && leb t.day (days t.year t.month))
    && (leb t.hour 23 && leb t.minute 59 && leb t.second 59)
    && (leb t.offset_hour 23 && leb t.offset_minute 59)

-- `Date.parse`, in milliseconds from an instant before all others; NaN is `none`.
abbrev pub DateParse : Type 0
DateParse = Text → Option ℕ

unfoldable pub date_time : DateParse → Json → Option Text
unfolding rfc3339 in_calendar
date_time date_parse value = do
  s ← string_of value
  t ← rfc3339 s
  check (in_calendar t && is_some (date_parse s))
  some s
