-- ===== src/Domain/Dates/Written.antt =====
-- Which texts `dateTime` of src/domain.ts accepts as dates.
use cuna_lib_ts.Domain.Dates.Parts.{
  IsFraction, IsZone, part-read, zone-read, after_fraction-read, after_fraction-zone, zone-written,
}
use cuna_lib_ts.Domain.Dates.Digits.{two, four, four-read, digits-two, digits-four}
use cuna_lib_ts.Domain.Dates.Calendar.{OnCalendar, in_calendar-OnCalendar, OnCalendar-in_calendar}
use cuna_lib_ts.Domain.Dates.{Stamp, expect, rfc3339, DateParse, date_time}
use cuna_lib_ts.Base.{
  refl, Text, ◌∷◌, ◌≡◌, ◌<◌, ◌++◌, some, arith, ap, sym, ◌&&◌, true, Bool, ◌↔◌, is_some,
}
use cuna_lib_ts.Domain.Read.{◌>>=◌, ◌>>◌, check, string_of}
use cuna_lib_ts.Domain.Chains.{>>=-some, >>-some, some_injective}
use cuna_lib_ts.Json.{Json}

-- The date and the time, with what follows the seconds.
abbrev pub dated : Stamp → Text → Text
dated t s = four t.year (
    0x2d
    ∷ two t.month
        (0x2d ∷ two t.day (0x54 ∷ two t.hour (0x3a ∷ two t.minute (0x3a ∷ two t.second s)))))

-- A text that writes the numbers of a stamp: four digits of the year and two of each other number, in
-- their places.
pub record Writes (s : Text) (t : Stamp) : Type 0 where
  pub years : t.year < 10000
  pub months : t.month < 100
  pub day_numbers : t.day < 100
  pub hours : t.hour < 100
  pub minutes : t.minute < 100
  pub seconds : t.second < 100
  pub fraction : Text
  pub zone_text : Text
  pub is_fraction : IsFraction fraction
  pub is_zone : IsZone t.offset_hour t.offset_minute zone_text
  pub as_is : s ≡ dated t (fraction ++ zone_text)

pub rfc3339-written : (s : Text) (t : Stamp) → Writes s t → rfc3339 s ≡ some t
unfolding rfc3339 expect ◌>>=◌
rfc3339-written s t w =
    rw
      (
        w.as_is,
        digits-four t.year _ w.years,
        digits-two t.month _ w.months,
        digits-two t.day _ w.day_numbers,
        digits-two t.hour _ w.hours,
        digits-two t.minute _ w.minutes,
        digits-two t.second _ w.seconds,
        after_fraction-zone w.is_fraction w.is_zone,
        zone-written w.is_zone,
      )
      refl

dated_parts :
    (t : Stamp) {s s1 s2 s3 s4 s5 s6 tail : Text}
    → s ≡ four t.year s1
    → s1 ≡ 0x2d ∷ two t.month s2
    → s2 ≡ 0x2d ∷ two t.day s3
    → s3 ≡ 0x54 ∷ two t.hour s4
    → s4 ≡ 0x3a ∷ two t.minute s5
    → s5 ≡ 0x3a ∷ two t.second s6
    → s6 ≡ tail
    → s ≡ dated t tail
dated_parts t e1 e2 e3 e4 e5 e6 e7 = rw (e1, e2, e3, e4, e5, e6, e7) refl

pub rfc3339-read : (s : Text) {t : Stamp} → rfc3339 s ≡ some t → Writes s t
unfolding rfc3339
rfc3339-read s {t} h =
    let ((year, s1), d, h1) = >>=-some h in
    let (e1, l1) = four-read s d in
    let (month, s2, e2, l2, h2) = part-read 0x2d s1 _ h1 in
    let (day, s3, e3, l3, h3) = part-read 0x2d s2 _ h2 in
    let (hour, s4, e4, l4, h4) = part-read 0x54 s3 _ h3 in
    let (minute, s5, e5, l5, h5) = part-read 0x3a s4 _ h4 in
    let (second, s6, e6, l6, h6) = part-read 0x3a s5 _ h5 in
    let (z, a, h7) = >>=-some h6 in
    let (f, is_f, e7) = after_fraction-read s6 a in
    let ((offset_hour, offset_minute), o, h8) = >>=-some h7 in
    let made : Stamp = record {
      year = year;
      month = month;
      day = day;
      hour = hour;
      minute = minute;
      second = second;
      offset_hour = offset_hour;
      offset_minute = offset_minute;
    } in
    rw (some_injective h8) (record {
      years = l1;
      months = l2;
      day_numbers = l3;
      hours = l4;
      minutes = l5;
      seconds = l6;
      fraction = f;
      zone_text = z;
      is_fraction = is_f;
      is_zone = zone-read z o;
      as_is = dated_parts made e1 e2 e3 e4 e5 e6 e7;
    })

and_both : (b c : Bool) → (b && c) ≡ true → (b ≡ true) × (c ≡ true)
and_both b c h = (ground arith, ground arith)

string_of-read : (value : Json) {s : Text} → string_of value ≡ some s → value ≡ Json.string s
string_of-read (Json.string s) h = ap Json.string (some_injective (sym h))
string_of-read _ h = cc

same_text :
    (date_parse : DateParse) {value : Json} (t : Stamp) {s u : Text}
    → s ≡ u
    → value ≡ Json.string u
    → Writes u t
    → OnCalendar t
    → is_some (date_parse u) ≡ true
    → (t : Stamp) × (value ≡ Json.string s)
      × Writes s t
      × OnCalendar t
      × (is_some (date_parse s) ≡ true)
same_text date_parse t e v w c known = rw e (t, v, w, c, known)

date_time-read :
    (date_parse : DateParse) (value : Json) (s : Text)
    → date_time date_parse value ≡ some s
    → (t : Stamp) × (value ≡ Json.string s)
      × Writes s t
      × OnCalendar t
      × (is_some (date_parse s) ≡ true)
unfolding date_time
date_time-read date_parse value s h =
    let (u, e, h1) = >>=-some h in
    let (t, r, h2) = >>=-some h1 in
    let (c, h3) = >>-some h2 in
    let (calendar, known) = and_both _ _ c in
    same_text date_parse t (some_injective h3) (string_of-read value e) (rfc3339-read u r)
      (in_calendar-OnCalendar t calendar) known

date_time-written :
    (date_parse : DateParse) (value : Json) (s : Text)
    → ((t : Stamp) × (value ≡ Json.string s)
        × Writes s t
        × OnCalendar t
        × (is_some (date_parse s) ≡ true))
    → date_time date_parse value ≡ some s
unfolding date_time ◌>>=◌ ◌>>◌ check
date_time-written date_parse value s (t, e, w, c, known) =
    rw (e, rfc3339-written s t w, OnCalendar-in_calendar t c, known) refl

-- A value is accepted as a date exactly if it is a text that writes out, in the digits that RFC 3339 asks
-- for, a fraction of any length and an offset or Z at its end, a day of the calendar at a time of the
-- clock, at an instant that the platform knows; the result is that text.
pub date_time_iff :
    (date_parse : DateParse) (value : Json) (s : Text)
    → (date_time date_parse value ≡ some s) ↔ (
        (t : Stamp) × (value ≡ Json.string s)
        × Writes s t
        × OnCalendar t
        × (is_some (date_parse s) ≡ true))
date_time_iff date_parse value s =
    (date_time-read date_parse value s, date_time-written date_parse value s)
