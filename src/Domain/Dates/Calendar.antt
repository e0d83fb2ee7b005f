-- ===== src/Domain/Dates/Calendar.antt =====
-- The days of the calendar and the times of the clock that `dateTime` of src/domain.ts tests for.
use cuna_lib_ts.Base.{
  ℕ, zero, suc, ◌-◌, ap, ◌∙◌, ◌≤◌, ◌<◌, ◌≡◌, refl, if◌then◌else◌, true, some, List, [], ◌∷◌, arith,
  get_elem?, length,
}
use cuna_lib_ts.Domain.Dates.{Stamp, is_leap, days, in_calendar}

-- The day after the last of each month, by a table.
abbrev pub month_lengths : ℕ → List ℕ
month_lengths year =
    31 ∷ (if is_leap year then 29 else 28) ∷ 31 ∷ 30 ∷ 31 ∷ 30 ∷ 31 ∷ 31 ∷ 30 ∷ 31 ∷ 30 ∷ 31 ∷ []

get_elem?-lt : {A : Type 0} (xs : List A) (i : ℕ) {x : A} → get_elem? xs i ≡ some x → i < length xs
get_elem?-lt [] i h = absurd (ground arith)
get_elem?-lt (x ∷ xs) zero h = omega arith
get_elem?-lt (x ∷ xs) (suc i) h = omega (arith, get_elem?-lt xs i h)

days-table : (year i : ℕ) → i < 12 → get_elem? (month_lengths year) i ≡ some (days year (suc i))
unfolding days
days-table year zero h = refl
days-table year (suc zero) h = refl
days-table year (suc (suc zero)) h = refl
days-table year (suc (suc (suc zero))) h = refl
days-table year (suc (suc (suc (suc zero)))) h = refl
days-table year (suc (suc (suc (suc (suc zero))))) h = refl
days-table year (suc (suc (suc (suc (suc (suc zero)))))) h = refl
days-table year (suc (suc (suc (suc (suc (suc (suc zero))))))) h = refl
days-table year (suc (suc (suc (suc (suc (suc (suc (suc zero)))))))) h = refl
days-table year (suc (suc (suc (suc (suc (suc (suc (suc (suc zero))))))))) h = refl
days-table year (suc (suc (suc (suc (suc (suc (suc (suc (suc (suc zero)))))))))) h = refl
days-table year (suc (suc (suc (suc (suc (suc (suc (suc (suc (suc (suc zero))))))))))) h = refl
days-table year (suc (suc (suc (suc (suc (suc (suc (suc (suc (suc (suc (suc i)))))))))))) h =
    absurd (omega arith)

table_entry :
    (year month : ℕ)
    → 1 ≤ month
    → month ≤ 12
    → get_elem? (month_lengths year) (month - 1) ≡ some (days year month)
table_entry year month lo hi =
    let e : suc (month - 1) ≡ month = omega arith in
    days-table year (month - 1) (omega arith) ∙ ap (λ m. some (days year m)) e

-- A date of the calendar at a time of the clock.
pub record OnCalendar (t : Stamp) : Type 0 where
  pub last : ℕ
  pub in_table : get_elem? (month_lengths t.year) (t.month - 1) ≡ some last
  pub from_january : 1 ≤ t.month
  pub from_first : 1 ≤ t.day
  pub to_last : t.day ≤ last
  pub hour_hand : t.hour < 24
  pub minute_hand : t.minute < 60
  pub second_hand : t.second < 60
  pub offset_hour_hand : t.offset_hour < 24
  pub offset_minute_hand : t.offset_minute < 60

pub in_calendar-OnCalendar : (t : Stamp) → in_calendar t ≡ true → OnCalendar t
unfolding in_calendar
in_calendar-OnCalendar t h = record {
  last = days t.year t.month;
  in_table = table_entry t.year t.month (ground arith) (ground arith);
  from_january = ground arith;
  from_first = ground arith;
  to_last = ground arith;
  hour_hand = ground arith;
  minute_hand = ground arith;
  second_hand = ground arith;
  offset_hour_hand = ground arith;
  offset_minute_hand = ground arith;
}

pub OnCalendar-in_calendar : (t : Stamp) → OnCalendar t → in_calendar t ≡ true
unfolding in_calendar
OnCalendar-in_calendar t c =
    let twelve : t.month - 1 < 12 = get_elem?-lt (month_lengths t.year) (t.month - 1) c.in_table in
    let lo = c.from_january in
    let hi : t.month ≤ 12 = omega arith in
    let e = table_entry t.year t.month lo hi in
    let f = c.in_table in
    let n : c.last ≡ days t.year t.month = cc in
    let a = c.from_first in
    let b = c.to_last in
    let u = c.hour_hand in
    let v = c.minute_hand in
    let w = c.second_hand in
    let x = c.offset_hour_hand in let y = c.offset_minute_hand in ground arith
