-- ===== src/Models/Time.antt =====
-- A datetime in UTC as text. The day and its date follow `datetime.isoformat` of the language.
use Prim.Native.String
use nodus_hitl_hub.Base.{
  Bool, List, String, [], concat, if◌then◌else◌, ltb, nat_eq, not, refl, suc, zero, ℕ, ◌%◌, ◌&&◌,
  ◌*◌, ◌+◌, ◌-◌, ◌/◌, ◌||◌, ◌∷◌, ◌≡◌,
}
use nodus_hitl_hub.Base.Int.{pos}
use nodus_hitl_hub.Json.Print.{decimal}

-- The month and the day of the month, for day n (from 0) of months with these lengths.
month_day : List ℕ → ℕ → ℕ → ℕ × ℕ
month_day [] month n = (month, suc n)
month_day (days ∷ lengths) month n =
    let later = month_day lengths (suc month) (n - days) in
    if ltb n days then (month, suc n) else later

month_lengths : Bool → List ℕ
month_lengths leap =
    31 ∷ (if leap then 29 else 28) ∷ 31 ∷ 30 ∷ 31 ∷ 30 ∷ 31 ∷ 31 ∷ 30 ∷ 31 ∷ 30 ∷ 31 ∷ []

pub record Date : Type 0 where
  pub year : ℕ
  pub month : ℕ
  pub day : ℕ

-- The date in a cycle of 400, 100, 4 and 1 years, each with the number of cycles that passed. The
-- last day of a long year and of a long cycle is counted as a year of its own.
date_in : ℕ → ℕ → ℕ → ℕ → ℕ → Date
unfolding month_day month_lengths
date_in n400 n100 n4 n1 day =
    let year = n400 * 400 + n100 * 100 + n4 * 4 + n1 in
    let leap = nat_eq n1 3 && (not (nat_eq n4 24) || nat_eq n100 3) in
    if nat_eq n1 4 || nat_eq n100 4
    then record { year = year; month = 12; day = 31 }
    else (let (month, in_month) = month_day (month_lengths leap) 1 day in
        record { year = suc year; month = month; day = in_month })

-- The date of the day with this number, counted from 1 January of the year 1.
unfoldable pub date_of : ℕ → Date
unfolding date_in
date_of days =
    let in400 = days % 146097 in
    let in100 = in400 % 36524 in
    let in4 = in100 % 1461 in
    date_in (days / 146097) (in400 / 36524) (in100 / 1461) (in4 / 365) (in4 % 365)

-- A number in so many decimal digits.
padded : ℕ → ℕ → String
padded zero n = ""
padded (suc width) n = String.◌++◌ (padded width (n / 10)) (decimal (pos (n % 10)))

-- The part of a second, left out when it is 0.
fraction : ℕ → String
unfolding padded
fraction micros = if nat_eq micros 0 then "" else concat ("." ∷ padded 6 micros ∷ [])

-- `time.isoformat()`, time in microseconds
unfoldable pub isoformat : ℕ → String
unfolding date_of padded fraction
isoformat time =
    let seconds = time / 1000000 in
    let date = date_of (seconds / 86400) in
    concat (
      padded 4 date.year
      ∷ "-"
      ∷ padded 2 date.month
      ∷ "-"
      ∷ padded 2 date.day
      ∷ "T"
      ∷ padded 2 (seconds / 3600 % 24)
      ∷ ":"
      ∷ padded 2 (seconds / 60 % 60)
      ∷ ":"
      ∷ padded 2 (seconds % 60)
      ∷ fraction (time % 1000000)
      ∷ "+00:00"
      ∷ [])

isoformat_leap_day : isoformat 63844806896000007 ≡ "2024-02-29T12:34:56.000007+00:00"
unfolding isoformat decimal
isoformat_leap_day = refl

isoformat_last : isoformat 315537897599000000 ≡ "9999-12-31T23:59:59+00:00"
unfolding isoformat decimal
isoformat_last = refl

isoformat_end_of_cycle : isoformat 12622694400000000 ≡ "0400-12-31T00:00:00+00:00"
unfolding isoformat decimal
isoformat_end_of_cycle = refl
