-- ===== src/Http/JsonTimestamp/Calendar.antt =====
-- The Gregorian calendar by its leap-year rule, and the conversion of a day number against it.
use native.Mathlib.Nat.{add-zero}
use native.Mathlib.Numerals.{add-one}
use leta.Prelude.{
  ltb→lt, ◌⊎◌, All, ℕ, zero, suc, ◌+◌, ◌-◌, ◌*◌, ◌/◌, ◌%◌, ◌≤◌, ◌<◌, ◌≡◌, refl, Bool, false, not,
  ◌||◌, ◌&&◌, List, [], ◌∷◌, arith, ltb, leb, ◌==◌, ==_iff, if◌then◌else◌, take, get_or, all_below,
  all_below_sound, Bool-cases, inl, inr,
}
use leta.Http.JsonTimestamp.{Date, date_of}

abbrev pub is_leap : ℕ → Bool
is_leap year = year % 4 == 0 && (not (year % 100 == 0) || year % 400 == 0)

abbrev pub leap_day : ℕ → ℕ
leap_day year = if is_leap year then 1 else 0

abbrev pub month_lengths : ℕ → List ℕ
month_lengths february = 31 ∷ february ∷ 31 ∷ 30 ∷ 31 ∷ 30 ∷ 31 ∷ 31 ∷ 30 ∷ 31 ∷ 30 ∷ 31 ∷ []

abbrev pub total : List ℕ → ℕ
total [] = 0
total (n ∷ ns) = n + total ns

-- The days of a month, and those of the year before it.
abbrev pub days_in : ℕ → ℕ → ℕ
days_in year month = get_or (month_lengths (28 + leap_day year)) (month - 1) 0

abbrev pub days_before : ℕ → ℕ → ℕ
days_before year month = total (take (month - 1) (month_lengths (28 + leap_day year)))

-- The days from 1 January of the year 0 to 1 January of a year.
abbrev pub new_year : ℕ → ℕ
new_year year = 365 * year + (year + 3) / 4 - (year + 99) / 100 + (year + 399) / 400

pub new_year-suc : (year : ℕ) → new_year (suc year) ≡ new_year year + 365 + leap_day year
new_year-suc year = ground arith

-- The days from 1 January of the year 0 to a date.
abbrev pub day_number : Date → ℕ
day_number date = new_year date.year + days_before date.year date.month + (date.day - 1)

-- A date of the calendar.
pub record IsDate (date : Date) : Type 0 where
  pub month_in : (1 ≤ date.month) × (date.month ≤ 12)
  pub day_in : (1 ≤ date.day) × (date.day ≤ days_in date.year date.month)

-- The steps of `date_of` within an era of 400 years.
abbrev year_of_era : ℕ → ℕ
year_of_era doe = (doe - doe / 1460 + doe / 36524 - doe / 146096) / 365

-- The days of an era before a year of it, a year being from March to February.
abbrev era_start : ℕ → ℕ
era_start yoe = 365 * yoe + yoe / 4 - yoe / 100

year_of_era_lem :
    (doe : ℕ)
    → doe < 146097
    → (year_of_era doe < 400)
      × (era_start (year_of_era doe) ≤ doe)
      × (doe < era_start (suc (year_of_era doe)) + (year_of_era doe + 1) / 400)
year_of_era_lem doe h = omega arith

-- The days of a year from March to the start of its mp-th month.
abbrev march_days : ℕ → ℕ
march_days mp = (153 * mp + 2) / 5

march_month_lem :
    (doy : ℕ)
    → doy ≤ 365
    → let mp = (5 * doy + 2) / 153 in
      (mp ≤ 11) × (march_days mp ≤ doy) × (doy < march_days (suc mp))
march_month_lem doy h = omega arith

-- The same months, counted from January.
before_march :
    (leap mp : ℕ)
    → leap < 2
    → mp < 10
    → total (take (mp + 2) (month_lengths (28 + leap))) ≡ 59 + leap + march_days mp
unfolding all_below
before_march zero mp l h = (==_iff _ _).0 (
    all_below_sound 10 (λ m. total (take (m + 2) (month_lengths 28)) == 59 + 0 + march_days m) mp
      refl h)
before_march (suc zero) mp l h = (==_iff _ _).0 (
    all_below_sound 10 (λ m. total (take (m + 2) (month_lengths 29)) == 59 + 1 + march_days m) mp
      refl h)
before_march (suc (suc n)) mp l h = absurd (omega arith)

march_length :
    (leap mp : ℕ)
    → leap < 2
    → mp < 10
    → get_or (month_lengths (28 + leap)) (mp + 2) 0 ≡ march_days (mp + 1) - march_days mp
unfolding all_below
march_length zero mp l h = (==_iff _ _).0 (
    all_below_sound 10
      (λ m. get_or (month_lengths 28) (m + 2) 0 == march_days (m + 1) - march_days m) mp refl h)
march_length (suc zero) mp l h = (==_iff _ _).0 (
    all_below_sound 10
      (λ m. get_or (month_lengths 29) (m + 2) 0 == march_days (m + 1) - march_days m) mp refl h)
march_length (suc (suc n)) mp l h = absurd (omega arith)

leap_day-lt : (year : ℕ) → leap_day year < 2
leap_day-lt year = ground arith

get_or-le : (bound : ℕ) (xs : List ℕ) (i : ℕ) → All (λ x. x ≤ bound) xs → get_or xs i 0 ≤ bound
get_or-le bound [] i h = omega arith
get_or-le bound (x ∷ xs) zero h = h.0
get_or-le bound (x ∷ xs) (suc i) h = get_or-le bound xs i h.1

pub days_in-le : (year month : ℕ) → days_in year month ≤ 31
days_in-le year month = get_or-le 31 (month_lengths (28 + leap_day year)) (month - 1) (
  omega arith,
  (
    omega (arith, leap_day-lt year),
    (
      omega arith,
      (
        omega arith,
        (
          omega arith,
          (
            omega arith,
            (
              omega arith,
              (omega arith, (omega arith, (omega arith, (omega arith, (omega arith, tt))))),
            ),
          ),
        ),
      ),
    ),
  ),
)

-- The date of a day of the year that starts in March of `year`.
abbrev march_date : ℕ → ℕ → ℕ → Date
march_date year doy mp =
    let month : ℕ = if ltb mp 10 then mp + 3 else mp - 9 in
    record {
      year = year + (if leb month 2 then 1 else 0);
      month = month;
      day = doy - (153 * mp + 2) / 5 + 1;
    }

module _ (year doy mp : ℕ) (within : doy ≤ 364 + leap_day (suc year)) (low : march_days mp ≤ doy)
    (high : doy < march_days (mp + 1)) where
  abbrev Right : Date → Type 0
  Right date = IsDate date × (day_number date + 306 ≡ new_year (suc year) + doy)

  spring :
      mp < 10 → Right (record { year = year; month = mp + 3; day = doy - (153 * mp + 2) / 5 + 1 })
  spring h = (
    record { month_in = omega arith; day_in = (omega arith, rw shift (rw length (omega arith))) },
    rw shift (rw sums (omega (arith, new_year-suc year))),
  )
    where
      shift : mp + 3 - 1 ≡ mp + 2
      shift = omega arith

      length :
          get_or (month_lengths (28 + leap_day year)) (mp + 2) 0
          ≡ march_days (mp + 1) - march_days mp
      length = march_length (leap_day year) mp (leap_day-lt year) h

      sums :
          total (take (mp + 2) (month_lengths (28 + leap_day year)))
          ≡ 59 + leap_day year + march_days mp
      sums = before_march (leap_day year) mp (leap_day-lt year) h

  january :
      mp ≡ 10 → Right (record { year = suc year; month = 1; day = doy - (153 * 10 + 2) / 5 + 1 })
  january h = (record { month_in = omega arith; day_in = omega arith }, omega arith)

  february :
      mp ≡ 11 → Right (record { year = suc year; month = 2; day = doy - (153 * 11 + 2) / 5 + 1 })
  february h = (record { month_in = omega arith; day_in = omega arith }, omega arith)

  march_date-Right : mp ≤ 11 → Right (march_date year doy mp)
  march_date-Right h = elim (Bool-cases (ltb mp 10)) [
    | inl small ↦ rw small (rw (late (ltb→lt mp 10 small), add-zero) (spring (ltb→lt mp 10 small)))
    | inr large ↦ elim (last large) [
      | inl is_ten ↦ rw is_ten (rw add-one (january is_ten))
      | inr is_eleven ↦ rw is_eleven (rw add-one (february is_eleven))
    ]
  ]
    where
      late : mp < 10 → leb (mp + 3) 2 ≡ false
      late small = ground arith

      last : ltb mp 10 ≡ false → (mp ≡ 10) ⊎ (mp ≡ 11)
      last large = ground arith

march_year_length :
    (yoe era : ℕ)
    → yoe < 400
    → era_start (suc yoe) + (yoe + 1) / 400 ≡ era_start yoe + 365 + leap_day (suc (yoe + era * 400))
march_year_length yoe era h = ground arith

-- The conversion gives a date of the calendar, and the one whose day it was given: days counted from 1
-- March of the year 0.
pub date_of_lem : (z : ℕ) → IsDate (date_of z) × (day_number (date_of z) ≡ z + 60)
unfolding date_of
date_of_lem z =
    let era : ℕ = z / 146097 in
    let doe : ℕ = z % 146097 in
    let (below, starts, ends) = year_of_era_lem doe (omega arith) in
    let year : ℕ = year_of_era doe + era * 400 in
    let doy : ℕ = doe - era_start (year_of_era doe) in
    let within : doy ≤ 364 + leap_day (suc year) =
      omega (arith, march_year_length (year_of_era doe) era below) in
    let (month, low, high) = march_month_lem doy (omega (arith, leap_day-lt (suc year))) in
    let (valid, number) =
      march_date-Right year doy ((5 * doy + 2) / 153) within low (omega (arith, high)) month in
    (valid, omega (arith, number))
