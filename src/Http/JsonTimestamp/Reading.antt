-- ===== src/Http/JsonTimestamp/Reading.antt =====
-- A reader of RFC 3339 timestamps, and what it makes of the ones that the program writes.
use leta.Prelude.{
  ℕ, ◌+◌, ◌-◌, ◌*◌, ◌/◌, ◌%◌, ◌≤◌, ◌<◌, ◌≡◌, refl, ap, sym, ◌∙◌, true, false, Option, none, some,
  List, [], ◌∷◌, ◌++◌, append_assoc, arith, leb, if◌then◌else◌, Bytes, codes, length, length-append,
  pos, negsuc,
}
use leta.Core.IndexMetadata.{Timestamp}
use leta.Http.JsonObject.{skip, skip-append}
use leta.Http.JsonTimestamp.{
  Date, floor_days, time_of_day, shifted_days, date_of, unsigned_year, year_offset,
  append_json_timestamp,
}
use leta.Http.JsonTimestamp.Calendar.{
  IsDate, day_number, date_of_lem, leap_day, new_year, days_in-le,
}
use leta.Http.JsonTimestamp.Fields.{
  layout, written, Fit, read_all, read_all-written, append_fields, append_fields_lem,
  length-written,
}

-- The day of 1970-01-01, counted from 1 January of the year 0.
abbrev epoch_day : ℕ
epoch_day = 719528

-- The instant of a time of day, in milliseconds, on a day counted from 1 January of the year 0.
abbrev instant_of : ℕ → ℕ → Timestamp
instant_of day time =
    if leb epoch_day day
    then pos ((day - epoch_day) * 86400000 + time)
    else negsuc ((epoch_day - day) * 86400000 - time - 1)

abbrev pub instant : List ℕ → Option Timestamp
instant (year ∷ month ∷ day ∷ hours ∷ minutes ∷ seconds ∷ milliseconds ∷ []) = some (
    instant_of (day_number (record { year = year; month = month; day = day }))
      (((hours * 60 + minutes) * 60 + seconds) * 1000 + milliseconds))
instant _ = none

-- A quoted timestamp, and what follows it.
unfoldable pub read_timestamp : Bytes → Option (Timestamp × Bytes)
read_timestamp input = elim (read_all layout input) [
  | none ↦ none
  | some (values, rest) ↦ elim (skip (codes "Z\"") rest) [
    | none ↦ none
    | some behind ↦ elim (instant values) [ none ↦ none | some t ↦ some (t, behind) ]
  ]
]

-- The leap years repeat after 40000 years, which are 14609700 days.
module _ (year : ℕ) where
  leap_day_shifted : leap_day (year + year_offset) ≡ leap_day year
  leap_day_shifted = ground arith

  new_year_shifted : new_year (year + year_offset) ≡ new_year year + 14609700
  new_year_shifted = omega arith

  day_number_shifted :
      (month day : ℕ)
      → day_number (record { year = year + year_offset; month = month; day = day })
        ≡ day_number (record { year = year; month = month; day = day }) + 14609700
  day_number_shifted month day = rw leap_day_shifted (omega (arith, new_year_shifted))

  IsDate-shifted :
      (month day : ℕ)
      → IsDate (record { year = year + year_offset; month = month; day = day })
      → IsDate (record { year = year; month = month; day = day })
  IsDate-shifted month day valid = record {
    month_in = valid.month_in;
    day_in = rw leap_day_shifted at valid.day_in;
  }

recomposed :
    (time : ℕ)
    → ((time / 3600000 * 60 + time / 60000 % 60) * 60 + time / 1000 % 60) * 1000 + time % 1000
      ≡ time
recomposed time = omega arith

-- The instant of a day and a time of day that the program has split.
instant_of-split :
    (t : Timestamp) (day : ℕ)
    → day + 14609700 ≡ shifted_days (floor_days t) + 60
    → instant_of day (time_of_day t) ≡ t
unfolding shifted_days floor_days time_of_day
instant_of-split (pos n) day h = rw late (ap pos (omega arith))
  where
    late : leb epoch_day day ≡ true
    late = ground arith
instant_of-split (negsuc n) day h = rw early (ap negsuc (omega arith))
  where
    early : leb epoch_day day ≡ false
    early = ground arith

time_of_day-lt : (t : Timestamp) → time_of_day t < 86400000
unfolding time_of_day
time_of_day-lt (pos n) = omega arith
time_of_day-lt (negsuc n) = omega arith

read_timestamp_lem :
    (input rest : Bytes) (values : List ℕ) (t : Timestamp)
    → read_all layout input ≡ some (values, codes "Z\"" ++ rest)
    → instant values ≡ some t
    → read_timestamp input ≡ some (t, rest)
unfolding read_timestamp
read_timestamp_lem input rest values t fields named =
    rw (fields, skip-append (codes "Z\"") rest, read_timestamp) (rw named refl)

-- A quoted timestamp, its fields read one after the other: a date, and a time of day without leap
-- seconds.
pub record NamesInstant (text : Bytes) : Type 0 where
  pub year : ℕ
  pub month : ℕ
  pub day : ℕ
  pub hours : ℕ
  pub minutes : ℕ
  pub seconds : ℕ
  pub milliseconds : ℕ
  pub reads :
      read_all layout text
      ≡ some (year ∷ month ∷ day ∷ hours ∷ minutes ∷ seconds ∷ milliseconds ∷ [], codes "Z\"")
  pub is_date : IsDate (record { year = year; month = month; day = day })
  pub is_time : (hours < 24) × (minutes < 60) × (seconds < 60) × (milliseconds < 1000)

module _ (t : Timestamp) where
  abbrev pub date : Date
  date = date_of (shifted_days (floor_days t))

  abbrev values : List ℕ
  values =
      unsigned_year date
      ∷ date.month
      ∷ date.day
      ∷ (time_of_day t / 3600000)
      ∷ (time_of_day t / 60000 % 60)
      ∷ (time_of_day t / 1000 % 60)
      ∷ (time_of_day t % 1000)
      ∷ []

  -- The instants of the years 0000 to 9999, which RFC 3339 can write.
  abbrev pub InYears : Type 0
  InYears = (year_offset ≤ date.year) × (date.year < year_offset + 10000)

  append_json_timestamp-fields :
      (out : Bytes) → append_json_timestamp out t ≡ append_fields layout out values ++ codes "Z\""
  unfolding append_json_timestamp
  append_json_timestamp-fields out = refl

  append_json_timestamp-written :
      (out : Bytes) → append_json_timestamp out t ≡ out ++ (written layout values ++ codes "Z\"")
  append_json_timestamp-written out =
      append_json_timestamp-fields out
      ∙ ap (λ (o : Bytes). o ++ codes "Z\"") (append_fields_lem layout out values)
      ∙ append_assoc out (written layout values) (codes "Z\"")

  pub append_json_timestamp-append :
      (out : Bytes) → append_json_timestamp out t ≡ out ++ append_json_timestamp [] t
  append_json_timestamp-append out =
      append_json_timestamp-written out ∙ ap (◌++◌ out) (sym (append_json_timestamp-written []))

  module _ (in_years : InYears) where
    unsigned_year-eq : unsigned_year date ≡ date.year - year_offset
    unsigned_year-eq = omega (arith, in_years.0, in_years.1)

    values-Fit : Fit layout values
    values-Fit = (
      omega (arith, unsigned_year-eq, in_years.1),
      (
        omega (arith, valid.month_in.1),
        (
          omega (arith, valid.day_in.1, days_in-le date.year date.month),
          (omega (arith, time_of_day-lt t), (omega arith, (omega arith, (omega arith, tt)))),
        ),
      ),
    )
      where
        valid : IsDate date
        valid = (date_of_lem (shifted_days (floor_days t))).0

    instant-values : instant values ≡ some t
    instant-values =
        ap some
          (rw unsigned_year-eq (rw (recomposed (time_of_day t)) (instant_of-split t _ day_of)))
      where
        day_of :
            day_number
                (record { year = date.year - year_offset; month = date.month; day = date.day })
              + 14609700
            ≡ shifted_days (floor_days t) + 60
        day_of =
            sym (day_number_shifted (date.year - year_offset) date.month date.day)
            ∙ ap (λ (y : ℕ). day_number (record { year = y; month = date.month; day = date.day }))
                (omega (arith, in_years.0))
            ∙ (date_of_lem (shifted_days (floor_days t))).1

  -- The timestamp of an instant in the years 0000 to 9999 reads back as the instant, wherever it stands
  -- in a text.
  pub read_timestamp-append_json_timestamp :
      (rest : Bytes)
      → InYears
      → read_timestamp (append_json_timestamp [] t ++ rest) ≡ some (t, rest)
  read_timestamp-append_json_timestamp rest in_years =
      ap read_timestamp (
        ap (λ (o : Bytes). o ++ rest) (append_json_timestamp-written [])
        ∙ append_assoc (written layout values) (codes "Z\"") rest)
      ∙ read_timestamp_lem (written layout values ++ (codes "Z\"" ++ rest)) rest values t
          (read_all-written layout values (codes "Z\"" ++ rest) (values-Fit in_years))
          (instant-values in_years)

  -- The text of an instant in the years 0000 to 9999 is 26 bytes long, its quotes included; and what
  -- stands in it, read in the order year, month, day, hours, minutes, seconds and milliseconds, is a
  -- date of the calendar and a time of a day.
  pub append_json_timestamp_lem :
      InYears
      → (length (append_json_timestamp [] t) ≡ 26) × NamesInstant (append_json_timestamp [] t)
  append_json_timestamp_lem in_years = (
    ap length (append_json_timestamp-written [])
        ∙ length-append (written layout values) (codes "Z\"")
        ∙ ap (λ (n : ℕ). n + 2) (length-written layout values (values-Fit in_years)),
    record {
      year = unsigned_year date;
      month = date.month;
      day = date.day;
      hours = time_of_day t / 3600000;
      minutes = time_of_day t / 60000 % 60;
      seconds = time_of_day t / 1000 % 60;
      milliseconds = time_of_day t % 1000;
      reads =
          ap (read_all layout) (append_json_timestamp-written [])
          ∙ read_all-written layout values (codes "Z\"") (values-Fit in_years);
      is_date = rw (unsigned_year-eq in_years) (
          IsDate-shifted (date.year - year_offset) date.month date.day
            (rw back (date_of_lem (shifted_days (floor_days t))).0));
      is_time = (omega (arith, time_of_day-lt t), omega arith, omega arith, omega arith);
    },
  )
    where
      back : (date.year - year_offset) + year_offset ≡ date.year
      back = omega (arith, in_years.0)
