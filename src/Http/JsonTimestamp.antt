-- ===== src/Http/JsonTimestamp.antt =====
-- src/adapters/http/json_timestamp.hpp and json_timestamp.cpp: RFC 3339 timestamps. The calendar
-- conversions are those of std::chrono, on the proleptic Gregorian calendar.
pub mod Calendar
pub mod Fields
pub mod Reading
use leta.Prelude.{
  ℕ, suc, ◌+◌, ◌-◌, ◌*◌, ◌/◌, ◌%◌, ◌^◌, ℤ, pos, negsuc, [], ◌∷◌, ◌++◌, ltb, leb, if◌then◌else◌,
  Bytes, codes, length, replicate,
}
use leta.Prelude.Decimal.{to_string}
use leta.Core.IndexMetadata.{Timestamp}

-- YearDigits, FieldDigits, MillisecondDigits
abbrev pub year_digits : ℕ
year_digits = 4

abbrev pub field_digits : ℕ
field_digits = 2

abbrev pub millisecond_digits : ℕ
millisecond_digits = 3

-- append_zero_padded
unfoldable pub append_zero_padded : Bytes → ℕ → ℕ → Bytes
append_zero_padded out value width =
    let digits = to_string value in
    (if ltb (length digits) width then out ++ replicate (width - length digits) b'0' else out)
    ++ digits

abbrev pub day_length : ℕ
day_length = 86400000

-- std::chrono::floor<days>, in days from 1970-01-01
unfoldable pub floor_days : Timestamp → ℤ
floor_days (pos t) = pos (t / day_length)
floor_days (negsuc t) = negsuc (t / day_length)

-- timestamp - day, in milliseconds
unfoldable pub time_of_day : Timestamp → ℕ
time_of_day (pos t) = t % day_length
time_of_day (negsuc t) = day_length - 1 - t % day_length

-- The days from 1 March of the year -40000, 100 eras of 400 years before the year 0. Every year of
-- std::chrono::year, -32767 to 32767, lies after it.
abbrev pub year_offset : ℕ
year_offset = 40000

abbrev pub day_offset : ℕ
day_offset = 719468 + 146097 * 100

unfoldable pub shifted_days : ℤ → ℕ
shifted_days (pos d) = d + day_offset
shifted_days (negsuc d) = day_offset - suc d

-- std::chrono::year_month_day, its year counted from -40000
pub record Date : Type 0 where
  pub year : ℕ
  pub month : ℕ
  pub day : ℕ

-- The date of a day counted as above: the era of 400 years, the year in it, counted from March, the
-- day in that year, and the month, of 30 or 31 days from March on.
unfoldable pub date_of : ℕ → Date
date_of z =
    let era : ℕ = z / 146097 in
    let doe : ℕ = z % 146097 in
    let yoe : ℕ = (doe - doe / 1460 + doe / 36524 - doe / 146096) / 365 in
    let doy : ℕ = doe - (365 * yoe + yoe / 4 - yoe / 100) in
    let mp : ℕ = (5 * doy + 2) / 153 in
    let month : ℕ = if ltb mp 10 then mp + 3 else mp - 9 in
    record {
      year = yoe + era * 400 + (if leb month 2 then 1 else 0);
      month = month;
      day = doy - (153 * mp + 2) / 5 + 1;
    }

-- static_cast<unsigned>(static_cast<int>(date.year()))
abbrev pub unsigned_year : Date → ℕ
unsigned_year date = (date.year + 2 ^ 32 - year_offset) % 2 ^ 32

-- append_json_timestamp
unfoldable pub append_json_timestamp : Bytes → Timestamp → Bytes
unfolding append_zero_padded floor_days time_of_day shifted_days date_of to_string
append_json_timestamp out timestamp =
    let date = date_of (shifted_days (floor_days timestamp)) in
    let time = time_of_day timestamp in
    let year = append_zero_padded (out ++ b'"' ∷ []) (unsigned_year date) year_digits in
    let month = append_zero_padded (year ++ b'-' ∷ []) date.month field_digits in
    let day = append_zero_padded (month ++ b'-' ∷ []) date.day field_digits in
    let hours = append_zero_padded (day ++ b'T' ∷ []) (time / 3600000) field_digits in
    let minutes = append_zero_padded (hours ++ b':' ∷ []) (time / 60000 % 60) field_digits in
    let seconds = append_zero_padded (minutes ++ b':' ∷ []) (time / 1000 % 60) field_digits in
    append_zero_padded (seconds ++ b'.' ∷ []) (time % 1000) millisecond_digits ++ codes "Z\""
