-- ===== src/Tests/Timestamps.antt =====
-- Timestamps at concrete instants.
use leta.Prelude.{◌≡◌, refl, some, [], ◌++◌, arith, codes, length, pos, negsuc}
use leta.Core.IndexMetadata.{Timestamp}
use leta.Http.JsonTimestamp.{append_json_timestamp, date_of, shifted_days, floor_days}
use leta.Http.JsonTimestamp.Reading.{
  InYears, NamesInstant, read_timestamp, read_timestamp-append_json_timestamp,
  append_json_timestamp_lem,
}

test_epoch : append_json_timestamp [] (pos 1760000000123) ≡ codes "\"2025-10-09T08:53:20.123Z\""
unfolding append_json_timestamp
test_epoch = refl

test_before_1970 : append_json_timestamp [] (negsuc 0) ≡ codes "\"1969-12-31T23:59:59.999Z\""
unfolding append_json_timestamp
test_before_1970 = refl

-- 1960-02-29T23:59:59.999Z
abbrev leap_instant : Timestamp
leap_instant = negsuc 310435200000

test_leap_day : append_json_timestamp [] leap_instant ≡ codes "\"1960-02-29T23:59:59.999Z\""
unfolding append_json_timestamp
test_leap_day = refl

in_years : InYears leap_instant
unfolding date_of shifted_days floor_days
in_years = (omega arith, omega arith)

read_timestamp-append_json_timestamp_example :
    read_timestamp (append_json_timestamp [] leap_instant ++ codes "}")
    ≡ some (leap_instant, codes "}")
read_timestamp-append_json_timestamp_example =
    read_timestamp-append_json_timestamp leap_instant (codes "}") in_years

append_json_timestamp_lem_example :
    (length (append_json_timestamp [] leap_instant) ≡ 26)
    × NamesInstant (append_json_timestamp [] leap_instant)
append_json_timestamp_lem_example = append_json_timestamp_lem leap_instant in_years
