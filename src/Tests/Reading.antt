-- ===== src/Tests/Reading.antt =====
-- The theorems on durations, days, the client and the settings of ClickHouse.
use trino_log_sink.Base.{
  [], arith, codes, digits, digits-decimal, false, itoa, negsuc, pos, pos_part, refl, some,
  wrap_int64, ℕ, ℤ, ◌*◌, ◌++◌, ◌+ℤ◌, ◌+◌, ◌-ℤ◌, ◌/◌, ◌↔◌, ◌≡◌,
}
use trino_log_sink.Event.Durations.{Floats, Parsed, hour, minute, ok, parse_duration, second}
use trino_log_sink.Event.Durations.Grammar.{IsDuration}
use trino_log_sink.Event.Durations.Accepts.{parse_duration-accepts}
use trino_log_sink.Event.Durations.RoundTrip.{
  IsExact, parse_duration-print_duration, print_duration,
}
use trino_log_sink.Store.Calendar.{nanos_per_day, query_id_day}
use trino_log_sink.Store.Calendar.Civil.{compact_date}
use trino_log_sink.Store.Calendar.ReadBack.{query_id_day-compact_date}
use trino_log_sink.Server.Format.Units.{human_bytes}
use trino_log_sink.Server.Format.Units.Scaled.{Prints, human_bytes-Prints}
use trino_log_sink.Client.Request.{ListFlags}

-- Whole numbers for floats.
whole : Floats ℕ
unfolding digits
whole = record { parse_float = digits; scaled = λ n k. pos (n * pos_part k) }

whole-IsExact : IsExact whole
unfolding whole
whole-IsExact n k h i = (n, digits-decimal n (omega arith), refl)

parse_duration-accepts_example :
    (r : Parsed) × (parse_duration whole (codes "-PT1M2S") ≡ some r)
    × ((d : ℤ) → (r ≡ ok d) ↔ IsDuration whole (codes "-PT1M2S") d)
parse_duration-accepts_example = parse_duration-accepts whole (codes "-PT1M2S")

-- A minute and two seconds, in milliseconds, before the zero time.
parse_duration_example : parse_duration whole (codes "-PT1M2S") ≡ some (ok (negsuc 61_999_999_999))
unfolding parse_duration whole wrap_int64 ◌-ℤ◌ ◌+ℤ◌
parse_duration_example = refl

parse_duration-print_duration_example :
    parse_duration whole (print_duration 5 30 15)
    ≡ some (ok (pos (5 * hour + 30 * minute + 15 * second)))
parse_duration-print_duration_example =
    parse_duration-print_duration whole whole-IsExact 5 30 15 (omega arith)

-- February 29 of 2024, and the time of the day of a query id.
query_id_day-compact_date_example :
    query_id_day (compact_date (pos (738_944 * nanos_per_day + 5)) ++ codes "_000000_00001_abcde")
    ≡ some (pos ((738_944 * nanos_per_day + 5) / nanos_per_day * nanos_per_day))
query_id_day-compact_date_example =
    query_id_day-compact_date (738_944 * nanos_per_day + 5) (codes "_000000_00001_abcde")
      (omega arith)

human_bytes-Prints_example :
    Prints
      (λ n div. itoa (pos (n / div)))
      3_500_000
      (human_bytes (λ n div. itoa (pos (n / div))) (pos 3_500_000))
human_bytes-Prints_example =
    human_bytes-Prints (λ n div. itoa (pos (n / div))) 3_500_000 (omega arith) (omega arith)

abbrev flags : ListFlags
flags = record {
  range = codes "7d";
  user = codes " ann ";
  catalog = [];
  state = codes "FAILED";
  sort = codes "cpu";
  desc = false;
  limit = pos 1000;
  offset = pos 40;
}
