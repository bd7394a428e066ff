-- ===== src/Filter/Fields/Laws.antt =====
-- The calendar day of a timestamp filter (`TimestampField.OnDate`), and the deferred error of a geo
-- filter.
use redis_vl_golang.Base.{ℕ, ◌≤◌, ◌<◌, ◌+◌, ◌/◌, ◌%◌, ◌≡◌, refl, String, ◌<>◌, arith}
use redis_vl_golang.Filter.Fields.{day, day_start, day_end, on_date, between, format_between}
use redis_vl_golang.Filter.Expression.{raw}

same_day : (t u : ℕ) → t / day ≡ u / day → day_start t ≡ day_start u
unfolding day_start
same_day t u h = omega arith

-- Two times of one day have one filter, which is the range of a start and an end with both ends
-- included: the start is the first nanosecond of the day, the end is a microsecond before the next
-- day's start and lies in the day, so that the range misses none of the day's times but those of its
-- last microsecond.
pub on_date_lem :
    (format_ts : ℕ → String) (field : String) (t u : ℕ)
    → t / day ≡ u / day
    → (start : ℕ) × (end : ℕ) × (on_date format_ts field t
        ≡ raw ("@" <> (field <> (":[" <> (format_ts start <> (" " <> (format_ts end <> "]")))))))
      × (on_date format_ts field u ≡ on_date format_ts field t)
      × (start % day ≡ 0)
      × (start ≤ u)
      × (end + 1000 ≡ start + day)
      × (end / day ≡ u / day)
      × (u < end + 1000)
unfolding on_date between format_between day_end day_start
on_date_lem format_ts field t u h = (
  day_start t,
  day_end t,
  refl,
  rw (same_day t u h) refl,
  omega arith,
  omega arith,
  omega arith,
  omega arith,
  omega arith,
)
