-- ===== src/Tests/Dates.antt =====
-- Stored dates of `Domain/Dates` at concrete days.
use iam_sentinel_ese.Domain.Dates.{Before, IsDate, isoformat, text_leb}
use iam_sentinel_ese.Domain.Dates.Order.{isoformat_order}
use iam_sentinel_ese.Prelude.{arith, true, ◌↔◌, ◌≡◌}
use iam_sentinel_ese.Tests.Data.{test_date}

leap_day : IsDate (test_date 2024 2 29)
leap_day = record {
  year_pos = omega arith;
  year_le = omega arith;
  month_pos = omega arith;
  month_le = omega arith;
  day_pos = omega arith;
  day_le = omega arith;
}

march : IsDate (test_date 2024 3 1)
march = record {
  year_pos = omega arith;
  year_le = omega arith;
  month_pos = omega arith;
  month_le = omega arith;
  day_pos = omega arith;
  day_le = omega arith;
}

isoformat_order_example :
    (text_leb (isoformat (test_date 2024 2 29)) (isoformat (test_date 2024 3 1)) ≡ true)
    ↔ Before (test_date 2024 2 29) (test_date 2024 3 1)
isoformat_order_example = isoformat_order (test_date 2024 2 29) (test_date 2024 3 1) leap_day march
