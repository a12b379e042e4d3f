-- ===== src/Domain/Dates/Format.antt =====
-- Reading the text that `isoformat` prints, for the dates that app/services/exception_service.py stores.
use iam_sentinel_ese.Domain.Dates.{
  Date, IsDate, from_isoformat, from_week, isoformat, make_date, two_digits,
}
use iam_sentinel_ese.Domain.Enums.{severity_eq, status_eq}
use iam_sentinel_ese.Prelude.{
  arith, false, nat_eq, option_eq, refl, some, string_eq, ℕ, ◌%◌, ◌*◌, ◌+◌, ◌/◌, ◌<◌, ◌==◌, ◌≡◌,
}
use iam_sentinel_ese.Prelude.Text.{codes}
use iam_sentinel_ese.Rbac.{role_eq}

leap_day_test :
    from_isoformat (isoformat (record { year = 2024; month = 2; day = 29 }))
    ≡ some (record { year = 2024; month = 2; day = 29 })
unfolding from_isoformat isoformat two_digits make_date
leap_day_test = refl

week_test : from_isoformat (codes "2020-W53-5") ≡ some (record { year = 2021; month = 1; day = 1 })
unfolding from_isoformat two_digits from_week make_date
week_test = refl

two_digits-pad : (n : ℕ) → n < 100 → two_digits (n / 10 + 48) (n % 10 + 48) ≡ some n
unfolding two_digits
two_digits-pad n h = ground arith

make_date_valid : (d : Date) → IsDate d → make_date d.year d.month d.day ≡ some d
unfolding make_date
make_date_valid d h = ground arith

-- A month's first digit is not the `W` of a week.
month_not_week : (n : ℕ) → n < 100 → (n / 10 + 48 == b'W') ≡ false
month_not_week n h = ground arith

day_below : (d : Date) → IsDate d → d.day < 100
day_below d h = ground arith

-- Reading what `isoformat` printed gives the date back.
pub from_isoformat-isoformat : (d : Date) → IsDate d → from_isoformat (isoformat d) ≡ some d
unfolding from_isoformat isoformat
from_isoformat-isoformat d h = rw (two_digits-pad (d.year / 100) (omega arith)) (
    rw (two_digits-pad (d.year % 100) (omega arith)) (
      rw (month_not_week d.month (omega arith)) (
        rw (two_digits-pad d.month (omega arith)) (
          rw (two_digits-pad d.day (day_below d h)) (
            let e : d.year / 100 * 100 + d.year % 100 ≡ d.year = omega arith in
            rw e (make_date_valid d h))))))
