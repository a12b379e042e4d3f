-- ===== src/Domain/Dates/Valid.antt =====
-- What `_validate_expiry` of app/services/exception_service.py can read as a date.
use mathlib.Core.Path.{subst}
use iam_sentinel_ese.Domain.Dates.{
  Date, IsDate, Text, after_year, days_before_year, days_in_month, digit, from_isoformat,
  month_lengths, ◌>>=◌, from_ordinal_near, from_week, make_date, month_and_day, month_text,
  two_digits, week_text, with_dashes, without_dashes,
}
use iam_sentinel_ese.Prelude.{
  Bool-cases, List, Option, [], arith, if_both, inl, inr, leb, ltb, nat_eq, none, option_eq, some,
  string_eq, true, ℕ, ◌&&◌, ◌*◌, ◌+◌, ◌-◌, ◌==◌, ◌∷◌, ◌≡◌,
}

-- a date, if there is one
abbrev pub IsDateIfAny : Option Date → Type 0
IsDateIfAny none = Unit
IsDateIfAny (some d) = IsDate d

-- A digit that is read first.
bind_digits :
    (m : Option ℕ) (f : ℕ → Option Date) → ((n : ℕ) → IsDateIfAny (f n)) → IsDateIfAny (m >>= f)
bind_digits none f h = tt
bind_digits (some n) f h = h n

tested-IsDate :
    (y m d : ℕ)
    → (leb 1 y && leb y 9999 && leb 1 m && leb m 12 && leb 1 d && leb d (days_in_month y m)) ≡ true
    → IsDate (record { year = y; month = m; day = d })
tested-IsDate y m d h = record {
  year_pos = ground arith;
  year_le = ground arith;
  month_pos = ground arith;
  month_le = ground arith;
  day_pos = ground arith;
  day_le = ground arith;
}

make_date-IsDate : (y m d : ℕ) → IsDateIfAny (make_date y m d)
unfolding make_date
make_date-IsDate y m d =
    elim (Bool-cases
      (leb 1 y && leb y 9999 && leb 1 m && leb m 12 && leb 1 d && leb d (days_in_month y m))) [
        | inl e ↦ rw e (tested-IsDate y m d e)
        | inr e ↦ rw e tt
      ]

month_and_day-IsDate : (y m n : ℕ) (days : List ℕ) → IsDateIfAny (month_and_day y m n days)
unfolding month_and_day
month_and_day-IsDate y m n [] = tt
month_and_day-IsDate y m n (days ∷ rest) =
    if_both IsDateIfAny (leb n days) _ _ (make_date-IsDate y m n)
      (month_and_day-IsDate y (m + 1) (n - days) rest)

in_year : (y n : ℕ) → IsDateIfAny (month_and_day y 1 n (month_lengths y))
in_year y n = month_and_day-IsDate y 1 n (month_lengths y)

from_ordinal_near-IsDate : (y n : ℕ) → IsDateIfAny (from_ordinal_near y n)
unfolding from_ordinal_near
from_ordinal_near-IsDate y n =
    if_both IsDateIfAny (leb n (days_before_year y)) _ _
      (in_year (y - 1) (n - days_before_year (y - 1)))
      (if_both IsDateIfAny (ltb (days_before_year (y + 1)) n) _ _
        (in_year (y + 1) (n - days_before_year (y + 1))) (in_year y (n - days_before_year y)))

from_week-IsDate : (y week day : ℕ) → IsDateIfAny (from_week y week day)
unfolding from_week
from_week-IsDate y week day = if_both IsDateIfAny _ _ none (from_ordinal_near-IsDate y _) tt

week_text-IsDate : (y a b c : ℕ) → IsDateIfAny (week_text y a b c)
unfolding week_text
week_text-IsDate y a b c =
    bind_digits (two_digits a b) _
      (λ week. bind_digits (digit c) _ (λ day. from_week-IsDate y week day))

month_text-IsDate : (y a b c d : ℕ) → IsDateIfAny (month_text y a b c d)
unfolding month_text
month_text-IsDate y a b c d =
    bind_digits (two_digits a b) _
      (λ month. bind_digits (two_digits c d) _ (λ day. make_date-IsDate y month day))

with_dashes-IsDate : (y : ℕ) (t : Text) → IsDateIfAny (with_dashes y t)
unfolding with_dashes
with_dashes-IsDate y (w ∷ a ∷ b ∷ []) =
    if_both IsDateIfAny (w == b'W') _ none (week_text-IsDate y a b b'1') tt
with_dashes-IsDate y (w ∷ a ∷ b ∷ c ∷ d ∷ []) =
    if_both IsDateIfAny (w == b'W') _ _
      (if_both IsDateIfAny (c == b'-') _ none (week_text-IsDate y a b d) tt)
      (if_both IsDateIfAny (b == b'-') _ none (month_text-IsDate y w a c d) tt)
with_dashes-IsDate y [] = tt
with_dashes-IsDate y (w ∷ []) = tt
with_dashes-IsDate y (w ∷ a ∷ []) = tt
with_dashes-IsDate y (w ∷ a ∷ b ∷ c ∷ []) = tt
with_dashes-IsDate y (w ∷ a ∷ b ∷ c ∷ d ∷ e ∷ t) = tt

without_dashes-IsDate : (y : ℕ) (t : Text) → IsDateIfAny (without_dashes y t)
unfolding without_dashes
without_dashes-IsDate y (w ∷ a ∷ b ∷ []) =
    if_both IsDateIfAny (w == b'W') _ none (week_text-IsDate y a b b'1') tt
without_dashes-IsDate y (w ∷ a ∷ b ∷ c ∷ []) =
    if_both IsDateIfAny (w == b'W') _ _ (week_text-IsDate y a b c) (month_text-IsDate y w a b c)
without_dashes-IsDate y [] = tt
without_dashes-IsDate y (w ∷ []) = tt
without_dashes-IsDate y (w ∷ a ∷ []) = tt
without_dashes-IsDate y (w ∷ a ∷ b ∷ c ∷ d ∷ t) = tt

after_year-IsDate : (y : ℕ) (t : Text) → IsDateIfAny (after_year y t)
unfolding after_year
after_year-IsDate y [] = tt
after_year-IsDate y (x ∷ rest) =
    if_both IsDateIfAny (x == b'-') _ _ (with_dashes-IsDate y rest)
      (without_dashes-IsDate y (x ∷ rest))

read-IsDate : (t : Text) → IsDateIfAny (from_isoformat t)
unfolding from_isoformat
read-IsDate [] = tt
read-IsDate (a ∷ []) = tt
read-IsDate (a ∷ b ∷ []) = tt
read-IsDate (a ∷ b ∷ c ∷ []) = tt
read-IsDate (a ∷ b ∷ c ∷ d ∷ rest) = bind_digits (two_digits a b) _ (λ century.
    bind_digits (two_digits c d) _ (λ year. after_year-IsDate (century * 100 + year) rest))

-- What `date.fromisoformat` accepts is a date of the calendar.
pub from_isoformat-IsDate : (t : Text) (d : Date) → from_isoformat t ≡ some d → IsDate d
from_isoformat-IsDate t d h = subst IsDateIfAny h (read-IsDate t)
