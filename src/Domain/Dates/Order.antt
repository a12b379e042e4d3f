-- ===== src/Domain/Dates/Order.antt =====
-- The order of the texts of dates, which the query of `expire_exceptions` in
-- app/services/exception_service.py compares.
use iam_sentinel_ese.Domain.Dates.{Before, Date, IsDate, Text, isoformat, pad2, text_leb}
use iam_sentinel_ese.Domain.Enums.{severity_eq, status_eq}
use iam_sentinel_ese.Prelude.{
  Bool, [], arith, false, if◌then◌else◌, ltb, nat_eq, option_eq, refl, string_eq, true, ℕ, ◌%◌, ◌/◌,
  ◌<◌, ◌==◌, ◌↔◌, ◌≡◌,
}
use iam_sentinel_ese.Rbac.{role_eq}

-- Two padded numbers compare first, and what follows them after.
text_leb-pad2 :
    (a b : ℕ) (s t : Text)
    → a < 100
    → b < 100
    → text_leb (pad2 a s) (pad2 b t)
      ≡ (if ltb a b then true else if a == b then text_leb s t else false)
text_leb-pad2 a b s t h k = ground arith

day_bound : (d : Date) → IsDate d → d.day < 100
day_bound d h = ground arith

-- The comparison of two stored dates, field by field.
isoformat_leb :
    (a b : Date)
    → IsDate a
    → IsDate b
    → text_leb (isoformat a) (isoformat b) ≡ (
        if ltb (a.year / 100) (b.year / 100)
        then true
        else if a.year / 100 == b.year / 100
        then (if ltb (a.year % 100) (b.year % 100)
            then true
            else if a.year % 100 == b.year % 100
            then (if ltb a.month b.month
                then true
                else if a.month == b.month
                then (if ltb a.day b.day then true else if a.day == b.day then true else false)
                else false)
            else false)
        else false)
unfolding isoformat
isoformat_leb a b h k =
    rw (text_leb-pad2 (a.year / 100) (b.year / 100) _ _ (omega arith) (omega arith)) (
      rw (text_leb-pad2 (a.year % 100) (b.year % 100) _ _ (omega arith) (omega arith)) (
        rw (text_leb-pad2 a.month b.month _ _ (omega arith) (omega arith))
          (rw (text_leb-pad2 a.day b.day [] [] (day_bound a h) (day_bound b k)) refl)))

-- Comparing two years by their halves is comparing them.
by_halves :
    (y z : ℕ) (r : Bool)
    → (if ltb (y / 100) (z / 100)
        then true
        else if y / 100 == z / 100
        then (if ltb (y % 100) (z % 100) then true else if y % 100 == z % 100 then r else false)
        else false)
      ≡ (if ltb y z then true else if y == z then r else false)
by_halves y z r = ground arith

by_fields :
    (a b : Date)
    → ((if ltb a.year b.year
          then true
          else if a.year == b.year
          then (if ltb a.month b.month
              then true
              else if a.month == b.month
              then (if ltb a.day b.day then true else if a.day == b.day then true else false)
              else false)
          else false)
        ≡ true)
      ↔ Before a b
by_fields a b = ground arith

-- `<=` between two stored dates, which the database compares as texts, is the chronological order.
pub isoformat_order :
    (a b : Date) → IsDate a → IsDate b → (text_leb (isoformat a) (isoformat b) ≡ true) ↔ Before a b
isoformat_order a b h k = rw (isoformat_leb a b h k) (rw (by_halves a.year b.year) (by_fields a b))
