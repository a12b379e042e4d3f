-- ===== src/Domain/Dates.antt =====
-- The part of Python's `datetime.date` that app/services/exception_service.py uses: what
-- `date.fromisoformat` accepts and what `isoformat` prints, over lists of code points. The formats
-- are the documented ones: `YYYY-MM-DD`, `YYYYMMDD`, `YYYY-Www`, `YYYY-Www-D`, `YYYYWww`, `YYYYWwwD`.
pub mod Order
pub mod Format
pub mod Valid
use iam_sentinel_ese.Domain.Enums.{severity_eq, status_eq}
use iam_sentinel_ese.Prelude.{
  Bool, List, Option, [], false, if◌then◌else◌, leb, ltb, nat_eq, none, not, option_eq, some,
  string_eq, true, ℕ, ◌%◌, ◌&&◌, ◌*◌, ◌+◌, ◌-◌, ◌/◌, ◌<◌, ◌==◌, ◌||◌, ◌∷◌, ◌≡◌, ◌≤◌, ◌⊎◌,
}
use iam_sentinel_ese.Rbac.{role_eq}
use iam_sentinel_ese.Service.{◌>>◌}

-- `datetime.date`
pub record Date : Type 0 where
  pub year : ℕ
  pub month : ℕ
  pub day : ℕ

-- a text, as its code points
abbrev pub Text : Type 0
Text = List ℕ

abbrev pub is_leap : ℕ → Bool
is_leap y = (y % 4 == 0) && (not (y % 100 == 0) || (y % 400 == 0))

-- the lengths of the months, January first
abbrev pub month_lengths : ℕ → List ℕ
month_lengths y =
    31 ∷ (if is_leap y then 29 else 28) ∷ 31 ∷ 30 ∷ 31 ∷ 30 ∷ 31 ∷ 31 ∷ 30 ∷ 31 ∷ 30 ∷ 31 ∷ []

abbrev pub days_in_month : ℕ → ℕ → ℕ
days_in_month y m =
    if (m == 4) || (m == 6) || (m == 9) || (m == 11)
    then 30
    else if m == 2
    then (if is_leap y then 29 else 28)
    else 31

pub record IsDate (d : Date) : Type 0 where
  pub year_pos : 1 ≤ d.year
  pub year_le : d.year ≤ 9999
  pub month_pos : 1 ≤ d.month
  pub month_le : d.month ≤ 12
  pub day_pos : 1 ≤ d.day
  pub day_le : d.day ≤ days_in_month d.year d.month

-- the constructor `date(y, m, d)`, which refuses what is no date
unfoldable pub make_date : ℕ → ℕ → ℕ → Option Date
make_date y m d =
    if leb 1 y && leb y 9999 && leb 1 m && leb m 12 && leb 1 d && leb d (days_in_month y m)
    then some (record { year = y; month = m; day = d })
    else none

-- the value of an ASCII digit
abbrev pub digit : ℕ → Option ℕ
digit c = if leb 48 c && leb c 57 then some (c - 48) else none

infixl 5 ◌>>=◌
abbrev pub ◌>>=◌ {ℓ κ} : {A : Type ℓ} {B : Type κ} → Option A → (A → Option B) → Option B
none >>= f = none
some a >>= f = f a

unfoldable pub two_digits : ℕ → ℕ → Option ℕ
two_digits a b = do x ← digit a; y ← digit b; some (x * 10 + y)

unfoldable pub days_before_year : ℕ → ℕ
days_before_year y = let p = y - 1 in p * 365 + p / 4 + p / 400 - p / 100

-- the weekday of the first of January, Monday being 0
unfoldable pub first_weekday : ℕ → ℕ
unfolding days_before_year
first_weekday y = days_before_year y % 7

-- the ordinal of the Monday of ISO week 1
unfoldable pub week1_monday : ℕ → ℕ
unfolding days_before_year first_weekday
week1_monday y =
    let monday = days_before_year y + 1 - first_weekday y in
    if ltb 3 (first_weekday y) then monday + 7 else monday

-- month and day of the n-th day of a year, n from 1
unfoldable pub month_and_day : ℕ → ℕ → ℕ → List ℕ → Option Date
month_and_day y m n [] = none
month_and_day y m n (days ∷ rest) =
    let later = month_and_day y (m + 1) (n - days) rest in
    if leb n days then make_date y m n else later

-- the date of an ordinal in this year or a year beside it
unfoldable pub from_ordinal_near : ℕ → ℕ → Option Date
unfolding days_before_year month_and_day
from_ordinal_near y n =
    if leb n (days_before_year y)
    then month_and_day (y - 1) 1 (n - days_before_year (y - 1)) (month_lengths (y - 1))
    else if ltb (days_before_year (y + 1)) n
    then month_and_day (y + 1) 1 (n - days_before_year (y + 1)) (month_lengths (y + 1))
    else month_and_day y 1 (n - days_before_year y) (month_lengths y)

-- the day of an ISO week
unfoldable pub from_week : ℕ → ℕ → ℕ → Option Date
unfolding first_weekday week1_monday from_ordinal_near
from_week y week day =
    let is_long = (first_weekday y == 3) || ((first_weekday y == 2) && is_leap y) in
    if leb 1 y && leb 1 week && (leb week 52 || ((week == 53) && is_long)) && leb 1 day && leb day 7
    then from_ordinal_near y (week1_monday y + (week - 1) * 7 + (day - 1))
    else none

pub week_text : ℕ → ℕ → ℕ → ℕ → Option Date
week_text y a b c = do week ← two_digits a b; day ← digit c; from_week y week day

pub month_text : ℕ → ℕ → ℕ → ℕ → ℕ → Option Date
month_text y a b c d = do month ← two_digits a b; day ← two_digits c d; make_date y month day

-- what follows `YYYY-`
pub with_dashes : ℕ → Text → Option Date
unfolding week_text month_text
with_dashes y (w ∷ a ∷ b ∷ []) = if w == b'W' then week_text y a b b'1' else none
with_dashes y (w ∷ a ∷ b ∷ c ∷ d ∷ []) =
    if w == b'W'
    then (if c == b'-' then week_text y a b d else none)
    else if b == b'-'
    then month_text y w a c d
    else none
with_dashes y _ = none

-- what follows `YYYY` with no dash
pub without_dashes : ℕ → Text → Option Date
unfolding week_text month_text
without_dashes y (w ∷ a ∷ b ∷ []) = if w == b'W' then week_text y a b b'1' else none
without_dashes y (w ∷ a ∷ b ∷ c ∷ []) =
    if w == b'W' then week_text y a b c else month_text y w a b c
without_dashes y _ = none

pub after_year : ℕ → Text → Option Date
unfolding with_dashes without_dashes
after_year y [] = none
after_year y (x ∷ rest) = if x == b'-' then with_dashes y rest else without_dashes y (x ∷ rest)

-- `date.fromisoformat`, `none` for its `ValueError`
unfoldable pub from_isoformat : Text → Option Date
unfolding after_year
from_isoformat (a ∷ b ∷ c ∷ d ∷ rest) = do
  century ← two_digits a b
  year ← two_digits c d
  after_year (century * 100 + year) rest
from_isoformat _ = none

-- the two decimal digits of a number below 100
abbrev pub pad2 : ℕ → Text → Text
pad2 n rest = (n / 10 + 48) ∷ (n % 10 + 48) ∷ rest

-- `isoformat`
unfoldable pub isoformat : Date → Text
isoformat d = pad2 (d.year / 100) (pad2 (d.year % 100) (b'-' ∷ pad2 d.month (b'-' ∷ pad2 d.day [])))

-- `<=` on texts, which compares them code point by code point
abbrev pub text_leb : Text → Text → Bool
text_leb [] t = true
text_leb (a ∷ s) [] = false
text_leb (a ∷ s) (b ∷ t) =
    let rest = text_leb s t in if ltb a b then true else if a == b then rest else false

-- the chronological order
abbrev pub Before : Date → Date → Type 0
Before a b =
    (a.year < b.year)
    ⊎ (a.year ≡ b.year) × ((a.month < b.month) ⊎ (a.month ≡ b.month) × (a.day ≤ b.day))
