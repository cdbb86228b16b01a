-- ===== src/Time.antt =====
-- Go's `time` package, as far as the source uses it: instants in UTC, dates, and differences.
pub mod Dates
pub mod Durations
use cogmemory.Base.{
  ℕ, zero, suc, ◌+◌, ◌-◌, ◌*◌, ◌/◌, ◌%◌, Bool, true, false, not, ◌&&◌, ◌||◌, List, [], ◌∷◌, ◌++◌,
  Option, none, some, if◌then◌else◌, ◌==◌, leb, ltb, min, Bytes, ℤ, pos, negsuc,
}

-- An instant is its distance in nanoseconds from the start of the year 0.
abbrev pub Instant : Type 0
Instant = ℕ

abbrev pub day_ns : ℕ
day_ns = 86400000000000

abbrev pub second_ns : ℕ
second_ns = 1000000000

unfoldable pub is_leap : ℕ → Bool
is_leap y = (y % 4 == 0) && (not (y % 100 == 0) || (y % 400 == 0))

unfoldable pub year_days : ℕ → ℕ
unfolding is_leap
year_days y = if is_leap y then 366 else 365

unfoldable pub month_days : ℕ → ℕ → ℕ
unfolding is_leap
month_days y m =
    if (m == 4) || (m == 6) || (m == 9) || (m == 11)
    then 30
    else if not (m == 2)
    then 31
    else if is_leap y
    then 29
    else 28

-- The days of the years before `y`, and of the months of `y` before `m`.
unfoldable pub days_to_year : ℕ → ℕ
days_to_year y = 365 * y + (y + 3) / 4 + (y + 399) / 400 - (y + 99) / 100

unfoldable pub days_to_month : ℕ → ℕ → ℕ
unfolding month_days
days_to_month y zero = 0
days_to_month y (suc zero) = 0
days_to_month y (suc (suc m)) = days_to_month y (suc m) + month_days y (suc m)

pub record Date : Type 0 where
  pub year : ℕ
  pub month : ℕ
  pub day : ℕ

-- The days from the start of the year 0 to the date.
unfoldable pub day_number : Date → ℕ
unfolding days_to_year days_to_month
day_number d = days_to_year d.year + days_to_month d.year d.month + (d.day - 1)

unfoldable pub is_date : Date → Bool
unfolding month_days
is_date d = leb 1 d.month && leb d.month 12 && leb 1 d.day && leb d.day (month_days d.year d.month)

-- The month of a day within a year, with the months that are left; and the year, with fuel.
unfoldable pub month_from : ℕ → ℕ → ℕ → ℕ → Date
unfolding month_days
month_from y zero m n = record { year = y; month = m; day = suc n }
month_from y (suc left) m n =
    let later = month_from y left (suc m) (n - month_days y m) in
    if ltb n (month_days y m) then record { year = y; month = m; day = suc n } else later

unfoldable pub year_from : ℕ → ℕ → ℕ → Date
unfolding year_days month_from
year_from zero y n = month_from y 11 1 n
year_from (suc fuel) y n =
    let later = year_from fuel (suc y) (n - year_days y) in
    if ltb n (year_days y) then month_from y 11 1 n else later

-- The date of a day number: the year is at least the number divided by 366.
unfoldable pub date_of : ℕ → Date
unfolding year_from days_to_year
date_of n = year_from n (n / 366) (n - days_to_year (n / 366))

unfoldable pub digit_of : ℕ → Option ℕ
digit_of c = if leb b'0' c && leb c b'9' then some (c - b'0') else none

abbrev add_digit : Option ℕ → Option ℕ → Option ℕ
add_digit none d = none
add_digit (some n) none = none
add_digit (some n) (some d) = some (10 * n + d)

-- A number written in digits only.
unfoldable pub number_from : Option ℕ → Bytes → Option ℕ
unfolding digit_of
number_from n [] = n
number_from n (c ∷ s) = number_from (add_digit n (digit_of c)) s

abbrev make_date : Option ℕ → Option ℕ → Option ℕ → Option Date
make_date (some y) (some m) (some d) = some (record { year = y; month = m; day = d })
make_date _ _ _ = none

abbrev checked_date : Option Date → Option Date
checked_date none = none
checked_date (some d) = if is_date d then some d else none

-- The fields of `YYYY-MM-DD`.
unfoldable pub read_date : Bytes → Option Date
unfolding number_from
read_date (y1 ∷ y2 ∷ y3 ∷ y4 ∷ h1 ∷ m1 ∷ m2 ∷ h2 ∷ d1 ∷ d2 ∷ []) =
    if (h1 == b'-') && (h2 == b'-')
    then make_date (number_from (some 0) (y1 ∷ y2 ∷ y3 ∷ y4 ∷ []))
        (number_from (some 0) (m1 ∷ m2 ∷ [])) (number_from (some 0) (d1 ∷ d2 ∷ []))
    else none
read_date _ = none

-- time.Parse("2006-01-02", s)
unfoldable pub parse_date : Bytes → Option Date
unfolding read_date is_date
parse_date s = checked_date (read_date s)

abbrev pub instant : Date → Instant
instant d = day_number d * day_ns

-- time.Parse("2006-01", s), at the first day of the month
unfoldable pub parse_month : Bytes → Option Date
unfolding parse_date
parse_month s = parse_date (s ++ (b'-' ∷ b'0' ∷ b'1' ∷ []))

unfoldable pub two_digits : ℕ → Bytes
two_digits n = (b'0' + n / 10 % 10) ∷ (b'0' + n % 10) ∷ []

-- Format("2006-01-02"), for years of four digits
unfoldable pub format_date : Date → Bytes
unfolding two_digits
format_date d =
    two_digits (d.year / 100)
    ++ (two_digits d.year ++ (b'-' ∷ (two_digits d.month ++ (b'-' ∷ two_digits d.day))))

unfoldable pub format_day : Instant → Bytes
unfolding date_of format_date
format_day t = format_date (date_of (t / day_ns))

-- Format(time.RFC3339) in UTC
unfoldable pub format_rfc3339 : Instant → Bytes
unfolding format_day two_digits
format_rfc3339 t =
    let s = t % day_ns / second_ns in
    format_day t
    ++ (b'T'
        ∷ (two_digits (s / 3600)
            ++ (b':'
                ∷ (two_digits (s / 60 % 60) ++ (b':' ∷ (two_digits (s % 60) ++ (b'Z' ∷ [])))))))

-- The greatest and the least time.Duration, 2^63 - 1 and -2^63 nanoseconds.
abbrev pub max_duration : ℕ
max_duration = 9223372036854775807

abbrev pub neg_of : ℕ → ℤ
neg_of zero = pos 0
neg_of (suc n) = negsuc n

-- t.Sub(u) in whole days, rounded to zero: Sub stays within a Duration.
unfoldable pub days_since : Instant → Instant → ℤ
days_since t u =
    if leb u t
    then pos (min (t - u) max_duration / day_ns)
    else neg_of (min (u - t) (max_duration + 1) / day_ns)

abbrev pub ltb_ℤ : ℤ → ℤ → Bool
ltb_ℤ (pos a) (pos b) = ltb a b
ltb_ℤ (pos a) (negsuc b) = false
ltb_ℤ (negsuc a) (pos b) = true
ltb_ℤ (negsuc a) (negsuc b) = ltb b a

-- The zero time.Time, the first instant of the year 1.
abbrev pub zero_time : Instant
zero_time = 31622400000000000
