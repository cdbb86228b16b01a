-- ===== src/Time/Dates.antt =====
-- Dates as texts and as numbers.
use cogmemory.Base.{
  ℕ, zero, suc, ◌+◌, ◌-◌, ◌/◌, ◌%◌, ◌≤◌, Bool, true, false, not, ◌&&◌, [], ◌∷◌, ◌++◌, Option, none,
  some, ◌≡◌, refl, sym, Bool-cases, inl, inr, subst, ◌∙◌, arith, if◌then◌else◌, ◌==◌, leb, ltb,
  Bytes, str_lt,
}
use cogmemory.Time.{
  Date, instant, digit_of, number_from, read_date, parse_date, make_date, checked_date, is_date,
  two_digits, format_date, month_days, is_leap, year_days, days_to_year, days_to_month, day_number,
}

-- The digits of a number below 100.
abbrev IsTwoDigits : ℕ → ℕ → ℕ → Type 0
IsTwoDigits a b n = (a ≡ b'0' + n / 10 % 10) × (b ≡ b'0' + n % 10)

number_two : (a b n : ℕ) → number_from (some 0) (a ∷ b ∷ []) ≡ some n → IsTwoDigits a b n × (n ≤ 99)
unfolding number_from digit_of
number_two a b n h = ((ground arith, ground arith), ground arith)

number_four :
    (a b c d n : ℕ)
    → number_from (some 0) (a ∷ b ∷ c ∷ d ∷ []) ≡ some n
    → IsTwoDigits a b (n / 100) × IsTwoDigits c d n × (n ≤ 9999)
unfolding number_from digit_of
number_four a b c d n h = ((ground arith, ground arith), (ground arith, ground arith), ground arith)

abbrev IsFourDigits : Date → Type 0
IsFourDigits d = (d.year ≤ 9999) × (d.month ≤ 99) × (d.day ≤ 99)

-- A text that reads as a date is the one that the date prints as.
read_date_text :
    (s : Bytes) (d : Date) → read_date s ≡ some d → (s ≡ format_date d) × IsFourDigits d
unfolding read_date format_date two_digits
read_date_text (y1 ∷ y2 ∷ y3 ∷ y4 ∷ h1 ∷ m1 ∷ m2 ∷ h2 ∷ d1 ∷ d2 ∷ []) d h =
    go (number_from (some 0) (y1 ∷ y2 ∷ y3 ∷ y4 ∷ [])) (number_from (some 0) (m1 ∷ m2 ∷ []))
      (number_from (some 0) (d1 ∷ d2 ∷ [])) (number_four y1 y2 y3 y4) (number_two m1 m2)
      (number_two d1 d2) h
  where
    go :
        (oy om od : Option ℕ)
        → ((n : ℕ) → oy ≡ some n → IsTwoDigits y1 y2 (n / 100) × IsTwoDigits y3 y4 n × (n ≤ 9999))
        → ((n : ℕ) → om ≡ some n → IsTwoDigits m1 m2 n × (n ≤ 99))
        → ((n : ℕ) → od ≡ some n → IsTwoDigits d1 d2 n × (n ≤ 99))
        → (if (h1 == b'-') && (h2 == b'-') then make_date oy om od else none) ≡ some d
        → ((y1 ∷ y2 ∷ y3 ∷ y4 ∷ h1 ∷ m1 ∷ m2 ∷ h2 ∷ d1 ∷ d2 ∷ []) ≡ format_date d) × IsFourDigits d
    go (some y) (some m) (some n) fy fm fn e =
        let yy = fy y refl in
        let mm = fm m refl in
        let dd = fn n refl in
        let e1 : h1 ≡ b'-' = ground arith in
        let e2 : h2 ≡ b'-' = ground arith in
        let same : record { year = y; month = m; day = n } ≡ d = ground arith in
        subst
          (λ (d : Date).
            ((y1 ∷ y2 ∷ y3 ∷ y4 ∷ h1 ∷ m1 ∷ m2 ∷ h2 ∷ d1 ∷ d2 ∷ []) ≡ format_date d)
            × IsFourDigits d)
          same
          (
            cc (yy.0.0, yy.0.1, yy.1.0, yy.1.1, e1, mm.0.0, mm.0.1, e2, dd.0.0, dd.0.1),
            (yy.2, mm.1, dd.1),
          )
    go (some y) (some m) none fy fm fn e = ground arith
    go (some y) none od fy fm fn e = ground arith
    go none om od fy fm fn e = ground arith
read_date_text [] d h = cc
read_date_text (a ∷ []) d h = cc
read_date_text (a ∷ b ∷ []) d h = cc
read_date_text (a ∷ b ∷ c ∷ []) d h = cc
read_date_text (a ∷ b ∷ c ∷ e ∷ []) d h = cc
read_date_text (a ∷ b ∷ c ∷ e ∷ f ∷ []) d h = cc
read_date_text (a ∷ b ∷ c ∷ e ∷ f ∷ g ∷ []) d h = cc
read_date_text (a ∷ b ∷ c ∷ e ∷ f ∷ g ∷ i ∷ []) d h = cc
read_date_text (a ∷ b ∷ c ∷ e ∷ f ∷ g ∷ i ∷ j ∷ []) d h = cc
read_date_text (a ∷ b ∷ c ∷ e ∷ f ∷ g ∷ i ∷ j ∷ k ∷ []) d h = cc
read_date_text (a ∷ b ∷ c ∷ e ∷ f ∷ g ∷ i ∷ j ∷ k ∷ l ∷ m ∷ s) d h = cc

pub parse_date_text :
    (s : Bytes) (d : Date)
    → parse_date s ≡ some d
    → (s ≡ format_date d) × IsFourDigits d × (is_date d ≡ true)
unfolding parse_date
parse_date_text s d h = go (read_date s) (read_date_text s) h
  where
    go :
        (o : Option Date)
        → ((e : Date) → o ≡ some e → (s ≡ format_date e) × IsFourDigits e)
        → checked_date o ≡ some d
        → (s ≡ format_date d) × IsFourDigits d × (is_date d ≡ true)
    go none f e = absurd cc
    go (some c) f e =
        let valid : is_date c ≡ true = ground arith in
        let same : c ≡ d = ground arith in
        subst (λ (d : Date). (s ≡ format_date d) × IsFourDigits d × (is_date d ≡ true)) same
          ((f c refl).0, (f c refl).1, valid)

-- The order of dates.
abbrev pub date_lt : Date → Date → Bool
date_lt d e =
    if not (d.year == e.year)
    then ltb d.year e.year
    else if not (d.month == e.month)
    then ltb d.month e.month
    else ltb d.day e.day

-- Two digits compare as the last two digits of the numbers.
lt_two_digits :
    (m n : ℕ) (s t : Bytes)
    → str_lt (two_digits m ++ s) (two_digits n ++ t)
      ≡ (if m % 100 == n % 100 then str_lt s t else ltb (m % 100) (n % 100))
unfolding str_lt two_digits
lt_two_digits m n s t = ground arith

lt_dash : (s t : Bytes) → str_lt (b'-' ∷ s) (b'-' ∷ t) ≡ str_lt s t
unfolding str_lt
lt_dash s t = refl

lt_last :
    (m n : ℕ)
    → str_lt (two_digits m) (two_digits n)
      ≡ (if m % 100 == n % 100 then false else ltb (m % 100) (n % 100))
unfolding str_lt two_digits
lt_last m n = ground arith

-- The order of the texts of two dates is that of the dates.
pub lt-format_date :
    (d e : Date)
    → IsFourDigits d
    → IsFourDigits e
    → str_lt (format_date d) (format_date e) ≡ date_lt d e
unfolding format_date
lt-format_date d e h k =
    rw
      (
        lt_two_digits (d.year / 100) (e.year / 100),
        lt_two_digits d.year e.year,
        lt_dash,
        lt_two_digits d.month e.month,
        lt_dash,
        lt_last,
      )
      (ground (arith, h.0, h.1, h.2, k.0, k.1, k.2))

-- The days of the years and of the months.
days_to_year-suc : (y : ℕ) → days_to_year (suc y) ≡ days_to_year y + year_days y
unfolding days_to_year year_days is_leap
days_to_year-suc y = ground arith

days_to_month_leap : (y : ℕ) → is_leap y ≡ true → days_to_month y 13 ≡ 366
unfolding days_to_month month_days
days_to_month_leap y h = rw h refl

days_to_month_common : (y : ℕ) → is_leap y ≡ false → days_to_month y 13 ≡ 365
unfolding days_to_month month_days
days_to_month_common y h = rw h refl

days_to_month_year : (y : ℕ) → days_to_month y 13 ≡ year_days y
unfolding year_days
days_to_month_year y = ground (arith, days_to_month_leap y, days_to_month_common y)

months_apart :
    (y m n : ℕ) → 1 ≤ m → m + 1 ≤ n → days_to_month y m + month_days y m ≤ days_to_month y n
unfolding days_to_month
months_apart y m zero h k = absurd (omega arith)
months_apart y m (suc zero) h k = absurd (omega arith)
months_apart y m (suc (suc n)) h k = elim (Bool-cases (m == suc n)) [
  | inl e ↦ let same : m ≡ suc n = ground arith in rw same (omega arith)
  | inr e ↦ omega (arith, months_apart y m (suc n) h (ground arith))
]

years_apart : (y z : ℕ) → y + 1 ≤ z → days_to_year y + year_days y ≤ days_to_year z
years_apart y zero h = absurd (omega arith)
years_apart y (suc z) h = elim (Bool-cases (y == z)) [
  | inl e ↦ let same : y ≡ z = ground arith in rw same (omega (arith, days_to_year-suc z))
  | inr e ↦ omega (arith, days_to_year-suc z, years_apart y z (ground arith))
]

-- The day of a date within its year.
abbrev day_of_year : Date → ℕ
day_of_year d = days_to_month d.year d.month + (d.day - 1)

date_fields :
    (d : Date)
    → is_date d ≡ true
    → (1 ≤ d.month) × (d.month ≤ 12) × (1 ≤ d.day) × (d.day ≤ month_days d.year d.month)
unfolding is_date
date_fields d h = go (month_days d.year d.month) h
  where
    go :
        (n : ℕ)
        → (leb 1 d.month && leb d.month 12 && leb 1 d.day && leb d.day n) ≡ true
        → (1 ≤ d.month) × (d.month ≤ 12) × (1 ≤ d.day) × (d.day ≤ n)
    go n e = (ground arith, ground arith, ground arith, ground arith)

day_of_year_lt : (d : Date) → is_date d ≡ true → day_of_year d + 1 ≤ year_days d.year
day_of_year_lt d h =
    let f = date_fields d h in
    omega (
      arith,
      days_to_month_year d.year,
      months_apart d.year d.month 13 f.0 (omega (arith, f.1)),
      f.2,
      f.3,
    )

-- Within one year the later month has the later days.
day_of_year_months :
    (y m n i j : ℕ)
    → 1 ≤ m
    → m + 1 ≤ n
    → 1 ≤ i
    → i ≤ month_days y m
    → days_to_month y m + (i - 1) + 1 ≤ days_to_month y n + (j - 1)
day_of_year_months y m n i j h k p q = omega (arith, months_apart y m n h k)

before_year :
    (d e : Date) → is_date d ≡ true → d.year + 1 ≤ e.year → day_number d + 1 ≤ day_number e
unfolding day_number
before_year d e h k = omega (arith, day_of_year_lt d h, years_apart d.year e.year k)

before_month :
    (d e : Date)
    → is_date d ≡ true
    → d.year ≡ e.year
    → d.month + 1 ≤ e.month
    → day_number d + 1 ≤ day_number e
unfolding day_number
before_month d e h y k =
    let f = date_fields d h in
    rw (sym y) (omega (arith, day_of_year_months d.year d.month e.month d.day e.day f.0 k f.2 f.3))

same_month :
    (d e : Date)
    → is_date d ≡ true
    → is_date e ≡ true
    → d.year ≡ e.year
    → d.month ≡ e.month
    → ltb (day_number d) (day_number e) ≡ ltb d.day e.day
unfolding day_number
same_month d e h k y m =
    let f = date_fields d h in
    let g = date_fields e k in rw (sym y, sym m) (ground (arith, f.2, g.2))

-- The order of dates is that of their numbers.
pub ltb-day_number :
    (d e : Date)
    → is_date d ≡ true
    → is_date e ≡ true
    → ltb (day_number d) (day_number e) ≡ date_lt d e
ltb-day_number d e h k = ground (
  arith,
  before_year d e h,
  before_year e d k,
  before_month d e h,
  before_month e d k,
  same_month d e h k,
)

-- Texts that read as dates are in the order of the instants at which these dates begin.
pub lt-instant :
    (s t : Bytes) (d e : Date)
    → parse_date s ≡ some d
    → parse_date t ≡ some e
    → str_lt s t ≡ ltb (instant d) (instant e)
lt-instant s t d e h k =
    let f = parse_date_text s d h in
    let g = parse_date_text t e k in
    rw (f.0, g.0) (lt-format_date d e f.1 g.1 ∙ sym (ltb-day_number d e f.2 g.2) ∙ ground arith)
