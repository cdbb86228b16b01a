-- ===== src/Time/Durations.antt =====
-- Go's time.ParseDuration, time.Parse for RFC 3339, and fmt.Sscanf for `%dd`.
use cogmemory.Base.{
  ℕ, zero, suc, ◌+◌, ◌-◌, ◌*◌, ◌/◌, Bool, true, false, ◌&&◌, ◌||◌, [], ◌∷◌, Option, none, some,
  if◌then◌else◌, ◌==◌, leb, ltb, Bytes, codes, str_eq, is_empty, length, take, drop, ℤ, pos, negsuc,
}
use cogmemory.Time.{
  Instant, Date, second_ns, number_from, parse_date, instant, max_duration, neg_of,
}

abbrev is_digit : ℕ → Bool
is_digit c = leb b'0' c && leb c b'9'

-- The value of the leading digits, on top of `n`, how many they are, and the rest.
unfoldable pub leading_digits : ℕ → ℕ → Bytes → ℕ × ℕ × Bytes
leading_digits n k [] = (n, k, [])
leading_digits n k (c ∷ s) =
    let more = leading_digits (10 * n + (c - b'0')) (suc k) s in
    if is_digit c then more else (n, k, c ∷ s)

unfoldable pub pow10 : ℕ → ℕ
pow10 zero = 1
pow10 (suc n) = 10 * pow10 n

-- The bytes of a unit: those before a digit or a dot.
unfoldable pub unit_part : Bytes → Bytes × Bytes
unit_part [] = ([], [])
unit_part (c ∷ s) =
    let (u, rest) = unit_part s in if is_digit c || (c == b'.') then ([], c ∷ s) else (c ∷ u, rest)

abbrev micro : Bytes
micro = 194 ∷ 181 ∷ b's' ∷ []

abbrev mu : Bytes
mu = 206 ∷ 188 ∷ b's' ∷ []

unfoldable pub unit_ns : Bytes → Option ℕ
unfolding str_eq
unit_ns u =
    if str_eq u (codes "ns")
    then some 1
    else if str_eq u (codes "us") || str_eq u micro || str_eq u mu
    then some 1000
    else if str_eq u (codes "ms")
    then some 1000000
    else if str_eq u (codes "s")
    then some second_ns
    else if str_eq u (codes "m")
    then some (60 * second_ns)
    else if str_eq u (codes "h")
    then some (3600 * second_ns)
    else none

abbrev two_63 : ℕ
two_63 = 9223372036854775808

-- The fraction behind a dot: its digits and how many they are.
abbrev fraction : Bytes → ℕ × ℕ × Bytes
fraction [] = (0, 0, [])
fraction (c ∷ s) = if c == b'.' then leading_digits 0 0 s else (0, 0, c ∷ s)

abbrev sized : ℕ → ℕ → ℕ → Option ℕ → Option ℕ
sized v f k none = none
sized v f k (some unit) =
    if ltb two_63 (v * unit)
    then none
    else if ltb two_63 (v * unit + f * unit / pow10 k)
    then none
    else some (v * unit + f * unit / pow10 k)

abbrev in_all : ℕ → Option ℕ → Option ℕ
in_all d none = none
in_all d (some v) = if ltb two_63 (d + v) then none else some (d + v)

-- The terms of a duration, on top of `d`; each takes at least one byte, of which the fuel has as many.
unfoldable pub terms_from : ℕ → ℕ → Bytes → Option ℕ
unfolding leading_digits unit_part unit_ns pow10
terms_from fuel d [] = some d
terms_from zero d (c ∷ s) = none
terms_from (suc fuel) d (c ∷ s) =
    let (v, pre, s1) = leading_digits 0 0 (c ∷ s) in
    let (f, post, s2) = fraction s1 in
    let (u, s3) = unit_part s2 in
    if (pre == 0) && (post == 0)
    then none
    else if is_empty u
    then none
    else if ltb two_63 v
    then none
    else elim (in_all d (sized v f post (unit_ns u))) [
      | none ↦ none
      | some d' ↦ terms_from fuel d' s3
    ]

abbrev duration_of : Bool → Bytes → Option ℕ → Option ℤ
duration_of neg s none = none
duration_of neg s (some d) =
    if is_empty s
    then none
    else if neg
    then some (neg_of d)
    else if ltb max_duration d
    then none
    else some (pos d)

abbrev unsigned : Bool → Bytes → Option ℤ
unsigned neg s =
    if str_eq s (codes "0") then some (pos 0) else duration_of neg s (terms_from (length s) 0 s)

-- time.ParseDuration, in nanoseconds, with exact fractions
unfoldable pub parse_duration : Bytes → Option ℤ
unfolding terms_from str_eq
parse_duration [] = none
parse_duration (c ∷ s) =
    if c == b'-'
    then unsigned true s
    else if c == b'+'
    then unsigned false s
    else unsigned false (c ∷ s)

-- t.Add(-d)
abbrev pub before : Instant → ℤ → Instant
before t (pos d) = t - d
before t (negsuc d) = t + suc d

-- fmt.Sscanf(s, "%dd", &n) for an n that is positive and within an int64
abbrev skip_blanks : Bytes → Bytes
skip_blanks [] = []
skip_blanks (c ∷ s) = if (c == b' ') || (c == 9) then skip_blanks s else c ∷ s

abbrev skip_plus : Bytes → Bytes
skip_plus [] = []
skip_plus (c ∷ s) = if c == b'+' then s else c ∷ s

abbrev then_d : ℕ × ℕ × Bytes → Option ℕ
then_d (n, k, []) = none
then_d (n, k, c ∷ s) = if (c == b'd') && ltb 0 n && leb n max_duration then some n else none

unfoldable pub scan_days : Bytes → Option ℕ
unfolding leading_digits
scan_days s = then_d (leading_digits 0 0 (skip_plus (skip_blanks s)))

-- A field of two digits that is at most `max`.
abbrev field_upto : ℕ → Bytes → Option ℕ
field_upto max s = elim (number_from (some 0) s) [
  | none ↦ none
  | some n ↦ if leb n max && (length s == 2) then some n else none
]

abbrev clock_of : Option ℕ → Option ℕ → Option ℕ → Option ℕ
clock_of (some h) (some m) (some s) = some (3600 * h + 60 * m + s)
clock_of _ _ _ = none

-- `hh:mm:ss` in seconds
abbrev read_clock : Bytes → Option ℕ
read_clock s =
    if str_eq (take 1 (drop 2 s)) (codes ":") && str_eq (take 1 (drop 5 s)) (codes ":")
    then clock_of (field_upto 23 (take 2 s)) (field_upto 59 (take 2 (drop 3 s)))
        (field_upto 59 (take 2 (drop 6 s)))
    else none

-- The fraction of a second in nanoseconds, with the rest.
abbrev nanoseconds : Bytes → ℕ × Bytes
nanoseconds [] = (0, [])
nanoseconds (c ∷ s) =
    let (n, k, rest) = leading_digits 0 0 s in
    if (c == b'.') && ltb 0 k then (n * second_ns / pow10 k, rest) else (0, c ∷ s)

abbrev signed_zone : ℕ → Option ℕ → Option ℤ
signed_zone c none = none
signed_zone c (some n) =
    if c == b'+' then some (pos n) else if c == b'-' then some (neg_of n) else none

abbrev zone_of : Option ℕ → Option ℕ → Option ℕ
zone_of (some h) (some m) = some ((3600 * h + 60 * m) * second_ns)
zone_of _ _ = none

-- `Z` or `±hh:mm`, in nanoseconds east
abbrev read_zone : Bytes → Option ℤ
read_zone [] = none
read_zone (c ∷ s) =
    if (c == b'Z') && is_empty s
    then some (pos 0)
    else if (length s == 5) && str_eq (take 1 (drop 2 s)) (codes ":")
    then signed_zone c (zone_of (field_upto 23 (take 2 s)) (field_upto 59 (drop 3 s)))
    else none

abbrev at_clock : Option Date → Option ℕ → ℕ → Option ℤ → Option Instant
at_clock (some d) (some s) ns (some z) = some (before (instant d + s * second_ns + ns) z)
at_clock _ _ _ _ = none

-- time.Parse(time.RFC3339, s): `YYYY-MM-DDThh:mm:ss`, a fraction, and a zone
unfoldable pub parse_rfc3339 : Bytes → Option Instant
unfolding parse_date number_from leading_digits pow10 str_eq
parse_rfc3339 s =
    if str_eq (take 1 (drop 10 s)) (codes "T")
    then at_clock (parse_date (take 10 s)) (read_clock (take 8 (drop 11 s)))
        (nanoseconds (drop 19 s)).0 (read_zone (nanoseconds (drop 19 s)).1)
    else none
