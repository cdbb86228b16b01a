-- ===== src/Rpc/Since.antt =====
-- rpc/methods.go: the parameter `since`, as parseSince and resolveSince read it.
use cogmemory.Base.{
  ℕ, ◌-◌, ◌*◌, ◌%◌, ◌+◌, Option, none, some, if◌then◌else◌, leb, ltb, Bytes, codes, has_suffix,
  trim_space, is_empty, ℤ, pos, negsuc,
}
use cogmemory.Time.{Instant, Date, day_ns, zero_time, parse_date, instant, format_day, neg_of}
use cogmemory.Time.Durations.{parse_duration, parse_rfc3339, scan_days, before}

abbrev days_in : Bytes → Option ℕ
days_in s = if has_suffix s (codes "d") then scan_days s else none

abbrev or_rfc3339 : Option Instant → Option Date → Option Instant
or_rfc3339 later none = later
or_rfc3339 later (some d) = some (instant d)

abbrev or_date : Bytes → Instant → Option ℤ → Option Instant
or_date raw now (some d) = some (before now d)
or_date raw now none = or_rfc3339 (parse_rfc3339 raw) (parse_date raw)

abbrev or_duration : Bytes → Instant → Option ℕ → Option Instant
or_duration raw now (some n) = some (now - n * day_ns)
or_duration raw now none = or_date raw now (parse_duration raw)

-- parseSince; `none` is its error
unfoldable pub parse_since : Bytes → Instant → Option Instant
unfolding trim_space has_suffix scan_days parse_duration parse_rfc3339 parse_date
parse_since text now =
    let raw = trim_space text in
    if is_empty raw then some zero_time else or_duration raw now (days_in raw)

-- The hours of some days, as an int64.
abbrev two_64 : ℕ
two_64 = 18446744073709551616

abbrev hours_of : ℕ → ℤ
hours_of n =
    if ltb (n * 24 % two_64) 9223372036854775808
    then pos (n * 24 % two_64)
    else neg_of (two_64 - n * 24 % two_64)

-- The hours as a Duration, where they are within one.
abbrev max_hours : ℕ
max_hours = 2562047

abbrev hours_before : Instant → ℤ → Option Instant
hours_before now (pos n) = if leb n max_hours then some (now - n * 3600000000000) else none
hours_before now (negsuc n) = if ltb n max_hours then some (now + (n + 1) * 3600000000000) else none

abbrev spec_before : Bytes → Instant → Option ℕ → Option Instant
spec_before s now (some n) = hours_before now (hours_of n)
spec_before s now none = elim (parse_duration s) [ none ↦ none | some d ↦ some (before now d) ]

abbrev since_rfc3339 : Bytes → Instant → Option Instant → Option Instant
since_rfc3339 s now (some t) = some t
since_rfc3339 s now none = spec_before s now (days_in s)

abbrev since_date : Bytes → Instant → Option Date → Option Instant
since_date s now (some d) = some (instant d)
since_date s now none = since_rfc3339 s now (parse_rfc3339 s)

-- resolveSince, whose text is the day of the instant
unfoldable pub resolve_since : Bytes → Instant → Option Instant
unfolding has_suffix scan_days parse_duration parse_rfc3339 parse_date
resolve_since s now =
    if is_empty s then some (now - 7 * day_ns) else since_date s now (parse_date s)

unfoldable pub since_day : Instant → Bytes
unfolding format_day
since_day t = format_day t
