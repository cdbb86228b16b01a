-- ===== src/Store/Entities.antt =====
-- store/store.go: EntityAudit.
pub mod Audit
pub mod Totals
use cogmemory.Base.{
  ℕ, suc, ◌+◌, ◌-◌, ◌/◌, Bool, true, false, not, ◌&&◌, ◌||◌, List, [], ◌∷◌, ◌++◌, Option, none,
  some, if◌then◌else◌, ◌==◌, leb, ltb, Bytes, codes, str_eq, has_prefix, has_suffix, trim_space,
  to_lower, equal_fold, split, is_empty, length, take, drop, sort_by, less_on, index, ℤ, pos,
  negsuc,
}
use cogmemory.Regex.{
  ◌▷◌, lit, many, some_of, some_few, times, end, first, find_all, re_space, re_dot, re_digit,
}
use cogmemory.Time.{
  Instant, Date, day_ns, parse_date, parse_month, instant, days_since, date_of, ltb_ℤ,
}
use cogmemory.Store.State.{MemoryStore, Result, ok, err, ◌>>=◌, abs_path, read_file}
use cogmemory.Store.Lines.{newline}
use cogmemory.Store.Actions.{ActionTarget}

pub record EntityFormatViolation : Type 0 where
  pub path : Bytes
  pub domain : Bytes
  pub name : Bytes
  pub lines : ℕ
  pub has_detail_file : Bool

pub record EntityGlacierCandidate : Type 0 where
  pub path : Bytes
  pub domain : Bytes
  pub name : Bytes
  pub status : Bytes
  pub last : Bytes
  pub age_days : ℤ

pub record EntityMissingMetadata : Type 0 where
  pub path : Bytes
  pub domain : Bytes
  pub name : Bytes
  pub missing : List Bytes

pub record EntityTemporalViolation : Type 0 where
  pub path : Bytes
  pub domain : Bytes
  pub name : Bytes
  pub line : ℕ
  pub text : Bytes

pub record EntityAuditResult : Type 0 where
  pub format_violations : List EntityFormatViolation
  pub glacier_candidates : List EntityGlacierCandidate
  pub missing_metadata : List EntityMissingMetadata
  pub temporal_violations : List EntityTemporalViolation
  pub total_entries : ℕ
  pub total_lines : ℕ

-- entityHeadingRE: `^###\s+(.+?)\s*$`
unfoldable pub entity_heading : Bytes → Option Bytes
unfolding lit some_of some_few many end re_space re_dot
entity_heading line = first (
    lit (codes "###") line ▷ λ _ s1. some_of re_space s1 ▷ λ _ s2.
    some_few re_dot s2 ▷ λ name s3. many re_space s3 ▷ λ _ s4. end s4 ▷ λ _ _. name ∷ [])

-- entityUntilRE: `\(until\s+(\d{4}-\d{2})\)`, at the start of a text, with its month
unfoldable pub until_here : Bytes → Option (Bytes × ℕ)
unfolding lit some_of times re_space re_digit
until_here s = first (
    lit (codes "(until") s ▷ λ a s1. some_of re_space s1 ▷ λ b s2. times 4 re_digit s2 ▷ λ y s3.
    lit (codes "-") s3 ▷ λ d s4. times 2 re_digit s4 ▷ λ m s5. lit (codes ")") s5 ▷ λ c _.
    (y ++ (d ++ m), length a + length b + length y + length d + length m + length c) ∷ [])

abbrev in_link : ℕ → Bool
in_link c = not (c == b']')

-- entityDetailLinkRE: `\[\[wiki:[^\]]+\]\]`, at the start of a text
unfoldable pub detail_here : Bytes → Option (Bytes × ℕ)
unfolding lit some_of
detail_here s = first (
    lit (codes "[[wiki:") s ▷ λ a s1. some_of in_link s1 ▷ λ b s2.
    lit (codes "]]") s2 ▷ λ c _. (b, length a + length b + length c) ∷ [])

unfoldable pub has_detail_link : Bytes → Bool
unfolding find_all detail_here
has_detail_link line = not (is_empty (find_all detail_here 0 0 line))

-- strings.LastIndex of one byte
unfoldable pub last_index_byte : ℕ → Bytes → Option ℕ
last_index_byte b [] = none
last_index_byte b (c ∷ s) = elim (last_index_byte b s) [
  | some i ↦ some (suc i)
  | none ↦ if c == b then some 0 else none
]

abbrev before_paren : Bytes → Option ℕ → Bytes
before_paren name none = name
before_paren name (some i) = if i == 0 then name else trim_space (take i name)

-- stripParenSuffix
unfoldable pub strip_paren_suffix : Bytes → Bytes
unfolding trim_space has_suffix last_index_byte
strip_paren_suffix raw =
    let name = trim_space raw in
    if not (has_suffix name (codes ")"))
    then name
    else before_paren name (last_index_byte b'(' name)

abbrev before_link : Bytes → Option ℕ → Bytes
before_link val none = val
before_link val (some i) = if i == 0 then val else trim_space (take i val)

abbrev field_value : Bytes → Bytes → Bytes
field_value prefix trim =
    let val = trim_space (drop (length prefix) trim) in before_link val (index val (codes " ("))

unfoldable pub field_in : Bytes → List Bytes → Option Bytes
unfolding trim_space to_lower has_prefix index
field_in prefix [] = none
field_in prefix (p ∷ ps) =
    let rest = field_in prefix ps in
    if not (has_prefix (to_lower (trim_space p)) prefix)
    then rest
    else some (field_value prefix (trim_space p))

-- extractInlineField
unfoldable pub extract_inline_field : Bytes → Bytes → Option Bytes
unfolding split field_in to_lower
extract_inline_field line field = field_in (to_lower field ++ codes ":") (split b'|' line)

abbrev month_start : Instant → Date
month_start now = record (date_of (now / day_ns)) { day = 1 }

abbrev before_month : Instant → Option Date → Bool
before_month now none = false
before_month now (some d) = ltb (instant d) (instant (month_start now))

-- isPastYYYYMM
unfoldable pub is_past_month : Bytes → Instant → Bool
unfolding parse_month date_of
is_past_month s now = before_month now (parse_month s)

-- isStruckThrough, of the bytes from `start` to `stop`
unfoldable pub is_struck_through : Bytes → ℕ → ℕ → Bool
unfolding str_eq
is_struck_through line start stop =
    leb 2 start
    && str_eq (take 2 (drop (start - 2) line)) (codes "~~")
    && leb (stop + 2) (length line)
    && str_eq (take 2 (drop stop line)) (codes "~~")
