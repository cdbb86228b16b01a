-- ===== src/Store/Housekeeping.antt =====
-- store/housekeeping.go: what the scan measures in one file.
pub mod Scan
pub mod Placed
pub mod Tallied
use cogmemory.Base.{
  ℕ, suc, ◌+◌, ◌-◌, ◌*◌, Bool, true, false, not, ◌&&◌, ◌||◌, List, [], ◌∷◌, ◌++◌, Option, none,
  some, if◌then◌else◌, ◌==◌, leb, ltb, Bytes, codes, trim_space, has_prefix, is_empty, length,
  split, last_or, ℤ, pos,
}
use cogmemory.Regex.{◌▷◌, lit, some_of, first, re_space, date_part}
use cogmemory.Time.{Instant, Date, day_ns, zero_time, parse_date, instant, days_since, ltb_ℤ}
use cogmemory.Store.Fs.{Node, file, denied, dir}
use cogmemory.Store.State.{MemoryStore, Result, ok, err, abs_path, stat, read_file}
use cogmemory.Store.Lines.{newline, scan, mebibyte}
use cogmemory.Store.Actions.{
  OpenActionItem, quiet, visible, is_done, open_mark, parse_open_action_item,
}
use cogmemory.Store.Counts.{added_date}
use cogmemory.Store.Observations.{Counts, count_one}

pub record HousekeepingCaps : Type 0 where
  pub observations_entries : ℕ
  pub completed_actions : ℕ
  pub improvements_done : ℕ
  pub hot_memory_lines : ℕ
  pub patterns_lines : ℕ
  pub patterns_bytes : ℕ
  pub dormant_domain_days : ℕ
  pub stale_action_item_days : ℕ
  pub changed_recently_fallback_days : ℕ

-- DefaultHousekeepingCaps
abbrev pub default_housekeeping_caps : HousekeepingCaps
default_housekeeping_caps = record {
  observations_entries = 50;
  completed_actions = 10;
  improvements_done = 10;
  hot_memory_lines = 50;
  patterns_lines = 70;
  patterns_bytes = 5500;
  dormant_domain_days = 28;
  stale_action_item_days = 14;
  changed_recently_fallback_days = 7;
}

pub record ObservationsOverCap : Type 0 where
  pub path : Bytes
  pub entries : ℕ
  pub cap : ℕ
  pub by_primary_tag : Counts

-- CompletedActionsOverCap, ImprovementsImplementedOverCap and HotMemoryOverCap, which differ in the
-- name of what they count.
pub record OverCap : Type 0 where
  pub path : Bytes
  pub count : ℕ
  pub cap : ℕ

pub record PatternsOverCap : Type 0 where
  pub path : Bytes
  pub lines : ℕ
  pub size : ℕ
  pub lines_cap : ℕ
  pub size_cap : ℕ

pub record DormantDomain : Type 0 where
  pub id : Bytes
  pub last_observation : Bytes

pub record StaleActionItem : Type 0 where
  pub path : Bytes
  pub line : ℕ
  pub text : Bytes
  pub added : Bytes
  pub age_days : ℤ

-- The lines that a scanner returns before it stops, also where it stops at a line that is too long or
-- cannot read at all, as in a directory: the scans here do not look at the error. `none` where the file
-- cannot be opened.
abbrev lines_at : Option Node → Option (List Bytes)
lines_at none = none
lines_at (some (file content t)) = some (scan mebibyte content).0
lines_at (some (denied t)) = none
lines_at (some dir) = some []

abbrev lines_below : MemoryStore → Result Bytes → Option (List Bytes)
lines_below s (err e) = none
lines_below s (ok abs) = lines_at (stat s abs)

unfoldable pub scanned_lines : MemoryStore → Bytes → Option (List Bytes)
unfolding abs_path stat scan
scanned_lines s path = lines_below s (abs_path s path)

-- obsTagsRE: `^-\s+(\d{4}-\d{2}-\d{2})\s+\[([^\]]+)\]:`, its date and its tags
abbrev in_tags : ℕ → Bool
in_tags c = not (c == b']')

unfoldable pub obs_tags : Bytes → Option (Bytes × Bytes)
unfolding lit some_of re_space date_part
obs_tags line = first (
    lit (codes "-") line ▷ λ _ s1. some_of re_space s1 ▷ λ _ s2. date_part s2 ▷ λ date s3.
    some_of re_space s3 ▷ λ _ s4. lit (codes "[") s4 ▷ λ _ s5.
    some_of in_tags s5 ▷ λ tags s6. lit (codes "]:") s6 ▷ λ _ _. (date, tags) ∷ [])

abbrev head_of : List Bytes → Bytes
head_of [] = []
head_of (l ∷ ls) = l

abbrev or_untagged : Bytes → Bytes
or_untagged t = if is_empty t then codes "(untagged)" else t

unfoldable pub primary_tag : Bytes → Bytes
unfolding split trim_space
primary_tag tags = or_untagged (trim_space (head_of (split b',' tags)))

abbrev pub count_entry : Option (Bytes × Bytes) → ℕ × Counts → ℕ × Counts
count_entry none (n, m) = (n, m)
count_entry (some (date, tags)) (n, m) = (n + 1, count_one (primary_tag tags) m)

-- The loop of scanObservations, from the entries and the counts so far.
unfoldable pub count_entries : List Bytes → ℕ × Counts → ℕ × Counts
unfolding obs_tags trim_space count_one primary_tag
count_entries [] acc = acc
count_entries (l ∷ ls) acc = count_entries ls (count_entry (obs_tags (trim_space l)) acc)

abbrev pub observations_over : Bytes → ℕ → ℕ × Counts → Option ObservationsOverCap
observations_over path cap (n, m) =
    if leb n cap
    then none
    else some (record { path = path; entries = n; cap = cap; by_primary_tag = m })

abbrev observations_in : Bytes → ℕ → Option (List Bytes) → Option ObservationsOverCap
observations_in path cap none = none
observations_in path cap (some ls) = observations_over path cap (count_entries ls (0, []))

-- scanObservations
unfoldable pub scan_observations : MemoryStore → Bytes → ℕ → Option ObservationsOverCap
unfolding scanned_lines count_entries
scan_observations s path cap = observations_in path cap (scanned_lines s path)

-- The loop of scanDormancy, from the latest text and its time so far.
abbrev later_date : Bytes → Option Date → Bytes × Instant → Bytes × Instant
later_date text none acc = acc
later_date text (some d) acc = if ltb acc.1 (instant d) then (text, instant d) else acc

abbrev later_entry : Option (Bytes × Bytes) → Bytes × Instant → Bytes × Instant
later_entry none acc = acc
later_entry (some (date, tags)) acc = later_date date (parse_date date) acc

unfoldable pub latest_date : List Bytes → Bytes × Instant → Bytes × Instant
unfolding obs_tags trim_space parse_date
latest_date [] acc = acc
latest_date (l ∷ ls) acc = latest_date ls (later_entry (obs_tags (trim_space l)) acc)

abbrev dormant_since : Bytes → Instant → Bytes × Instant → Option DormantDomain
dormant_since id cutoff (text, time) =
    if not (is_empty text) && not (ltb time cutoff)
    then none
    else some (record { id = id; last_observation = text })

abbrev dormant_in : Bytes → Instant → Option (List Bytes) → Option DormantDomain
dormant_in id cutoff none = none
dormant_in id cutoff (some ls) = dormant_since id cutoff (latest_date ls ([], zero_time))

-- scanDormancy
unfoldable pub scan_dormancy : MemoryStore → Bytes → Bytes → ℕ → Instant → Option DormantDomain
unfolding scanned_lines latest_date
scan_dormancy s id path window now = dormant_in id (now - window * day_ns) (scanned_lines s path)

-- The date of an open item: its field, or else one found in the line.
abbrev or_found : Option Bytes → Bytes
or_found none = []
or_found (some d) = d

unfoldable pub added_of : OpenActionItem → Bytes → Bytes
unfolding added_date
added_of item trimmed = if is_empty item.added then or_found (added_date trimmed) else item.added

abbrev pub stale_at :
    ℕ → Instant → OpenActionItem → Bytes → Option Date → List StaleActionItem → List StaleActionItem
stale_at stale now item added none rest = rest
stale_at stale now item added (some d) rest =
    let age = days_since now (instant d) in
    if ltb_ℤ age (pos stale)
    then rest
    else record {
      path = item.path;
      line = item.line;
      text = item.text;
      added = added;
      age_days = age;
    }
      ∷ rest

abbrev pub stale_item :
    ℕ → Instant → Bytes → Option OpenActionItem → List StaleActionItem → List StaleActionItem
stale_item stale now trimmed none rest = rest
stale_item stale now trimmed (some item) rest =
    stale_at stale now item (added_of item trimmed) (parse_date (added_of item trimmed)) rest

-- The open items of the visible lines that are stale.
unfoldable pub stale_items : Bytes → ℕ → Instant → List (ℕ × Bytes) → List StaleActionItem
unfolding has_prefix is_done parse_open_action_item added_of parse_date days_since
stale_items path stale now [] = []
stale_items path stale now ((n, l) ∷ ls) =
    let rest = stale_items path stale now ls in
    if is_done l
    then rest
    else if not (has_prefix l open_mark)
    then rest
    else stale_item stale now l (parse_open_action_item [] path n l) rest

-- The visible lines that are completed.
unfoldable pub completed_in : List (ℕ × Bytes) → ℕ
unfolding is_done
completed_in [] = 0
completed_in ((n, l) ∷ ls) = (if is_done l then 1 else 0) + completed_in ls

abbrev pub visible_in : Option (List Bytes) → List (ℕ × Bytes)
visible_in none = []
visible_in (some ls) = visible quiet 0 ls

-- scanActionItems
unfoldable pub scan_action_items : MemoryStore → Bytes → ℕ → Instant → ℕ × List StaleActionItem
unfolding scanned_lines visible completed_in stale_items
scan_action_items s path stale now =
    let ls = visible_in (scanned_lines s path) in (completed_in ls, stale_items path stale now ls)

-- scanImprovements
abbrev over_cap : Bytes → ℕ → ℕ → Option OverCap
over_cap path cap n =
    if leb n cap then none else some (record { path = path; count = n; cap = cap })

unfoldable pub scan_improvements : MemoryStore → Bytes → ℕ → Option OverCap
unfolding scanned_lines visible completed_in
scan_improvements s path cap = over_cap path cap (completed_in (visible_in (scanned_lines s path)))

-- The lines of a text: its newlines, and a last line without one.
unfoldable pub count_newlines : Bytes → ℕ
count_newlines [] = 0
count_newlines (c ∷ s) = (if c == newline then 1 else 0) + count_newlines s

unfoldable pub line_count : Bytes → ℕ
unfolding count_newlines
line_count s = count_newlines s + (if last_or newline s == newline then 0 else 1)

abbrev measured : Result (Option Bytes) → Option (ℕ × ℕ)
measured (err e) = none
measured (ok none) = none
measured (ok (some s)) = some (line_count s, length s)

abbrev measured_at : MemoryStore → Result Bytes → Option (ℕ × ℕ)
measured_at s (err e) = none
measured_at s (ok abs) = measured (read_file s abs)

-- countFile
unfoldable pub count_file : MemoryStore → Bytes → Option (ℕ × ℕ)
unfolding abs_path read_file line_count
count_file s path = measured_at s (abs_path s path)

abbrev hot_over : Bytes → ℕ → Option (ℕ × ℕ) → Option OverCap
hot_over path cap none = none
hot_over path cap (some (n, size)) = over_cap path cap n

-- scanHotMemory
unfoldable pub scan_hot_memory : MemoryStore → Bytes → ℕ → Option OverCap
unfolding count_file
scan_hot_memory s path cap = hot_over path cap (count_file s path)

abbrev patterns_over : Bytes → ℕ → ℕ → Option (ℕ × ℕ) → Option PatternsOverCap
patterns_over path line_cap byte_cap none = none
patterns_over path line_cap byte_cap (some (n, size)) =
    if leb n line_cap && leb size byte_cap
    then none
    else some
        (record { path = path; lines = n; size = size; lines_cap = line_cap; size_cap = byte_cap })

-- scanPatterns
unfoldable pub scan_patterns : MemoryStore → Bytes → ℕ → ℕ → Option PatternsOverCap
unfolding count_file
scan_patterns s path line_cap byte_cap = patterns_over path line_cap byte_cap (count_file s path)
