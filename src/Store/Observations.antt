-- ===== src/Store/Observations.antt =====
-- store/observations.go: the parser of observation lines, and RecentObservations.
pub mod Recent
pub mod Placed
pub mod Tally
use cogmemory.Base.{
  ℕ, suc, ◌+◌, Bool, true, false, not, ◌&&◌, ◌||◌, List, [], ◌∷◌, ◌++◌, Option, none, some,
  if◌then◌else◌, ◌==◌, ltb, Bytes, codes, str_eq, str_lt, trim_space, split, is_empty, keep, map,
  sort_by, less_on, any,
}
use cogmemory.Regex.{◌▷◌, lit, many, some_of, end, first, re_space, re_dot, date_part}
use cogmemory.Time.{Date, parse_date}
use cogmemory.Store.State.{MemoryStore, Result, ok, err, ◌>>=◌}
use cogmemory.Store.Append.{obs_line}
use cogmemory.Store.Actions.{quiet, scan_file, visible}

pub record ObsTarget : Type 0 where
  pub domain : Bytes
  pub path : Bytes

pub record ObservationEntry : Type 0 where
  pub domain : Bytes
  pub path : Bytes
  pub line : ℕ
  pub date : Bytes
  pub tags : List Bytes
  pub text : Bytes

-- The captures of a pattern for observation lines.
pub record ObsParts : Type 0 where
  pub date : Bytes
  pub tags : Bytes
  pub text : Bytes

abbrev in_tags : ℕ → Bool
in_tags c = not (c == b']')

-- obsLineParseRE and clusterObsRE: `^-\s+(\d{4}-\d{2}-\d{2})\s+\[([^\]]+)\]:\s*(.+)$`
unfoldable pub obs_parts : Bytes → Option ObsParts
unfolding lit many some_of end re_space re_dot date_part
obs_parts line = first (
    lit (codes "-") line ▷ λ _ s1. some_of re_space s1 ▷ λ _ s2. date_part s2 ▷ λ date s3.
    some_of re_space s3 ▷ λ _ s4. lit (codes "[") s4 ▷ λ _ s5. some_of in_tags s5 ▷ λ tags s6.
    lit (codes "]:") s6 ▷ λ _ s7. many re_space s7 ▷ λ _ s8. some_of re_dot s8 ▷ λ text s9.
    end s9 ▷ λ _ _. record { date = date; tags = tags; text = text } ∷ [])

-- The tags of a list with commas, trimmed, without empty ones.
unfoldable pub tag_list : Bytes → List Bytes
unfolding split trim_space
tag_list s = keep (λ t. not (is_empty t)) (map trim_space (split b',' s))

abbrev entry_of : Bytes → Bytes → ℕ → ObsParts → ObservationEntry
entry_of domain path n p = record {
  domain = domain;
  path = path;
  line = n;
  date = p.date;
  tags = tag_list p.tags;
  text = trim_space p.text;
}

abbrev pub dated_entry : Bytes → Bytes → ℕ → ObsParts → Option Date → Option ObservationEntry
dated_entry domain path n p none = none
dated_entry domain path n p (some d) = some (entry_of domain path n p)

abbrev pub parsed_entry : Bytes → Bytes → ℕ → Bytes → Option ObsParts → Option ObservationEntry
parsed_entry domain path n raw none = none
parsed_entry domain path n raw (some p) =
    if not (obs_line raw) then none else dated_entry domain path n p (parse_date p.date)

-- parseObservationLine
unfoldable pub parse_observation_line : Bytes → Bytes → ℕ → Bytes → Option ObservationEntry
unfolding obs_parts obs_line parse_date tag_list trim_space
parse_observation_line domain path n raw = parsed_entry domain path n raw (obs_parts raw)

-- containsTag
unfoldable pub contains_tag : List Bytes → Bytes → Bool
unfolding str_eq
contains_tag tags want = any (λ t. str_eq t want) tags

-- The filters by date and by tag: an empty text filters nothing.
unfoldable pub is_recent : Bytes → ObservationEntry → Bool
unfolding str_lt
is_recent since e = is_empty since || not (str_lt e.date since)

unfoldable pub is_tagged : Bytes → ObservationEntry → Bool
unfolding contains_tag
is_tagged by_tag e = is_empty by_tag || contains_tag e.tags by_tag

abbrev pub cons_if :
    (ObservationEntry → Bool)
    → Option ObservationEntry
    → List ObservationEntry
    → List ObservationEntry
cons_if p none es = es
cons_if p (some e) es = if p e then e ∷ es else es

-- The entries of the lines of one file that pass a filter.
unfoldable pub entries_of :
    (ObservationEntry → Bool) → Bytes → Bytes → List (ℕ × Bytes) → List ObservationEntry
unfolding parse_observation_line
entries_of p domain path [] = []
entries_of p domain path ((n, trimmed) ∷ ls) =
    cons_if p (parse_observation_line domain path n trimmed) (entries_of p domain path ls)

-- The body of the loop over the targets: a target of another domain is skipped before its file is
-- opened.
unfoldable pub entries_of_target :
    MemoryStore → Bytes → Bytes → Bytes → ObsTarget → Result (List ObservationEntry)
unfolding scan_file entries_of visible is_recent is_tagged str_eq
entries_of_target s since by_tag by_domain t =
    if not (is_empty by_domain) && not (str_eq t.domain by_domain)
    then ok []
    else scan_file s t.path [] (λ lines.
      entries_of (λ e. is_recent since e && is_tagged by_tag e) t.domain t.path
        (visible quiet 0 lines))

unfoldable pub collect_entries :
    MemoryStore → Bytes → Bytes → Bytes → List ObsTarget → Result (List ObservationEntry)
unfolding entries_of_target
collect_entries s since by_tag by_domain [] = ok []
collect_entries s since by_tag by_domain (t ∷ ts) = do
  es ← entries_of_target s since by_tag by_domain t
  rest ← collect_entries s since by_tag by_domain ts
  ok (es ++ rest)

-- Newest first, then by path and line.
unfoldable pub newer : ObservationEntry → ObservationEntry → Bool
unfolding str_eq str_lt
newer a b =
    if not (str_eq a.date b.date)
    then str_lt b.date a.date
    else if not (str_eq a.path b.path)
    then str_lt a.path b.path
    else ltb a.line b.line

-- The maps from keys to counts.
abbrev pub Counts : Type 0
Counts = List (Bytes × ℕ)

-- m[k]++
unfoldable pub count_one : Bytes → Counts → Counts
unfolding str_eq
count_one k [] = (k, 1) ∷ []
count_one k ((j, n) ∷ m) = if str_eq j k then (j, n + 1) ∷ m else (j, n) ∷ count_one k m

unfoldable pub count_all : List Bytes → Counts → Counts
unfolding count_one
count_all [] m = m
count_all (k ∷ ks) m = count_all ks (count_one k m)

unfoldable pub by_domain_counts : List ObservationEntry → Counts → Counts
unfolding count_one
by_domain_counts [] m = m
by_domain_counts (e ∷ es) m = by_domain_counts es (count_one e.domain m)

unfoldable pub by_tag_counts : List ObservationEntry → Counts → Counts
unfolding count_all
by_tag_counts [] m = m
by_tag_counts (e ∷ es) m = by_tag_counts es (count_all e.tags m)

pub record RecentObservationsResult : Type 0 where
  pub since : Bytes
  pub entries : List ObservationEntry
  pub by_domain : Counts
  pub by_tag : Counts

abbrev pub aggregated : Bytes → List ObservationEntry → RecentObservationsResult
aggregated since es = record {
  since = since;
  entries = es;
  by_domain = by_domain_counts es [];
  by_tag = by_tag_counts es [];
}

-- RecentObservations
unfoldable pub recent_observations :
    MemoryStore → List ObsTarget → Bytes → Bytes → Bytes → Result RecentObservationsResult
unfolding collect_entries sort_by newer by_domain_counts by_tag_counts
recent_observations s targets since by_tag by_domain = do
  found ←
      collect_entries s since by_tag by_domain
        (sort_by (less_on (λ (t : ObsTarget). t.path)) targets)
  ok (aggregated since (sort_by newer found))

-- The numbered lines of a scan that skips none, trimmed.
unfoldable pub numbered : ℕ → List Bytes → List (ℕ × Bytes)
unfolding trim_space
numbered n [] = []
numbered n (l ∷ ls) = (suc n, trim_space l) ∷ numbered (suc n) ls

-- RecentObservationsForFile
unfoldable pub recent_observations_for_file :
    MemoryStore → Bytes → Bytes → Result (List ObservationEntry)
unfolding scan_file entries_of numbered is_recent
recent_observations_for_file s path since =
    scan_file s path [] (λ lines. entries_of (is_recent since) [] path (numbered 0 lines))
