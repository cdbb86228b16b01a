-- ===== src/Store/Clusters.antt =====
-- store/cluster.go: observations with their times, and the clusters by tag, by keyword and by thread.
pub mod Terms
pub mod Buckets
pub mod Sound
pub mod Windows
pub mod Clustered
pub mod Span
pub mod Threads
pub mod Check
use cogmemory.Base.{
  ℕ, suc, ◌+◌, ◌*◌, ◌/◌, Bool, true, false, not, ◌&&◌, ◌||◌, List, [], ◌∷◌, ◌++◌, Option, none,
  some, if◌then◌else◌, ◌==◌, leb, ltb, Bytes, codes, str_eq, str_lt, trim_space, is_empty, map,
  sort_by, less_on, any, take, length, ℤ, pos, negsuc,
}
use cogmemory.Time.{Instant, Date, day_ns, parse_date, instant, days_since, format_day}
use cogmemory.Store.State.{MemoryStore, Result, ok, err, ◌>>=◌}
use cogmemory.Store.Actions.{quiet, scan_file, visible}
use cogmemory.Store.Observations.{ObsTarget, ObsParts, obs_parts}
use cogmemory.Store.Clusters.Terms.{cluster_tags, keywords}

pub record Observation : Type 0 where
  pub domain : Bytes
  pub path : Bytes
  pub line : ℕ
  pub time : Instant
  pub date : Bytes
  pub tags : List Bytes
  pub text : Bytes

pub record SampleObs : Type 0 where
  pub date : Bytes
  pub domain : Bytes
  pub path : Bytes
  pub line : ℕ
  pub text : Bytes

-- TagCluster and KeywordCluster, whose fields are the same but for the name of the first.
pub record Cluster : Type 0 where
  pub name : Bytes
  pub count : ℕ
  pub spans_days : ℕ
  pub domains : List Bytes
  pub samples : List SampleObs

pub record ThreadCandidate : Type 0 where
  pub topic : Bytes
  pub fragment_count : ℕ
  pub date_range : Bytes

abbrev pub timed_obs : Bytes → Bytes → ℕ → ObsParts → Option Date → Option Observation
timed_obs domain path n p none = none
timed_obs domain path n p (some d) = some (record {
  domain = domain;
  path = path;
  line = n;
  time = instant d;
  date = p.date;
  tags = cluster_tags p.tags;
  text = trim_space p.text;
})

abbrev pub obs_of_parts : Bytes → Bytes → ℕ → Option ObsParts → Option Observation
obs_of_parts domain path n none = none
obs_of_parts domain path n (some p) = timed_obs domain path n p (parse_date p.date)

-- parseClusterObs
unfoldable pub parse_cluster_obs : Bytes → Bytes → ℕ → Bytes → Option Observation
unfolding obs_parts parse_date cluster_tags trim_space
parse_cluster_obs domain path n trimmed = obs_of_parts domain path n (obs_parts trimmed)

-- spanDays
unfoldable pub min_time : Instant → List Observation → Instant
min_time t [] = t
min_time t (o ∷ os) = min_time (if ltb o.time t then o.time else t) os

unfoldable pub max_time : Instant → List Observation → Instant
max_time t [] = t
max_time t (o ∷ os) = max_time (if ltb t o.time then o.time else t) os

abbrev pub whole : ℤ → ℕ
whole (pos n) = n
whole (negsuc n) = 0

unfoldable pub span_days : List Observation → ℕ
unfolding min_time max_time days_since
span_days [] = 0
span_days (o ∷ os) = whole (days_since (max_time o.time os) (min_time o.time os)) + 1

-- dateRange, with the dots between its two dates
unfoldable pub date_range : List Observation → Bytes
unfolding min_time max_time format_day
date_range [] = codes ".."
date_range (o ∷ os) =
    format_day (min_time o.time os) ++ (codes ".." ++ format_day (max_time o.time os))

-- uniqueDomains

unfoldable pub domains_seen : List Bytes → List Observation → List Bytes
unfolding str_eq
domains_seen seen [] = []
domains_seen seen (o ∷ os) =
    if any (λ d. str_eq d o.domain) seen || is_empty o.domain
    then domains_seen seen os
    else o.domain ∷ domains_seen (o.domain ∷ seen) os

unfoldable pub unique_domains : List Observation → List Bytes
unfolding domains_seen sort_by str_lt
unique_domains os = sort_by str_lt (domains_seen [] os)

-- makeSamples
unfoldable pub sample_less : Observation → Observation → Bool
unfolding str_eq str_lt
sample_less a b =
    if not (a.time == b.time)
    then ltb b.time a.time
    else if not (str_eq a.path b.path)
    then str_lt a.path b.path
    else ltb a.line b.line

abbrev sample_of : Observation → SampleObs
sample_of o = record {
  date = o.date;
  domain = o.domain;
  path = o.path;
  line = o.line;
  text = o.text;
}

unfoldable pub make_samples : List Observation → ℕ → List SampleObs
unfolding sort_by sample_less
make_samples os limit = map sample_of (take limit (sort_by sample_less os))

-- The maps from a tag or a term to its observations, in order.
abbrev pub Buckets : Type 0
Buckets = List (Bytes × List Observation)

unfoldable pub add_obs : Bytes → Observation → Buckets → Buckets
unfolding str_eq
add_obs k o [] = (k, o ∷ []) ∷ []
add_obs k o ((j, os) ∷ m) = if str_eq j k then (j, os ++ (o ∷ [])) ∷ m else (j, os) ∷ add_obs k o m

unfoldable pub add_keys : List Bytes → Observation → Buckets → Buckets
unfolding add_obs
add_keys [] o m = m
add_keys (k ∷ ks) o m = add_keys ks o (add_obs k o m)

-- The buckets of all observations, where `keys` gives the keys of one.
unfoldable pub buckets_of : (Observation → List Bytes) → List Observation → Buckets → Buckets
unfolding add_keys
buckets_of keys [] m = m
buckets_of keys (o ∷ os) m = buckets_of keys os (add_keys (keys o) o m)

-- The parameters after the defaults.
pub record Limits : Type 0 where
  pub min_cluster_size : ℕ
  pub span_days : ℕ
  pub sample_limit : ℕ

abbrev pub cluster_of : Limits → Bytes → List Observation → Cluster
cluster_of p k os = record {
  name = k;
  count = length os;
  spans_days = span_days os;
  domains = unique_domains os;
  samples = make_samples os p.sample_limit;
}

-- The loop over the map: the buckets that are large enough.
unfoldable pub large_clusters : Limits → Buckets → List Cluster
unfolding span_days unique_domains make_samples
large_clusters p [] = []
large_clusters p ((k, os) ∷ m) =
    let rest = large_clusters p m in
    if ltb (length os) p.min_cluster_size then rest else cluster_of p k os ∷ rest

unfoldable pub cluster_less : Cluster → Cluster → Bool
unfolding str_lt
cluster_less a b = if not (a.count == b.count) then ltb b.count a.count else str_lt a.name b.name

-- buildTagClusters, buildKeywordClusters
unfoldable pub build_tag_clusters : List Observation → Limits → List Cluster
unfolding buckets_of large_clusters sort_by cluster_less
build_tag_clusters all p = sort_by cluster_less (large_clusters p (buckets_of (λ o. o.tags) all []))

unfoldable pub build_keyword_clusters : List Observation → Limits → List Cluster
unfolding buckets_of large_clusters sort_by cluster_less keywords
build_keyword_clusters all p =
    sort_by cluster_less (large_clusters p (buckets_of (λ o. keywords o.text) all []))

-- buildThreadCandidates
abbrev pub thread_keys : Observation → List Bytes
thread_keys o =
    map (λ t. codes "tag:" ++ t) o.tags ++ map (λ k. codes "keyword:" ++ k) (keywords o.text)

abbrev pub thread_of : Bytes → List Observation → ThreadCandidate
thread_of k os = record { topic = k; fragment_count = length os; date_range = date_range os }

unfoldable pub long_threads : Limits → Buckets → List ThreadCandidate
unfolding span_days date_range
long_threads p [] = []
long_threads p ((k, os) ∷ m) =
    let rest = long_threads p m in
    if ltb (length os) p.min_cluster_size
    then rest
    else if ltb (span_days os) p.span_days
    then rest
    else thread_of k os ∷ rest

unfoldable pub thread_less : ThreadCandidate → ThreadCandidate → Bool
unfolding str_lt
thread_less a b =
    if not (a.fragment_count == b.fragment_count)
    then ltb b.fragment_count a.fragment_count
    else str_lt a.topic b.topic

unfoldable pub build_thread_candidates : List Observation → Limits → List ThreadCandidate
unfolding buckets_of long_threads sort_by thread_less keywords
build_thread_candidates all p = sort_by thread_less (long_threads p (buckets_of thread_keys all []))
