-- ===== src/Store/Clusters/Check.antt =====
-- store/cluster.go: Cluster, which scans the observation files from a day on.
use cogmemory.Base.{
  ℕ, ◌-◌, ◌*◌, ◌/◌, List, [], ◌∷◌, ◌++◌, Option, none, some, if◌then◌else◌, ◌==◌, ltb, Bytes,
  sort_by, less_on, ℤ, pos, negsuc,
}
use cogmemory.Time.{Instant, day_ns, zero_time}
use cogmemory.Store.State.{MemoryStore, Result, ok, ◌>>=◌}
use cogmemory.Store.Actions.{quiet, scan_file, visible}
use cogmemory.Store.Observations.{ObsTarget}
use cogmemory.Store.Clusters.{
  Observation, Cluster, ThreadCandidate, Limits, parse_cluster_obs, build_tag_clusters,
  build_keyword_clusters, build_thread_candidates,
}

pub record ClusterParams : Type 0 where
  pub min_cluster_size : ℤ
  pub since : Instant
  pub span_days : ℤ
  pub sample_limit : ℤ
  pub now : Instant

pub record ClusterResult : Type 0 where
  pub by_tag : List Cluster
  pub by_keyword : List Cluster
  pub thread_candidates : List ThreadCandidate

-- A parameter that is not positive has its default.
unfoldable pub positive_or : ℤ → ℕ → ℕ
positive_or (pos n) d = if n == 0 then d else n
positive_or (negsuc n) d = d

unfoldable pub limits_of : ClusterParams → Limits
unfolding positive_or
limits_of p = record {
  min_cluster_size = positive_or p.min_cluster_size 3;
  span_days = positive_or p.span_days 14;
  sample_limit = positive_or p.sample_limit 3;
}

abbrev or_time : Instant → Instant → Instant
or_time t d = if t == zero_time then d else t

-- The start of the day from which observations count; `clock` is time.Now().
unfoldable pub since_of : ClusterParams → Instant → Instant
since_of p clock = or_time p.since (or_time p.now clock - 7 * day_ns) / day_ns * day_ns

abbrev pub cons_since : Instant → Option Observation → List Observation → List Observation
cons_since t none os = os
cons_since t (some o) os = if ltb o.time t then os else o ∷ os

unfoldable pub observations_of : Instant → Bytes → Bytes → List (ℕ × Bytes) → List Observation
unfolding parse_cluster_obs
observations_of t domain path [] = []
observations_of t domain path ((n, l) ∷ ls) =
    cons_since t (parse_cluster_obs domain path n l) (observations_of t domain path ls)

unfoldable pub collect_observations :
    MemoryStore → Instant → List ObsTarget → Result (List Observation)
unfolding scan_file observations_of visible
collect_observations s t [] = ok []
collect_observations s t (f ∷ fs) = do
  os ← scan_file s f.path [] (λ lines. observations_of t f.domain f.path (visible quiet 0 lines))
  rest ← collect_observations s t fs
  ok (os ++ rest)

abbrev pub clusters_of : Limits → List Observation → ClusterResult
clusters_of p all = record {
  by_tag = build_tag_clusters all p;
  by_keyword = build_keyword_clusters all p;
  thread_candidates = build_thread_candidates all p;
}

-- Cluster
unfoldable pub cluster : MemoryStore → List ObsTarget → ClusterParams → Result ClusterResult
unfolding collect_observations sort_by since_of limits_of build_tag_clusters build_keyword_clusters
    build_thread_candidates
cluster s targets p = do
  all ←
      collect_observations s (since_of p s.clock)
        (sort_by (less_on (λ (t : ObsTarget). t.path)) targets)
  ok (clusters_of (limits_of p) all)
