-- ===== src/Store/Clusters/Clustered.antt =====
-- What Cluster returns.
use cogmemory.Base.{
  ℕ, ◌≤◌, List, [], ◌∷◌, Option, none, some, ◌≡◌, refl, arith, Bytes, ltb, All, All-map, Bool-cases,
  inl, inr, sort_by, less_on,
}
use cogmemory.Time.{Instant, Date, parse_date}
use cogmemory.Store.State.{MemoryStore, Result, ok, err, ◌>>=◌}
use cogmemory.Store.Actions.{visible, quiet}
use cogmemory.Store.Actions.Results.{IsOk, append-IsOk, ok-IsOk, scan_file-IsOk}
use cogmemory.Store.Observations.{ObsTarget, ObsParts, obs_parts}
use cogmemory.Store.Clusters.{
  Observation, Limits, parse_cluster_obs, obs_of_parts, timed_obs, build_tag_clusters,
  build_keyword_clusters,
}
use cogmemory.Store.Clusters.Terms.{keywords}
use cogmemory.Store.Clusters.Buckets.{AreDistinct, cluster_tags-AreDistinct, keywords-AreDistinct}
use cogmemory.Store.Clusters.Sound.{AreClusters, large_clusters-AreClusters}
use cogmemory.Store.Clusters.Threads.{AreThreads, build_thread_candidates-AreThreads}
use cogmemory.Store.Clusters.Check.{
  ClusterParams, ClusterResult, limits_of, since_of, cons_since, observations_of,
  collect_observations, clusters_of, cluster,
}

-- The tags are distinct, and the time is not before `t`.
abbrev IsCollected : Instant → Observation → Type 0
IsCollected t o = AreDistinct o.tags × (t ≤ o.time)

abbrev HasDistinctTags : Option Observation → Type 0
HasDistinctTags none = Unit
HasDistinctTags (some o) = AreDistinct o.tags

parse_cluster_obs-HasDistinctTags :
    (d path : Bytes) (n : ℕ) (l : Bytes) → HasDistinctTags (parse_cluster_obs d path n l)
unfolding parse_cluster_obs
parse_cluster_obs-HasDistinctTags d path n l = go (obs_parts l)
  where
    dated : (p : ObsParts) (o : Option Date) → HasDistinctTags (timed_obs d path n p o)
    dated p none = tt
    dated p (some date) = cluster_tags-AreDistinct p.tags

    go : (o : Option ObsParts) → HasDistinctTags (obs_of_parts d path n o)
    go none = tt
    go (some p) = dated p (parse_date p.date)

cons_since-IsCollected :
    (t : Instant) (o : Option Observation) (os : List Observation)
    → HasDistinctTags o
    → All (IsCollected t) os
    → All (IsCollected t) (cons_since t o os)
cons_since-IsCollected t none os h k = k
cons_since-IsCollected t (some o) os h k = elim (Bool-cases (ltb o.time t)) [
  | inl b ↦ rw b k
  | inr b ↦ rw b ((h, ground arith), k)
]

observations_of-IsCollected :
    (t : Instant) (d path : Bytes) (ls : List (ℕ × Bytes))
    → All (IsCollected t) (observations_of t d path ls)
unfolding observations_of
observations_of-IsCollected t d path [] = tt
observations_of-IsCollected t d path ((n, l) ∷ ls) =
    cons_since-IsCollected t (parse_cluster_obs d path n l) (observations_of t d path ls)
      (parse_cluster_obs-HasDistinctTags d path n l) (observations_of-IsCollected t d path ls)

collect_observations-IsCollected :
    (s : MemoryStore) (t : Instant) (ts : List ObsTarget)
    → IsOk (All (IsCollected t)) (collect_observations s t ts)
unfolding collect_observations
collect_observations-IsCollected s t [] = tt
collect_observations-IsCollected s t (f ∷ fs) =
    append-IsOk (IsCollected t) _ (collect_observations s t fs)
      (scan_file-IsOk (All (IsCollected t)) [] _ tt
        (λ ls. observations_of-IsCollected t f.domain f.path (visible quiet 0 ls)) s f.path)
      (collect_observations-IsCollected s t fs)

-- The clusters and threads of the observations that the targets hold from the first day on.
pub record IsClustered (p : Limits) (t : Instant) (all : List Observation) (r : ClusterResult)
    : Type 0 where
  pub recent : All (λ (o : Observation). t ≤ o.time) all
  pub tags : AreClusters p (λ (o : Observation). o.tags) all r.by_tag
  pub words : AreClusters p (λ (o : Observation). keywords o.text) all r.by_keyword
  pub threads : AreThreads p all r.thread_candidates

all_keywords_distinct :
    (os : List Observation) → All (λ (o : Observation). AreDistinct (keywords o.text)) os
all_keywords_distinct [] = tt
all_keywords_distinct (o ∷ os) = (keywords-AreDistinct o.text, all_keywords_distinct os)

clusters_of-IsClustered :
    (p : Limits) (t : Instant) (all : List Observation)
    → All (IsCollected t) all
    → IsClustered p t all (clusters_of p all)
unfolding build_tag_clusters build_keyword_clusters
clusters_of-IsClustered p t all h =
    let distinct : All (λ (o : Observation). AreDistinct o.tags) all = All-map (λ o k. k.0) all h in
    record {
      recent = All-map (λ o k. k.1) all h;
      tags = large_clusters-AreClusters p (λ o. o.tags) all distinct;
      words = large_clusters-AreClusters p (λ o. keywords o.text) all (all_keywords_distinct all);
      threads = build_thread_candidates-AreThreads p all distinct;
    }

-- Where Cluster succeeds it returns the clusters and threads of the observations that it collects: none
-- is before the first day; the cluster of a tag or a keyword has exactly the observations that carry it;
-- those of at least the minimal number of observations are there, and no others, largest first; and a
-- thread candidate is a tag or a keyword whose observations are enough and span enough days.
pub cluster-IsClustered :
    (s : MemoryStore) (targets : List ObsTarget) (p : ClusterParams) (r : ClusterResult)
    → cluster s targets p ≡ ok r
    → (all : List Observation) × (collect_observations s
          (since_of p s.clock)
          (sort_by (less_on (λ (t : ObsTarget). t.path)) targets)
        ≡ ok all)
      × IsClustered (limits_of p) (since_of p s.clock) all r
unfolding cluster
cluster-IsClustered s targets p r h =
    let sorted : List ObsTarget = sort_by (less_on (λ t. t.path)) targets in
    go (collect_observations s (since_of p s.clock) sorted) refl
      (collect_observations-IsCollected s (since_of p s.clock) sorted) h
  where
    go :
        (c : Result (List Observation))
        → collect_observations s
            (since_of p s.clock)
            (sort_by (less_on (λ (t : ObsTarget). t.path)) targets)
          ≡ c
        → IsOk (All (IsCollected (since_of p s.clock))) c
        → (c >>= λ all. ok (clusters_of (limits_of p) all)) ≡ ok r
        → (all : List Observation) × (collect_observations s
              (since_of p s.clock)
              (sort_by (less_on (λ (t : ObsTarget). t.path)) targets)
            ≡ ok all)
          × IsClustered (limits_of p) (since_of p s.clock) all r
    go (ok all) e k i = (
      all,
      e,
      ok-IsOk (IsClustered (limits_of p) (since_of p s.clock) all)
          (ok (clusters_of (limits_of p) all)) r i
          (clusters_of-IsClustered (limits_of p) (since_of p s.clock) all k),
    )
    go (err x) e k i = absurd cc
