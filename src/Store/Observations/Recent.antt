-- ===== src/Store/Observations/Recent.antt =====
-- What RecentObservations returns.
use cogmemory.Base.{
  ℕ, Bool, true, false, ◌&&◌, ◌||◌, List, [], ◌∷◌, Option, none, some, ◌≡◌, refl, sym, ap, subst,
  ◌∙◌, arith, Bytes, str_eq, if◌then◌else◌, keep, keep-append, keep-sort_by, length, All, IsSorted,
  IsOrder, sort_by-IsSorted, sort_by, less_on, then_by-IsOrder, falling-IsOrder, falling-TestsTies,
  rising-TestsTies, less_on-IsOrder, ltb_on-IsOrder, is_empty,
}
use cogmemory.Store.State.{MemoryStore, Result, ok, err, ◌>>=◌}
use cogmemory.Store.Actions.Results.{scan_file_same, scan_file_const, append_same}
use cogmemory.Store.Actions.{scan_file, visible, quiet}
use cogmemory.Store.Observations.Tally.{
  count_of, times_in, tags_in, count_of-by_domain_counts, count_of-by_tag_counts,
}
use cogmemory.Store.Observations.{
  aggregated, ObsTarget, ObservationEntry, RecentObservationsResult, parse_observation_line, newer,
  is_recent, is_tagged, entries_of, entries_of_target, cons_if, collect_entries,
  recent_observations,
}

pub newer-IsOrder : IsOrder newer
unfolding newer
newer-IsOrder =
    then_by-IsOrder _ _ _ (falling-IsOrder (λ (e : ObservationEntry). e.date))
      (falling-TestsTies (λ e. e.date))
      (then_by-IsOrder _ _ _ (less_on-IsOrder (λ e. e.path)) (rising-TestsTies (λ e. e.path))
        (ltb_on-IsOrder (λ e. e.line)))

pub record IsTallied (r : RecentObservationsResult) : Type 0 where
  pub ordered : IsSorted newer r.entries
  pub domains :
      (k : Bytes)
      → count_of k r.by_domain
        ≡ length (keep (λ (e : ObservationEntry). str_eq e.domain k) r.entries)
  pub tags : (k : Bytes) → count_of k r.by_tag ≡ times_in k (tags_in r.entries)

ok_inj : {a b : RecentObservationsResult} → ok a ≡ ok b → a ≡ b
ok_inj h = cc

-- What the three filters let through.
unfoldable pub passes : Bytes → Bytes → Bytes → ObservationEntry → Bool
unfolding is_recent is_tagged str_eq
passes since by_tag by_domain e =
    is_recent since e && is_tagged by_tag e && (is_empty by_domain || str_eq e.domain by_domain)

entries_of_filtered :
    (q : ObservationEntry → Bool) (d path : Bytes) (ls : List (ℕ × Bytes))
    → entries_of q d path ls ≡ keep q (entries_of (passes [] [] []) d path ls)
unfolding entries_of passes
entries_of_filtered q d path [] = refl
entries_of_filtered q d path ((n, l) ∷ ls) = ground (arith, entries_of_filtered q d path ls)

parse_observation_line_domain :
    (d path : Bytes) (n : ℕ) (l : Bytes) (e : ObservationEntry)
    → parse_observation_line d path n l ≡ some e
    → e.domain ≡ d
unfolding parse_observation_line
parse_observation_line_domain d path n l e h = ground arith

entries_of_domain :
    (q : ObservationEntry → Bool) (d path : Bytes) (ls : List (ℕ × Bytes))
    → All (λ (e : ObservationEntry). e.domain ≡ d) (entries_of q d path ls)
unfolding entries_of
entries_of_domain q d path [] = tt
entries_of_domain q d path ((n, l) ∷ ls) =
    cons_if_domain (parse_observation_line d path n l) (parse_observation_line_domain d path n l)
      (entries_of_domain q d path ls)
  where
    cons_if_domain :
        (o : Option ObservationEntry)
        → ((e : ObservationEntry) → o ≡ some e → e.domain ≡ d)
        → All (λ (e : ObservationEntry). e.domain ≡ d) (entries_of q d path ls)
        → All (λ (e : ObservationEntry). e.domain ≡ d) (cons_if q o (entries_of q d path ls))
    cons_if_domain none h rest = rest
    cons_if_domain (some e) h rest =
        elim (q e)
          as (λ b.
            All (λ (e : ObservationEntry). e.domain ≡ d)
              (if b then e ∷ entries_of q d path ls else entries_of q d path ls)) [
                | true ↦ (h e refl, rest)
                | false ↦ rest
              ]

module _ (since by_tag by_domain : Bytes) where
  abbrev window : ObservationEntry → Bool
  window e = is_recent since e && is_tagged by_tag e

  abbrev chosen : Bytes → Bool
  chosen d = is_empty by_domain || str_eq d by_domain

  keep-passes :
      (d : Bytes) (es : List ObservationEntry)
      → All (λ (e : ObservationEntry). e.domain ≡ d) es
      → keep (passes since by_tag by_domain) es ≡ (if chosen d then keep window es else [])
  unfolding passes
  keep-passes d [] h = ground arith
  keep-passes d (e ∷ es) h = rw h.0 (ground (arith, keep-passes d es h.1))

  keep_of_file :
      (d path : Bytes) (ls : List (ℕ × Bytes))
      → (if chosen d then entries_of window d path ls else [])
        ≡ keep (passes since by_tag by_domain) (entries_of (passes [] [] []) d path ls)
  keep_of_file d path ls = ground (
    arith,
    entries_of_filtered window d path ls,
    keep-passes d (entries_of (passes [] [] []) d path ls)
        (entries_of_domain (passes [] [] []) d path ls),
  )

  file_filtered :
      (s : MemoryStore) (d path : Bytes) (es : List ObservationEntry)
      → scan_file s path [] (λ ls. entries_of (passes [] [] []) d path (visible quiet 0 ls)) ≡ ok es
      → scan_file s path []
          (λ ls. if chosen d then entries_of window d path (visible quiet 0 ls) else [])
        ≡ ok (keep (passes since by_tag by_domain) es)
  file_filtered s d path es h =
      scan_file_same (λ ls. entries_of (passes [] [] []) d path (visible quiet 0 ls)) _
        (keep (passes since by_tag by_domain)) es [] s path
        (λ ls. keep_of_file d path (visible quiet 0 ls)) h

  skipped_or_scanned :
      (s : MemoryStore) (t : ObsTarget) (es : List ObservationEntry) (b : Bool)
      → scan_file s t.path []
          (λ ls. if b then entries_of window t.domain t.path (visible quiet 0 ls) else [])
        ≡ ok es
      → (if b
          then scan_file s t.path [] (λ ls. entries_of window t.domain t.path (visible quiet 0 ls))
          else ok [])
        ≡ ok es
  skipped_or_scanned s t es true h = h
  skipped_or_scanned s t es false h = sym (scan_file_const [] es s t.path h)

  target_filtered :
      (s : MemoryStore) (t : ObsTarget) (es : List ObservationEntry)
      → entries_of_target s [] [] [] t ≡ ok es
      → entries_of_target s since by_tag by_domain t ≡ ok (keep (passes since by_tag by_domain) es)
  unfolding entries_of_target passes
  target_filtered s t es h = ground (
    arith,
    skipped_or_scanned s t (keep (passes since by_tag by_domain) es) (chosen t.domain)
        (file_filtered s t.domain t.path es h),
  )

  collect_filtered :
      (s : MemoryStore) (ts : List ObsTarget) (es : List ObservationEntry)
      → collect_entries s [] [] [] ts ≡ ok es
      → collect_entries s since by_tag by_domain ts ≡ ok (keep (passes since by_tag by_domain) es)
  unfolding collect_entries
  collect_filtered s [] es h = ground arith
  collect_filtered s (t ∷ ts) es h =
      append_same (keep (passes since by_tag by_domain))
        (keep-append (passes since by_tag by_domain)) es (entries_of_target s [] [] [] t)
        (collect_entries s [] [] [] ts) (entries_of_target s since by_tag by_domain t)
        (collect_entries s since by_tag by_domain ts) (target_filtered s t) (collect_filtered s ts)
        h

  aggregated_filtered :
      (r r' : Result (List ObservationEntry)) (all : RecentObservationsResult)
      → ((es : List ObservationEntry)
          → r ≡ ok es
          → r' ≡ ok (keep (passes since by_tag by_domain) es))
      → (r >>= λ es. ok (aggregated [] (sort_by newer es))) ≡ ok all
      → (r' >>= λ es. ok (aggregated since (sort_by newer es)))
        ≡ ok (aggregated since (keep (passes since by_tag by_domain) all.entries))
  aggregated_filtered (ok es) r' all f h = rw (f es refl) (
      ap (λ found. ok (aggregated since found))
        (sym (keep-sort_by newer (passes since by_tag by_domain) newer-IsOrder es)
          ∙ ap (keep (passes since by_tag by_domain)) (ap entries_found h)))
    where
      entries_found : Result RecentObservationsResult → List ObservationEntry
      entries_found (ok r) = r.entries
      entries_found (err e) = []
  aggregated_filtered (err e) r' all f h = cc

  -- Where the scan of all observations of the targets succeeds, the scan with a day, a tag and a domain
  -- succeeds and lists those of them that are not before the day, have the tag and are of the domain, in
  -- the same order, with the counts of these (an empty text filters nothing).
  pub recent_observations_filtered :
      (s : MemoryStore) (targets : List ObsTarget) (all : RecentObservationsResult)
      → recent_observations s targets [] [] [] ≡ ok all
      → recent_observations s targets since by_tag by_domain
        ≡ ok (aggregated since (keep (passes since by_tag by_domain) all.entries))
  unfolding recent_observations
  recent_observations_filtered s targets all h =
      let sorted : List ObsTarget = sort_by (less_on (λ t. t.path)) targets in
      aggregated_filtered (collect_entries s [] [] [] sorted)
        (collect_entries s since by_tag by_domain sorted) all (collect_filtered s sorted) h

-- The entries of a scan are newest first, then by path and line, and the maps count them: for a domain
-- its entries, for a tag how often the entries have it.
pub recent_observations-IsTallied :
    (s : MemoryStore) (targets : List ObsTarget) (since by_tag by_domain : Bytes)
    (r : RecentObservationsResult)
    → recent_observations s targets since by_tag by_domain ≡ ok r
    → IsTallied r
unfolding recent_observations count_of
recent_observations-IsTallied s targets since by_tag by_domain r h =
    go (collect_entries s since by_tag by_domain (sort_by (less_on (λ t. t.path)) targets)) h
  where
    go :
        (c : Result (List ObservationEntry))
        → (c >>= λ es. ok (aggregated since (sort_by newer es))) ≡ ok r
        → IsTallied r
    go (ok es) e = subst IsTallied (ok_inj e) (record {
      ordered = sort_by-IsSorted newer newer-IsOrder es;
      domains = λ k. omega (arith, count_of-by_domain_counts k (sort_by newer es) []);
      tags = λ k. omega (arith, count_of-by_tag_counts k (sort_by newer es) []);
    })
    go (err x) e = cc
