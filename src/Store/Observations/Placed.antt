-- ===== src/Store/Observations/Placed.antt =====
-- The entries of RecentObservations come from the files of its targets.
use cogmemory.Base.{
  ℕ, Bool, true, false, not, ◌&&◌, List, [], ◌∷◌, Option, none, some, ◌≡◌, refl, arith, Bytes,
  if◌then◌else◌, is_empty, str_eq, All, All-sort_by, All-if, less_on, sort_by,
}
use cogmemory.Store.State.{MemoryStore, Result, ok}
use cogmemory.Store.Actions.{visible, quiet}
use cogmemory.Store.Actions.Results.{IsOk, IsOk-bind, append-IsOk, scan_file-IsOk}
use cogmemory.Store.Observations.{
  ObsTarget, ObservationEntry, RecentObservationsResult, parse_observation_line, newer, is_recent,
  is_tagged, entries_of, entries_of_target, cons_if, collect_entries, recent_observations,
}

parse_observation_line_path :
    (d path : Bytes) (n : ℕ) (l : Bytes) (e : ObservationEntry)
    → parse_observation_line d path n l ≡ some e
    → e.path ≡ path
unfolding parse_observation_line
parse_observation_line_path d path n l e h = ground arith

module _ (q : Bytes → Bool) where
  abbrev IsFrom : ObservationEntry → Type 0
  IsFrom e = q e.path ≡ true

  cons_if-IsFrom :
      (f : ObservationEntry → Bool) (o : Option ObservationEntry) (es : List ObservationEntry)
      → ((e : ObservationEntry) → o ≡ some e → IsFrom e)
      → All IsFrom es
      → All IsFrom (cons_if f o es)
  cons_if-IsFrom f none es h k = k
  cons_if-IsFrom f (some e) es h k = All-if IsFrom (f e) (e ∷ es) es (h e refl, k) k

  entries_of-IsFrom :
      (f : ObservationEntry → Bool) (d path : Bytes) (ls : List (ℕ × Bytes))
      → q path ≡ true
      → All IsFrom (entries_of f d path ls)
  unfolding entries_of
  entries_of-IsFrom f d path [] h = tt
  entries_of-IsFrom f d path ((n, l) ∷ ls) h =
      cons_if-IsFrom f (parse_observation_line d path n l) (entries_of f d path ls)
        (λ e k. rw (parse_observation_line_path d path n l e k) h) (entries_of-IsFrom f d path ls h)

  collect_entries-IsFrom :
      (s : MemoryStore) (since by_tag by_domain : Bytes) (ts : List ObsTarget)
      → All (λ (t : ObsTarget). q t.path ≡ true) ts
      → IsOk (All IsFrom) (collect_entries s since by_tag by_domain ts)
  unfolding collect_entries entries_of_target
  collect_entries-IsFrom s since by_tag by_domain [] h = tt
  collect_entries-IsFrom s since by_tag by_domain (t ∷ ts) h =
      append-IsOk IsFrom _ (collect_entries s since by_tag by_domain ts)
        (if_ok (not (is_empty by_domain) && not (str_eq t.domain by_domain)) _ (
          scan_file-IsOk (All IsFrom) [] _ tt
            (λ ls.
              entries_of-IsFrom (λ e. is_recent since e && is_tagged by_tag e) t.domain t.path
                (visible quiet 0 ls) h.0)
            s t.path))
        (collect_entries-IsFrom s since by_tag by_domain ts h.1)
    where
      if_ok :
          (b : Bool) (r : Result (List ObservationEntry))
          → IsOk (All IsFrom) r
          → IsOk (All IsFrom) (if b then ok [] else r)
      if_ok true r k = tt
      if_ok false r k = k

  pub recent_observations-IsFrom :
      (s : MemoryStore) (targets : List ObsTarget) (since by_tag by_domain : Bytes)
      → All (λ (t : ObsTarget). q t.path ≡ true) targets
      → IsOk
          (λ (r : RecentObservationsResult).
            All (λ (e : ObservationEntry). q e.path ≡ true) r.entries)
          (recent_observations s targets since by_tag by_domain)
  unfolding recent_observations
  recent_observations-IsFrom s targets since by_tag by_domain h =
      IsOk-bind (All IsFrom) (λ (r : RecentObservationsResult). All IsFrom r.entries) _ _
        (collect_entries-IsFrom s since by_tag by_domain
          (sort_by (less_on (λ (t : ObsTarget). t.path)) targets) (All-sort_by _ _ targets h))
        (λ es k. All-sort_by IsFrom newer es k)
