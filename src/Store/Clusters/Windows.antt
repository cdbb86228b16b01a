-- ===== src/Store/Clusters/Windows.antt =====
-- The windows of RecentObservations, which compares texts, and of Cluster, which compares times.
use cogmemory.Base.{
  ℕ, Bool, true, false, not, [], ◌∷◌, Option, none, some, ◌≡◌, refl, arith, Bytes, if◌then◌else◌,
  ltb, is_empty,
}
use cogmemory.Time.{Date, parse_date, instant}
use cogmemory.Time.Dates.{lt-instant}
use cogmemory.Store.Append.{obs_line}
use cogmemory.Store.Observations.{
  ObservationEntry, ObsParts, obs_parts, parse_observation_line, parsed_entry, dated_entry,
  is_recent,
}
use cogmemory.Store.Clusters.{Observation, parse_cluster_obs, obs_of_parts, timed_obs}

-- An entry and an observation have the text of a date and its time.
abbrev AreDated : ObservationEntry → Observation → Type 0
AreDated e o = (d : Date) × (parse_date e.date ≡ some d) × (o.time ≡ instant d)

not_empty : (s : Bytes) (d : Date) → parse_date s ≡ some d → is_empty s ≡ false
unfolding parse_date
not_empty [] d h = absurd cc
not_empty (c ∷ s) d h = refl

module _ (domain path : Bytes) (n : ℕ) (line : Bytes) where
  parsed-AreDated :
      (e : ObservationEntry) (o : Observation)
      → parse_observation_line domain path n line ≡ some e
      → parse_cluster_obs domain path n line ≡ some o
      → AreDated e o
  unfolding parse_observation_line parse_cluster_obs
  parsed-AreDated e o h k = go (obs_parts line) h k
    where
      dated :
          (p : ObsParts) (d : Option Date)
          → parse_date p.date ≡ d
          → dated_entry domain path n p d ≡ some e
          → timed_obs domain path n p d ≡ some o
          → AreDated e o
      dated p none eq h k = absurd cc
      dated p (some d) eq h k = (d, ground (arith, eq), ground arith)

      valid :
          (p : ObsParts) (b : Bool)
          → (if not b then none else dated_entry domain path n p (parse_date p.date)) ≡ some e
          → dated_entry domain path n p (parse_date p.date) ≡ some e
      valid p true h = h
      valid p false h = absurd cc

      go :
          (parts : Option ObsParts)
          → parsed_entry domain path n line parts ≡ some e
          → obs_of_parts domain path n parts ≡ some o
          → AreDated e o
      go none h k = absurd cc
      go (some p) h k = dated p (parse_date p.date) refl (valid p (obs_line line) h) k

  -- For a line that both read, the filter of RecentObservations by the text of a day lets the entry
  -- through exactly if the time of the observation of Cluster is not before that day begins.
  pub windows_agree :
      (e : ObservationEntry) (o : Observation) (since : Bytes) (day : Date)
      → parse_observation_line domain path n line ≡ some e
      → parse_cluster_obs domain path n line ≡ some o
      → parse_date since ≡ some day
      → is_recent since e ≡ not (ltb o.time (instant day))
  unfolding is_recent
  windows_agree e o since day h k s =
      let (d, read, at) = parsed-AreDated e o h k in
      rw (not_empty since day s, lt-instant e.date since d day read s, at) refl
