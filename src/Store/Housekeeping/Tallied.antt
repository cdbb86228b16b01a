-- ===== src/Store/Housekeeping/Tallied.antt =====
-- store/housekeeping.go: when scanObservations reports a file, and what the report counts.
use cogmemory.Base.{
  ℕ, ◌+◌, ◌≤◌, List, [], ◌∷◌, Option, none, some, ◌≡◌, refl, arith, Bytes, leb, length, trim_space,
  Bool-cases, inl, inr,
}
use cogmemory.Store.State.{MemoryStore}
use cogmemory.Store.Observations.{Counts, count_one}
use cogmemory.Store.Observations.Tally.{count_of, times_in, count_of-count_one}
use cogmemory.Store.Housekeeping.{
  ObservationsOverCap, scanned_lines, obs_tags, primary_tag, count_entry, count_entries,
  observations_over, scan_observations,
}

-- The primary tags of the lines that are observations.
abbrev tag_of_entry : Option (Bytes × Bytes) → List Bytes → List Bytes
tag_of_entry none ts = ts
tag_of_entry (some (date, tags)) ts = primary_tag tags ∷ ts

unfoldable pub primary_tags : List Bytes → List Bytes
primary_tags [] = []
primary_tags (l ∷ ls) = tag_of_entry (obs_tags (trim_space l)) (primary_tags ls)

-- The entries and the counts are those of the tags, on top of the ones so far.
abbrev AreTallied : List Bytes → ℕ × Counts → ℕ × Counts → Type 0
AreTallied ts acc r =
    (r.0 ≡ acc.0 + length ts) × ((k : Bytes) → count_of k r.1 ≡ times_in k ts + count_of k acc.1)

one_more :
    (t : Bytes) (ts : List Bytes) (n : ℕ) (m : Counts) (r : ℕ × Counts)
    → AreTallied ts (n + 1, count_one t m) r
    → AreTallied (t ∷ ts) (n, m) r
one_more t ts n m r h = (omega (arith, h.0), λ k. ground (arith, h.1 k, count_of-count_one k t m))

entry_tallied :
    (e : Option (Bytes × Bytes)) (ts : List Bytes) (acc r : ℕ × Counts)
    → AreTallied ts (count_entry e acc) r
    → AreTallied (tag_of_entry e ts) acc r
entry_tallied none ts (n, m) r h = h
entry_tallied (some (date, tags)) ts (n, m) r h = one_more (primary_tag tags) ts n m r h

count_entries-AreTallied :
    (ls : List Bytes) (acc : ℕ × Counts) → AreTallied (primary_tags ls) acc (count_entries ls acc)
unfolding count_entries primary_tags
count_entries-AreTallied [] acc = (omega arith, λ k. omega arith)
count_entries-AreTallied (l ∷ ls) acc =
    entry_tallied (obs_tags (trim_space l)) (primary_tags ls) acc _
      (count_entries-AreTallied ls (count_entry (obs_tags (trim_space l)) acc))

-- The report on a file whose observations have the primary tags `ts`: none within the cap, and else one
-- that counts the entries, by their primary tags too.
abbrev pub IsReport : Bytes → ℕ → List Bytes → Option ObservationsOverCap → Type 0
IsReport path cap ts none = length ts ≤ cap
IsReport path cap ts (some v) =
    (cap + 1 ≤ length ts)
    × (v.path ≡ path)
    × (v.cap ≡ cap)
    × (v.entries ≡ length ts)
    × ((k : Bytes) → count_of k v.by_primary_tag ≡ times_in k ts)

observations_over-IsReport :
    (path : Bytes) (cap : ℕ) (ts : List Bytes) (r : ℕ × Counts)
    → AreTallied ts (0, []) r
    → IsReport path cap ts (observations_over path cap r)
unfolding count_of
observations_over-IsReport path cap ts (n, m) h = elim (Bool-cases (leb n cap)) [
  | inl b ↦ rw b (ground (arith, h.0))
  | inr b ↦ rw b (ground (arith, h.0), refl, refl, omega (arith, h.0), λ k. omega (arith, h.1 k))
]

-- A file of observations is reported exactly if it has more entries than the cap; the report counts the
-- entries, and under each primary tag the entries that have it.
pub scan_observations-IsReport :
    (s : MemoryStore) (path : Bytes) (cap : ℕ) (ls : List Bytes)
    → scanned_lines s path ≡ some ls
    → IsReport path cap (primary_tags ls) (scan_observations s path cap)
unfolding scan_observations
scan_observations-IsReport s path cap ls h = rw h (
    observations_over-IsReport path cap (primary_tags ls) (count_entries ls (0, []))
      (count_entries-AreTallied ls (0, [])))
