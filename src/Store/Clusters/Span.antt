-- ===== src/Store/Clusters/Span.antt =====
-- The days that some observations span.
use cogmemory.Base.{
  ℕ, ◌+◌, ◌-◌, ◌/◌, ◌≤◌, Bool, true, false, List, [], ◌∷◌, ◌≡◌, ◌⊎◌, refl, arith, if◌then◌else◌,
  ltb, min, All, Any, All-map, Any-map, inl, inr,
}
use cogmemory.Time.{Instant, day_ns, max_duration, days_since}
use cogmemory.Store.Clusters.{Observation, min_time, max_time, span_days}

min_time_le :
    (t : Instant) (os : List Observation)
    → (min_time t os ≤ t) × All (λ (o : Observation). min_time t os ≤ o.time) os
unfolding min_time
min_time_le t [] = (omega arith, tt)
min_time_le t (o ∷ os) =
    let h = min_time_le (if ltb o.time t then o.time else t) os in
    (ground (arith, h.0), (ground (arith, h.0), h.1))

max_time_ge :
    (t : Instant) (os : List Observation)
    → (t ≤ max_time t os) × All (λ (o : Observation). o.time ≤ max_time t os) os
unfolding max_time
max_time_ge t [] = (omega arith, tt)
max_time_ge t (o ∷ os) =
    let h = max_time_ge (if ltb t o.time then o.time else t) os in
    (ground (arith, h.0), (ground (arith, h.0), h.1))

-- The days from one instant to another, as a Duration counts them.
abbrev pub days_between : Instant → Instant → ℕ
days_between t u = min (u - t) max_duration / day_ns

span_days-days_between :
    (o : Observation) (os : List Observation)
    → span_days (o ∷ os) ≡ days_between (min_time o.time os) (max_time o.time os) + 1
unfolding span_days days_since
span_days-days_between o os = ground (arith, (min_time_le o.time os).0, (max_time_ge o.time os).0)

days_between_le : (t u lo hi : Instant) → lo ≤ t → u ≤ hi → days_between t u ≤ days_between lo hi
days_between_le t u lo hi h k = omega arith

abbrev IsHeld : Instant → List Observation → Instant → Type 0
IsHeld t os v = (t ≡ v) ⊎ Any (λ (o : Observation). o.time ≡ v) os

IsHeld-later :
    (b : Bool) (t v : Instant) (o : Observation) (os : List Observation)
    → IsHeld (if b then o.time else t) os v
    → IsHeld t (o ∷ os) v
IsHeld-later true t v o os h = inr h
IsHeld-later false t v o os (inl e) = inl e
IsHeld-later false t v o os (inr later) = inr (inr later)

min_time-IsHeld : (t : Instant) (os : List Observation) → IsHeld t os (min_time t os)
unfolding min_time
min_time-IsHeld t [] = inl refl
min_time-IsHeld t (o ∷ os) =
    IsHeld-later (ltb o.time t) t _ o os (min_time-IsHeld (if ltb o.time t then o.time else t) os)

max_time-IsHeld : (t : Instant) (os : List Observation) → IsHeld t os (max_time t os)
unfolding max_time
max_time-IsHeld t [] = inl refl
max_time-IsHeld t (o ∷ os) =
    IsHeld-later (ltb t o.time) t _ o os (max_time-IsHeld (if ltb t o.time then o.time else t) os)

-- The days that observations span are at least 1 and at most 106752 (292 years: the difference of two
-- times is no longer); no two of the observations lie further apart, up to that; and two of them do lie
-- so far apart.
pub record IsSpan (os : List Observation) (n : ℕ) : Type 0 where
  pub positive : 1 ≤ n
  pub bounded : n ≤ 106752
  pub covers :
      All (λ (a : Observation). All (λ (b : Observation). days_between a.time b.time + 1 ≤ n) os) os
  pub attained :
      Any (λ (a : Observation). Any (λ (b : Observation). days_between a.time b.time + 1 ≡ n) os) os

-- spanDays of some observations is the largest number of days that lies between two of them, counted
-- from 1, and at most 106752.
pub span_days-IsSpan :
    (o : Observation) (os : List Observation) → IsSpan (o ∷ os) (span_days (o ∷ os))
span_days-IsSpan o os =
    let lo = min_time_le o.time os in
    let hi = max_time_ge o.time os in
    let is_span = span_days-days_between o os in
    record {
      positive = omega (arith, is_span);
      bounded = omega (arith, is_span);
      covers =
          All-map
            (λ (a : Observation) (ha : min_time o.time os ≤ a.time).
              All-map
                (λ (b : Observation) (hb : b.time ≤ max_time o.time os).
                  omega (arith, is_span, days_between_le a.time b.time _ _ ha hb))
                (o ∷ os) hi)
            (o ∷ os) lo;
      attained =
          Any-map
            (λ (a : Observation) (ha : a.time ≡ min_time o.time os).
              Any-map
                (λ (b : Observation) (hb : b.time ≡ max_time o.time os).
                  omega (arith, is_span, ha, hb))
                (o ∷ os) (max_time-IsHeld o.time os))
            (o ∷ os) (min_time-IsHeld o.time os);
    }
