-- ===== src/Store/Observations/Tally.antt =====
-- The maps from keys to counts hold how often each key was counted.
use cogmemory.Base.{
  ℕ, ◌+◌, List, [], ◌∷◌, ◌++◌, ◌≡◌, arith, Bytes, str_eq, str_eq_iff, if◌then◌else◌, keep, length,
}
use cogmemory.Store.Observations.{
  ObservationEntry, Counts, count_one, count_all, by_domain_counts, by_tag_counts,
}

-- The count of a key; a key that is missing counts 0.
unfoldable pub count_of : Bytes → Counts → ℕ
unfolding str_eq
count_of k [] = 0
count_of k ((j, n) ∷ m) = if str_eq j k then n else count_of k m

-- How often a text is among others.
abbrev pub times_in : Bytes → List Bytes → ℕ
times_in k ts = length (keep (λ t. str_eq t k) ts)

pub count_of-count_one :
    (k j : Bytes) (m : Counts)
    → count_of k (count_one j m) ≡ (if str_eq j k then 1 else 0) + count_of k m
unfolding count_of count_one
count_of-count_one k j [] = ground arith
count_of-count_one k j ((i, n) ∷ m) =
    ground (arith, str_eq_iff i j, str_eq_iff i k, str_eq_iff j k, count_of-count_one k j m)

pub count_of-count_all :
    (k : Bytes) (ts : List Bytes) (m : Counts)
    → count_of k (count_all ts m) ≡ times_in k ts + count_of k m
unfolding count_all
count_of-count_all k [] m = omega arith
count_of-count_all k (t ∷ ts) m =
    ground (arith, count_of-count_all k ts (count_one t m), count_of-count_one k t m)

-- All tags of some entries, one entry after the other.
abbrev pub tags_in : List ObservationEntry → List Bytes
tags_in [] = []
tags_in (e ∷ es) = e.tags ++ tags_in es

times_in-append :
    (k : Bytes) (ts us : List Bytes) → times_in k (ts ++ us) ≡ times_in k ts + times_in k us
times_in-append k [] us = omega arith
times_in-append k (t ∷ ts) us = ground (arith, times_in-append k ts us)

pub count_of-by_tag_counts :
    (k : Bytes) (es : List ObservationEntry) (m : Counts)
    → count_of k (by_tag_counts es m) ≡ times_in k (tags_in es) + count_of k m
unfolding by_tag_counts
count_of-by_tag_counts k [] m = omega arith
count_of-by_tag_counts k (e ∷ es) m = omega (
  arith,
  count_of-by_tag_counts k es (count_all e.tags m),
  count_of-count_all k e.tags m,
  times_in-append k e.tags (tags_in es),
)

pub count_of-by_domain_counts :
    (k : Bytes) (es : List ObservationEntry) (m : Counts)
    → count_of k (by_domain_counts es m)
      ≡ length (keep (λ (e : ObservationEntry). str_eq e.domain k) es) + count_of k m
unfolding by_domain_counts
count_of-by_domain_counts k [] m = omega arith
count_of-by_domain_counts k (e ∷ es) m =
    ground (
      arith,
      count_of-by_domain_counts k es (count_one e.domain m),
      count_of-count_one k e.domain m,
    )
