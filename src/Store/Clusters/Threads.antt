-- ===== src/Store/Clusters/Threads.antt =====
-- The thread candidates of the observations.
use cogmemory.Base.{
  ◌≤◌, Bool, true, false, ◌||◌, List, [], ◌∷◌, ◌++◌, ◌≡◌, refl, sym, ap, ◌∙◌, subst, arith, Bytes,
  codes, str_eq, str_eq_iff, if◌then◌else◌, ltb, keep, All, Any, length, map, Bool-cases, inl, inr,
  IsSorted, IsOrder, sort_by-IsSorted, All-sort_by, then_by-IsOrder, gtb_on-IsOrder,
  gtb_on-TestsTies, less_on-IsOrder, Any-sort_by,
}
use cogmemory.Store.Clusters.{
  Observation, ThreadCandidate, Limits, Buckets, span_days, buckets_of, thread_of, thread_keys,
  long_threads, thread_less, build_thread_candidates,
}
use cogmemory.Store.Clusters.Terms.{keywords}
use cogmemory.Store.Clusters.Buckets.{
  bucket_of, has, carries, AreDistinct, bucket_of-buckets_of, keywords-AreDistinct,
}
use cogmemory.Store.Clusters.Sound.{AreFound, found_all, buckets_of-AreDistinct}

-- The keys of a thread are distinct where those of an observation are.
str_eq-append : (pre a b : Bytes) → str_eq (pre ++ a) (pre ++ b) ≡ str_eq a b
unfolding str_eq
str_eq-append [] a b = refl
str_eq-append (c ∷ pre) a b = ground (arith, str_eq-append pre a b)

has-map : (pre k : Bytes) (ks : List Bytes) → has (pre ++ k) (map (λ t. pre ++ t) ks) ≡ has k ks
has-map pre k [] = refl
has-map pre k (j ∷ ks) = ground (arith, str_eq-append pre j k, has-map pre k ks)

map-AreDistinct :
    (pre : Bytes) (ks : List Bytes) → AreDistinct ks → AreDistinct (map (λ t. pre ++ t) ks)
map-AreDistinct pre [] h = tt
map-AreDistinct pre (k ∷ ks) h = (has-map pre k ks ∙ h.0, map-AreDistinct pre ks h.1)

tag_of : Bytes → Bytes
tag_of t = codes "tag:" ++ t

keyword_of : Bytes → Bytes
keyword_of t = codes "keyword:" ++ t

tag_apart : (t : Bytes) (ks : List Bytes) → has (tag_of t) (map keyword_of ks) ≡ false
unfolding str_eq tag_of keyword_of
tag_apart t [] = refl
tag_apart t (k ∷ ks) = tag_apart t ks

has-append : (k : Bytes) (xs ys : List Bytes) → has k (xs ++ ys) ≡ (has k xs || has k ys)
has-append k [] ys = refl
has-append k (x ∷ xs) ys = ground (arith, has-append k xs ys)

tags_then_keywords :
    (ts ks : List Bytes)
    → AreDistinct ts
    → AreDistinct (map keyword_of ks)
    → AreDistinct (map tag_of ts ++ map keyword_of ks)
unfolding tag_of
tags_then_keywords [] ks h k = k
tags_then_keywords (t ∷ ts) ks h k = (
  ground (
    arith,
    has-append (tag_of t) (map tag_of ts) (map keyword_of ks),
    has-map (codes "tag:") t ts,
    h.0,
    tag_apart t ks,
  ),
  tags_then_keywords ts ks h.1 k,
)

thread_keys-AreDistinct :
    (os : List Observation)
    → All (λ (o : Observation). AreDistinct o.tags) os
    → All (λ o. AreDistinct (thread_keys o)) os
unfolding tag_of keyword_of
thread_keys-AreDistinct [] h = tt
thread_keys-AreDistinct (o ∷ os) h = (
  tags_then_keywords o.tags (keywords o.text) h.0
      (map-AreDistinct (codes "keyword:") (keywords o.text) (keywords-AreDistinct o.text)),
  thread_keys-AreDistinct os h.1,
)

module _ (p : Limits) where
  -- The thread of a key whose observations are enough and lie far enough apart.
  abbrev pub IsLong : (Bytes → List Observation) → ThreadCandidate → Type 0
  IsLong bucket c =
      (c ≡ thread_of c.topic (bucket c.topic))
      × (p.min_cluster_size ≤ length (bucket c.topic))
      × (p.span_days ≤ span_days (bucket c.topic))

  long_threads-IsLong :
      (m es : Buckets) → AreFound m es → All (IsLong (λ k. bucket_of k m)) (long_threads p es)
  unfolding long_threads
  long_threads-IsLong m [] f = tt
  long_threads-IsLong m ((k, os) ∷ es) f = elim (Bool-cases (ltb (length os) p.min_cluster_size)) [
    | inl h ↦ rw h (long_threads-IsLong m es f.1)
    | inr h ↦ elim (Bool-cases (ltb (span_days os) p.span_days)) [
      | inl g ↦ rw (h, g) (long_threads-IsLong m es f.1)
      | inr g ↦
          rw (h, g)
            (
              (ap (thread_of k) (sym f.0), rw f.0 (ground arith), rw f.0 (ground arith)),
              long_threads-IsLong m es f.1,
            )
    ]
  ]

  unless_later {ℓ} :
      {A : Type ℓ} (P : A → Type 0) (b c : Bool) (x : A) (xs : List A)
      → Any P xs
      → Any P (if b then xs else if c then xs else x ∷ xs)
  unless_later P true c x xs h = h
  unless_later P false true x xs h = h
  unless_later P false false x xs h = inr h

  long_threads_complete :
      (k : Bytes) (m : Buckets)
      → 1 ≤ length (bucket_of k m)
      → p.min_cluster_size ≤ length (bucket_of k m)
      → p.span_days ≤ span_days (bucket_of k m)
      → Any (λ c. c ≡ thread_of k (bucket_of k m)) (long_threads p m)
  unfolding long_threads bucket_of
  long_threads_complete k [] h e g = absurd (omega arith)
  long_threads_complete k ((j, os) ∷ m) h e g = elim (Bool-cases (str_eq j k)) [
    | inl q ↦
        let is_os : bucket_of k ((j, os) ∷ m) ≡ os = ground arith in
        let enough : ltb (length os) p.min_cluster_size ≡ false = ground arith in
        let long : ltb (span_days os) p.span_days ≡ false = ground arith in
        rw (enough, long, is_os) (inl (ap (λ i. thread_of i os) ((str_eq_iff j k).0 q)))
    | inr q ↦
        let is_later : bucket_of k ((j, os) ∷ m) ≡ bucket_of k m = ground arith in
        let later : Any (λ c. c ≡ thread_of k (bucket_of k m)) (long_threads p m) =
          long_threads_complete k m (rw (sym is_later) h) (rw (sym is_later) e)
            (rw (sym is_later) g) in
        rw is_later (
          unless_later (λ c. c ≡ thread_of k (bucket_of k m)) (ltb (length os) p.min_cluster_size)
            (ltb (span_days os) p.span_days) (thread_of j os) (long_threads p m) later)
  ]

thread_less-IsOrder : IsOrder thread_less
unfolding thread_less
thread_less-IsOrder =
    then_by-IsOrder _ _ _ (gtb_on-IsOrder (λ (c : ThreadCandidate). c.fragment_count))
      (gtb_on-TestsTies (λ c. c.fragment_count)) (less_on-IsOrder (λ c. c.topic))

-- The threads of the observations by their tags and keywords, largest first: each has exactly the
-- observations that carry its key, enough of them and far enough apart; and each such key has a thread.
pub record AreThreads (p : Limits) (all : List Observation) (cs : List ThreadCandidate)
    : Type 0 where
  pub sound : All (IsLong p (λ k. keep (carries thread_keys k) all)) cs
  pub complete :
      (k : Bytes)
      → 1 ≤ length (keep (carries thread_keys k) all)
      → p.min_cluster_size ≤ length (keep (carries thread_keys k) all)
      → p.span_days ≤ span_days (keep (carries thread_keys k) all)
      → Any (λ c. c ≡ thread_of k (keep (carries thread_keys k) all)) cs
  pub ordered : IsSorted thread_less cs

module _ (p : Limits) (all : List Observation) where
  abbrev buckets : Buckets
  buckets = buckets_of thread_keys all []

  pub build_thread_candidates-AreThreads :
      All (λ (o : Observation). AreDistinct o.tags) all
      → AreThreads p all (build_thread_candidates all p)
  unfolding build_thread_candidates bucket_of
  build_thread_candidates-AreThreads h =
      let found : (k : Bytes) → bucket_of k buckets ≡ keep (carries thread_keys k) all =
        λ k. bucket_of-buckets_of thread_keys k all [] (thread_keys-AreDistinct all h) in
      record {
        sound = All-sort_by _ thread_less _ (
            subst (λ f. All (IsLong p f) (long_threads p buckets)) (λ i k. found k i)
              (long_threads-IsLong p buckets buckets
                (found_all buckets (buckets_of-AreDistinct thread_keys all [] tt))));
        complete = λ k some_of enough long. Any-sort_by _ thread_less _ (
            subst (λ os. Any (λ c. c ≡ thread_of k os) (long_threads p buckets)) (found k)
              (long_threads_complete p k buckets (rw (found k) some_of) (rw (found k) enough)
                (rw (found k) long)));
        ordered =
            sort_by-IsSorted thread_less thread_less-IsOrder
              (long_threads p (buckets_of thread_keys all []));
      }
