-- ===== src/Store/Clusters/Sound.antt =====
-- The clusters of the observations.
use cogmemory.Base.{
  ◌≤◌, Bool, true, false, ◌||◌, List, [], ◌∷◌, ◌≡◌, refl, sym, ap, subst, arith, Bytes, str_eq,
  str_eq_iff, if◌then◌else◌, ltb, keep, All, Any, length, str_eq_of_eq, Bool-cases, inl, inr,
  IsSorted, IsOrder, sort_by, sort_by-IsSorted, All-sort_by, then_by-IsOrder, gtb_on-IsOrder,
  gtb_on-TestsTies, less_on-IsOrder, Any-sort_by,
}
use cogmemory.Store.Clusters.{
  Observation, Cluster, Limits, Buckets, add_obs, add_keys, buckets_of, cluster_of, large_clusters,
  cluster_less,
}
use cogmemory.Store.Clusters.Buckets.{bucket_of, has, carries, AreDistinct, bucket_of-buckets_of}

abbrev keys_of : Buckets → List Bytes
keys_of [] = []
keys_of ((k, os) ∷ m) = k ∷ keys_of m

has-add_obs :
    (k j : Bytes) (o : Observation) (m : Buckets)
    → has k (keys_of (add_obs j o m)) ≡ (str_eq j k || has k (keys_of m))
unfolding add_obs
has-add_obs k j o [] = ground arith
has-add_obs k j o ((i, os) ∷ m) =
    ground (arith, str_eq_iff i j, str_eq_iff i k, str_eq_iff j k, has-add_obs k j o m)

add_obs-AreDistinct :
    (j : Bytes) (o : Observation) (m : Buckets)
    → AreDistinct (keys_of m)
    → AreDistinct (keys_of (add_obs j o m))
unfolding add_obs
add_obs-AreDistinct j o [] h = (refl, tt)
add_obs-AreDistinct j o ((i, os) ∷ m) h = elim (Bool-cases (str_eq i j)) [
  | inl e ↦ rw e h
  | inr e ↦ rw e (
    ground (arith, h.0, has-add_obs i j o m, str_eq_iff i j, str_eq_iff j i),
    add_obs-AreDistinct j o m h.1,
  )
]

add_keys-AreDistinct :
    (ks : List Bytes) (o : Observation) (m : Buckets)
    → AreDistinct (keys_of m)
    → AreDistinct (keys_of (add_keys ks o m))
unfolding add_keys
add_keys-AreDistinct [] o m h = h
add_keys-AreDistinct (k ∷ ks) o m h =
    add_keys-AreDistinct ks o (add_obs k o m) (add_obs-AreDistinct k o m h)

pub buckets_of-AreDistinct :
    (keys : Observation → List Bytes) (os : List Observation) (m : Buckets)
    → AreDistinct (keys_of m)
    → AreDistinct (keys_of (buckets_of keys os m))
unfolding buckets_of
buckets_of-AreDistinct keys [] m h = h
buckets_of-AreDistinct keys (o ∷ os) m h =
    buckets_of-AreDistinct keys os (add_keys (keys o) o m) (add_keys-AreDistinct (keys o) o m h)

-- In a map with distinct keys every entry is the one that is found.
abbrev pub AreFound : Buckets → Buckets → Type 0
AreFound m es = All (λ (e : Bytes × List Observation). bucket_of e.0 m ≡ e.1) es

found-cons :
    (j : Bytes) (os : List Observation) (m es : Buckets)
    → has j (keys_of es) ≡ false
    → AreFound m es
    → AreFound ((j, os) ∷ m) es
unfolding bucket_of
found-cons j os m [] h f = tt
found-cons j os m ((k, us) ∷ es) h f = (
  ground (arith, str_eq_iff j k, str_eq_iff k j, f.0),
  found-cons j os m es (ground (arith, h)) f.1,
)

pub found_all : (m : Buckets) → AreDistinct (keys_of m) → AreFound m m
unfolding bucket_of
found_all [] h = tt
found_all ((k, os) ∷ m) h =
    (ground (arith, str_eq_of_eq k), found-cons k os m m h.0 (found_all m h.1))

module _ (p : Limits) where
  -- The cluster of a key whose observations are enough.
  abbrev pub IsLarge : (Bytes → List Observation) → Cluster → Type 0
  IsLarge bucket c =
      (c ≡ cluster_of p c.name (bucket c.name)) × (p.min_cluster_size ≤ length (bucket c.name))

  large_clusters-IsLarge :
      (m es : Buckets) → AreFound m es → All (IsLarge (λ k. bucket_of k m)) (large_clusters p es)
  unfolding large_clusters
  large_clusters-IsLarge m [] f = tt
  large_clusters-IsLarge m ((k, os) ∷ es) f =
      elim (Bool-cases (ltb (length os) p.min_cluster_size)) [
        | inl h ↦ rw h (large_clusters-IsLarge m es f.1)
        | inr h ↦ rw h (
          (ap (cluster_of p k) (sym f.0), rw f.0 (ground arith)),
          large_clusters-IsLarge m es f.1,
        )
      ]

  pub if_later {ℓ} :
      {A : Type ℓ} (P : A → Type 0) (b : Bool) (x : A) (xs : List A)
      → Any P xs
      → Any P (if b then xs else x ∷ xs)
  if_later P true x xs h = h
  if_later P false x xs h = inr h

  large_clusters_complete :
      (k : Bytes) (m : Buckets)
      → 1 ≤ length (bucket_of k m)
      → p.min_cluster_size ≤ length (bucket_of k m)
      → Any (λ c. c ≡ cluster_of p k (bucket_of k m)) (large_clusters p m)
  unfolding large_clusters bucket_of
  large_clusters_complete k [] h e = absurd (omega arith)
  large_clusters_complete k ((j, os) ∷ m) h e = elim (Bool-cases (str_eq j k)) [
    | inl q ↦
        let is_os : bucket_of k ((j, os) ∷ m) ≡ os = ground arith in
        let enough : ltb (length os) p.min_cluster_size ≡ false = ground arith in
        rw (enough, is_os) (inl (ap (λ i. cluster_of p i os) ((str_eq_iff j k).0 q)))
    | inr q ↦
        let is_later : bucket_of k ((j, os) ∷ m) ≡ bucket_of k m = ground arith in
        rw is_later (
          if_later (λ c. c ≡ cluster_of p k (bucket_of k m)) (ltb (length os) p.min_cluster_size)
            (cluster_of p j os) (large_clusters p m)
            (large_clusters_complete k m (rw (sym is_later) h) (rw (sym is_later) e)))
  ]

cluster_less-IsOrder : IsOrder cluster_less
unfolding cluster_less
cluster_less-IsOrder =
    then_by-IsOrder _ _ _ (gtb_on-IsOrder (λ (c : Cluster). c.count))
      (gtb_on-TestsTies (λ c. c.count)) (less_on-IsOrder (λ c. c.name))

-- The clusters of the observations by their keys, largest first: each has exactly the observations that
-- carry its key, at least as many as the limit; and each key that so many carry has its cluster.
pub record AreClusters (p : Limits) (keys : Observation → List Bytes) (all : List Observation)
    (cs : List Cluster) : Type 0 where
  pub sound : All (IsLarge p (λ k. keep (carries keys k) all)) cs
  pub complete :
      (k : Bytes)
      → 1 ≤ length (keep (carries keys k) all)
      → p.min_cluster_size ≤ length (keep (carries keys k) all)
      → Any (λ c. c ≡ cluster_of p k (keep (carries keys k) all)) cs
  pub ordered : IsSorted cluster_less cs

module _ (p : Limits) (keys : Observation → List Bytes) (all : List Observation) where
  abbrev buckets : Buckets
  buckets = buckets_of keys all []

  pub large_clusters-AreClusters :
      All (λ o. AreDistinct (keys o)) all
      → AreClusters p keys all (sort_by cluster_less (large_clusters p (buckets_of keys all [])))
  unfolding bucket_of
  large_clusters-AreClusters h =
      let found : (k : Bytes) → bucket_of k buckets ≡ keep (carries keys k) all =
        λ k. bucket_of-buckets_of keys k all [] h in
      record {
        sound = All-sort_by _ cluster_less _ (
            subst (λ f. All (IsLarge p f) (large_clusters p buckets)) (λ i k. found k i)
              (large_clusters-IsLarge p buckets buckets
                (found_all buckets (buckets_of-AreDistinct keys all [] tt))));
        complete = λ k some_of enough. Any-sort_by _ cluster_less _ (
            subst (λ os. Any (λ c. c ≡ cluster_of p k os) (large_clusters p buckets)) (found k)
              (large_clusters_complete p k buckets (rw (found k) some_of) (rw (found k) enough)));
        ordered = sort_by-IsSorted cluster_less cluster_less-IsOrder _;
      }
