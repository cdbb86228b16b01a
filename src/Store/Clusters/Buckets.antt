-- ===== src/Store/Clusters/Buckets.antt =====
-- The buckets of the observations: each key has the observations that carry it, in their order.
use cogmemory.Base.{
  to_lower, trim_space, is_empty, Bool, true, false, ◌||◌, List, [], ◌∷◌, ◌++◌, ◌≡◌, refl, sym,
  arith, Bytes, str_eq, str_eq_iff, if◌then◌else◌, keep, any, All, map, append-nil, append_assoc,
  str_eq_of_eq, Bool-cases, inl, inr,
}
use cogmemory.Store.Clusters.{Observation, Buckets, add_obs, add_keys, buckets_of}
use cogmemory.Store.Clusters.Terms.{
  fresh, keywords, is_stopword, capture, keyword_here, cluster_tags, fields_from,
}
use cogmemory.Regex.{find_all}

-- The observations of a key.
unfoldable pub bucket_of : Bytes → Buckets → List Observation
unfolding str_eq
bucket_of k [] = []
bucket_of k ((j, os) ∷ m) = if str_eq j k then os else bucket_of k m

abbrev pub has : Bytes → List Bytes → Bool
has k ts = any (λ t. str_eq t k) ts

-- Every text is there once.
abbrev pub AreDistinct : List Bytes → Type 0
AreDistinct [] = Unit
AreDistinct (t ∷ ts) = (has t ts ≡ false) × AreDistinct ts

bucket_of-add_obs :
    (k j : Bytes) (o : Observation) (m : Buckets)
    → bucket_of k (add_obs j o m)
      ≡ (if str_eq j k then bucket_of k m ++ (o ∷ []) else bucket_of k m)
unfolding bucket_of add_obs
bucket_of-add_obs k j o [] = ground arith
bucket_of-add_obs k j o ((i, os) ∷ m) =
    ground (arith, str_eq_iff i j, str_eq_iff i k, str_eq_iff j k, bucket_of-add_obs k j o m)

bucket_of-add_keys :
    (k : Bytes) (ks : List Bytes) (o : Observation) (m : Buckets)
    → AreDistinct ks
    → bucket_of k (add_keys ks o m)
      ≡ (if has k ks then bucket_of k m ++ (o ∷ []) else bucket_of k m)
unfolding add_keys
bucket_of-add_keys k [] o m h = refl
bucket_of-add_keys k (j ∷ ks) o m h = ground (
  arith,
  str_eq_iff j k,
  h.0,
  bucket_of-add_keys k ks o (add_obs j o m) h.1,
  bucket_of-add_obs k j o m,
)

module _ (keys : Observation → List Bytes) where
  abbrev pub carries : Bytes → Observation → Bool
  carries k o = has k (keys o)

  pub bucket_of-buckets_of :
      (k : Bytes) (os : List Observation) (m : Buckets)
      → All (λ o. AreDistinct (keys o)) os
      → bucket_of k (buckets_of keys os m) ≡ bucket_of k m ++ keep (λ o. has k (keys o)) os
  unfolding buckets_of
  bucket_of-buckets_of k [] m h = sym (append-nil (bucket_of k m))
  bucket_of-buckets_of k (o ∷ os) m h = ground (
    arith,
    bucket_of-buckets_of k os (add_keys (keys o) o m) h.1,
    bucket_of-add_keys k (keys o) o m h.0,
    append_assoc (bucket_of k m) (o ∷ []) (keep (λ u. has k (keys u)) os),
  )

-- What `fresh` returns.
fresh-seen :
    (out : Bytes → Bool) (seen ts : List Bytes) (t : Bytes)
    → has t seen ≡ true
    → has t (fresh out seen ts) ≡ false
unfolding fresh
fresh-seen out seen [] t h = refl
fresh-seen out seen (u ∷ ts) t h =
    ground (arith, str_eq_iff u t, fresh-seen out seen ts t h, fresh-seen out (u ∷ seen) ts t)

pub fresh-AreDistinct :
    (out : Bytes → Bool) (seen ts : List Bytes) → AreDistinct (fresh out seen ts)
unfolding fresh
fresh-AreDistinct out seen [] = tt
fresh-AreDistinct out seen (t ∷ ts) = elim (Bool-cases (out t || has t seen)) [
  | inl h ↦ rw h (fresh-AreDistinct out seen ts)
  | inr h ↦ rw h (
    fresh-seen out (t ∷ seen) ts t (ground (arith, str_eq_of_eq t)),
    fresh-AreDistinct out (t ∷ seen) ts,
  )
]

pub keywords-AreDistinct : (s : Bytes) → AreDistinct (keywords s)
unfolding keywords
keywords-AreDistinct s =
    fresh-AreDistinct is_stopword [] (map (λ m. to_lower (capture m)) (find_all keyword_here 0 0 s))

pub cluster_tags-AreDistinct : (s : Bytes) → AreDistinct (cluster_tags s)
unfolding cluster_tags
cluster_tags-AreDistinct s =
    fresh-AreDistinct is_empty [] (map (λ t. to_lower (trim_space t)) (fields_from [] s))
