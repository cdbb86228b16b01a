-- ===== src/Rpc/Housekeeping/Disclosed.antt =====
-- The paths that housekeeping_scan names.
use cogmemory.Base.{
  Bool, true, false, List, [], ◌∷◌, Option, none, some, ◌≡◌, ◌⊎◌, inl, inr, refl, arith,
  if◌then◌else◌, Bytes, is_empty, All, All-append, All-sort_by, All-keep, ltb, All-if, Bool-cases,
}
use cogmemory.Time.{Instant}
use cogmemory.Domain.Controller.{Controller}
use cogmemory.Store.State.{MemoryStore, Result, ok, err, ◌>>=◌}
use cogmemory.Store.Actions.Results.{IsOk}
use cogmemory.Store.Housekeeping.{
  HousekeepingCaps, default_housekeeping_caps, ObservationsOverCap, OverCap, PatternsOverCap,
  StaleActionItem,
}
use cogmemory.Store.Housekeeping.Placed.{
  observations_placed, improvements_placed, hot_placed, patterns_placed, stale_scanned,
}
use cogmemory.Store.Housekeeping.Scan.{
  HousekeepingTarget, HousekeepingResult, all_observations, all_completed, all_stale, all_hot,
  found, if_path, housekept, housekeeping_scan, resolve_since_cutoff,
}
use cogmemory.Rpc.Housekeeping.{
  all_targets, root_hot_memory, patterns_path, improvements_path, blank, readable_target,
  has_no_path, filter_housekeeping_targets, filter_readable_paths, housekeeping_input,
  readable_or_none,
}

module _ (p : Bytes → Bool) where
  -- Every path that the result names passes the test.
  pub record NamesReadable (r : HousekeepingResult) : Type 0 where
    pub changed : All (λ path. p path ≡ true) r.changed_recently
    pub observations : All (λ (v : ObservationsOverCap). p v.path ≡ true) r.observations_over_cap
    pub completed : All (λ (v : OverCap). p v.path ≡ true) r.completed_actions_over_cap
    pub improvements : All (λ (v : OverCap). p v.path ≡ true) r.improvements_over_cap
    pub hot : All (λ (v : OverCap). p v.path ≡ true) r.hot_memory_over_cap
    pub patterns : All (λ (v : PatternsOverCap). p v.path ≡ true) r.patterns_over_cap
    pub stale : All (λ (i : StaleActionItem). p i.path ≡ true) r.stale_action_items

  -- A path that is left out or passes the test.
  abbrev IsFine : Bytes → Type 0
  IsFine path = (is_empty path ≡ true) ⊎ (p path ≡ true)

  found-readable {ℓ} :
      {A : Type ℓ} (f : A → Bytes) (path : Bytes) (o : Option A)
      → IsFine path
      → ((a : A) → o ≡ some a → f a ≡ path)
      → All (λ a. p (f a) ≡ true) (found path o)
  found-readable f path o (inl e) h = rw e tt
  found-readable f path none (inr e) h =
      elim (is_empty path) as (λ b. All (λ a. p (f a) ≡ true) (if b then [] else [])) [
        | true ↦ tt
        | false ↦ tt
      ]
  found-readable f path (some a) (inr e) h =
      elim (is_empty path) as (λ b. All (λ a. p (f a) ≡ true) (if b then [] else a ∷ [])) [
        | true ↦ tt
        | false ↦ (rw (h a refl) e, tt)
      ]

  if_path-readable {ℓ} :
      {A : Type ℓ} (f : A → Bytes) (path : Bytes) (xs : List A)
      → IsFine path
      → All (λ a. f a ≡ path) xs
      → All (λ a. p (f a) ≡ true) (if_path path xs)
  if_path-readable f path xs (inl e) h = rw e tt
  if_path-readable {A = A} f path xs (inr e) h =
      elim (is_empty path) as (λ b. All (λ a. p (f a) ≡ true) (if b then [] else xs)) [
        | true ↦ tt
        | false ↦ at_path xs h
      ]
    where
      at_path : (xs : List A) → All (λ a. f a ≡ path) xs → All (λ a. p (f a) ≡ true) xs
      at_path [] h = tt
      at_path (x ∷ xs) h = (rw h.0 e, at_path xs h.1)

module _ (p : Bytes → Bool) where
  abbrev pub after_filter : HousekeepingResult → HousekeepingResult
  after_filter r = record r { changed_recently = filter_readable_paths p r.changed_recently }

  -- Every path of a target is left out or passes the test.
  abbrev HasFinePaths : HousekeepingTarget → Type 0
  HasFinePaths t =
      IsFine p t.observations_path × IsFine p t.action_items_path × IsFine p t.hot_memory_path

  blank-IsFine : (path : Bytes) → IsFine p (blank p path)
  blank-IsFine path = elim (Bool-cases (p path)) [
    | inl h ↦ rw h (elim (Bool-cases (is_empty path)) [
      | inl e ↦ inl (ground arith)
      | inr e ↦ inr (ground arith)
    ])
    | inr h ↦ elim (Bool-cases (is_empty path)) [
      | inl e ↦ inl (ground arith)
      | inr e ↦ inl (ground arith)
    ]
  ]

  readable_or_none-IsFine : (path : Bytes) → IsFine p (readable_or_none p path)
  readable_or_none-IsFine path = elim (Bool-cases (p path)) [
    | inl h ↦ inr (ground arith)
    | inr h ↦ inl (ground arith)
  ]

  targets-HasFinePaths :
      (ts : List HousekeepingTarget) → All HasFinePaths (filter_housekeeping_targets p ts)
  unfolding filter_housekeeping_targets
  targets-HasFinePaths [] = tt
  targets-HasFinePaths (t ∷ ts) =
      All-if HasFinePaths (has_no_path (readable_target p t)) _ _ (targets-HasFinePaths ts) (
        (
          blank-IsFine t.observations_path,
          blank-IsFine t.action_items_path,
          blank-IsFine t.hot_memory_path,
        ),
        targets-HasFinePaths ts,
      )

  module _ (s : MemoryStore) (caps : HousekeepingCaps) (now : Instant) where
    observations-readable :
        (ts : List HousekeepingTarget)
        → All HasFinePaths ts
        → All (λ (v : ObservationsOverCap). p v.path ≡ true) (all_observations s caps ts)
    unfolding all_observations
    observations-readable [] h = tt
    observations-readable (t ∷ ts) h =
        All-append _ _ _
          (found-readable p (λ v. v.path) t.observations_path _ h.0.0
            (observations_placed s t.observations_path caps.observations_entries))
          (observations-readable ts h.1)

    completed-readable :
        (ts : List HousekeepingTarget)
        → All HasFinePaths ts
        → All (λ (v : OverCap). p v.path ≡ true) (all_completed s caps now ts)
    unfolding all_completed
    completed-readable [] h = tt
    completed-readable (t ∷ ts) h =
        All-append _ _ _
          (if_path-readable p (λ v. v.path) t.action_items_path _ h.0.1
            (All-if _ (ltb caps.completed_actions _) _ _ (refl, tt) tt))
          (completed-readable ts h.1)

    stale-readable :
        (ts : List HousekeepingTarget)
        → All HasFinePaths ts
        → All (λ (i : StaleActionItem). p i.path ≡ true) (all_stale s caps now ts)
    unfolding all_stale
    stale-readable [] h = tt
    stale-readable (t ∷ ts) h =
        All-append _ _ _
          (if_path-readable p (λ i. i.path) t.action_items_path _ h.0.1
            (stale_scanned s t.action_items_path caps.stale_action_item_days now))
          (stale-readable ts h.1)

    hot-readable :
        (ts : List HousekeepingTarget)
        → All HasFinePaths ts
        → All (λ (v : OverCap). p v.path ≡ true) (all_hot s caps ts)
    unfolding all_hot
    hot-readable [] h = tt
    hot-readable (t ∷ ts) h =
        All-append _ _ _
          (found-readable p (λ v. v.path) t.hot_memory_path _ h.0.2
            (hot_placed s t.hot_memory_path caps.hot_memory_lines))
          (hot-readable ts h.1)

module _ (p : Bytes → Bool) (s : MemoryStore) (c : Option Controller) where
  housekept-NamesReadable :
      (now : Instant) (since : Instant × Bytes)
      → NamesReadable p (after_filter p (housekept s (housekeeping_input p c) now since))
  unfolding filter_readable_paths housekeeping_input
  housekept-NamesReadable now since =
      let fine : All (HasFinePaths p) (housekeeping_input p c).targets =
        targets-HasFinePaths p (all_targets c) in
      let root_fine = readable_or_none-IsFine p root_hot_memory in
      record {
        changed = All-keep p _;
        observations =
            All-sort_by _ _ _ (observations-readable p s default_housekeeping_caps now _ fine);
        completed = All-sort_by _ _ _ (completed-readable p s default_housekeeping_caps now _ fine);
        improvements =
            found-readable p (λ v. v.path) (readable_or_none p improvements_path) _
              (readable_or_none-IsFine p improvements_path) (improvements_placed s _ _);
        hot = All-sort_by _ _ _ (
            All-append _ _ _ (hot-readable p s default_housekeeping_caps now _ fine) (
              found-readable p (λ v. v.path) (readable_or_none p root_hot_memory) _ root_fine
                (hot_placed s _ _)));
        patterns =
            found-readable p (λ v. v.path) (readable_or_none p patterns_path) _
              (readable_or_none-IsFine p patterns_path) (patterns_placed s _ _ _);
        stale = All-sort_by _ _ _ (stale-readable p s default_housekeeping_caps now _ fine);
      }

  pub scan-NamesReadable :
      IsOk (λ r. NamesReadable p (after_filter p r)) (housekeeping_scan s (housekeeping_input p c))
  unfolding housekeeping_scan housekeeping_input
  scan-NamesReadable = after_since (
      resolve_since_cutoff s (housekeeping_input p c).marker_path
        default_housekeeping_caps.changed_recently_fallback_days s.clock)
    where
      after_since :
          (r : Result (Instant × Bytes))
          → IsOk
              (λ r. NamesReadable p (after_filter p r))
              (r >>= λ since. ok (housekept s (housekeeping_input p c) s.clock since))
      after_since (ok since) = housekept-NamesReadable s.clock since
      after_since (err e) = tt
