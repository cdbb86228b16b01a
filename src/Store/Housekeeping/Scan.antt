-- ===== src/Store/Housekeeping/Scan.antt =====
-- store/housekeeping.go: HousekeepingScan.
use cogmemory.Base.{
  ◌&&◌, ℕ, ◌-◌, ◌*◌, Bool, not, List, [], ◌∷◌, ◌++◌, Option, none, some, if◌then◌else◌, ◌==◌, ltb,
  Bytes, str_eq, str_lt, is_empty, sort_by, less_on,
}
use cogmemory.Time.{Instant, day_ns, zero_time, format_rfc3339}
use cogmemory.Store.Fs.{Node, file, denied, dir}
use cogmemory.Store.State.{MemoryStore, Result, ok, ◌>>=◌, abs_path, stat_checked}
use cogmemory.Store.Scan.{Scanned, scan_files}
use cogmemory.Store.Housekeeping.{
  HousekeepingCaps, default_housekeeping_caps, ObservationsOverCap, OverCap, PatternsOverCap,
  DormantDomain, StaleActionItem, scan_observations, scan_dormancy, scan_action_items,
  scan_improvements, scan_hot_memory, scan_patterns,
}

pub record HousekeepingTarget : Type 0 where
  pub domain_id : Bytes
  pub observations_path : Bytes
  pub action_items_path : Bytes
  pub hot_memory_path : Bytes

pub record HousekeepingInput : Type 0 where
  pub targets : List HousekeepingTarget
  pub root_hot_memory : Bytes
  pub patterns_path : Bytes
  pub improvements_path : Bytes
  pub marker_path : Bytes
  pub caps : HousekeepingCaps
  pub now : Instant

-- HousekeepingResult with its HousekeepingThresholds
pub record HousekeepingResult : Type 0 where
  pub since : Bytes
  pub changed_recently : List Bytes
  pub observations_over_cap : List ObservationsOverCap
  pub completed_actions_over_cap : List OverCap
  pub improvements_over_cap : List OverCap
  pub hot_memory_over_cap : List OverCap
  pub patterns_over_cap : List PatternsOverCap
  pub dormant_domains : List DormantDomain
  pub stale_action_items : List StaleActionItem

-- The modification time of a node; the model keeps none for a directory.
abbrev pub mod_time : Node → Instant
mod_time (file content t) = t
mod_time (denied t) = t
mod_time dir = 0

abbrev fallback : ℕ → Instant → Instant × Bytes
fallback days now = (now - (if days == 0 then 7 else days) * day_ns, [])

abbrev marker_cutoff : ℕ → Instant → Option Node → Instant × Bytes
marker_cutoff days now none = fallback days now
marker_cutoff days now (some n) = (mod_time n, format_rfc3339 (mod_time n))

-- resolveSinceCutoff
unfoldable pub resolve_since_cutoff : MemoryStore → Bytes → ℕ → Instant → Result (Instant × Bytes)
unfolding abs_path stat_checked format_rfc3339
resolve_since_cutoff s marker days now =
    if not (is_empty marker)
    then (do abs ← abs_path s marker; found ← stat_checked s abs; ok (marker_cutoff days now found))
    else ok (fallback days now)

-- The files that changed after the cutoff, without the marker.
unfoldable pub changed_since : Bytes → Instant → List Scanned → List Bytes
unfolding str_eq
changed_since marker cutoff [] = []
changed_since marker cutoff (f ∷ fs) =
    let rest = changed_since marker cutoff fs in
    if str_eq f.rel marker
    then rest
    else if ltb cutoff (mod_time f.node)
    then f.rel ∷ rest
    else rest

-- What a scan of a file adds, if its path is not empty.
abbrev pub found {ℓ} : {A : Type ℓ} → Bytes → Option A → List A
found path o = if is_empty path then [] else elim o [ none ↦ [] | some a ↦ a ∷ [] ]

abbrev pub if_path {ℓ} : {A : Type ℓ} → Bytes → List A → List A
if_path path as' = if is_empty path then [] else as'

-- Each list of the result over the targets: the loop appends to all of them in turn.
unfoldable pub all_observations :
    MemoryStore → HousekeepingCaps → List HousekeepingTarget → List ObservationsOverCap
unfolding scan_observations
all_observations s caps [] = []
all_observations s caps (t ∷ ts) =
    found t.observations_path (scan_observations s t.observations_path caps.observations_entries)
    ++ all_observations s caps ts

unfoldable pub all_dormant :
    MemoryStore → HousekeepingCaps → Instant → List HousekeepingTarget → List DormantDomain
unfolding scan_dormancy
all_dormant s caps now [] = []
all_dormant s caps now (t ∷ ts) =
    found t.observations_path
      (scan_dormancy s t.domain_id t.observations_path caps.dormant_domain_days now)
    ++ all_dormant s caps now ts

abbrev pub completed_over : Bytes → ℕ → ℕ → List OverCap
completed_over path cap n =
    if ltb cap n then record { path = path; count = n; cap = cap } ∷ [] else []

unfoldable pub all_completed :
    MemoryStore → HousekeepingCaps → Instant → List HousekeepingTarget → List OverCap
unfolding scan_action_items
all_completed s caps now [] = []
all_completed s caps now (t ∷ ts) =
    if_path t.action_items_path (
      completed_over t.action_items_path caps.completed_actions
        (scan_action_items s t.action_items_path caps.stale_action_item_days now).0)
    ++ all_completed s caps now ts

unfoldable pub all_stale :
    MemoryStore → HousekeepingCaps → Instant → List HousekeepingTarget → List StaleActionItem
unfolding scan_action_items
all_stale s caps now [] = []
all_stale s caps now (t ∷ ts) =
    if_path t.action_items_path
      (scan_action_items s t.action_items_path caps.stale_action_item_days now).1
    ++ all_stale s caps now ts

unfoldable pub all_hot : MemoryStore → HousekeepingCaps → List HousekeepingTarget → List OverCap
unfolding scan_hot_memory
all_hot s caps [] = []
all_hot s caps (t ∷ ts) =
    found t.hot_memory_path (scan_hot_memory s t.hot_memory_path caps.hot_memory_lines)
    ++ all_hot s caps ts

unfoldable pub stale_less : StaleActionItem → StaleActionItem → Bool
unfolding str_eq str_lt
stale_less a b = if not (str_eq a.path b.path) then str_lt a.path b.path else ltb a.line b.line

abbrev pub housekept :
    MemoryStore → HousekeepingInput → Instant → Instant × Bytes → HousekeepingResult
housekept s i now (cutoff, since) = record {
  since = since;
  changed_recently = sort_by str_lt (changed_since i.marker_path cutoff (scan_files s));
  observations_over_cap =
      sort_by (less_on (λ (v : ObservationsOverCap). v.path)) (all_observations s i.caps i.targets);
  completed_actions_over_cap =
      sort_by (less_on (λ (v : OverCap). v.path)) (all_completed s i.caps now i.targets);
  improvements_over_cap =
      found i.improvements_path (scan_improvements s i.improvements_path i.caps.improvements_done);
  hot_memory_over_cap = sort_by (less_on (λ (v : OverCap). v.path)) (
      all_hot s i.caps i.targets
      ++ found i.root_hot_memory (scan_hot_memory s i.root_hot_memory i.caps.hot_memory_lines));
  patterns_over_cap =
      found i.patterns_path
        (scan_patterns s i.patterns_path i.caps.patterns_lines i.caps.patterns_bytes);
  dormant_domains =
      sort_by (less_on (λ (d : DormantDomain). d.id)) (all_dormant s i.caps now i.targets);
  stale_action_items = sort_by stale_less (all_stale s i.caps now i.targets);
}

-- The zero value of the caps stands for the default.
abbrev is_zero_caps : HousekeepingCaps → Bool
is_zero_caps c =
    (c.observations_entries == 0)
    && (c.completed_actions == 0)
    && (c.improvements_done == 0)
    && (c.hot_memory_lines == 0)
    && (c.patterns_lines == 0)
    && (c.patterns_bytes == 0)
    && (c.dormant_domain_days == 0)
    && (c.stale_action_item_days == 0)
    && (c.changed_recently_fallback_days == 0)

abbrev with_caps : HousekeepingInput → HousekeepingInput
with_caps i = if is_zero_caps i.caps then record i { caps = default_housekeeping_caps } else i

-- HousekeepingScan
unfoldable pub housekeeping_scan : MemoryStore → HousekeepingInput → Result HousekeepingResult
unfolding resolve_since_cutoff scan_files changed_since all_observations all_dormant all_completed
    all_stale all_hot scan_improvements scan_hot_memory scan_patterns sort_by stale_less str_lt
housekeeping_scan s i =
    let in' = with_caps i in
    let now = if in'.now == zero_time then s.clock else in'.now in
    do
      since ← resolve_since_cutoff s in'.marker_path in'.caps.changed_recently_fallback_days now
      ok (housekept s in' now since)
