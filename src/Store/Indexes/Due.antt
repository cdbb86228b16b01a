-- ===== src/Store/Indexes/Due.antt =====
-- What ScenarioCheck says of the day of a check.
use cogmemory.Base.{
  ℕ, zero, suc, ◌≤◌, ◌∙◌, Bool-cases, inl, inr, codes, ◌+◌, ◌-◌, ◌*◌, ◌/◌, not, List, [], ◌∷◌,
  Option, none, some, ◌≡◌, refl, arith, Bytes, if◌then◌else◌, ◌==◌, ltb, leb, min, is_empty,
  trim_space, All, All-if, All-sort_by, IsSorted, sort_by-IsSorted, less_on-IsOrder, less_on, pos,
}
use cogmemory.Time.{
  Instant, Date, day_ns, day_number, parse_date, instant, days_since, neg_of, max_duration,
}
use cogmemory.Store.State.{MemoryStore}
use cogmemory.Store.Scan.{Scanned}
use cogmemory.Store.Indexes.{
  ScenarioFrontmatter, ScenarioEntry, ScenarioStatus, active, due_now, overdue, status_of,
  scheduled, is_active, scenario_of, meta_of, scenario_entries, scenario_check, files_below,
}

abbrev due_status : ℕ → ℕ → ScenarioStatus
due_status day today = if ltb day today then overdue else if day == today then due_now else active

-- The date of the entry reads, and the status compares its day with the day `today`.
abbrev pub IsDue : ℕ → ScenarioEntry → Type 0
IsDue today e =
    (d : Date) × (parse_date e.check_by ≡ some d) × (e.status ≡ due_status (day_number d) today)

status_of-days_since :
    (d : Date) (today : ℕ)
    → status_of (days_since (instant d) (today * day_ns)) ≡ due_status (day_number d) today
unfolding days_since
status_of-days_since d today = elim (Bool-cases (leb (today * day_ns) (day_number d * day_ns))) [
  | inl h ↦ rw h (later (day_number d) (ground arith))
  | inr h ↦ rw h (earlier (day_number d) (ground arith))
]
  where
    status_pos : (n : ℕ) → 1 ≤ n → status_of (pos n) ≡ active
    status_pos zero h = absurd (omega arith)
    status_pos (suc n) h = refl

    status_neg : (n : ℕ) → 1 ≤ n → status_of (neg_of n) ≡ overdue
    status_neg zero h = absurd (omega arith)
    status_neg (suc n) h = refl

    later :
        (n : ℕ)
        → today ≤ n
        → status_of (pos (min (n * day_ns - today * day_ns) max_duration / day_ns))
          ≡ due_status n today
    later n h = elim (Bool-cases (n == today)) [
      | inl e ↦
          let none_left : min (n * day_ns - today * day_ns) max_duration / day_ns ≡ 0 =
            ground arith in
          rw none_left (ground arith)
      | inr e ↦ status_pos _ (ground arith) ∙ ground arith
    ]

    earlier :
        (n : ℕ)
        → n + 1 ≤ today
        → status_of (neg_of (min (today * day_ns - n * day_ns) (max_duration + 1) / day_ns))
          ≡ due_status n today
    earlier n h = status_neg _ (omega arith) ∙ ground arith

module _ (today : ℕ) where
  scheduled-IsDue :
      (path check_by : Bytes) (o : Option Date) (rest : List ScenarioEntry)
      → parse_date check_by ≡ o
      → All (IsDue today) rest
      → All (IsDue today) (scheduled path check_by (today * day_ns) o rest)
  scheduled-IsDue path check_by none rest h k = k
  scheduled-IsDue path check_by (some d) rest h k = ((d, h, status_of-days_since d today), k)

  scenario_of-IsDue :
      (path : Bytes) (o : Option ScenarioFrontmatter) (rest : List ScenarioEntry)
      → All (IsDue today) rest
      → All (IsDue today) (scenario_of path (today * day_ns) o rest)
  scenario_of-IsDue path none rest k = k
  scenario_of-IsDue path (some m) rest k =
      All-if (IsDue today) (not (is_active (trim_space m.status))) rest _ k (
        All-if (IsDue today) (is_empty (trim_space m.check_by)) rest _ k (
          scheduled-IsDue path (trim_space m.check_by) (parse_date (trim_space m.check_by)) rest
            refl k))

  scenario_entries-IsDue :
      (yaml : Bytes → Option ScenarioFrontmatter) (fs : List Scanned)
      → All (IsDue today) (scenario_entries yaml (today * day_ns) fs)
  unfolding scenario_entries
  scenario_entries-IsDue yaml [] = tt
  scenario_entries-IsDue yaml (f ∷ fs) =
      scenario_of-IsDue f.rel (meta_of yaml f.node) (scenario_entries yaml (today * day_ns) fs)
        (scenario_entries-IsDue yaml fs)

-- Each scenario that ScenarioCheck lists has a date of its check, and is overdue exactly if that date is
-- before the day of `now`, due now if it is that day, and active if it is later; the list is sorted by path.
pub scenario_check-IsDue :
    (yaml : Bytes → Option ScenarioFrontmatter) (s : MemoryStore) (now : Instant)
    → All (IsDue (now / day_ns)) (scenario_check yaml s now)
      × IsSorted (less_on (λ (e : ScenarioEntry). e.path)) (scenario_check yaml s now)
unfolding scenario_check
scenario_check-IsDue yaml s now = (
  All-sort_by (IsDue (now / day_ns)) _ _
      (scenario_entries-IsDue (now / day_ns) yaml (files_below s _)),
  sort_by-IsSorted _ (less_on-IsOrder (λ (e : ScenarioEntry). e.path))
      (scenario_entries yaml (now / day_ns * day_ns) (files_below s (codes "cog-meta/scenarios"))),
)
