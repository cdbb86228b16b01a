-- ===== src/Store/Indexes.antt =====
-- store/store.go, store/wiki.go: GlacierIndex, WikiIndex and ScenarioCheck, over the markdown files of
-- one directory.
pub mod Due
use cogmemory.Base.{
  ℕ, zero, suc, ◌-◌, ◌*◌, ◌/◌, Bool, true, false, not, ◌&&◌, ◌||◌, List, [], ◌∷◌, ◌++◌, Option,
  none, some, if◌then◌else◌, Bytes, codes, str_eq, str_lt, has_prefix, has_suffix, trim_space,
  is_empty, keep, sort_by, less_on, ℤ, pos, negsuc,
}
use cogmemory.FilePath.{slash, join_path}
use cogmemory.Time.{Instant, Date, day_ns, parse_date, instant, days_since}
use cogmemory.Store.Fs.{Node, file, denied, dir}
use cogmemory.Store.State.{MemoryStore, stat}
use cogmemory.Store.Scan.{Scanned, scan_files}
use cogmemory.Store.Files.{extract_frontmatter}

abbrev pub in_dir : Bytes → Scanned → Bool
in_dir name f = has_prefix f.rel (name ++ (slash ∷ [])) && has_suffix f.rel (codes ".md")

-- The markdown files that WalkDir finds below a directory of the root, if it is one.
abbrev files_at : Option Node → List Scanned → List Scanned
files_at (some dir) fs = fs
files_at (some (file content t)) fs = []
files_at (some (denied t)) fs = []
files_at none fs = []

unfoldable pub files_below : MemoryStore → Bytes → List Scanned
unfolding scan_files stat join_path has_prefix has_suffix
files_below s name = files_at (stat s (join_path s.root name)) (keep (in_dir name) (scan_files s))

-- The frontmatter of a file that can be read, as yaml.Unmarshal understands it.
abbrev pub meta_of {ℓ} : {A : Type ℓ} → (Bytes → Option A) → Node → Option A
meta_of yaml (file content t) = elim (extract_frontmatter content) [
  | none ↦ none
  | some block ↦ yaml block
]
meta_of yaml (denied t) = none
meta_of yaml dir = none

pub record GlacierMeta : Type 0 where
  pub domain : Bytes
  pub kind : Bytes
  pub tags : List Bytes
  pub date_range : Bytes
  pub entries : ℤ
  pub summary : Bytes

pub record GlacierEntry : Type 0 where
  pub path : Bytes
  pub domain : Bytes
  pub kind : Bytes
  pub tags : List Bytes
  pub date_range : Bytes
  pub entries : ℤ
  pub summary : Bytes

abbrev glacier_entry : Bytes → Option GlacierMeta → GlacierEntry
glacier_entry path none = record {
  path = path;
  domain = [];
  kind = [];
  tags = [];
  date_range = [];
  entries = pos 0;
  summary = [];
}
glacier_entry path (some m) = record {
  path = path;
  domain = m.domain;
  kind = m.kind;
  tags = m.tags;
  date_range = m.date_range;
  entries = m.entries;
  summary = m.summary;
}

unfoldable pub glacier_entries : (Bytes → Option GlacierMeta) → List Scanned → List GlacierEntry
unfolding extract_frontmatter
glacier_entries yaml [] = []
glacier_entries yaml (f ∷ fs) = glacier_entry f.rel (meta_of yaml f.node) ∷ glacier_entries yaml fs

-- GlacierIndex
unfoldable pub glacier_index : (Bytes → Option GlacierMeta) → MemoryStore → List GlacierEntry
unfolding files_below glacier_entries sort_by str_lt
glacier_index yaml s =
    sort_by (less_on (λ (e : GlacierEntry). e.path))
      (glacier_entries yaml (files_below s (codes "glacier")))

pub record WikiMeta : Type 0 where
  pub title : Bytes
  pub summary : Bytes
  pub updated : Bytes
  pub entity_type : Bytes
  pub status : Bytes
  pub tags : List Bytes
  pub related : List Bytes

pub record WikiEntry : Type 0 where
  pub path : Bytes
  pub category : Bytes
  pub title : Bytes
  pub status : Bytes
  pub tags : List Bytes
  pub summary : Bytes
  pub updated : Bytes
  pub related : List Bytes

abbrev wiki_entry : Bytes → Option WikiMeta → WikiEntry
wiki_entry path none = record {
  path = path;
  category = [];
  title = [];
  status = [];
  tags = [];
  summary = [];
  updated = [];
  related = [];
}
wiki_entry path (some m) = record {
  path = path;
  category = m.entity_type;
  title = m.title;
  status = m.status;
  tags = m.tags;
  summary = m.summary;
  updated = m.updated;
  related = m.related;
}

-- The catalog and the registry are no content pages.
unfoldable pub is_derived : Bytes → Bool
unfolding str_eq has_prefix
is_derived rel = str_eq rel (codes "wiki/index.md") || has_prefix rel (codes "wiki/_meta/")

unfoldable pub wiki_entries : (Bytes → Option WikiMeta) → List Scanned → List WikiEntry
unfolding extract_frontmatter is_derived
wiki_entries yaml [] = []
wiki_entries yaml (f ∷ fs) =
    let rest = wiki_entries yaml fs in
    if is_derived f.rel then rest else wiki_entry f.rel (meta_of yaml f.node) ∷ rest

-- WikiIndex
unfoldable pub wiki_index : (Bytes → Option WikiMeta) → MemoryStore → List WikiEntry
unfolding files_below wiki_entries sort_by str_lt
wiki_index yaml s =
    sort_by (less_on (λ (e : WikiEntry). e.path)) (wiki_entries yaml (files_below s (codes "wiki")))

-- scenarioFrontmatter
pub record ScenarioFrontmatter : Type 0 where
  pub status : Bytes
  pub check_by : Bytes

pub data ScenarioStatus : Type 0 where
  active due_now overdue : ScenarioStatus

pub record ScenarioEntry : Type 0 where
  pub path : Bytes
  pub check_by : Bytes
  pub status : ScenarioStatus
  pub days_until_check : ℤ

abbrev pub status_of : ℤ → ScenarioStatus
status_of (negsuc n) = overdue
status_of (pos zero) = due_now
status_of (pos (suc n)) = active

abbrev scheduled : Bytes → Bytes → Instant → Option Date → List ScenarioEntry → List ScenarioEntry
scheduled path check_by today none rest = rest
scheduled path check_by today (some d) rest =
    let days = days_since (instant d) today in
    record { path = path; check_by = check_by; status = status_of days; days_until_check = days }
    ∷ rest

abbrev pub is_active : Bytes → Bool
is_active status = is_empty status || str_eq status (codes "active")

abbrev scenario_of :
    Bytes → Instant → Option ScenarioFrontmatter → List ScenarioEntry → List ScenarioEntry
scenario_of path today none rest = rest
scenario_of path today (some m) rest =
    if not (is_active (trim_space m.status))
    then rest
    else if is_empty (trim_space m.check_by)
    then rest
    else scheduled path (trim_space m.check_by) today (parse_date (trim_space m.check_by)) rest

unfoldable pub scenario_entries :
    (Bytes → Option ScenarioFrontmatter) → Instant → List Scanned → List ScenarioEntry
unfolding extract_frontmatter trim_space str_eq parse_date days_since
scenario_entries yaml today [] = []
scenario_entries yaml today (f ∷ fs) =
    let rest = scenario_entries yaml today fs in scenario_of f.rel today (meta_of yaml f.node) rest

-- ScenarioCheck, from the start of the day
unfoldable pub scenario_check :
    (Bytes → Option ScenarioFrontmatter) → MemoryStore → Instant → List ScenarioEntry
unfolding files_below scenario_entries sort_by str_lt
scenario_check yaml s now =
    sort_by (less_on (λ (e : ScenarioEntry). e.path))
      (scenario_entries yaml (now / day_ns * day_ns) (files_below s (codes "cog-meta/scenarios")))
