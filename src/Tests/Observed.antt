-- ===== src/Tests/Observed.antt =====
-- The theorems on observations, clusters, housekeeping and scenarios.
use cogmemory.Base.{
  ◌+◌, ◌/◌, Option, ◌≡◌, refl, codes, not, some, [], ◌∷◌, List, Bytes, ltb, IsSorted, less_on, All,
  sort_by,
}
use cogmemory.Time.{day_number, Date, Instant, instant, parse_date, day_ns, zero_time}
use cogmemory.FilePath.{clean, join_path}
use cogmemory.Store.Fs
use cogmemory.Store.Fs.{file}
use cogmemory.Store.State.{MemoryStore, ok}
use cogmemory.Store.Observations.{
  ObsTarget, ObservationEntry, RecentObservationsResult, aggregated, is_recent,
  parse_observation_line, recent_observations,
}
use cogmemory.Store.Observations.Recent.{
  passes, IsTallied, recent_observations_filtered, recent_observations-IsTallied,
}
use cogmemory.Store.Clusters.{Observation, parse_cluster_obs, span_days}
use cogmemory.Store.Clusters.Span.{IsSpan, span_days-IsSpan}
use cogmemory.Store.Clusters.Windows.{windows_agree}
use cogmemory.Store.Clusters.Check.{
  ClusterParams, ClusterResult, cluster, collect_observations, since_of, limits_of,
}
use cogmemory.Store.Clusters.Clustered.{IsClustered, cluster-IsClustered}
use cogmemory.Store.Housekeeping.{scanned_lines, scan_observations}
use cogmemory.Store.Housekeeping.Tallied.{IsReport, primary_tags, scan_observations-IsReport}
use cogmemory.Store.Indexes.{ScenarioEntry, ScenarioFrontmatter, scenario_check}
use cogmemory.Store.Indexes.Due.{IsDue, scenario_check-IsDue}
use cogmemory.Store.Lines.{newline}
use cogmemory.Store.Entities.{EntityAuditResult}
use cogmemory.Store.Entities.Audit.{audit_one_entities_file}
use cogmemory.Store.Entities.Totals.{AreTotals, headings, audit_one_entities_file-AreTotals}
use cogmemory.Base.{split, length, pos, has_prefix, str_eq}

abbrev line_one : Bytes
line_one = codes "- 2026-01-02 [a, b]: one"

abbrev line_two : Bytes
line_two = codes "- 2026-01-03 [a]: two"

abbrev content : Bytes
content = codes "- 2026-01-02 [a, b]: one\n- 2026-01-03 [a]: two\n"

abbrev diary : MemoryStore
diary = record { root = codes "/m"; fs = (codes "/m/o.md", file content 5) ∷ []; clock = 9 }

abbrev targets : List ObsTarget
targets = record { domain = codes "job"; path = codes "o.md" } ∷ []

abbrev entry_one : ObservationEntry
entry_one = record {
  domain = codes "job";
  path = codes "o.md";
  line = 1;
  date = codes "2026-01-02";
  tags = codes "a" ∷ codes "b" ∷ [];
  text = codes "one";
}

abbrev entry_two : ObservationEntry
entry_two = record {
  domain = codes "job";
  path = codes "o.md";
  line = 2;
  date = codes "2026-01-03";
  tags = codes "a" ∷ [];
  text = codes "two";
}

abbrev all_entries : RecentObservationsResult
all_entries = record {
  since = [];
  entries = entry_two ∷ entry_one ∷ [];
  by_domain = (codes "job", 2) ∷ [];
  by_tag = (codes "a", 2) ∷ (codes "b", 1) ∷ [];
}

found_all : recent_observations diary targets [] [] [] ≡ ok all_entries
unfolding recent_observations clean join_path Fs.stat
found_all = refl

recent_observations_filtered_example :
    recent_observations diary targets (codes "2026-01-03") [] []
    ≡ ok (aggregated (codes "2026-01-03") (entry_two ∷ []))
unfolding passes
recent_observations_filtered_example =
    recent_observations_filtered (codes "2026-01-03") [] [] diary targets all_entries found_all

recent_observations-IsTallied_example : IsTallied all_entries
recent_observations-IsTallied_example =
    recent_observations-IsTallied diary targets [] [] [] all_entries found_all

abbrev obs_one : Observation
obs_one = record {
  domain = codes "job";
  path = codes "o.md";
  line = 1;
  time = instant (record { year = 2026; month = 1; day = 2 });
  date = codes "2026-01-02";
  tags = codes "a" ∷ codes "b" ∷ [];
  text = codes "one";
}

abbrev obs_two : Observation
obs_two = record {
  domain = codes "job";
  path = codes "o.md";
  line = 2;
  time = instant (record { year = 2026; month = 1; day = 3 });
  date = codes "2026-01-03";
  tags = codes "a" ∷ [];
  text = codes "two";
}

span_days-IsSpan_example : IsSpan (obs_one ∷ obs_two ∷ []) (span_days (obs_one ∷ obs_two ∷ []))
span_days-IsSpan_example = span_days-IsSpan obs_one (obs_two ∷ [])

parsed_entry : parse_observation_line (codes "job") (codes "o.md") 1 line_one ≡ some entry_one
unfolding parse_observation_line
parsed_entry = refl

parsed_obs : parse_cluster_obs (codes "job") (codes "o.md") 1 line_one ≡ some obs_one
unfolding parse_cluster_obs
parsed_obs = refl

abbrev third : Date
third = record { year = 2026; month = 1; day = 3 }

read_third : parse_date (codes "2026-01-03") ≡ some third
unfolding parse_date
read_third = refl

windows_agree_example :
    is_recent (codes "2026-01-03") entry_one ≡ not (ltb obs_one.time (instant third))
windows_agree_example =
    windows_agree (codes "job") (codes "o.md") 1 line_one entry_one obs_one (codes "2026-01-03")
      third parsed_entry parsed_obs read_third

abbrev params : ClusterParams
params = record {
  min_cluster_size = pos 2;
  since = instant (record { year = 2026; month = 1; day = 1 });
  span_days = pos 2;
  sample_limit = pos 1;
  now = zero_time;
}

abbrev found_clusters : ClusterResult
found_clusters = record {
  by_tag =
      record {
        name = codes "a";
        count = 2;
        spans_days = 2;
        domains = codes "job" ∷ [];
        samples =
            record {
              date = codes "2026-01-03";
              domain = codes "job";
              path = codes "o.md";
              line = 2;
              text = codes "two";
            }
            ∷ [];
      }
      ∷ [];
  by_keyword = [];
  thread_candidates =
      record {
        topic = codes "tag:a";
        fragment_count = 2;
        date_range = codes "2026-01-02..2026-01-03";
      }
      ∷ [];
}

clustered : cluster diary targets params ≡ ok found_clusters
unfolding cluster clean join_path Fs.stat day_number
clustered = refl

cluster-IsClustered_example :
    (all : List Observation) × (collect_observations diary
        (since_of params diary.clock)
        (sort_by (less_on (λ (t : ObsTarget). t.path)) targets)
      ≡ ok all)
    × IsClustered (limits_of params) (since_of params diary.clock) all found_clusters
cluster-IsClustered_example = cluster-IsClustered diary targets params found_clusters clustered

lines_scanned : scanned_lines diary (codes "o.md") ≡ some (line_one ∷ line_two ∷ [])
unfolding scanned_lines has_prefix clean str_eq join_path Fs.stat
lines_scanned = refl

scan_observations-IsReport_example :
    IsReport
      (codes "o.md")
      1
      (primary_tags (line_one ∷ line_two ∷ []))
      (scan_observations diary (codes "o.md") 1)
scan_observations-IsReport_example =
    scan_observations-IsReport diary (codes "o.md") 1 (line_one ∷ line_two ∷ []) lines_scanned

abbrev planned : MemoryStore
planned = record {
  root = codes "/m";
  fs = (codes "/m/cog-meta/scenarios/s.md", file (codes "---\nx\n---\n") 5) ∷ [];
  clock = 9;
}

abbrev frontmatter : Bytes → Option ScenarioFrontmatter
frontmatter block = some (record { status = codes "active"; check_by = codes "2026-01-03" })

abbrev now : Instant
now = instant (record { year = 2026; month = 1; day = 2 }) + 5

scenario_check-IsDue_example :
    All (IsDue (now / day_ns)) (scenario_check frontmatter planned now)
    × IsSorted (less_on (λ (e : ScenarioEntry). e.path)) (scenario_check frontmatter planned now)
scenario_check-IsDue_example = scenario_check-IsDue frontmatter planned now

abbrev no_audit : EntityAuditResult
no_audit = record {
  format_violations = [];
  glacier_candidates = [];
  missing_metadata = [];
  temporal_violations = [];
  total_entries = 0;
  total_lines = 0;
}

abbrev entities : Bytes
entities = codes "# E\n### Ann (friend)\nstatus: active | last: 2026-01-02\n"

audit_one_entities_file-AreTotals_example :
    AreTotals no_audit
      (headings (split newline entities))
      (length (split newline entities))
      (audit_one_entities_file no_audit (codes "job") (codes "e.md") entities now)
audit_one_entities_file-AreTotals_example =
    audit_one_entities_file-AreTotals no_audit (codes "job") (codes "e.md") entities now
