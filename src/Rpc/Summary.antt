-- ===== src/Rpc/Summary.antt =====
-- rpc/methods.go: domain_summary, with FileExists and FileModTime of store/store.go.
use cogmemory.Base.{
  ℕ, Bool, true, false, not, List, [], ◌∷◌, ◌++◌, Option, none, some, if◌then◌else◌, ◌==◌, ltb,
  Bytes, codes, str_eq, is_empty, pos,
}
use cogmemory.Time.{Instant, Date, zero_time, parse_date, instant, format_day}
use cogmemory.Store.Fs.{Node, file, denied, dir}
use cogmemory.Store.State.{MemoryStore, Result, ok, err, ◌>>=◌, abs_path, stat_checked}
use cogmemory.Store.Files
use cogmemory.Store.Counts.{count_actions}
use cogmemory.Store.Observations.{ObservationEntry, recent_observations_for_file}
use cogmemory.Store.Housekeeping.Scan.{mod_time}
use cogmemory.Domain.Schema.{Info, Domain, info}
use cogmemory.Domain.Controller.{Controller, Resolved, resolved, unresolved, get, resolve_file}
use cogmemory.Rpc.Protocol.{
  Externals, Response, Server, DomainSummaryResult, error_response, ok_response, summary, sync,
  invalid_params, rbac_denied, store_error,
}
use cogmemory.Rpc.Queries.{can_read}
use cogmemory.Rpc.Since.{resolve_since, since_day}

abbrev is_file_node : Option Node → Bool
is_file_node none = false
is_file_node (some (file content t)) = true
is_file_node (some (denied t)) = true
is_file_node (some dir) = false

-- FileExists
unfoldable pub file_exists : MemoryStore → Bytes → Result Bool
unfolding abs_path stat_checked
file_exists s rel = do abs ← abs_path s rel; found ← stat_checked s abs; ok (is_file_node found)

abbrev time_or_zero : Option Node → Instant
time_or_zero none = zero_time
time_or_zero (some n) = mod_time n

-- FileModTime
unfoldable pub file_mod_time : MemoryStore → Bytes → Result Instant
unfolding abs_path stat_checked
file_mod_time s rel = do abs ← abs_path s rel; found ← stat_checked s abs; ok (time_or_zero found)

abbrev later : Instant → Instant → Instant
later t u = if ltb t u then u else t

abbrev later_result : Instant → Result Instant → Instant
later_result t (ok u) = later t u
later_result t (err e) = later t zero_time

-- The newest of the dates of some entries, on top of a time.
abbrev later_date : Instant → Option Date → Instant
later_date t none = t
later_date t (some d) = later t (instant d)

unfoldable pub newest : Instant → List ObservationEntry → Instant
unfolding parse_date
newest t [] = t
newest t (e ∷ es) = newest (later_date t (parse_date e.date)) es

-- The result so far, with the last activity.
abbrev pub Progress : Type 0
Progress = DomainSummaryResult × Instant

abbrev with_content : Progress → Result Bytes → Progress
with_content (r, t) (ok content) = (record r { hot_memory = content }, t)
with_content (r, t) (err e) = (r, t)

abbrev with_counts : Progress → Result (ℕ × ℕ) → Progress
with_counts (r, t) (ok counts) =
    (record r { open_action_count = counts.0; completed_action_count_since = counts.1 }, t)
with_counts (r, t) (err e) = (r, t)

abbrev with_entries : Progress → Result (List ObservationEntry) → Progress
with_entries (r, t) (ok es) = (record r { recent_observations = es }, newest t es)
with_entries (r, t) (err e) = (r, t)

-- The switch over the canonical names.
unfoldable pub read_declared : MemoryStore → Bytes → Bytes → Bytes → Progress → Progress
unfolding Files.read count_actions recent_observations_for_file newest str_eq
read_declared s day name rel p =
    if str_eq name (codes "hot-memory")
    then with_content p (Files.read s rel [] (pos 0) (pos 0))
    else if str_eq name (codes "action-items")
    then with_counts p (count_actions s rel day)
    else if str_eq name (codes "observations")
    then with_entries p (recent_observations_for_file s rel day)
    else p

abbrev is_there : Result Bool → Bool
is_there (ok b) = b
is_there (err e) = false

abbrev noted : MemoryStore → Bytes → Bytes → Progress → Progress
noted s name rel (r, t) = (
  record r { files_present = r.files_present ++ (name ∷ []) },
  later_result t (file_mod_time s rel),
)

abbrev summarize_at : (Bytes → Bool) → MemoryStore → Bytes → Bytes → Resolved → Progress → Progress
summarize_at p s day name (unresolved e) acc = acc
summarize_at p s day name (resolved rel) acc =
    if not (p rel)
    then acc
    else if not (is_there (file_exists s rel))
    then acc
    else read_declared s day name rel (noted s name rel acc)

-- The loop over the declared files.
unfoldable pub summarize_files :
    (Bytes → Bool) → MemoryStore → Controller → Bytes → Bytes → List Bytes → Progress → Progress
unfolding resolve_file file_exists file_mod_time read_declared
summarize_files p s c day id [] acc = acc
summarize_files p s c day id (name ∷ names) acc =
    summarize_files p s c day id names (summarize_at p s day name (resolve_file c id name) acc)

abbrev empty_summary : Info → Bytes → DomainSummaryResult
empty_summary i day = record {
  domain = i.id;
  path = i.path;
  label = i.label;
  hot_memory = [];
  open_action_count = 0;
  completed_action_count_since = 0;
  recent_observations = [];
  files_present = [];
  last_activity = [];
  since = day;
}

abbrev with_activity : Progress → DomainSummaryResult
with_activity (r, t) = record r { last_activity = if t == zero_time then [] else format_day t }

module _ (x : Externals) (srv : Server) (id role : Bytes) where
  abbrev pub summarize : Controller → Info → Option Instant → Response
  summarize c i none = error_response id invalid_params
  summarize c i (some t) = ok_response id (
      summary (
        with_activity (
          summarize_files (can_read x srv role) srv.store c (since_day t) i.id i.files
            (empty_summary i (since_day t), zero_time))))

  abbrev pub summarize_domain : Bytes → Controller → Option Domain → Response
  summarize_domain since c none = error_response id invalid_params
  summarize_domain since c (some d) =
      if not (can_read x srv role (info d).path)
      then error_response id rbac_denied
      else summarize c (info d) (resolve_since since srv.store.clock)

  abbrev pub summarize_with : Bytes → Bytes → Option Controller → Response
  summarize_with dom since none = error_response id store_error
  summarize_with dom since (some c) = summarize_domain since c (get c dom)

  unfoldable pub handle_domain_summary : Bytes → Bytes → Response × Server
  unfolding sync get resolve_since since_day summarize_files format_day
  handle_domain_summary dom since =
      if is_empty role
      then (error_response id invalid_params, srv)
      else if is_empty dom
      then (error_response id invalid_params, srv)
      else (summarize_with dom since (sync x srv).controller, sync x srv)
