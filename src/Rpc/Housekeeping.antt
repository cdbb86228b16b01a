-- ===== src/Rpc/Housekeeping.antt =====
-- rpc/housekeeping.go: the method housekeeping_scan.
pub mod Disclosed
use cogmemory.Base.{
  Bool, not, ◌&&◌, List, [], ◌∷◌, ◌++◌, Option, none, some, if◌then◌else◌, Bytes, codes, is_empty,
  keep,
}
use cogmemory.Time.{zero_time}
use cogmemory.Store.State.{Result, ok, err}
use cogmemory.Store.Housekeeping.{default_housekeeping_caps}
use cogmemory.Store.Housekeeping.Scan.{
  HousekeepingTarget, HousekeepingInput, HousekeepingResult, housekeeping_scan,
}
use cogmemory.Domain.Schema.{Domain, info, walk}
use cogmemory.Domain.Controller.{Controller, Resolved, resolved, unresolved, resolve_file}
use cogmemory.Rpc.Protocol.{
  Externals, Response, Server, error_response, ok_response, housekeeping, sync, invalid_params,
  store_error,
}
use cogmemory.Rpc.Queries.{can_read}

abbrev pub root_hot_memory : Bytes
root_hot_memory = codes "hot-memory.md"

abbrev pub patterns_path : Bytes
patterns_path = codes "cog-meta/patterns.md"

abbrev pub improvements_path : Bytes
improvements_path = codes "cog-meta/improvements.md"

abbrev pub marker_path : Bytes
marker_path = codes "cog-meta/.housekeeping-marker"

abbrev path_or_none : Resolved → Bytes
path_or_none (resolved path) = path
path_or_none (unresolved e) = []

abbrev target_of : Controller → Domain → HousekeepingTarget
target_of c d = record {
  domain_id = (info d).id;
  observations_path = path_or_none (resolve_file c (info d).id (codes "observations"));
  action_items_path = path_or_none (resolve_file c (info d).id (codes "action-items"));
  hot_memory_path = path_or_none (resolve_file c (info d).id (codes "hot-memory"));
}

abbrev pub has_no_path : HousekeepingTarget → Bool
has_no_path t =
    is_empty t.observations_path && is_empty t.action_items_path && is_empty t.hot_memory_path

-- collectHousekeepingTargets over the domains in the order of the walk
unfoldable pub collect_housekeeping_targets : Controller → List Domain → List HousekeepingTarget
unfolding resolve_file
collect_housekeeping_targets c [] = []
collect_housekeeping_targets c (d ∷ ds) =
    let rest = collect_housekeeping_targets c ds in
    if has_no_path (target_of c d) then rest else target_of c d ∷ rest

-- A path that cannot be read is left out.
abbrev pub blank : (Bytes → Bool) → Bytes → Bytes
blank p path = if not (is_empty path) && not (p path) then [] else path

abbrev pub readable_target : (Bytes → Bool) → HousekeepingTarget → HousekeepingTarget
readable_target p t = record t {
  observations_path = blank p t.observations_path;
  action_items_path = blank p t.action_items_path;
  hot_memory_path = blank p t.hot_memory_path;
}

-- filterHousekeepingTargets
unfoldable pub filter_housekeeping_targets :
    (Bytes → Bool) → List HousekeepingTarget → List HousekeepingTarget
filter_housekeeping_targets p [] = []
filter_housekeeping_targets p (t ∷ ts) =
    let rest = filter_housekeeping_targets p ts in
    if has_no_path (readable_target p t) then rest else readable_target p t ∷ rest

-- filterReadablePaths
unfoldable pub filter_readable_paths : (Bytes → Bool) → List Bytes → List Bytes
filter_readable_paths p paths = keep p paths

abbrev pub all_targets : Option Controller → List HousekeepingTarget
all_targets none = []
all_targets (some c) = collect_housekeeping_targets c (walk c.domains)

abbrev pub readable_or_none : (Bytes → Bool) → Bytes → Bytes
readable_or_none p path = if not (p path) then [] else path

unfoldable pub housekeeping_input : (Bytes → Bool) → Option Controller → HousekeepingInput
unfolding collect_housekeeping_targets filter_housekeeping_targets walk
housekeeping_input p c = record {
  targets = filter_housekeeping_targets p (all_targets c);
  root_hot_memory = readable_or_none p root_hot_memory;
  patterns_path = readable_or_none p patterns_path;
  improvements_path = readable_or_none p improvements_path;
  marker_path = marker_path;
  caps = default_housekeeping_caps;
  now = zero_time;
}

abbrev pub answer_housekeeping : (Bytes → Bool) → Bytes → Result HousekeepingResult → Response
answer_housekeeping p id (err e) = error_response id store_error
answer_housekeeping p id (ok r) =
    ok_response id
      (housekeeping (record r { changed_recently = filter_readable_paths p r.changed_recently }))

module _ (x : Externals) where
  unfoldable pub handle_housekeeping_scan : Server → Bytes → Bytes → Response × Server
  unfolding sync housekeeping_input housekeeping_scan filter_readable_paths
  handle_housekeeping_scan srv id role =
      if is_empty role then (error_response id invalid_params, srv) else (
        answer_housekeeping (can_read x srv role) id (
            housekeeping_scan srv.store
              (housekeeping_input (can_read x srv role) (sync x srv).controller)),
        sync x srv,
      )
