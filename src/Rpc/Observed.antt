-- ===== src/Rpc/Observed.antt =====
-- rpc/methods.go: recent_observations and cluster_check.
use cogmemory.Base.{
  Bool, not, ◌&&◌, List, [], Option, none, some, if◌then◌else◌, Bytes, codes, str_eq, is_empty,
  keep, map,
}
use cogmemory.Time.{Instant, zero_time}
use cogmemory.Store.Observations.{ObsTarget, recent_observations}
use cogmemory.Store.Clusters.Check.{ClusterParams, cluster}
use cogmemory.Domain.Controller.{Controller, Target, get, resolve_file, observations}
use cogmemory.Rpc.Files.{answer_with}
use cogmemory.Rpc.Protocol.{
  Externals, Response, Server, error_response, recent, clusters, may, sync, invalid_params,
}
use cogmemory.Rpc.Queries.{can_read, single}
use cogmemory.Rpc.Since.{parse_since, resolve_since, since_day}

pub record RecentObservationsParams : Type 0 where
  pub role : Bytes
  pub since : Bytes
  pub by_tag : Bytes
  pub domain : Bytes
  pub by_domain : Bytes

pub record ClusterCheckParams : Type 0 where
  pub role : Bytes
  pub domain : Bytes
  pub since : Bytes
  pub limits : ClusterParams

-- The targets of a scan of observations; `none` is an error of the caller.
unfoldable pub obs_targets_of : Option Controller → Bytes → Option (List Target)
unfolding get resolve_file observations
obs_targets_of none dom = some []
obs_targets_of (some c) dom =
    if not (is_empty dom) then single c (codes "observations") dom else some (observations c)

-- The targets that pass the test.
abbrev pub readable_obs : (Bytes → Bool) → List Target → List ObsTarget
readable_obs p ts =
    map (λ (t : Target). record { domain = t.domain; path = t.path })
      (keep (λ (t : Target). p t.path) ts)

abbrev pub names_two_domains : RecentObservationsParams → Bool
names_two_domains p =
    not (is_empty p.domain) && not (is_empty p.by_domain) && not (str_eq p.domain p.by_domain)

abbrev pub scope_of : RecentObservationsParams → Bytes
scope_of p = if is_empty p.domain then p.by_domain else p.domain

module _ (x : Externals) (srv : Server) (id : Bytes) where
  abbrev pub answer_recent : RecentObservationsParams → Bytes → Option (List Target) → Response
  answer_recent p day none = error_response id invalid_params
  answer_recent p day (some ts) =
      answer_with id recent
        (recent_observations srv.store (readable_obs (can_read x srv p.role) ts) day p.by_tag [])

  unfoldable pub handle_recent_observations : RecentObservationsParams → Response × Server
  unfolding sync may resolve_since since_day str_eq obs_targets_of recent_observations
  handle_recent_observations p =
      if is_empty p.role
      then (error_response id invalid_params, srv)
      else if names_two_domains p
      then (error_response id invalid_params, srv)
      else elim (resolve_since p.since srv.store.clock) [
        | none ↦ (error_response id invalid_params, srv)
        | some t ↦ (
          answer_recent p (since_day t) (obs_targets_of (sync x srv).controller (scope_of p)),
          sync x srv,
        )
      ]

  -- The parameters of Cluster; `now` is left to it.
  abbrev params_of : ClusterCheckParams → Instant → ClusterParams
  params_of p t = record p.limits { since = t; now = zero_time }

  abbrev pub answer_clusters : ClusterCheckParams → Option (List Target) → Option Instant → Response
  answer_clusters p none t = error_response id invalid_params
  answer_clusters p (some ts) none = error_response id invalid_params
  answer_clusters p (some ts) (some t) =
      answer_with id clusters
        (cluster srv.store (readable_obs (can_read x srv p.role) ts) (params_of p t))

  unfoldable pub handle_cluster_check : ClusterCheckParams → Response × Server
  unfolding sync may parse_since obs_targets_of cluster
  handle_cluster_check p = if is_empty p.role then (error_response id invalid_params, srv) else (
    answer_clusters p (obs_targets_of (sync x srv).controller p.domain)
        (parse_since p.since srv.store.clock),
    sync x srv,
  )
