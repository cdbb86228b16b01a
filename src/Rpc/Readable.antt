-- ===== src/Rpc/Readable.antt =====
-- What the answers of the filtered queries disclose.
use cogmemory.Base.{List, [], Option, none, some, arith, Bytes, All-keep, is_empty, not, map}
use cogmemory.Domain.Schema.{Domain, info}
use cogmemory.Domain.Controller.{get, Controller, Target}
use cogmemory.Link.Index.{link_index, link_index_filtered}
use cogmemory.Store.Actions.{OpenActionItem, ActionTarget}
use cogmemory.Rpc.Protocol.{Externals, Server, Response, error_response, sync, invalid_params}
use cogmemory.Rpc.Brief.{handle_session_brief}
use cogmemory.Rpc.Housekeeping.{handle_housekeeping_scan}
use cogmemory.Rpc.Housekeeping.Disclosed.{scan-NamesReadable}
use cogmemory.Store.Indexes.{GlacierEntry, WikiEntry, ScenarioEntry}
use cogmemory.Store.Indexes
use cogmemory.Store.Observations.Placed.{recent_observations-IsFrom}
use cogmemory.Rpc.Indexes.{
  handle_glacier_index_compute, handle_wiki_index_compute, handle_scenario_check,
}
use cogmemory.Rpc.Observed.{
  RecentObservationsParams, handle_recent_observations, names_two_domains, scope_of, obs_targets_of,
  answer_recent, readable_obs,
}
use cogmemory.Rpc.Since.{resolve_since, since_day}
use cogmemory.Time.{Instant}
use cogmemory.Rpc.Queries.{
  handle_open_actions, handle_domains_list, handle_domains_get, handle_link_index_compute,
  handle_link_audit, can_read, answer_items, visible_domains, answer_domain, get_domain, to_list,
  to_action_target, open_targets,
}
use cogmemory.Rpc.Dispatch.{
  session_brief, housekeeping_scan, glacier_index_compute, wiki_index_compute, scenario_check,
  recent_observations, Call, dispatch, link_index_compute, link_audit, open_actions, domains_list,
  domains_get,
}
use cogmemory.Store.Actions
use cogmemory.Rpc.Payloads.{
  Answers, filter_entries_readable, link_audit_readable, filtered_items_readable, if-Answers,
  if_served-Answers, brief_answered, housekeeping_answered, readable_obs_pass, entries_answered,
}

module _ (x : Externals) (srv : Server) where
  -- The paths that `Answers` looks at, in the answer to a query that filters, are readable for its role.
  abbrev pub DisclosesReadable : Call → Type 0
  DisclosesReadable (open_actions id role d) =
      Answers (can_read x srv role) (dispatch x srv (open_actions id role d)).0
  DisclosesReadable (domains_list id role) =
      Answers (can_read x srv role) (dispatch x srv (domains_list id role)).0
  DisclosesReadable (domains_get id role want) =
      Answers (can_read x srv role) (dispatch x srv (domains_get id role want)).0
  DisclosesReadable (link_index_compute id role) =
      Answers (can_read x srv role) (dispatch x srv (link_index_compute id role)).0
  DisclosesReadable (link_audit id role) =
      Answers (can_read x srv role) (dispatch x srv (link_audit id role)).0
  DisclosesReadable (session_brief id role) =
      Answers (can_read x srv role) (dispatch x srv (session_brief id role)).0
  DisclosesReadable (housekeeping_scan id role) =
      Answers (can_read x srv role) (dispatch x srv (housekeeping_scan id role)).0
  DisclosesReadable (glacier_index_compute id role) =
      Answers (can_read x srv role) (dispatch x srv (glacier_index_compute id role)).0
  DisclosesReadable (wiki_index_compute id role) =
      Answers (can_read x srv role) (dispatch x srv (wiki_index_compute id role)).0
  DisclosesReadable (scenario_check id role) =
      Answers (can_read x srv role) (dispatch x srv (scenario_check id role)).0
  DisclosesReadable (recent_observations id q) =
      Answers (can_read x srv q.role) (dispatch x srv (recent_observations id q)).0
  DisclosesReadable _ = Unit

  items_answered :
      (id role : Bytes) (ts : Option (List Target))
      → Answers (can_read x srv role) (answer_items x srv id role ts)
  items_answered id role none = tt
  items_answered id role (some ts) =
      filtered_items_readable (can_read x srv role) id
        (Actions.open_actions srv.store (map to_action_target ts))

  domains_answered :
      (id role : Bytes) (o : Option Controller)
      → Answers
          (can_read x srv role)
          (visible_domains (λ d. can_read x srv role (info d).path) id o)
  domains_answered id role none = tt
  domains_answered id role (some c) =
      All-keep (λ d. can_read x srv role (info d).path) (to_list c.domains)

  domain_answered :
      (id role : Bytes) (o : Option Domain)
      → Answers (can_read x srv role) (answer_domain x srv id role o)
  domain_answered id role none = tt
  domain_answered id role (some d) =
      if-Answers (can_read x srv role) (not (can_read x srv role (info d).path)) _ _ tt
        (λ h. ground arith)

  recent_answered :
      (id : Bytes) (q : RecentObservationsParams)
      → Answers (can_read x srv q.role) (handle_recent_observations x srv id q).0
  unfolding handle_recent_observations
  recent_answered id q = if_served-Answers (can_read x srv q.role) (is_empty q.role) _ _ tt (
      if_served-Answers (can_read x srv q.role) (names_two_domains q) _ _ tt
        (from (resolve_since q.since srv.store.clock)))
    where
      found :
          (day : Bytes) (o : Option (List Target))
          → Answers (can_read x srv q.role) (answer_recent x srv id q day o)
      found day none = tt
      found day (some ts) = entries_answered (can_read x srv q.role) id _ (
          recent_observations-IsFrom (can_read x srv q.role) srv.store
            (readable_obs (can_read x srv q.role) ts) day q.by_tag []
            (readable_obs_pass (can_read x srv q.role) ts))

      from :
          (o : Option Instant)
          → Answers
              (can_read x srv q.role)
              (elim o as (λ _. Response × Server) [
                | none ↦ (error_response id invalid_params, srv)
                | some t ↦ (
                  answer_recent x srv id q
                      (since_day t)
                      (obs_targets_of (sync x srv).controller (scope_of q)),
                  sync x srv,
                )
              ]).0
      from none = tt
      from (some t) = found (since_day t) (obs_targets_of (sync x srv).controller (scope_of q))

  domain_found :
      (id role want : Bytes) (o : Option Controller)
      → Answers (can_read x srv role) (get_domain x srv id role want o)
  domain_found id role want none = tt
  domain_found id role want (some c) = domain_answered id role (get c want)

  -- The rules let the role read these paths in the answers of open_actions, domains.list, domains.get,
  -- session_brief, link_index_compute, link_audit, housekeeping_scan, recent_observations,
  -- glacier_index_compute, wiki_index_compute and scenario_check: that of every action item, of the domain
  -- that is asked for, of every domain in a list of domains (not of the subdomains nested in one), of every
  -- domain in a brief, of every source of a link, of every file with a mention and of the file that
  -- describes the entity mentioned, of every file of a housekeeping result, of every observation, and of
  -- every entry of an index or a scenario check. The other parts of the answers, such as the targets of
  -- links and the related links of a wiki entry, are not covered.
  pub dispatch-DisclosesReadable : (c : Call) → DisclosesReadable c
  unfolding dispatch handle_session_brief handle_housekeeping_scan handle_glacier_index_compute
      handle_wiki_index_compute handle_scenario_check handle_open_actions handle_domains_list
      handle_domains_get handle_link_index_compute handle_link_audit link_index_filtered
  dispatch-DisclosesReadable (open_actions id role d) =
      if_served-Answers (can_read x srv role) (is_empty role) _ _ tt
        (items_answered id role (open_targets (sync x srv).controller d))
  dispatch-DisclosesReadable (domains_list id role) =
      domains_answered id role (sync x srv).controller
  dispatch-DisclosesReadable (domains_get id role want) =
      if_served-Answers (can_read x srv role) (is_empty want) _ _ tt
        (domain_found id role want (sync x srv).controller)
  dispatch-DisclosesReadable (link_index_compute id role) =
      if-Answers (can_read x srv role) (is_empty role) _ _ tt (λ h.
        filter_entries_readable (can_read x srv role) x.related (link_index x.related srv.store))
  dispatch-DisclosesReadable (link_audit id role) =
      if-Answers (can_read x srv role) (is_empty role) _ _ tt
        (λ h. link_audit_readable (can_read x srv role) srv.store)
  dispatch-DisclosesReadable (session_brief id role) =
      if_served-Answers (can_read x srv role) (is_empty role) _ _ tt
        (brief_answered (can_read x srv role) id (sync x srv).controller _ _)
  dispatch-DisclosesReadable (housekeeping_scan id role) =
      if_served-Answers (can_read x srv role) (is_empty role) _ _ tt (
        housekeeping_answered (can_read x srv role) id _
          (scan-NamesReadable (can_read x srv role) srv.store (sync x srv).controller))
  dispatch-DisclosesReadable (glacier_index_compute id role) =
      if-Answers (can_read x srv role) (is_empty role) _ _ tt (λ h.
        All-keep (λ (e : GlacierEntry). can_read x srv role e.path)
          (Indexes.glacier_index x.glacier srv.store))
  dispatch-DisclosesReadable (wiki_index_compute id role) =
      if-Answers (can_read x srv role) (is_empty role) _ _ tt (λ h.
        All-keep (λ (e : WikiEntry). can_read x srv role e.path)
          (Indexes.wiki_index x.wiki srv.store))
  dispatch-DisclosesReadable (scenario_check id role) =
      if-Answers (can_read x srv role) (is_empty role) _ _ tt (λ h.
        All-keep (λ (e : ScenarioEntry). can_read x srv role e.path)
          (Indexes.scenario_check x.scenario srv.store srv.store.clock))
  dispatch-DisclosesReadable (recent_observations id q) = recent_answered id q
  dispatch-DisclosesReadable _ = tt
