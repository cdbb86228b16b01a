-- ===== src/Rpc/Answered.antt =====
-- Which requests of a connection are answered, and under which id.
use cogmemory.Base.{
  Bool-cases, inl, inr, not, Bool, true, false, Option, none, some, is_empty, List, [], ◌∷◌, ◌≡◌,
  refl, arith, Bytes, map, if◌then◌else◌, ◌++◌, All, ◌≤◌, ◌<◌,
}
use cogmemory.Store.Lines.{default_limit}
use cogmemory.Store.State.{Result, ok, err}
use cogmemory.Rpc.Protocol.{
  Externals, Payload, Response, Server, error_response, ok_response, recent, clusters, sync,
  invalid_params,
}
use cogmemory.Rpc.Files.{
  guarded_write, answer_with, handle_read, handle_write, handle_append, handle_patch,
  handle_outline, handle_move,
}
use cogmemory.Rpc.Indexes.{
  handle_glacier_index_compute, handle_wiki_index_compute, handle_scenario_check,
  handle_entity_audit,
}
use cogmemory.Rpc.Observed.{
  RecentObservationsParams, ClusterCheckParams, answer_recent, answer_clusters, names_two_domains,
  scope_of, obs_targets_of, handle_recent_observations, handle_cluster_check,
}
use cogmemory.Rpc.Since.{parse_since, resolve_since, since_day}
use cogmemory.Time.{Instant}
use cogmemory.Domain.Controller.{Controller, Target, get}
use cogmemory.Rpc.Summary.{summarize, summarize_domain, summarize_with, handle_domain_summary}
use cogmemory.Domain.Schema.{Domain, info}
use cogmemory.Rpc.Brief.{handle_session_brief}
use cogmemory.Rpc.Housekeeping.{handle_housekeeping_scan}
use cogmemory.Rpc.Queries.{
  can_read, handle_open_actions, handle_search, handle_l0_index, handle_list, handle_domains_list,
  handle_domains_get, handle_link_index_compute, handle_link_audit,
}
use cogmemory.Rpc.Dispatch.{
  Call, garbage, unknown_method, undecodable, read, write, append, patch, outline, move,
  search_call, l0index, list, open_actions, domains_list, domains_get, link_index_compute,
  link_audit, session_brief, housekeeping_scan, entity_audit, recent_observations, cluster_check,
  domain_summary, glacier_index_compute, wiki_index_compute, scenario_check, health, Line, dispatch,
  serve,
}

-- The id of a request, which is missing where the line is not JSON, and of a response.
abbrev pub call_id : Call → Bytes
call_id garbage = []
call_id (unknown_method id) = id
call_id (undecodable id) = id
call_id (read id p) = id
call_id (write id p) = id
call_id (append id p) = id
call_id (patch id p) = id
call_id (outline id p) = id
call_id (move id p) = id
call_id (search_call id role query) = id
call_id (l0index id dom) = id
call_id (list id) = id
call_id (open_actions id role dom) = id
call_id (domains_list id role) = id
call_id (domains_get id role want) = id
call_id (link_index_compute id role) = id
call_id (link_audit id role) = id
call_id (session_brief id role) = id
call_id (housekeeping_scan id role) = id
call_id (glacier_index_compute id role) = id
call_id (wiki_index_compute id role) = id
call_id (scenario_check id role) = id
call_id (entity_audit id role dom) = id
call_id (recent_observations id p) = id
call_id (cluster_check id p) = id
call_id (domain_summary id role dom since) = id
call_id (health id) = id

abbrev pub response_id : Response → Bytes
response_id (error_response id code) = id
response_id (ok_response id payload) = id

answer_with_id {ℓ} :
    {A : Type ℓ} (id : Bytes) (f : A → Payload) (r : Result A)
    → response_id (answer_with id f r) ≡ id
answer_with_id id f (ok a) = refl
answer_with_id id f (err e) = refl

if_id :
    (id : Bytes) (b : Bool) (m n : Response × Server)
    → response_id m.0 ≡ id
    → response_id n.0 ≡ id
    → response_id (if b then m else n).0 ≡ id
if_id id true m n h k = h
if_id id false m n h k = k

module _ (x : Externals) (srv : Server) (id : Bytes) (p : RecentObservationsParams) where
  answer_recent_id :
      (day : Bytes) (o : Option (List Target)) → response_id (answer_recent x srv id p day o) ≡ id
  answer_recent_id day none = refl
  answer_recent_id day (some ts) = answer_with_id id recent _

  recent_observations_id : response_id (handle_recent_observations x srv id p).0 ≡ id
  unfolding handle_recent_observations
  recent_observations_id = if_id id (is_empty p.role) _ _ refl (
      if_id id (names_two_domains p) _ _ refl (resolved_id (resolve_since p.since srv.store.clock)))
    where
      resolved_id :
          (o : Option Instant)
          → response_id
              (elim o as (λ _. Response × Server) [
                | none ↦ (error_response id invalid_params, srv)
                | some t ↦ (
                  answer_recent x srv id p
                      (since_day t)
                      (obs_targets_of (sync x srv).controller (scope_of p)),
                  sync x srv,
                )
              ]).0
            ≡ id
      resolved_id none = refl
      resolved_id (some t) =
          answer_recent_id (since_day t) (obs_targets_of (sync x srv).controller (scope_of p))

module _ (x : Externals) (srv : Server) (id : Bytes) (p : ClusterCheckParams) where
  answer_clusters_id :
      (o : Option (List Target)) (t : Option Instant)
      → response_id (answer_clusters x srv id p o t) ≡ id
  answer_clusters_id none t = refl
  answer_clusters_id (some ts) none = refl
  answer_clusters_id (some ts) (some t) = answer_with_id id clusters _

  cluster_check_id : response_id (handle_cluster_check x srv id p).0 ≡ id
  unfolding handle_cluster_check
  cluster_check_id = if_id id (is_empty p.role) _ _ refl (
      answer_clusters_id (obs_targets_of (sync x srv).controller p.domain)
        (parse_since p.since srv.store.clock))

module _ (x : Externals) (srv : Server) (id role : Bytes) where
  summarize_id :
      (since : Bytes) (c : Controller) (o : Option Domain)
      → response_id (summarize_domain x srv id role since c o) ≡ id
  summarize_id since c none = refl
  summarize_id since c (some d) = elim (Bool-cases (not (can_read x srv role (info d).path))) [
    | inl h ↦ rw h refl
    | inr h ↦ rw h (resolved_id (resolve_since since srv.store.clock))
  ]
    where
      resolved_id : (t : Option Instant) → response_id (summarize x srv id role c (info d) t) ≡ id
      resolved_id none = refl
      resolved_id (some t) = refl

  domain_summary_id :
      (dom since : Bytes) → response_id (handle_domain_summary x srv id role dom since).0 ≡ id
  unfolding handle_domain_summary
  domain_summary_id dom since =
      if_id id (is_empty role) _ _ refl
        (if_id id (is_empty dom) _ _ refl (with_id (sync x srv).controller))
    where
      with_id :
          (o : Option Controller) → response_id (summarize_with x srv id role dom since o) ≡ id
      with_id none = refl
      with_id (some c) = summarize_id since c (get c dom)

module _ (x : Externals) where
  dispatch-response_id : (srv : Server) (c : Call) → response_id (dispatch x srv c).0 ≡ call_id c
  unfolding dispatch handle_session_brief handle_housekeeping_scan handle_glacier_index_compute
      handle_wiki_index_compute handle_scenario_check handle_entity_audit handle_read handle_write
      handle_append handle_patch handle_outline handle_move handle_search handle_l0_index
      handle_list handle_open_actions handle_domains_list handle_domains_get
      handle_link_index_compute handle_link_audit guarded_write
  dispatch-response_id srv garbage = refl
  dispatch-response_id srv (unknown_method id) = refl
  dispatch-response_id srv (undecodable id) = refl
  dispatch-response_id srv (read id p) = ground arith
  dispatch-response_id srv (write id p) = ground arith
  dispatch-response_id srv (append id p) = ground arith
  dispatch-response_id srv (patch id p) = ground arith
  dispatch-response_id srv (outline id p) = ground arith
  dispatch-response_id srv (move id p) = ground arith
  dispatch-response_id srv (search_call id role query) = ground arith
  dispatch-response_id srv (l0index id dom) = ground arith
  dispatch-response_id srv (list id) = ground arith
  dispatch-response_id srv (open_actions id role dom) = ground arith
  dispatch-response_id srv (domains_list id role) = ground arith
  dispatch-response_id srv (domains_get id role want) = ground arith
  dispatch-response_id srv (link_index_compute id role) = ground arith
  dispatch-response_id srv (link_audit id role) = ground arith
  dispatch-response_id srv (session_brief id role) = ground arith
  dispatch-response_id srv (housekeeping_scan id role) = ground arith
  dispatch-response_id srv (glacier_index_compute id role) = ground arith
  dispatch-response_id srv (wiki_index_compute id role) = ground arith
  dispatch-response_id srv (scenario_check id role) = ground arith
  dispatch-response_id srv (entity_audit id role dom) = ground arith
  dispatch-response_id srv (recent_observations id p) = recent_observations_id x srv id p
  dispatch-response_id srv (cluster_check id p) = cluster_check_id x srv id p
  dispatch-response_id srv (domain_summary id role dom since) =
      domain_summary_id x srv id role dom since
  dispatch-response_id srv (health id) = refl

  -- What follows the lines that a connection takes: nothing, or a line that is too long for its scanner.
  abbrev pub Ends : List Line → Type 0
  Ends [] = Unit
  Ends (l ∷ ls) = default_limit ≤ l.size

  abbrev pub IsTaken : Line → Type 0
  IsTaken l = l.size < default_limit

  ended : (srv : Server) (rest : List Line) → Ends rest → serve x srv rest ≡ ([], srv)
  unfolding serve
  ended srv [] h = refl
  ended srv (l ∷ ls) h = ground arith

  -- On a connection, the lines of less than 64 KiB in front of the first longer one, or all lines where none
  -- is longer, are answered, one response for each, in their order and under their ids (the empty one for a
  -- line that is not JSON). The line that is too long and those behind it are not answered, and leave no
  -- trace in the server.
  pub response_id-serve :
      (srv : Server) (ls rest : List Line)
      → All IsTaken ls
      → Ends rest
      → (map response_id (serve x srv (ls ++ rest)).0 ≡ map (λ (l : Line). call_id l.call) ls)
        × ((serve x srv (ls ++ rest)).1 ≡ (serve x srv ls).1)
  unfolding serve
  response_id-serve srv [] rest short e = rw (ended srv rest e) (refl, refl)
  response_id-serve srv (l ∷ ls) rest short e =
      let later = response_id-serve (dispatch x srv l.call).1 ls rest short.1 e in
      let id = dispatch-response_id srv l.call in ground arith
