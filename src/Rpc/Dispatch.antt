-- ===== src/Rpc/Dispatch.antt =====
-- rpc/server.go: the dispatch on the method, for requests whose parameters are decoded.
use cogmemory.Base.{ℕ, List, [], ◌∷◌, Bytes, leb, if◌then◌else◌}
use cogmemory.Store.Lines.{default_limit}
use cogmemory.Rpc.Protocol.{
  Externals, Response, Server, error_response, ok_response, done, invalid_params, method_not_found,
  parse_error,
}
use cogmemory.Rpc.Housekeeping.{handle_housekeeping_scan}
use cogmemory.Rpc.Indexes.{
  handle_glacier_index_compute, handle_wiki_index_compute, handle_scenario_check,
  handle_entity_audit,
}
use cogmemory.Rpc.Observed.{
  RecentObservationsParams, ClusterCheckParams, handle_recent_observations, handle_cluster_check,
}
use cogmemory.Rpc.Summary.{handle_domain_summary}
use cogmemory.Rpc.Brief.{handle_session_brief}
use cogmemory.Rpc.Files.{
  ReadParams, WriteParams, AppendParams, PatchParams, PathParams, MoveParams, handle_read,
  handle_write, handle_append, handle_patch, handle_outline, handle_move,
}
use cogmemory.Rpc.Queries.{
  handle_open_actions, handle_search, handle_l0_index, handle_list, handle_domains_list,
  handle_domains_get, handle_link_index_compute, handle_link_audit,
}

-- A line from a client: not JSON, a method that is not known, a method whose parameters do not
-- decode, or a call of one of the methods below. The other methods of the server have no constructor.
pub data Call : Type 0 where
  garbage : Call
  unknown_method : Bytes → Call
  undecodable : Bytes → Call
  read : Bytes → ReadParams → Call
  write : Bytes → WriteParams → Call
  append : Bytes → AppendParams → Call
  patch : Bytes → PatchParams → Call
  outline : Bytes → PathParams → Call
  move : Bytes → MoveParams → Call
  search_call : Bytes → Bytes → Bytes → Call
  l0index : Bytes → Bytes → Call
  list : Bytes → Call
  open_actions : Bytes → Bytes → Bytes → Call
  domains_list : Bytes → Bytes → Call
  domains_get : Bytes → Bytes → Bytes → Call
  link_index_compute : Bytes → Bytes → Call
  link_audit : Bytes → Bytes → Call
  session_brief : Bytes → Bytes → Call
  housekeeping_scan : Bytes → Bytes → Call
  glacier_index_compute : Bytes → Bytes → Call
  wiki_index_compute : Bytes → Bytes → Call
  scenario_check : Bytes → Bytes → Call
  entity_audit : Bytes → Bytes → Bytes → Call
  recent_observations : Bytes → RecentObservationsParams → Call
  cluster_check : Bytes → ClusterCheckParams → Call
  domain_summary : Bytes → Bytes → Bytes → Bytes → Call
  health : Bytes → Call

-- A line of a connection: the bytes before its newline, by their number, and what they decode to.
pub record Line : Type 0 where
  pub size : ℕ
  pub call : Call

module _ (x : Externals) where
  unfoldable pub dispatch : Server → Call → Response × Server
  unfolding handle_session_brief handle_housekeeping_scan handle_glacier_index_compute
      handle_wiki_index_compute handle_scenario_check handle_entity_audit handle_recent_observations
      handle_cluster_check handle_domain_summary handle_read handle_write handle_append handle_patch
      handle_outline handle_move handle_search handle_l0_index handle_list handle_open_actions
      handle_domains_list handle_domains_get handle_link_index_compute handle_link_audit
  dispatch srv garbage = (error_response [] parse_error, srv)
  dispatch srv (unknown_method id) = (error_response id method_not_found, srv)
  dispatch srv (undecodable id) = (error_response id invalid_params, srv)
  dispatch srv (read id p) = (handle_read x srv id p, srv)
  dispatch srv (write id p) = handle_write x srv id p
  dispatch srv (append id p) = handle_append x srv id p
  dispatch srv (patch id p) = handle_patch x srv id p
  dispatch srv (outline id p) = (handle_outline x srv id p, srv)
  dispatch srv (move id p) = handle_move x srv id p
  dispatch srv (search_call id role query) = (handle_search x srv id role query, srv)
  dispatch srv (l0index id dom) = (handle_l0_index x srv id dom, srv)
  dispatch srv (list id) = (handle_list x srv id, srv)
  dispatch srv (open_actions id role dom) = handle_open_actions x srv id role dom
  dispatch srv (domains_list id role) = handle_domains_list x srv id role
  dispatch srv (domains_get id role want) = handle_domains_get x srv id role want
  dispatch srv (link_index_compute id role) = (handle_link_index_compute x srv id role, srv)
  dispatch srv (link_audit id role) = (handle_link_audit x srv id role, srv)
  dispatch srv (session_brief id role) = handle_session_brief x srv id role
  dispatch srv (housekeeping_scan id role) = handle_housekeeping_scan x srv id role
  dispatch srv (glacier_index_compute id role) = (handle_glacier_index_compute x srv id role, srv)
  dispatch srv (wiki_index_compute id role) = (handle_wiki_index_compute x srv id role, srv)
  dispatch srv (scenario_check id role) = (handle_scenario_check x srv id role, srv)
  dispatch srv (entity_audit id role dom) = handle_entity_audit x srv id role dom
  dispatch srv (recent_observations id p) = handle_recent_observations x srv id p
  dispatch srv (cluster_check id p) = handle_cluster_check x srv id p
  dispatch srv (domain_summary id role dom since) = handle_domain_summary x srv id role dom since
  dispatch srv (health id) = (ok_response id done, srv)

  -- handleConn: the requests of a connection in turn, with their responses. A line that the scanner does
  -- not take ends the connection: it and the lines behind it are neither run nor answered.
  unfoldable pub serve : Server → List Line → List Response × Server
  unfolding dispatch
  serve srv [] = ([], srv)
  serve srv (l ∷ ls) =
      let (r, srv') = dispatch srv l.call in
      let (rs, last) = serve srv' ls in
      if leb default_limit l.size then ([], srv) else (r ∷ rs, last)
