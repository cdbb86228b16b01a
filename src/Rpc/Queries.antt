-- ===== src/Rpc/Queries.antt =====
-- rpc/methods.go: the methods that scan the store or the registry.
use cogmemory.Base.{
  Bool, not, ◌&&◌, List, [], ◌∷◌, Option, none, some, if◌then◌else◌, Bytes, codes, is_empty, length,
  keep, map,
}
use cogmemory.Rbac.{read_op}
use cogmemory.Store.Files.{l0_index}
use cogmemory.Store.Scan.{search_store, list}
use cogmemory.Store.Actions.{OpenActionItem, ActionTarget, open_actions}
use cogmemory.Domain.Schema.{Domain, Domains, nil, cons, info}
use cogmemory.Domain.Controller.{
  Controller, Target, get, resolve_file, action_items, resolved, unresolved,
}
use cogmemory.Link.Index.{link_index_filtered}
use cogmemory.Link.Audit.{link_audit}
use cogmemory.Rpc.Files.{answer_with}
use cogmemory.Rpc.Protocol.{
  Externals, Response, Server, error_response, ok_response, may, sync, results, l0, paths, items,
  domains, domain, links, candidates, invalid_params, rbac_denied, store_error,
}

abbrev pub to_list : Domains → List Domain
to_list nil = []
to_list (cons d ds) = d ∷ to_list ds

abbrev pub single : Controller → Bytes → Bytes → Option (List Target)
single c file id = elim (get c id) [
  | none ↦ none
  | some d ↦ elim (resolve_file c (info d).id file) [
    | unresolved e ↦ none
    | resolved path ↦ some (record { domain = (info d).id; path = path } ∷ [])
  ]
]

-- The targets of a method that may be restricted to one domain; `none` is an error of the caller.
unfoldable pub open_targets : Option Controller → Bytes → Option (List Target)
unfolding get resolve_file action_items
open_targets none id = some []
open_targets (some c) id =
    if not (is_empty id) then single c (codes "action-items") id else some (action_items c)

abbrev pub to_action_target : Target → ActionTarget
to_action_target t = record { domain = t.domain; path = t.path }

abbrev pub visible_domains : (Domain → Bool) → Bytes → Option Controller → Response
visible_domains p id none = error_response id store_error
visible_domains p id (some c) = ok_response id (domains (keep p (to_list c.domains)))

module _ (x : Externals) where
  abbrev pub can_read : Server → Bytes → Bytes → Bool
  can_read srv role path = may x srv role path read_op

  abbrev pub answer_items : Server → Bytes → Bytes → Option (List Target) → Response
  answer_items srv id role none = error_response id invalid_params
  answer_items srv id role (some ts) =
      answer_with id
        (λ found. items (keep (λ (i : OpenActionItem). can_read srv role i.path) found))
        (open_actions srv.store (map to_action_target ts))

  unfoldable pub handle_open_actions : Server → Bytes → Bytes → Bytes → Response × Server
  unfolding may sync open_targets open_actions
  handle_open_actions srv id role domain_id =
      if is_empty role
      then (error_response id invalid_params, srv)
      else (answer_items srv id role (open_targets (sync x srv).controller domain_id), sync x srv)

  unfoldable pub handle_search : Server → Bytes → Bytes → Bytes → Response
  unfolding may search_store
  handle_search srv id role query =
      if is_empty query
      then error_response id invalid_params
      else if not (can_read srv role (codes "**"))
          && not (can_read srv role (codes "hot-memory.md"))
      then error_response id rbac_denied
      else let found = search_store srv.store query in ok_response id (results found (length found))

  unfoldable pub handle_l0_index : Server → Bytes → Bytes → Response
  unfolding l0_index
  handle_l0_index srv id domain_id = ok_response id (l0 (l0_index srv.store domain_id))

  unfoldable pub handle_list : Server → Bytes → Response
  unfolding list
  handle_list srv id = ok_response id (paths (list srv.store))

  unfoldable pub handle_domains_list : Server → Bytes → Bytes → Response × Server
  unfolding may sync
  handle_domains_list srv id role = (
    visible_domains (λ d. can_read srv role (info d).path) id (sync x srv).controller,
    sync x srv,
  )

  abbrev pub answer_domain : Server → Bytes → Bytes → Option Domain → Response
  answer_domain srv id role none = error_response id store_error
  answer_domain srv id role (some d) =
      if not (can_read srv role (info d).path)
      then error_response id rbac_denied
      else ok_response id (domain d)

  abbrev pub get_domain : Server → Bytes → Bytes → Bytes → Option Controller → Response
  get_domain srv id role want none = error_response id store_error
  get_domain srv id role want (some c) = answer_domain srv id role (get c want)

  unfoldable pub handle_domains_get : Server → Bytes → Bytes → Bytes → Response × Server
  unfolding may sync get
  handle_domains_get srv id role want =
      if is_empty want
      then (error_response id invalid_params, srv)
      else (get_domain srv id role want (sync x srv).controller, sync x srv)

  unfoldable pub handle_link_index_compute : Server → Bytes → Bytes → Response
  unfolding may link_index_filtered
  handle_link_index_compute srv id role =
      if is_empty role
      then error_response id invalid_params
      else ok_response id (links (link_index_filtered x.related srv.store (can_read srv role)))

  unfoldable pub handle_link_audit : Server → Bytes → Bytes → Response
  unfolding may link_audit
  handle_link_audit srv id role =
      if is_empty role
      then error_response id invalid_params
      else ok_response id (candidates (link_audit (can_read srv role) srv.store))
