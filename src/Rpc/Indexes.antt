-- ===== src/Rpc/Indexes.antt =====
-- rpc/methods.go: the methods that compute an index or an audit.
use cogmemory.Base.{
  not, List, Option, none, some, if◌then◌else◌, Bytes, codes, is_empty, length, keep, map,
}
use cogmemory.Store.Indexes.{
  GlacierEntry, WikiEntry, ScenarioEntry, glacier_index, wiki_index, scenario_check,
}
use cogmemory.Store.Entities.Audit.{entity_audit}
use cogmemory.Store.Actions.{ActionTarget}
use cogmemory.Domain.Controller.{Controller, Target, get, resolve_file, entities}
use cogmemory.Rpc.Files.{answer_with}
use cogmemory.Rpc.Protocol.{
  Externals, Response, Server, error_response, ok_response, glacier_entries, wiki_entries,
  scenarios, audit, sync, invalid_params, store_error,
}
use cogmemory.Rpc.Queries.{can_read, single, to_action_target}

abbrev counted_glacier : List GlacierEntry → Bytes → Response
counted_glacier es id = ok_response id (glacier_entries es (length es))

abbrev counted_wiki : List WikiEntry → Bytes → Response
counted_wiki es id = ok_response id (wiki_entries es (length es))

-- The targets of the audit; `none` is an error of the caller.
unfoldable pub audit_targets_of : Controller → Bytes → Option (List Target)
unfolding get resolve_file entities
audit_targets_of c dom =
    if not (is_empty dom) then single c (codes "entities") dom else some (entities c)

module _ (x : Externals) where
  unfoldable pub handle_glacier_index_compute : Server → Bytes → Bytes → Response
  unfolding glacier_index
  handle_glacier_index_compute srv id role =
      if is_empty role
      then error_response id invalid_params
      else counted_glacier
          (keep (λ (e : GlacierEntry). can_read x srv role e.path)
            (glacier_index x.glacier srv.store))
          id

  unfoldable pub handle_wiki_index_compute : Server → Bytes → Bytes → Response
  unfolding wiki_index
  handle_wiki_index_compute srv id role =
      if is_empty role
      then error_response id invalid_params
      else counted_wiki
          (keep (λ (e : WikiEntry). can_read x srv role e.path) (wiki_index x.wiki srv.store)) id

  unfoldable pub handle_scenario_check : Server → Bytes → Bytes → Response
  unfolding scenario_check
  handle_scenario_check srv id role =
      if is_empty role
      then error_response id invalid_params
      else ok_response id (
          scenarios (
            keep (λ (e : ScenarioEntry). can_read x srv role e.path)
              (scenario_check x.scenario srv.store srv.store.clock)))

  abbrev readable_targets : Server → Bytes → List Target → List ActionTarget
  readable_targets srv role ts =
      map to_action_target (keep (λ (t : Target). can_read x srv role t.path) ts)

  abbrev pub answer_audit : Server → Bytes → Bytes → Option (List Target) → Response
  answer_audit srv id role none = error_response id invalid_params
  answer_audit srv id role (some ts) =
      answer_with id audit (entity_audit srv.store (readable_targets srv role ts) srv.store.clock)

  abbrev pub audit_with : Server → Bytes → Bytes → Bytes → Option Controller → Response
  audit_with srv id role dom none = error_response id store_error
  audit_with srv id role dom (some c) = answer_audit srv id role (audit_targets_of c dom)

  unfoldable pub handle_entity_audit : Server → Bytes → Bytes → Bytes → Response × Server
  unfolding sync audit_targets_of entity_audit
  handle_entity_audit srv id role dom =
      if is_empty role
      then (error_response id invalid_params, srv)
      else (audit_with srv id role dom (sync x srv).controller, sync x srv)
