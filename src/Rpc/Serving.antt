-- ===== src/Rpc/Serving.antt =====
-- What a server serves over a whole connection.
use cogmemory.Base.{
  List, [], ◌∷◌, Option, none, some, ◌≡◌, refl, Bytes, ◌⊎◌, inl, inr, arith, length, Bool-cases,
  leb,
}
use cogmemory.Store.Lines.{default_limit}
use cogmemory.Domain.Controller.{Controller}
use cogmemory.Domain.Controller.Serving.{IsServing, maybe_reload-IsServing}
use cogmemory.Store.State.{MemoryStore, Done}
use cogmemory.Rpc.Protocol.{Externals, Server, Payload, manifest_of, reload_some, sync, bytes, done}
use cogmemory.Rpc.Files.{guarded_write, handle_write, handle_append, handle_patch, handle_move}
use cogmemory.Rpc.Housekeeping.{handle_housekeeping_scan}
use cogmemory.Rpc.Indexes.{handle_entity_audit}
use cogmemory.Rpc.Observed.{handle_recent_observations, handle_cluster_check}
use cogmemory.Rpc.Summary.{handle_domain_summary}
use cogmemory.Rpc.Brief.{handle_session_brief}
use cogmemory.Rpc.Queries.{handle_open_actions, handle_domains_list, handle_domains_get}
use cogmemory.Rpc.Dispatch.{
  Line, Call, dispatch, serve, write, append, patch, move, open_actions, domains_list, domains_get,
  session_brief, housekeeping_scan, entity_audit, recent_observations, cluster_check,
  domain_summary,
}
use cogmemory.Store.State
use cogmemory.Store.Append.{append_section}

-- The registry of the controller, where the server has one, is valid, and its map agrees with it.
abbrev pub ServesRegistry : Option Controller → Type 0
ServesRegistry none = Unit
ServesRegistry (some c) = IsServing c

module _ (x : Externals) where
  sync-ServesRegistry :
      (s : MemoryStore) (o : Option Controller)
      → ServesRegistry o
      → ServesRegistry (reload_some x s o)
  sync-ServesRegistry s none h = tt
  sync-ServesRegistry s (some c) h = maybe_reload-IsServing x.parse (manifest_of s) c h

  -- The controller after a call is the one before it, or that one after a look at the manifest.
  abbrev Synced : Server → Option Controller → Type 0
  Synced srv o = (o ≡ srv.controller) ⊎ (o ≡ reload_some x srv.store srv.controller)

  guarded_write-Synced :
      (srv : Server) (id role path : Bytes) (p : Payload) (op : MemoryStore → Done × MemoryStore)
      → Synced srv (guarded_write x srv id role path p op).1.controller
  unfolding guarded_write sync
  guarded_write-Synced srv id role path p op = ground arith

  dispatch-Synced : (srv : Server) (c : Call) → Synced srv (dispatch x srv c).1.controller
  unfolding dispatch handle_write handle_append handle_patch handle_move sync handle_open_actions
      handle_domains_list handle_domains_get handle_session_brief handle_housekeeping_scan
      handle_entity_audit handle_recent_observations handle_cluster_check handle_domain_summary
  dispatch-Synced srv (write id p) =
      guarded_write-Synced srv id p.role p.path (bytes (length p.content))
        (λ s. State.write s p.path p.content)
  dispatch-Synced srv (append id p) =
      guarded_write-Synced srv id p.role p.path done (λ s. append_section s p.path p.section p.text)
  dispatch-Synced srv (patch id p) = inl (ground arith)
  dispatch-Synced srv (move id p) = inl (ground arith)
  dispatch-Synced srv (open_actions id role d) = ground arith
  dispatch-Synced srv (domains_list id role) = inr refl
  dispatch-Synced srv (domains_get id role d) = ground arith
  dispatch-Synced srv (session_brief id role) = ground arith
  dispatch-Synced srv (housekeeping_scan id role) = ground arith
  dispatch-Synced srv (entity_audit id role dom) = ground arith
  dispatch-Synced srv (recent_observations id p) = ground arith
  dispatch-Synced srv (cluster_check id p) = ground arith
  dispatch-Synced srv (domain_summary id role dom since) = ground arith
  dispatch-Synced srv _ = inl refl

  Synced-ServesRegistry :
      (srv : Server) {o : Option Controller}
      → ServesRegistry srv.controller
      → Synced srv o
      → ServesRegistry o
  Synced-ServesRegistry srv h (inl e) = rw e h
  Synced-ServesRegistry srv h (inr e) = rw e (sync-ServesRegistry srv.store srv.controller h)

  -- A server that serves a valid registry, with a map that agrees with it, still does after the lines
  -- of a connection, whose calls may write the manifest itself.
  pub serve-ServesRegistry :
      (srv : Server) (ls : List Line)
      → ServesRegistry srv.controller
      → ServesRegistry (serve x srv ls).1.controller
  unfolding serve
  serve-ServesRegistry srv [] h = h
  serve-ServesRegistry srv (l ∷ ls) h =
      let later =
        serve-ServesRegistry (dispatch x srv l.call).1 ls
          (Synced-ServesRegistry srv h (dispatch-Synced srv l.call)) in
      elim (Bool-cases (leb default_limit l.size)) [
        | inl long ↦ rw long h
        | inr short ↦ rw short later
      ]
