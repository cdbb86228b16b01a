-- ===== src/Rpc/Guard.antt =====
-- Which calls may change the store.
use cogmemory.Base.{
  Bool, true, false, not, ◌≡◌, refl, ◌⊎◌, inl, inr, arith, Bytes, Bool-cases, length, is_empty,
  if◌then◌else◌,
}
use cogmemory.Store.Frame.{
  ChangesOnly, ChangesTrees, write-ChangesOnly, append_section-ChangesOnly, patch-ChangesOnly,
  move-ChangesTrees,
}
use cogmemory.Rbac.{write_op}
use cogmemory.Store.State.{MemoryStore, Error, Done, ok, err}
use cogmemory.Rpc.Protocol.{Externals, Payload, Response, Server, may, sync, bytes, done}
use cogmemory.Store.State
use cogmemory.Store.Append.{append_section}
use cogmemory.Rpc.Files.{
  check_write_path, guarded_write, handle_write, handle_append, handle_patch, handle_move,
}
use cogmemory.Rpc.Housekeeping.{handle_housekeeping_scan}
use cogmemory.Rpc.Indexes.{handle_entity_audit}
use cogmemory.Rpc.Observed.{handle_recent_observations, handle_cluster_check}
use cogmemory.Rpc.Summary.{handle_domain_summary}
use cogmemory.Rpc.Brief.{handle_session_brief}
use cogmemory.Rpc.Queries.{handle_open_actions, handle_domains_list, handle_domains_get}
use cogmemory.Rpc.Dispatch.{
  Call, write, append, patch, move, open_actions, domains_list, domains_get, session_brief,
  housekeeping_scan, entity_audit, recent_observations, cluster_check, domain_summary, dispatch,
}

-- The call is a writing method, the rules let its role write its path, as the call spells it, and no
-- files are changed but those at the path that the spelling resolves to (for a move, at or below the two
-- paths).
abbrev pub MayChange : Externals → Server → Call → MemoryStore → Type 0
MayChange x srv (write id p) after =
    (may x srv p.role p.path write_op ≡ true) × ChangesOnly srv.store p.path after
MayChange x srv (append id p) after =
    (may x srv p.role p.path write_op ≡ true) × ChangesOnly srv.store p.path after
MayChange x srv (patch id p) after =
    (may x srv p.role p.path write_op ≡ true) × ChangesOnly srv.store p.path after
MayChange x srv (move id p) after =
    (may x srv p.role p.to write_op ≡ true) × ChangesTrees srv.store p.from p.to after
MayChange x srv _ after = ⊥

module _ (x : Externals) (srv : Server) where
  pub store-sync : (sync x srv).store ≡ srv.store
  unfolding sync
  store-sync = refl

  -- What holds of the store after a call whose path the role may write, and else nothing has changed.
  guarded :
      (role path : Bytes) (P : MemoryStore → Type 0) (m : Response × Server)
      → (may x srv role path write_op ≡ false → m.1.store ≡ srv.store)
      → P m.1.store
      → ((may x srv role path write_op ≡ true) × P m.1.store) ⊎ (m.1.store ≡ srv.store)
  guarded role path P m kept changed = elim (Bool-cases (may x srv role path write_op)) [
    | inl h ↦ inl (h, changed)
    | inr h ↦ inr (kept h)
  ]

  if_server :
      (P : MemoryStore → Type 0) (b : Bool) (m n : Response × Server)
      → P m.1.store
      → P n.1.store
      → P (if b then m else n).1.store
  if_server P true m n h k = h
  if_server P false m n h k = k

  guarded_write-changes :
      (id role path : Bytes) (p : Payload) (op : MemoryStore → Done × MemoryStore)
      → ChangesOnly srv.store path (op srv.store).1
      → ((may x srv role path write_op ≡ true)
          × ChangesOnly srv.store path (guarded_write x srv id role path p op).1.store)
        ⊎ ((guarded_write x srv id role path p op).1.store ≡ srv.store)
  unfolding guarded_write
  guarded_write-changes id role path p op only =
      let P = ChangesOnly srv.store path in
      let same : P srv.store = λ q. inl refl in
      guarded role path P (guarded_write x srv id role path p op) (λ h. rw h (ground arith))
        (if_server P (is_empty path) _ _ same (
          if_server P (not (may x srv role path write_op)) _ _ same
            (if_server P (check_write_path (sync x srv).controller path) _ _ same only)))

  -- A call changes the store only if it is a write, append, patch or move, the rules let its role write the
  -- path of the call (the destination, for a move) as the call spells it, before it is cleaned, and then
  -- the only files that change are the one at the path that this spelling resolves to, or, for a move, those
  -- at or below the paths that the source and the destination resolve to. Every other call leaves the
  -- store as it was.
  pub dispatch_guarded :
      (c : Call)
      → MayChange x srv c (dispatch x srv c).1.store ⊎ ((dispatch x srv c).1.store ≡ srv.store)
  unfolding dispatch handle_write handle_append handle_patch handle_move handle_open_actions
      handle_domains_list handle_domains_get handle_session_brief handle_housekeeping_scan
      handle_entity_audit handle_recent_observations handle_cluster_check handle_domain_summary
  dispatch_guarded (write id p) =
      guarded_write-changes id p.role p.path (bytes (length p.content))
        (λ s. State.write s p.path p.content) (write-ChangesOnly srv.store p.path p.content)
  dispatch_guarded (append id p) =
      guarded_write-changes id p.role p.path done (λ s. append_section s p.path p.section p.text)
        (append_section-ChangesOnly srv.store p.path p.section p.text)
  dispatch_guarded (patch id p) =
      let P = ChangesOnly srv.store p.path in
      let same : P srv.store = λ q. inl refl in
      guarded p.role p.path P (handle_patch x srv id p) (λ h. rw h (ground arith))
        (if_server P (is_empty p.path) _ _ same (
          if_server P (not (may x srv p.role p.path write_op)) _ _ same
            (patch-ChangesOnly srv.store p.path p.old_text p.new_text)))
  dispatch_guarded (move id p) =
      let P = ChangesTrees srv.store p.from p.to in
      let same : P srv.store = λ q. inl refl in
      guarded p.role p.to P (handle_move x srv id p) (λ h. rw h (ground arith))
        (if_server P (is_empty p.from) _ _ same (
          if_server P (is_empty p.to) _ _ same (
            if_server P (not (may x srv p.role p.to write_op)) _ _ same
              (move-ChangesTrees srv.store p.from p.to))))
  dispatch_guarded (open_actions id role d) = inr (ground arith)
  dispatch_guarded (domains_list id role) = inr refl
  dispatch_guarded (domains_get id role d) = inr (ground arith)
  dispatch_guarded (session_brief id role) = inr (ground arith)
  dispatch_guarded (housekeeping_scan id role) = inr (ground arith)
  dispatch_guarded (entity_audit id role dom) = inr (ground arith)
  dispatch_guarded (recent_observations id p) = inr (ground arith)
  dispatch_guarded (cluster_check id p) = inr (ground arith)
  dispatch_guarded (domain_summary id role dom since) = inr (ground arith)
  dispatch_guarded _ = inr refl
