-- ===== src/Rpc/Brief.antt =====
-- rpc/session_brief.go: the method session_brief.
pub mod High
use cogmemory.Base.{
  ℕ, Bool, true, false, List, [], ◌∷◌, Option, none, some, if◌then◌else◌, Bytes, codes, str_eq,
  is_empty, map, keep, ltb,
}
use cogmemory.Store.State.{Result, ok, err}
use cogmemory.Store.Actions.{ActionTarget}
use cogmemory.Store.Brief.{DomainActionCountItem, SessionBriefResult, session_brief}
use cogmemory.Domain.Schema.{Info, Domain, info, walk}
use cogmemory.Domain.Controller.{Controller, LoadError, action_items}
use cogmemory.Rpc.Protocol.{
  Externals, Response, Server, CountValue, number, flag, error_response, ok_response, sync, brief,
  invalid_params, store_error,
}
use cogmemory.Rpc.Queries.{can_read, to_action_target}

-- The map `actionCounts`: a key is set once, with the value set last.
unfoldable pub set_count :
    Bytes → CountValue → List (Bytes × CountValue) → List (Bytes × CountValue)
unfolding str_eq
set_count k v [] = (k, v) ∷ []
set_count k v ((j, w) ∷ m) = if str_eq j k then (k, v) ∷ m else (j, w) ∷ set_count k v m

-- The counts of the targets that the role may read, and whether one has an item of high priority.
unfoldable pub add_counts :
    (Bytes → Bool)
    → List DomainActionCountItem
    → List (Bytes × CountValue)
    → Bool
    → List (Bytes × CountValue)
unfolding set_count
add_counts p [] m high = set_count (codes "_pri_high_anywhere") (flag high) m
add_counts p (c ∷ cs) m high =
    if p c.path
    then add_counts p cs (set_count c.domain (number c.open_count) m)
        (if ltb 0 c.high_count then true else high)
    else add_counts p cs m high

-- collectDomain over all domains: it descends into the subdomains in the order of the walk.
unfoldable pub collect_domains : (Bytes → Bool) → Option Controller → List Info
unfolding walk
collect_domains p none = []
collect_domains p (some c) = keep (λ (i : Info). p i.path) (map info (walk c.domains))

unfoldable pub brief_targets : Option Controller → List ActionTarget
unfolding action_items
brief_targets none = []
brief_targets (some c) = map to_action_target (action_items c)

abbrev last_error : Option Controller → Option LoadError
last_error none = none
last_error (some c) = c.last_err

abbrev pub answer_brief :
    (Bytes → Bool) → Bytes → List Info → Option LoadError → Result SessionBriefResult → Response
answer_brief p id ds e (err x) = error_response id store_error
answer_brief p id ds e (ok b) =
    ok_response id (brief b.hot_memory b.patterns ds (add_counts p b.counts [] false) e)

module _ (x : Externals) where
  -- LastError does not look at the manifest; the queries after it do.
  unfoldable pub handle_session_brief : Server → Bytes → Bytes → Response × Server
  unfolding sync collect_domains brief_targets session_brief add_counts
  handle_session_brief srv id role =
      if is_empty role
      then (error_response id invalid_params, srv)
      else let c = (sync x srv).controller in
        (
          answer_brief (can_read x srv role) id (collect_domains (can_read x srv role) c)
              (last_error srv.controller) (session_brief srv.store (brief_targets c)),
          sync x srv,
        )
