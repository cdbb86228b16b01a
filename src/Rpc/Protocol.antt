-- ===== src/Rpc/Protocol.antt =====
-- rpc/server.go: the server, the error codes and the responses.
use cogmemory.Base.{ℕ, Bool, List, Option, none, some, Bytes, codes}
use cogmemory.FilePath.{join_path}
use cogmemory.Rbac
use cogmemory.Rbac.{Roles, read_op, write_op}
use cogmemory.Store.Fs.{Node, file, denied, dir}
use cogmemory.Store.State.{MemoryStore, stat}
use cogmemory.Store.Housekeeping.Scan.{HousekeepingResult}
use cogmemory.Store.Entities.{EntityAuditResult}
use cogmemory.Store.Indexes.{
  GlacierMeta, GlacierEntry, WikiMeta, WikiEntry, ScenarioFrontmatter, ScenarioEntry,
}
use cogmemory.Store.Observations.{ObservationEntry, RecentObservationsResult}
use cogmemory.Store.Clusters.Check.{ClusterResult}
use cogmemory.Store.Files.{OutlineEntry}
use cogmemory.Store.Scan.{SearchResult}
use cogmemory.Store.Actions.{OpenActionItem}
use cogmemory.Domain.Schema.{Info, Domain, Domains}
use cogmemory.Domain.Controller.{
  LoadError, Controller, Manifest, missing, locked, present, maybe_reload,
}
use cogmemory.Link.Index.{LinkEntry}
use cogmemory.Link.Audit.{LinkAuditCandidate}

-- The libraries that the source calls: doublestar.Match, and yaml.Unmarshal for the manifest and for
-- the frontmatter blocks.
pub record Externals : Type 0 where
  pub glob : Bytes → Bytes → Option Bool
  pub parse : Bytes → Option Domains
  pub related : Bytes → Option (List Bytes)
  pub glacier : Bytes → Option GlacierMeta
  pub wiki : Bytes → Option WikiMeta
  pub scenario : Bytes → Option ScenarioFrontmatter

pub data Code : Type 0 where
  parse_error invalid_request method_not_found invalid_params rbac_denied store_error : Code

-- The values of the action counts of a brief.
pub data CountValue : Type 0 where
  number : ℕ → CountValue
  flag : Bool → CountValue

pub record DomainSummaryResult : Type 0 where
  pub domain : Bytes
  pub path : Bytes
  pub label : Bytes
  pub hot_memory : Bytes
  pub open_action_count : ℕ
  pub completed_action_count_since : ℕ
  pub recent_observations : List ObservationEntry
  pub files_present : List Bytes
  pub last_activity : Bytes
  pub since : Bytes

pub data Payload : Type 0 where
  content : Bytes → Bool → Payload
  bytes : ℕ → Payload
  done : Payload
  entries : List OutlineEntry → Payload
  results : List SearchResult → ℕ → Payload
  l0 : Bytes → Payload
  paths : List Bytes → Payload
  items : List OpenActionItem → Payload
  domains : List Domain → Payload
  domain : Domain → Payload
  links : List LinkEntry → Payload
  candidates : List LinkAuditCandidate → Payload
  housekeeping : HousekeepingResult → Payload
  glacier_entries : List GlacierEntry → ℕ → Payload
  wiki_entries : List WikiEntry → ℕ → Payload
  scenarios : List ScenarioEntry → Payload
  audit : EntityAuditResult → Payload
  recent : RecentObservationsResult → Payload
  clusters : ClusterResult → Payload
  summary : DomainSummaryResult → Payload
  brief : Bytes → Bytes → List Info → List (Bytes × CountValue) → Option LoadError → Payload

-- errorResponse and okResponse; `id` is the id of the request as it was written.
pub data Response : Type 0 where
  error_response : Bytes → Code → Response
  ok_response : Bytes → Payload → Response

pub record Server : Type 0 where
  pub store : MemoryStore
  pub roles : Roles
  pub controller : Option Controller

-- srv.rbac.Check
unfoldable pub may : Externals → Server → Bytes → Bytes → Bytes → Bool
unfolding Rbac.check
may x srv role path op = Rbac.check x.glob srv.roles role path op

-- What the disk holds at <root>/domains.yml.
abbrev manifest_at : Option Node → Manifest
manifest_at none = missing
manifest_at (some (file text t)) = present text t
manifest_at (some (denied t)) = locked t
manifest_at (some dir) = locked 0

unfoldable pub manifest_of : MemoryStore → Manifest
unfolding stat join_path
manifest_of s = manifest_at (stat s (join_path s.root (codes "domains.yml")))

abbrev pub reload_some : Externals → MemoryStore → Option Controller → Option Controller
reload_some x s none = none
reload_some x s (some c) = some (maybe_reload x.parse (manifest_of s) c)

-- The maybeReload with which every query of the controller begins.
unfoldable pub sync : Externals → Server → Server
unfolding maybe_reload manifest_of
sync x srv = record srv { controller = reload_some x srv.store srv.controller }
