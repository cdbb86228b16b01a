-- ===== src/Domain/Controller.antt =====
-- domain/domain.go: the controller, which serves the registry and reloads it when the manifest on
-- disk has another modification time.
pub mod Serving
use cogmemory.Base.{
  ℕ, Bool, true, false, not, ◌&&◌, ◌||◌, List, [], ◌∷◌, ◌++◌, Option, none, some, if◌then◌else◌,
  ◌==◌, Bytes, codes, str_eq, str_lt, is_empty, sort_by, less_on,
}
use cogmemory.FilePath.{is_abs}
use cogmemory.Domain.Schema.{
  Info, Domain, Domains, node, nil, cons, info, walk, declares_file, SchemaError, Checked, fine,
  bad, validate, join_posix,
}

-- What the disk holds at the manifest's path. `locked` can be examined and not read;
-- `unreachable` cannot be examined.
pub data Manifest : Type 0 where
  missing : Manifest
  unreachable : Manifest
  locked : ℕ → Manifest
  present : Bytes → ℕ → Manifest

pub data LoadError : Type 0 where
  read_error : LoadError
  parse_error : LoadError
  schema_error : SchemaError → LoadError

-- The map `flat`: a later entry of an id replaces an earlier one.
unfoldable pub find : Bytes → List (Bytes × Domain) → Option Domain
unfolding str_eq
find id [] = none
find id ((j, d) ∷ m) = if str_eq j id then some d else find id m

unfoldable pub flatten_list : List Domain → List (Bytes × Domain) → List (Bytes × Domain)
flatten_list [] m = m
flatten_list (d ∷ ds) m = flatten_list ds (((info d).id, d) ∷ m)

unfoldable pub flatten : Domains → List (Bytes × Domain)
unfolding flatten_list walk
flatten ds = flatten_list (walk ds) []

-- `mod_time` is `none` for the zero time.
pub record Controller : Type 0 where
  pub domains : Domains
  pub flat : List (Bytes × Domain)
  pub mod_time : Option ℕ
  pub last_err : Option LoadError

abbrev pub no_domains : Controller
no_domains = record { domains = nil; flat = []; mod_time = none; last_err = none }

abbrev pub serving : Domains → ℕ → Controller
serving ds t = record { domains = ds; flat = flatten ds; mod_time = some t; last_err = none }

pub data Loaded : Type 0 where
  loaded : Controller → Loaded
  failed : LoadError → Loaded

abbrev pub load_checked : Domains → ℕ → Checked (List Bytes) → Loaded
load_checked ds t (bad e) = failed (schema_error e)
load_checked ds t (fine seen) = loaded (serving ds t)

-- yaml.Unmarshal into the manifest is a parameter.
module _ (parse : Bytes → Option Domains) where
  abbrev pub load_parsed : Option Domains → ℕ → Loaded
  load_parsed none t = failed parse_error
  load_parsed (some ds) t = load_checked ds t (validate ds)

  -- reload: the new registry, or the error that leaves the controller as it is
  unfoldable pub reload : Manifest → Loaded
  unfolding validate flatten
  reload missing = loaded no_domains
  reload unreachable = failed read_error
  reload (locked t) = failed read_error
  reload (present content t) = load_parsed (parse content) t

  abbrev pub keep_last_good : Controller → Loaded → Controller
  keep_last_good c (loaded c') = c'
  keep_last_good c (failed e) = record c { last_err = some e }

  abbrev pub same_time : Option ℕ → ℕ → Bool
  same_time none t = false
  same_time (some u) t = t == u

  abbrev is_nil : Domains → Bool
  is_nil nil = true
  is_nil (cons d ds) = false

  abbrev pub is_none {ℓ} : {A : Type ℓ} → Option A → Bool
  is_none none = true
  is_none (some a) = false

  -- maybeReload
  unfoldable pub maybe_reload : Manifest → Controller → Controller
  maybe_reload missing c =
      if is_nil c.domains && is_none c.mod_time then c else keep_last_good c (reload missing)
  maybe_reload unreachable c = c
  maybe_reload (locked t) c =
      if same_time c.mod_time t then c else keep_last_good c (reload (locked t))
  maybe_reload (present content t) c =
      if same_time c.mod_time t then c else keep_last_good c (reload (present content t))

  -- New
  unfoldable pub new_controller : Bytes → Manifest → Option Loaded
  unfolding is_abs reload
  new_controller root m = if not (is_abs root) then none else some (reload m)

-- Get, behind its maybeReload
unfoldable pub get : Controller → Bytes → Option Domain
unfolding find
get c id = find id c.flat

pub record Target : Type 0 where
  pub domain : Bytes
  pub path : Bytes

-- The body of the walks of ActionItems, Observations and Entities.
unfoldable pub declared_targets : Bytes → List Domain → List Target
unfolding declares_file join_posix
declared_targets file [] = []
declared_targets file (d ∷ ds) =
    let rest = declared_targets file ds in
    let i = info d in
    if declares_file i.files file
    then record { domain = i.id; path = join_posix (i.path ∷ (file ++ codes ".md") ∷ []) } ∷ rest
    else rest

unfoldable pub targets_of : Bytes → Controller → List Target
unfolding declared_targets sort_by str_lt walk
targets_of file c =
    sort_by (less_on (λ (t : Target). t.path)) (declared_targets file (walk c.domains))

-- ActionItems, Observations, Entities
unfoldable pub action_items : Controller → List Target
unfolding targets_of
action_items = targets_of (codes "action-items")

unfoldable pub observations : Controller → List Target
unfolding targets_of
observations = targets_of (codes "observations")

unfoldable pub entities : Controller → List Target
unfolding targets_of
entities = targets_of (codes "entities")

pub data ResolveError : Type 0 where
  unknown_id : ResolveError
  undeclared_file : ResolveError

pub data Resolved : Type 0 where
  resolved : Bytes → Resolved
  unresolved : ResolveError → Resolved

abbrev resolve_in : Bytes → Option Domain → Resolved
resolve_in file none = unresolved unknown_id
resolve_in file (some d) =
    if not (declares_file (info d).files file)
    then unresolved undeclared_file
    else resolved (join_posix ((info d).path ∷ (file ++ codes ".md") ∷ []))

-- ResolveFile
unfoldable pub resolve_file : Controller → Bytes → Bytes → Resolved
unfolding get declares_file join_posix
resolve_file c id file = resolve_in file (get c id)
