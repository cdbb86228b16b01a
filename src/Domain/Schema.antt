-- ===== src/Domain/Schema.antt =====
-- domain/domain.go: the declared domains, the walk over them, and the check of the schema.
pub mod Valid
use cogmemory.Base.{
  ℕ, Bool, true, false, not, ◌&&◌, ◌||◌, List, [], ◌∷◌, ◌++◌, Option, none, some, if◌then◌else◌,
  ◌==◌, Bytes, codes, str_eq, has_prefix, has_suffix, contains, is_empty, any, join, trim_byte,
}
use cogmemory.FilePath.{slash, dot}

-- The fields of a domain but its subdomains.
pub record Info : Type 0 where
  pub id : Bytes
  pub path : Bytes
  pub label : Bytes
  pub kind : Bytes
  pub triggers : List Bytes
  pub files : List Bytes

mutual
  pub data Domain : Type 0 where
    node : Info → Domains → Domain

  pub data Domains : Type 0 where
    nil : Domains
    cons : Domain → Domains → Domains

abbrev pub info : Domain → Info
info (node i subs) = i

-- The domains in the order in which `walk` calls its function: each before its subdomains.
unfoldable mutual
  pub walk_domain : Domain → List Domain
  walk_domain (node i subs) = node i subs ∷ walk subs

  pub walk : Domains → List Domain
  walk nil = []
  walk (cons d ds) = walk_domain d ++ walk ds

-- declaresFile
unfoldable pub declares_file : List Bytes → Bytes → Bool
unfolding str_eq
declares_file files file = any (λ f. str_eq f file) files

pub data SchemaError : Type 0 where
  empty_id : SchemaError
  duplicate_id : Bytes → SchemaError
  path_is_empty : Bytes → SchemaError
  path_is_absolute : Bytes → SchemaError
  path_has_dots : Bytes → SchemaError
  bad_basename : Bytes → Bytes → SchemaError
  has_md_suffix : Bytes → Bytes → SchemaError

pub data Checked {ℓ} (A : Type ℓ) : Type ℓ where
  fine : A → Checked A
  bad : SchemaError → Checked A

abbrev pub then_check {ℓ κ} : {A : Type ℓ} {B : Type κ} → Checked A → (A → Checked B) → Checked B
then_check (fine a) k = k a
then_check (bad e) k = bad e

unfoldable pub is_md : Bytes → Bool
unfolding has_suffix
is_md f = has_suffix f (codes ".md")

-- f == "" || strings.ContainsAny(f, "/\\")
unfoldable pub is_bad_basename : Bytes → Bool
is_bad_basename f = is_empty f || any (λ c. c == slash || c == b'\\') f

unfoldable pub check_files : Bytes → List Bytes → Checked (Unit {0})
unfolding is_bad_basename is_md
check_files id [] = fine tt
check_files id (f ∷ fs) =
    let rest = check_files id fs in
    if is_bad_basename f
    then bad (bad_basename id f)
    else if is_md f
    then bad (has_md_suffix id f)
    else rest

-- The checks of one domain, on the ids seen before it.
unfoldable pub check_info : List Bytes → Info → Checked (Unit {0})
unfolding declares_file has_prefix contains check_files
check_info seen i =
    if is_empty i.id
    then bad empty_id
    else if declares_file seen i.id
    then bad (duplicate_id i.id)
    else if is_empty i.path
    then bad (path_is_empty i.id)
    else if has_prefix i.path (slash ∷ [])
    then bad (path_is_absolute i.id)
    else if contains i.path (codes "..")
    then bad (path_has_dots i.id)
    else check_files i.id i.files

-- The recursive function of `validate`: it returns the ids seen by then.
unfoldable mutual
  pub validate_domain : List Bytes → Domain → Checked (List Bytes)
  validate_domain seen (node i subs) =
      then_check (check_info seen i) λ u. validate_from (i.id ∷ seen) subs

  pub validate_from : List Bytes → Domains → Checked (List Bytes)
  validate_from seen nil = fine seen
  validate_from seen (cons d ds) =
      then_check (validate_domain seen d) λ seen'. validate_from seen' ds

-- validate
unfoldable pub validate : Domains → Checked (List Bytes)
unfolding validate_from
validate ds = validate_from [] ds

-- joinPosix
unfoldable pub posix_parts : List Bytes → List Bytes
unfolding trim_byte str_eq
posix_parts [] = []
posix_parts (p ∷ ps) =
    let rest = posix_parts ps in
    if is_empty p || str_eq p dot then rest else trim_byte slash p ∷ rest

unfoldable pub join_posix : List Bytes → Bytes
unfolding posix_parts join
join_posix parts = join slash (posix_parts parts)
