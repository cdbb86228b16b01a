-- ===== src/Domain/Schema/Valid.antt =====
-- A registry that `validate` accepts.
use cogmemory.Base.{
  false, List, [], ◌∷◌, ◌++◌, ◌≡◌, refl, ◌∙◌, arith, Bytes, codes, has_prefix, contains, is_empty,
  All,
}
use cogmemory.FilePath.{slash}
use cogmemory.Domain.Schema.{
  Info, Domain, Domains, node, nil, cons, info, walk, walk_domain, declares_file, Checked, fine,
  bad, then_check, is_md, is_bad_basename, check_files, check_info, validate_domain, validate_from,
  validate,
}

-- A file name as a manifest declares it: not empty, without a slash and without `.md`.
pub record IsBareName (f : Bytes) : Type 0 where
  pub plain : is_bad_basename f ≡ false
  pub bare : is_md f ≡ false

-- A domain with an id, a relative path without `..`, and files with bare names.
pub record IsWellFormed (i : Info) : Type 0 where
  pub has_id : is_empty i.id ≡ false
  pub has_path : is_empty i.path ≡ false
  pub relative : has_prefix i.path (slash ∷ []) ≡ false
  pub no_dots : contains i.path (codes "..") ≡ false
  pub files : All IsBareName i.files

abbrev pub Fresh : Bytes → List Bytes → Type 0
Fresh id seen = declares_file seen id ≡ false

-- Domains in walk order, each with an id that none before it has; `seen` holds the ids so far.
abbrev pub IsRegistry : List Bytes → List Domain → Type 0
IsRegistry seen [] = Unit
IsRegistry seen (d ∷ ds) =
    Fresh (info d).id seen × IsWellFormed (info d) × IsRegistry ((info d).id ∷ seen) ds

-- The ids seen after a walk.
abbrev pub seen_after : List Bytes → List Domain → List Bytes
seen_after seen [] = seen
seen_after seen (d ∷ ds) = seen_after ((info d).id ∷ seen) ds

seen_after-append :
    (seen : List Bytes) (ds es : List Domain)
    → seen_after seen (ds ++ es) ≡ seen_after (seen_after seen ds) es
seen_after-append seen [] es = refl
seen_after-append seen (d ∷ ds) es = seen_after-append ((info d).id ∷ seen) ds es

IsRegistry-append :
    (seen : List Bytes) (ds es : List Domain)
    → IsRegistry seen ds
    → IsRegistry (seen_after seen ds) es
    → IsRegistry seen (ds ++ es)
IsRegistry-append seen [] es h k = k
IsRegistry-append seen (d ∷ ds) es h k =
    (h.0, h.1, IsRegistry-append ((info d).id ∷ seen) ds es h.2 k)

check_files_sound : (id : Bytes) (fs : List Bytes) → check_files id fs ≡ fine tt → All IsBareName fs
unfolding check_files
check_files_sound id [] h = tt
check_files_sound id (f ∷ fs) h =
    (record { plain = ground arith; bare = ground arith }, check_files_sound id fs (ground arith))

check_info_sound :
    (seen : List Bytes) (i : Info) → check_info seen i ≡ fine tt → Fresh i.id seen × IsWellFormed i
unfolding check_info
check_info_sound seen i h = (
  ground arith,
  record {
    has_id = ground arith;
    has_path = ground arith;
    relative = ground arith;
    no_dots = ground arith;
    files = check_files_sound i.id i.files (ground arith);
  },
)

then_check_fine {ℓ} :
    {A : Type ℓ} (c : Checked A) (k : A → Checked (List Bytes)) (r : List Bytes)
    → then_check c k ≡ fine r
    → (a : A) × (c ≡ fine a) × (k a ≡ fine r)
then_check_fine (fine a) k r h = (a, refl, h)
then_check_fine (bad e) k r h = cc

-- What acceptance of a part says: its walk is a registry after `seen`, and these ids are seen.
pub record Accepted (seen : List Bytes) (ds : List Domain) (r : List Bytes) : Type 0 where
  pub registry : IsRegistry seen ds
  pub ids : seen_after seen ds ≡ r

Accepted-append :
    (seen mid r : List Bytes) (ds es : List Domain)
    → Accepted seen ds mid
    → Accepted mid es r
    → Accepted seen (ds ++ es) r
Accepted-append seen mid r ds es h k = record {
  registry = IsRegistry-append seen ds es h.registry (rw h.ids k.registry);
  ids = seen_after-append seen ds es ∙ rw h.ids k.ids;
}

mutual
  unfolding validate_domain walk_domain

  validate_domain-Accepted :
      (d : Domain) (seen r : List Bytes)
      → validate_domain seen d ≡ fine r
      → Accepted seen (walk_domain d) r
  validate_domain-Accepted (node i subs) seen r h =
      let (u, e, k) =
        then_check_fine (check_info seen i) (λ v. validate_from (i.id ∷ seen) subs) r h in
      let (f, w) = check_info_sound seen i e in
      let rest = validate_from-Accepted subs (i.id ∷ seen) r k in
      record { registry = (f, w, rest.registry); ids = rest.ids }

  validate_from-Accepted :
      (ds : Domains) (seen r : List Bytes)
      → validate_from seen ds ≡ fine r
      → Accepted seen (walk ds) r
  validate_from-Accepted nil seen r h = record { registry = tt; ids = ground arith }
  validate_from-Accepted (cons d ds) seen r h =
      let (mid, e, k) = then_check_fine (validate_domain seen d) (λ m. validate_from m ds) r h in
      Accepted-append seen mid r (walk_domain d) (walk ds) (validate_domain-Accepted d seen mid e)
        (validate_from-Accepted ds mid r k)

-- Whatever `validate` accepts is a registry: over the whole walk, subdomains included, every id is
-- given once and is not empty, every path is relative and without `..`, and every declared file has
-- a bare name.
pub validate-IsRegistry :
    (ds : Domains) (r : List Bytes) → validate ds ≡ fine r → IsRegistry [] (walk ds)
unfolding validate
validate-IsRegistry ds r h = (validate_from-Accepted ds [] r h).registry
