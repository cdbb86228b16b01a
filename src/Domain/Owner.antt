-- ===== src/Domain/Owner.antt =====
-- domain/domain.go: which domain owns a path, and the check of the path of a write.
pub mod Deepest
use cogmemory.Base.{
  ℕ, Bool, true, false, not, ◌&&◌, ◌||◌, List, [], ◌∷◌, ◌++◌, Option, none, some, if◌then◌else◌,
  ltb, Bytes, codes, str_eq, has_prefix, trim_prefix, trim_suffix, has_byte, is_empty, length, cut,
}
use cogmemory.FilePath.{slash, dot, clean, base_name}
use cogmemory.Domain.Schema.{Info, Domain, info, walk, declares_file}
use cogmemory.Domain.Controller.{Controller, get}

-- The file name under which a domain of cleaned path `dpath` owns `rel`, if it does.
unfoldable pub owns : Bytes → Bytes → Option Bytes
unfolding has_byte has_prefix base_name trim_prefix trim_suffix str_eq
owns rel dpath =
    if str_eq dpath dot || is_empty dpath
    then (if not (has_byte slash rel) then some (trim_suffix rel (codes ".md")) else none)
    else if str_eq rel (dpath ++ (slash ∷ base_name rel)) || has_prefix rel (dpath ++ (slash ∷ []))
    then (let rest = trim_prefix rel (dpath ++ (slash ∷ [])) in
        if has_byte slash rest then none else some (trim_suffix rest (codes ".md")))
    else none

-- The best owner so far; `none` stands for the length -1.
pub record Best : Type 0 where
  pub id : Bytes
  pub file : Bytes
  pub depth : ℕ

abbrev pub beats : ℕ → Option Best → Bool
beats n none = true
beats n (some b) = ltb b.depth n

abbrev pub take_better : Bytes → ℕ → Option Bytes → Option Best → Option Best
take_better id n none best = best
take_better id n (some file) best =
    if beats n best then some (record { id = id; file = file; depth = n }) else best

unfoldable pub best_owner : Bytes → List Domain → Option Best → Option Best
unfolding owns clean
best_owner rel [] best = best
best_owner rel (d ∷ ds) best =
    let dpath = clean (info d).path in
    best_owner rel ds (take_better (info d).id (length dpath) (owns rel dpath) best)

-- DomainForPath
unfoldable pub domain_for_path : Controller → Bytes → Option Best
unfolding best_owner clean walk
domain_for_path c rel = best_owner (clean rel) (walk c.domains) none

pub data WriteError : Type 0 where
  id_as_path : WriteError
  undeclared : WriteError

-- What stands before the first slash.
unfoldable pub first_segment : Bytes → Bytes
unfolding cut clean
first_segment rel = elim (cut (clean rel) (slash ∷ [])) [
  | none ↦ clean rel
  | some (seg, rest) ↦ seg
]

abbrev check_segment : Bytes → Option Domain → Option WriteError
check_segment seg none = none
check_segment seg (some d) =
    if str_eq (info d).path seg || has_prefix (info d).path (seg ++ (slash ∷ []))
    then none
    else some id_as_path

-- checkIDAsPath
unfoldable pub check_id_as_path : Controller → Bytes → Option WriteError
check_id_as_path c rel =
    let seg = first_segment rel in
    if is_empty seg || str_eq seg dot then none else check_segment seg (get c seg)

abbrev check_declared : Bytes → Option Domain → Option WriteError
check_declared file none = none
check_declared file (some d) = if declares_file (info d).files file then none else some undeclared

-- ValidateWrite; `none` is a well-formed write
unfoldable pub validate_write : Controller → Bytes → Option WriteError
validate_write c rel = elim (domain_for_path c rel) [
  | none ↦ check_id_as_path c rel
  | some best ↦ check_declared best.file (get c best.id)
]
