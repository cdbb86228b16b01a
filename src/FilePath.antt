-- ===== src/FilePath.antt =====
-- Go's `path/filepath` on a POSIX system: Clean, Join, Base, Dir and IsAbs, as the program uses them.
pub mod Normal
use mathlib.Core.List.{foldl, reverse}
use cogmemory.Base.{
  ℕ, Bool, true, false, ◌||◌, List, [], ◌∷◌, ◌++◌, if◌then◌else◌, ◌==◌, Bytes, codes, str_eq, split,
  join, has_prefix, is_empty,
}

abbrev pub slash : ℕ
slash = b'/'

abbrev pub dot : Bytes
dot = b'.' ∷ []

abbrev pub dot_dot : Bytes
dot_dot = b'.' ∷ b'.' ∷ []

-- filepath.IsAbs
unfoldable pub is_abs : Bytes → Bool
unfolding has_prefix
is_abs p = has_prefix p (slash ∷ [])

-- One `..`: it takes the last kept component away, and stays if there is none to take.
pub pop : Bool → List Bytes → List Bytes
pop rooted [] = if rooted then [] else dot_dot ∷ []
pop rooted (top ∷ rest) = if str_eq top dot_dot then dot_dot ∷ top ∷ rest else rest

-- One component of the path; the kept components stand last first.
pub clean_step : Bool → List Bytes → Bytes → List Bytes
unfolding pop
clean_step rooted kept part =
    if is_empty part || str_eq part dot
    then kept
    else if str_eq part dot_dot
    then pop rooted kept
    else part ∷ kept

unfoldable pub clean_parts : Bool → List Bytes → List Bytes
unfolding clean_step
clean_parts rooted parts = reverse (foldl (clean_step rooted) [] parts)

abbrev assemble : Bool → List Bytes → Bytes
assemble true parts = slash ∷ join slash parts
assemble false [] = dot
assemble false (p ∷ ps) = join slash (p ∷ ps)

-- filepath.Clean
unfoldable pub clean : Bytes → Bytes
unfolding clean_parts is_abs split join
clean p = assemble (is_abs p) (clean_parts (is_abs p) (split slash p))

-- filepath.Join of two elements, the first of which is not empty.
unfoldable pub join_path : Bytes → Bytes → Bytes
unfolding clean
join_path a b = clean (a ++ (slash ∷ b))

abbrev pub last_part : List Bytes → Bytes
last_part [] = []
last_part (p ∷ []) = p
last_part (p ∷ q ∷ ps) = last_part (q ∷ ps)

-- filepath.Base of a cleaned path
unfoldable pub base_name : Bytes → Bytes
unfolding split
base_name p = last_part (split slash p)
