-- ===== src/Store/Scan.antt =====
-- store/store.go: scanFiles, the walk over all files, with List and Search.
use cogmemory.Base.{
  ℕ, suc, Bool, true, false, not, ◌&&◌, List, [], ◌∷◌, ◌++◌, none, some, if◌then◌else◌, Bytes,
  codes, str_eq, str_lt, drop_prefix, has_suffix, contains, to_lower, split, sort_by, any, map,
}
use cogmemory.FilePath.{slash}
use cogmemory.Store.Fs.{Fs, Node, file, denied, dir}
use cogmemory.Store.State.{MemoryStore}
use cogmemory.Store.Lines.{newline}

-- scannedFile, with the node in place of the absolute path that leads to it
pub record Scanned : Type 0 where
  pub rel : Bytes
  pub node : Node

-- The order of WalkDir: by components, each directory in the order of its names.
unfoldable pub parts_lt : List Bytes → List Bytes → Bool
unfolding str_eq str_lt
parts_lt ps [] = false
parts_lt [] (q ∷ qs) = true
parts_lt (p ∷ ps) (q ∷ qs) = if str_eq p q then parts_lt ps qs else str_lt p q

abbrev walk_less : Scanned → Scanned → Bool
walk_less a b = parts_lt (split slash a.rel) (split slash b.rel)

abbrev dirs_of : List Bytes → List Bytes
dirs_of [] = []
dirs_of (p ∷ []) = []
dirs_of (p ∷ q ∷ ps) = p ∷ dirs_of (q ∷ ps)

-- Whether the walk reaches a file: no `.git` directory above it, and no `.tmp` at its end.
unfoldable pub is_walked : Bytes → Bool
unfolding str_eq split has_suffix
is_walked rel =
    not (any (λ d. str_eq d (codes ".git")) (dirs_of (split slash rel)))
    && not (has_suffix rel (codes ".tmp"))

abbrev scan_entry : Bytes → Node → List Scanned → List Scanned
scan_entry rel dir rest = rest
scan_entry rel n rest = if is_walked rel then record { rel = rel; node = n } ∷ rest else rest

unfoldable pub entries_below : Bytes → Fs → List Scanned
unfolding drop_prefix is_walked
entries_below root [] = []
entries_below root ((p, n) ∷ fs) =
    let rest = entries_below root fs in
    elim (drop_prefix p (root ++ (slash ∷ []))) [ none ↦ rest | some rel ↦ scan_entry rel n rest ]

-- scanFiles
unfoldable pub scan_files : MemoryStore → List Scanned
unfolding entries_below sort_by parts_lt split
scan_files s = sort_by walk_less (entries_below s.root s.fs)

-- List
unfoldable pub list : MemoryStore → List Bytes
unfolding scan_files
list s = map (λ (f : Scanned). f.rel) (scan_files s)

pub record SearchResult : Type 0 where
  pub path : Bytes
  pub line : ℕ
  pub text : Bytes

unfoldable pub matching_lines : Bytes → Bytes → ℕ → List Bytes → List SearchResult
unfolding contains to_lower
matching_lines query path n [] = []
matching_lines query path n (l ∷ ls) =
    let rest = matching_lines query path (suc n) ls in
    if contains (to_lower l) query
    then record { path = path; line = suc n; text = l } ∷ rest
    else rest

unfoldable pub search_file : Bytes → Scanned → List SearchResult
unfolding matching_lines split
search_file query f = elim f.node [
  | file content t ↦ matching_lines query f.rel 0 (split newline content)
  | denied t ↦ []
  | dir ↦ []
]

unfoldable pub search_all : Bytes → List Scanned → List SearchResult
unfolding search_file
search_all query [] = []
search_all query (f ∷ fs) = search_file query f ++ search_all query fs

-- Search
unfoldable pub search_store : MemoryStore → Bytes → List SearchResult
unfolding search_all scan_files to_lower
search_store s query = search_all (to_lower query) (scan_files s)
