-- ===== src/Link/Index.antt =====
-- store/link.go: the reverse index of wiki links.
use cogmemory.Base.{
  ℕ, ◌+◌, Bool, not, ◌||◌, List, [], ◌∷◌, ◌++◌, Option, none, some, if◌then◌else◌, ◌==◌, Bytes,
  codes, str_eq, str_lt, trim_space, trim_suffix, has_suffix, cut, is_empty, length, any, sort_by,
  less_on, keep, map,
}
use cogmemory.Regex.{◌▷◌, lit, some_few, first, find_all}
use cogmemory.Store.Fs.{Node, file, denied, dir}
use cogmemory.Store.State.{MemoryStore}
use cogmemory.Store.Files.{extract_frontmatter}
use cogmemory.Store.Scan.{Scanned, scan_files}

abbrev not_bracket : ℕ → Bool
not_bracket c = not (c == b'[' || c == b']')

-- wikiLinkRE at the start of a text: the captured text and the length of the whole match
unfoldable pub wiki_link : Bytes → Option (Bytes × ℕ)
unfolding lit some_few
wiki_link s = first (
    lit (codes "[[") s ▷ λ _ s1.
    some_few not_bracket s1 ▷ λ name s2. lit (codes "]]") s2 ▷ λ _ _. (name, length name + 4) ∷ [])

abbrev captures : List (ℕ × Bytes × ℕ) → List Bytes
captures [] = []
captures ((at, name, n) ∷ ms) = name ∷ captures ms

unfoldable pub wiki_links : Bytes → List Bytes
unfolding find_all wiki_link
wiki_links text = captures (find_all wiki_link 0 0 text)

abbrev before_hash : Bytes → Option (Bytes × Bytes) → Bytes
before_hash s none = s
before_hash s (some (before, after)) = before

abbrev pub md : Bytes
md = codes ".md"

-- normalizeLinkTarget
unfoldable pub normalize_link_target : Bytes → Bytes
unfolding trim_space cut trim_suffix
normalize_link_target raw =
    let target = trim_space raw in trim_suffix (before_hash target (cut target (b'#' ∷ []))) md

-- LinkEntry, and the map from targets to sets of sources
pub record LinkEntry : Type 0 where
  pub target : Bytes
  pub sources : List Bytes

unfoldable pub add_source : Bytes → List Bytes → List Bytes
unfolding str_eq
add_source source sources = if any (λ x. str_eq x source) sources then sources else source ∷ sources

unfoldable pub add_link : Bytes → Bytes → List LinkEntry → List LinkEntry
unfolding str_eq add_source
add_link target source [] = record { target = target; sources = source ∷ [] } ∷ []
add_link target source (e ∷ idx) =
    if str_eq e.target target
    then record e { sources = add_source source e.sources } ∷ idx
    else e ∷ add_link target source idx

-- The loop over the raw targets of one file.
unfoldable pub add_links : Bytes → List Bytes → List LinkEntry → List LinkEntry
unfolding normalize_link_target add_link str_eq
add_links source [] idx = idx
add_links source (raw ∷ raws) idx =
    let target = normalize_link_target raw in
    add_links source raws
      (if is_empty target || str_eq target source then idx else add_link target source idx)

-- yaml.Unmarshal of a frontmatter block, for its `related` list, is a parameter.
module _ (related : Bytes → Option (List Bytes)) where
  abbrev related_in : Option Bytes → List Bytes
  related_in none = []
  related_in (some fm) = elim (related fm) [ none ↦ [] | some links ↦ links ]

  -- relatedFrontmatter
  unfoldable pub related_frontmatter : Bytes → List Bytes
  unfolding extract_frontmatter
  related_frontmatter text = related_in (extract_frontmatter text)

  abbrev index_node : Bytes → Node → List LinkEntry → List LinkEntry
  index_node rel (file content t) idx =
      let source = trim_suffix rel md in
      add_links source (related_frontmatter content) (add_links source (wiki_links content) idx)
  index_node rel (denied t) idx = idx
  index_node rel dir idx = idx

  unfoldable pub index_files : List Scanned → List LinkEntry → List LinkEntry
  unfolding has_suffix trim_suffix add_links wiki_links related_frontmatter
  index_files [] idx = idx
  index_files (f ∷ fs) idx =
      index_files fs (if has_suffix f.rel md then index_node f.rel f.node idx else idx)

  unfoldable pub sort_entries : List LinkEntry → List LinkEntry
  unfolding sort_by str_lt
  sort_entries idx =
      sort_by (less_on (λ (e : LinkEntry). e.target))
        (map (λ (e : LinkEntry). record e { sources = sort_by str_lt e.sources }) idx)

  -- LinkIndex
  unfoldable pub link_index : MemoryStore → List LinkEntry
  unfolding index_files sort_entries scan_files
  link_index s = sort_entries (index_files (scan_files s) [])

  -- LinkIndexFiltered
  unfoldable pub filter_entries : (Bytes → Bool) → List LinkEntry → List LinkEntry
  filter_entries can_read [] = []
  filter_entries can_read (e ∷ es) =
      let rest = filter_entries can_read es in
      let kept = keep (λ src. can_read (src ++ md)) e.sources in
      if is_empty kept then rest else record e { sources = kept } ∷ rest

  unfoldable pub link_index_filtered : MemoryStore → (Bytes → Bool) → List LinkEntry
  unfolding link_index filter_entries
  link_index_filtered s can_read = filter_entries can_read (link_index s)
