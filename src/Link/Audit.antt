-- ===== src/Link/Audit.antt =====
-- store/link.go: the audit of entity names that are mentioned without a link.
pub mod Homes
use cogmemory.Base.{
  ℕ, suc, ◌+◌, Bool, false, not, ◌&&◌, ◌||◌, List, [], ◌∷◌, ◌++◌, Option, none, some, if◌then◌else◌,
  ◌==◌, ltb, Bytes, codes, str_eq, str_lt, trim_space, trim_suffix, has_suffix, cut, length, any,
  sort_by, split,
}
use cogmemory.Regex.{◌▷◌, lit, many, some_of, some_few, first, end, re_space, re_dot, find_all}
use cogmemory.Store.Fs.{Node, file, denied, dir}
use cogmemory.Store.State.{MemoryStore}
use cogmemory.Store.Lines.{newline}
use cogmemory.Store.Scan.{Scanned, scan_files}
use cogmemory.Link.Index.{wiki_link, md}
use cogmemory.Link.Words.{whole_word_index, inside_any_span}

pub record Entity : Type 0 where
  pub name : Bytes
  pub target : Bytes
  pub source : Bytes

-- entityHeaderRE: `^###\s+(.+?)\s*$`
unfoldable pub entity_header : Bytes → Option Bytes
unfolding lit many some_of some_few end re_space re_dot
entity_header line = first (
    lit (codes "###") line ▷ λ _ s1. some_of re_space s1 ▷ λ _ s2.
    some_few re_dot s2 ▷ λ name s3. many re_space s3 ▷ λ _ s4. end s4 ▷ λ _ _. name ∷ [])

-- The name in a header, without a role in parentheses.
unfoldable pub entity_name : Bytes → Bytes
unfolding trim_space cut
entity_name raw = elim (cut (trim_space raw) (codes " (")) [
  | none ↦ trim_space raw
  | some (name, role) ↦ trim_space name
]

abbrev pub add_entity : Bytes → Bytes → List Entity → List Entity
add_entity home name es =
    let target = home ++ (b'#' ∷ name) in
    if ltb (length name) 2 || any (λ (e : Entity). str_eq e.target target) es
    then es
    else es ++ (record { name = name; target = target; source = home } ∷ [])

unfoldable pub entities_of_lines : Bytes → List Bytes → List Entity → List Entity
unfolding entity_header entity_name str_eq
entities_of_lines home [] es = es
entities_of_lines home (l ∷ ls) es =
    entities_of_lines home ls
      (elim (entity_header l) [ none ↦ es | some raw ↦ add_entity home (entity_name raw) es ])

abbrev pub is_entities_file : Bytes → Bool
is_entities_file rel = has_suffix rel (codes "/entities.md") || str_eq rel (codes "entities.md")

abbrev pub entities_of_node : Bytes → Node → List Entity → List Entity
entities_of_node rel (file content t) es =
    entities_of_lines (trim_suffix rel md) (split newline content) es
entities_of_node rel (denied t) es = es
entities_of_node rel dir es = es

pub record LinkAuditCandidate : Type 0 where
  pub source_path : Bytes
  pub line : ℕ
  pub entity_name : Bytes
  pub target_link : Bytes
  pub context : Bytes

abbrev pub spans_of : List (ℕ × Bytes × ℕ) → List (ℕ × ℕ)
spans_of [] = []
spans_of ((at, name, n) ∷ ms) = (at, n) ∷ spans_of ms

-- The spans of the links on a line.
unfoldable pub link_spans : Bytes → List (ℕ × ℕ)
unfolding find_all wiki_link
link_spans line = spans_of (find_all wiki_link 0 0 line)

abbrev pub unlinked_at : Bytes → Bytes → Option ℕ → Bool
unlinked_at line name none = false
unlinked_at line name (some at) = not (inside_any_span (link_spans line) at (at + length name))

unfoldable pub mentions_unlinked : Bytes → Bytes → Bool
unfolding whole_word_index inside_any_span link_spans
mentions_unlinked line name = unlinked_at line name (whole_word_index line name)

-- The inner loop, over the entities, for one line.
unfoldable pub line_candidates : Bytes → ℕ → Bytes → List Entity → List LinkAuditCandidate
unfolding mentions_unlinked str_eq trim_space trim_suffix
line_candidates path n line [] = []
line_candidates path n line (e ∷ es) =
    let rest = line_candidates path n line es in
    if not (str_eq (trim_suffix path md) e.source) && mentions_unlinked line e.name
    then record {
      source_path = path;
      line = n;
      entity_name = e.name;
      target_link = e.target;
      context = trim_space line;
    }
      ∷ rest
    else rest

unfoldable pub file_candidates : Bytes → ℕ → List Bytes → List Entity → List LinkAuditCandidate
unfolding line_candidates
file_candidates path n [] es = []
file_candidates path n (l ∷ ls) es =
    line_candidates path (suc n) l es ++ file_candidates path (suc n) ls es

abbrev pub node_candidates : Bytes → Node → List Entity → List LinkAuditCandidate
node_candidates rel (file content t) es = file_candidates rel 0 (split newline content) es
node_candidates rel (denied t) es = []
node_candidates rel dir es = []

-- The order of the result.
unfoldable pub candidate_less : LinkAuditCandidate → LinkAuditCandidate → Bool
unfolding str_eq str_lt
candidate_less a b =
    if not (str_eq a.source_path b.source_path)
    then str_lt a.source_path b.source_path
    else if not (a.line == b.line)
    then ltb a.line b.line
    else str_lt a.entity_name b.entity_name

module _ (can_read : Bytes → Bool) where
  unfoldable pub all_entities : List Scanned → List Entity → List Entity
  unfolding has_suffix str_eq entities_of_lines trim_suffix split
  all_entities [] es = es
  all_entities (f ∷ fs) es =
      all_entities fs
        (if is_entities_file f.rel && can_read f.rel then entities_of_node f.rel f.node es else es)

  unfoldable pub all_candidates : List Scanned → List Entity → List LinkAuditCandidate
  unfolding has_suffix file_candidates split
  all_candidates [] es = []
  all_candidates (f ∷ fs) es =
      (if has_suffix f.rel md && can_read f.rel then node_candidates f.rel f.node es else [])
      ++ all_candidates fs es

  -- LinkAudit
  unfoldable pub link_audit : MemoryStore → List LinkAuditCandidate
  unfolding all_entities all_candidates scan_files sort_by candidate_less
  link_audit s =
      let files = scan_files s in
      sort_by candidate_less (all_candidates files (all_entities files []))
