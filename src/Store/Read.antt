-- ===== src/Store/Read.antt =====
-- store/store.go: reading a section of a markdown file.
use cogmemory.Base.{
  Bool, List, [], ◌∷◌, ◌++◌, Option, none, some, if◌then◌else◌, Bytes, codes, has_prefix,
  trim_space, equal_fold, join,
}
use cogmemory.Store.Lines.{newline, split_lines}

abbrev pub hashes : Bytes
hashes = codes "##"

-- strings.HasPrefix(strings.TrimSpace(line), "##")
unfoldable pub starts_section : Bytes → Bool
unfolding has_prefix trim_space
starts_section line = has_prefix (trim_space line) hashes

unfoldable pub normalize_heading : Bytes → Bytes
unfolding has_prefix trim_space
normalize_heading section =
    let trimmed = trim_space section in
    if has_prefix trimmed hashes then trimmed else codes "## " ++ trimmed

-- The inner loop: the lines of the section's body.
unfoldable pub until_section : List Bytes → List Bytes
unfolding starts_section
until_section [] = []
until_section (l ∷ ls) = let rest = until_section ls in if starts_section l then [] else l ∷ rest

-- The outer loop: from the first line that is the heading.
unfoldable pub find_section : Bytes → List Bytes → Option (List Bytes)
unfolding until_section equal_fold trim_space
find_section target [] = none
find_section target (l ∷ ls) =
    if equal_fold (trim_space l) target then some (l ∷ until_section ls) else find_section target ls

-- extractSection; `none` is the error "section not found"
unfoldable pub extract_section : Bytes → Bytes → Option Bytes
unfolding find_section normalize_heading split_lines join
extract_section content section =
    elim (find_section (normalize_heading section) (split_lines content)) [
      | none ↦ none
      | some lines ↦ some (join newline lines)
    ]
