-- ===== src/Store/Files.antt =====
-- store/store.go: the frontmatter of a file, L0Index, Read and Outline.
use cogmemory.Base.{
  ℕ, suc, not, ◌&&◌, ◌||◌, List, [], ◌∷◌, ◌++◌, Option, none, some, if◌then◌else◌, Bytes, codes,
  str_eq, has_prefix, has_suffix, trim_space, split, join, is_empty, keep, trim_suffix, trim_prefix,
  cut, ℤ, is_pos,
}
use cogmemory.FilePath.{slash}
use cogmemory.Store.Fs.{Node, file, denied, dir}
use cogmemory.Regex.{◌▷◌, lit, many, some_few, first, re_space, re_dot}
use cogmemory.Store.State.{
  MemoryStore, Result, ok, err, io, section_not_found, too_long, ◌>>=◌, abs_path, read_file,
}
use cogmemory.Store.Lines.{newline, extract_line_range, scan, default_limit}
use cogmemory.Store.Read.{extract_section}
use cogmemory.Store.Scan.{Scanned, scan_files, list}

unfoldable pub skip_blank : List Bytes → List Bytes
unfolding trim_space
skip_blank [] = []
skip_blank (l ∷ ls) = let rest = skip_blank ls in if is_empty (trim_space l) then rest else l ∷ ls

unfoldable pub skip_comment : List Bytes → List Bytes
unfolding trim_space has_prefix has_suffix
skip_comment [] = []
skip_comment (l ∷ ls) =
    if has_prefix (trim_space l) (codes "<!--") && has_suffix (trim_space l) (codes "-->")
    then ls
    else l ∷ ls

abbrev pub dashes : Bytes
dashes = codes "---"

abbrev before_line : Bytes → Option (List Bytes) → Option (List Bytes)
before_line l none = none
before_line l (some ls) = some (l ∷ ls)

-- The lines up to the closing dashes.
unfoldable pub until_dashes : List Bytes → Option (List Bytes)
unfolding trim_space str_eq
until_dashes [] = none
until_dashes (l ∷ ls) =
    let more = before_line l (until_dashes ls) in
    if str_eq (trim_space l) dashes then some [] else more

abbrev open_block : List Bytes → Option (List Bytes)
open_block [] = none
open_block (l ∷ ls) = if str_eq (trim_space l) dashes then until_dashes ls else none

abbrev joined : Option (List Bytes) → Option Bytes
joined none = none
joined (some ls) = some (join newline ls)

-- The bytes of U+FEFF.
abbrev byte_order_mark : Bytes
byte_order_mark = 239 ∷ 187 ∷ 191 ∷ []

-- extractFrontmatter
unfoldable pub extract_frontmatter : Bytes → Option Bytes
unfolding skip_blank skip_comment until_dashes split join trim_space str_eq trim_prefix
extract_frontmatter text = joined (
    open_block
      (skip_blank (skip_comment (skip_blank (split newline (trim_prefix text byte_order_mark))))))

-- l0RE: `<!--\s*L0:\s*(.+?)\s*-->`, searched from the left
unfoldable pub l0_here : Bytes → Option Bytes
unfolding lit many some_few re_space re_dot
l0_here s = first (
    lit (codes "<!--") s ▷ λ _ s1. many re_space s1 ▷ λ _ s2. lit (codes "L0:") s2 ▷ λ _ s3.
    many re_space s3 ▷ λ _ s4. some_few re_dot s4 ▷ λ summary s5.
    many re_space s5 ▷ λ _ s6. lit (codes "-->") s6 ▷ λ _ _. summary ∷ [])

unfoldable pub l0_summary : Bytes → Option Bytes
unfolding l0_here
l0_summary [] = none
l0_summary (c ∷ s) =
    let later = l0_summary s in elim (l0_here (c ∷ s)) [ some m ↦ some m | none ↦ later ]

abbrev first_line : Bytes → Bytes
first_line text = elim (cut text (newline ∷ [])) [ none ↦ text | some (l, rest) ↦ l ]

abbrev l0_line : Bytes → Option Bytes → List Bytes → List Bytes
l0_line rel none rest = rest
l0_line rel (some m) rest = (rel ++ (codes ": " ++ m)) ∷ rest

abbrev l0_node : Bytes → Node → List Bytes → List Bytes
l0_node rel (file content t) rest = l0_line rel (l0_summary (first_line content)) rest
l0_node rel (denied t) rest = rest
l0_node rel dir rest = rest

unfoldable pub l0_lines : List Scanned → List Bytes
unfolding l0_summary cut
l0_lines [] = []
l0_lines (f ∷ fs) = l0_node f.rel f.node (l0_lines fs)

-- L0Index
unfoldable pub l0_index : MemoryStore → Bytes → Bytes
unfolding l0_lines scan_files trim_suffix has_prefix join
l0_index s domain =
    let lines = l0_lines (scan_files s) in
    join newline (
      if is_empty domain
      then lines
      else keep (λ l. has_prefix l (trim_suffix domain (codes "/") ++ (slash ∷ []))) lines)

abbrev section_result : Option Bytes → Result Bytes
section_result none = err section_not_found
section_result (some text) = ok text

abbrev select : Bytes → ℤ → ℤ → Option Bytes → Result Bytes
select section start end none = ok []
select section start end (some content) =
    if not (is_empty section)
    then section_result (extract_section content section)
    else if is_pos start || is_pos end
    then ok (extract_line_range content start end)
    else ok content

-- Read
unfoldable pub read : MemoryStore → Bytes → Bytes → ℤ → ℤ → Result Bytes
read s rel section start end =
    if str_eq rel (codes "L0_INDEX")
    then ok (l0_index s [])
    else if str_eq rel (codes "LIST")
    then ok (join newline (list s))
    else do abs ← abs_path s rel; content ← read_file s abs; select section start end content

pub record OutlineEntry : Type 0 where
  pub line : ℕ
  pub text : Bytes
  pub level : ℕ

unfoldable pub outline_lines : ℕ → List Bytes → List OutlineEntry
unfolding has_prefix trim_prefix
outline_lines n [] = []
outline_lines n (l ∷ ls) =
    let rest = outline_lines (suc n) ls in
    if has_prefix l (codes "### ")
    then record { line = suc n; text = trim_prefix l (codes "### "); level = 3 } ∷ rest
    else if has_prefix l (codes "## ")
    then record { line = suc n; text = trim_prefix l (codes "## "); level = 2 } ∷ rest
    else rest

abbrev outline_content : Option Bytes → Result (List OutlineEntry)
outline_content none = err io
outline_content (some content) =
    if (scan default_limit content).1
    then err too_long
    else ok (outline_lines 0 (scan default_limit content).0)

-- Outline
unfoldable pub outline : MemoryStore → Bytes → Result (List OutlineEntry)
unfolding abs_path read_file outline_lines scan
outline s rel = do abs ← abs_path s rel; content ← read_file s abs; outline_content content
