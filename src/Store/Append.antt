-- ===== src/Store/Append.antt =====
-- store/store.go: Append and AppendSection, with the check of observation files.
pub mod Appended
pub mod Inserted
pub mod Joined
use mathlib.Core.List.{reverse}
use cogmemory.Base.{
  ℕ, zero, suc, Bool, true, false, not, ◌&&◌, ◌||◌, List, [], ◌∷◌, ◌++◌, Option, none, some, ltb,
  leb, if◌then◌else◌, ◌==◌, Bytes, codes, has_prefix, has_suffix, trim_space, equal_fold, join,
  split, is_empty, length, keep, trim_class_left, last_or,
}
use cogmemory.Regex.{
  Matcher, ◌▷◌, lit, many, some_of, some_few, up_to, end, first, re_space, re_dot, date_part,
}
use cogmemory.Store.Fs.{Node, file, denied, dir}
use cogmemory.Store.State.{
  MemoryStore, Error, Result, Done, ok, err, io, obs_format, file_missing, empty_section,
  heading_not_found, abs_path, stat, atomic_write, mkdir_fails, put_file, at_path,
}
use cogmemory.Store.Lines.{newline}

-- isObsPath
unfoldable pub is_obs_path : Bytes → Bool
unfolding has_suffix
is_obs_path rel = has_suffix rel (codes "observations.md")

-- obsLineRE: `^-\s+\d{4}-\d{2}-\d{2}\s+\[.+\]:\s*.+$`
unfoldable pub obs_line : Bytes → Bool
unfolding lit many some_of end re_space re_dot date_part
obs_line line =
    let matches = lit (codes "-") line ▷ λ _ s1. some_of re_space s1 ▷ λ _ s2.
    date_part s2 ▷ λ _ s3. some_of re_space s3 ▷ λ _ s4. lit (codes "[") s4 ▷ λ _ s5.
    some_of re_dot s5 ▷ λ _ s6.
    lit (codes "]:") s6 ▷ λ _ s7. many re_space s7 ▷ λ _ s8. some_of re_dot s8 ▷ λ _ s9. end s9 in
    not (is_empty matches)

-- The lines that the validator complains of, trimmed.
unfoldable pub bad_lines : List Bytes → List Bytes
unfolding obs_line trim_space
bad_lines [] = []
bad_lines (l ∷ ls) =
    let bad = bad_lines ls in
    let trimmed = trim_space l in
    if is_empty trimmed then bad else if obs_line trimmed then bad else trimmed ∷ bad

-- validateObsLines
unfoldable pub validate_obs_lines : Bytes → Done
unfolding bad_lines split
validate_obs_lines text = elim (bad_lines (split newline text)) [
  | [] ↦ ok tt
  | b ∷ bs ↦ err (obs_format (b ∷ bs))
]

unfoldable pub separator : Bytes → Bytes → Bytes
unfolding has_prefix
separator existing text =
    if is_empty existing
    then []
    else if last_or newline existing == newline
    then []
    else if has_prefix text (newline ∷ [])
    then []
    else newline ∷ []

unfoldable pub trailing : Bytes → Bytes
unfolding has_suffix
trailing text = if has_suffix text (newline ∷ []) then [] else newline ∷ []

abbrev pub existing_of : Option Node → Result Bytes
existing_of none = ok []
existing_of (some (file c t)) = ok c
existing_of (some (denied t)) = err io
existing_of (some dir) = err io

-- The append at the end: in place where nothing has to stand between, else a rewrite of the file.
unfoldable pub append_end : MemoryStore → Bytes → Bytes → Bytes → Done × MemoryStore
append_end s abs text existing =
    if is_empty (separator existing text) && not (is_empty existing)
    then (ok tt, put_file s abs (existing ++ (text ++ trailing text)))
    else atomic_write s abs (existing ++ (separator existing text ++ (text ++ trailing text)))

abbrev is_hash : ℕ → Bool
is_hash c = c == b'#'

-- headingRE: `^(#{1,6})\s+(.+?)\s*$`; the level and the text
unfoldable pub heading : Bytes → Option (ℕ × Bytes)
unfolding lit up_to many some_of some_few end re_space re_dot
heading line = first (
    lit (codes "#") line ▷ λ _ s1. up_to 5 is_hash s1 ▷ λ more s2. some_of re_space s2 ▷ λ _ s3.
    some_few re_dot s3 ▷ λ title s4.
    many re_space s4 ▷ λ _ s5. end s5 ▷ λ _ _. (suc (length more), title) ∷ [])

-- The requested title, without its `#` and the space around it.
unfoldable pub want_title : Bytes → Bytes
unfolding trim_space trim_class_left
want_title section = trim_space (trim_class_left is_hash (trim_space section))

abbrev pub matches_title : Bytes → Option (ℕ × Bytes) → Option ℕ
matches_title want none = none
matches_title want (some (level, title)) =
    if equal_fold (trim_space title) want then some level else none

abbrev pub after_line :
    Bytes → Option (List Bytes × ℕ × List Bytes) → Option (List Bytes × ℕ × List Bytes)
after_line l none = none
after_line l (some (before, level, rest)) = some (l ∷ before, level, rest)

-- The lines up to the heading and with it, its level, and the lines behind it.
unfoldable pub locate : Bytes → List Bytes → Option (List Bytes × ℕ × List Bytes)
unfolding heading equal_fold trim_space
locate want [] = none
locate want (l ∷ ls) =
    let later = after_line l (locate want ls) in
    elim (matches_title want (heading l)) [ some level ↦ some (l ∷ [], level, ls) | none ↦ later ]

abbrev pub ends_section : ℕ → Option (ℕ × Bytes) → Bool
ends_section level none = false
ends_section level (some (k, title)) = leb k level

-- The lines of the section, and from the next heading of the same or a shallower level on.
unfoldable pub section_body : ℕ → List Bytes → List Bytes × List Bytes
unfolding heading
section_body level [] = ([], [])
section_body level (l ∷ ls) =
    let (body, tail) = section_body level ls in
    if ends_section level (heading l) then ([], l ∷ ls) else (l ∷ body, tail)

unfoldable pub is_blank : Bytes → Bool
unfolding trim_space
is_blank l = is_empty (trim_space l)

abbrev pub drop_blank : List Bytes → List Bytes
drop_blank [] = []
drop_blank (l ∷ ls) = if is_blank l then drop_blank ls else l ∷ ls

unfoldable pub trim_blank_end : List Bytes → List Bytes
unfolding is_blank
trim_blank_end ls = reverse (drop_blank (reverse ls))

unfoldable pub block_lines : Bytes → List Bytes
unfolding split trim_class_left
block_lines text = split newline (reverse (trim_class_left (λ c. c == newline) (reverse text)))

abbrev pub blank_line : List Bytes
blank_line = [] ∷ []

-- What stands behind the inserted block.
abbrev pub behind : List Bytes → List Bytes → List Bytes
behind lines [] = if is_empty (last_or [] lines) then blank_line else []
behind lines (t ∷ ts) = [] ∷ t ∷ ts

-- All lines of the file after the insertion.
unfoldable pub insert_block : List Bytes → List Bytes → List Bytes → List Bytes → Bytes → List Bytes
unfolding trim_blank_end block_lines
insert_block lines before body tail text =
    let kept = trim_blank_end body in
    before
    ++ (kept
        ++ ((if is_empty kept then blank_line else []) ++ (block_lines text ++ behind lines tail)))

unfoldable pub with_newline : Bytes → Bytes
unfolding has_suffix
with_newline content =
    if has_suffix content (newline ∷ []) then content else content ++ (newline ∷ [])

-- appendUnderSection on the content of the file
unfoldable pub section_content : Bytes → Bytes → Bytes → Result Bytes
unfolding want_title locate section_body insert_block with_newline split join
section_content section text existing =
    let want = want_title section in
    let lines = split newline existing in
    if is_empty want then err empty_section else elim (locate want lines) [
      | none ↦ err heading_not_found
      | some (before, level, rest) ↦
          let (body, tail) = section_body level rest in
          ok (with_newline (join newline (insert_block lines before body tail text)))
    ]

abbrev pub existing_section : Option Node → Result Bytes
existing_section none = err file_missing
existing_section (some (file c t)) = ok c
existing_section (some (denied t)) = err io
existing_section (some dir) = err io

unfoldable pub append_under_section : MemoryStore → Bytes → Bytes → Bytes → Done × MemoryStore
unfolding stat
append_under_section s abs section text = at_path s (existing_section (stat s abs)) λ existing.
    at_path s (section_content section text existing) λ content. atomic_write s abs content

abbrev pub checked : MemoryStore → Done → Done × MemoryStore → Done × MemoryStore
checked s (err e) next = (err e, s)
checked s (ok u) next = next

-- AppendSection; the directories that MkdirAll makes are not kept.
unfoldable pub append_section : MemoryStore → Bytes → Bytes → Bytes → Done × MemoryStore
unfolding mkdir_fails stat
append_section s rel section text = at_path s (abs_path s rel) λ abs.
    checked s (if is_obs_path rel then validate_obs_lines text else ok tt) (
      if mkdir_fails s abs
      then (err io, s)
      else if not (is_empty section)
      then append_under_section s abs section text
      else at_path s (existing_of (stat s abs)) λ existing. append_end s abs text existing)

-- Append
unfoldable pub append : MemoryStore → Bytes → Bytes → Done × MemoryStore
unfolding append_section
append s rel text = append_section s rel [] text
