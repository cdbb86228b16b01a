-- ===== src/Store/Lines.antt =====
-- Lines of a file as the store cuts them: `splitLines`, `clamp`, and bufio.Scanner.
use mathlib.Core.List.{reverse}
use cogmemory.Base.{
  ℕ, ◌-◌, Bool, true, false, List, [], ◌∷◌, if◌then◌else◌, ◌==◌, leb, ltb, Bytes, split, join,
  is_empty, length, take, drop, ℤ, pos, is_zero, clamp,
}

abbrev pub newline : ℕ
newline = 10

abbrev pub drop_last_empty : List Bytes → List Bytes
drop_last_empty [] = []
drop_last_empty (l ∷ []) = if is_empty l then [] else l ∷ []
drop_last_empty (l ∷ m ∷ ls) = l ∷ drop_last_empty (m ∷ ls)

unfoldable pub split_lines : Bytes → List Bytes
unfolding split
split_lines content = drop_last_empty (split newline content)

-- lines[start-1:end] joined, for bounds that are held inside the file; 0 means "not given".
abbrev or_default : ℤ → ℕ → ℤ
or_default z n = if is_zero z then pos n else z

abbrev slice_lines : List Bytes → ℕ → ℕ → Bytes
slice_lines lines start end =
    if ltb end start then [] else join newline (drop (start - 1) (take end lines))

unfoldable pub extract_line_range : Bytes → ℤ → ℤ → Bytes
unfolding split_lines join
extract_line_range content start end =
    let lines = split_lines content in
    let n = length lines in
    if is_empty lines
    then []
    else slice_lines lines (clamp (or_default start 1) 1 n) (clamp (or_default end n) 1 n)

abbrev trim_cr : Bytes → Bytes
trim_cr l = elim (reverse l) [ [] ↦ [] | c ∷ r ↦ if c == 13 then reverse r else l ]

-- What a scanner with a buffer of `max` bytes returns before it stops, and whether it stopped at a
-- line that does not fit (bufio.ErrTooLong).
unfoldable pub scan_upto : ℕ → List Bytes → List Bytes × Bool
scan_upto max [] = ([], false)
scan_upto max (l ∷ ls) =
    let (more, failed) = scan_upto max ls in
    if leb max (length l) then ([], true) else (trim_cr l ∷ more, failed)

unfoldable pub scan : ℕ → Bytes → List Bytes × Bool
unfolding scan_upto split_lines
scan max content = scan_upto max (split_lines content)

-- scanner.Buffer(…, 1<<20), and the default limit of 64 KiB
abbrev pub mebibyte : ℕ
mebibyte = 1048576

abbrev pub default_limit : ℕ
default_limit = 65536
