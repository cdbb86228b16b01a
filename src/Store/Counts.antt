-- ===== src/Store/Counts.antt =====
-- CountActions of store/store.go and countOpenActions of store/session_brief.go.
pub mod Agreement
use cogmemory.Base.{
  ℕ, suc, ◌+◌, Bool, true, false, not, ◌&&◌, ◌||◌, List, [], ◌∷◌, ◌++◌, Option, none, some,
  if◌then◌else◌, ◌==◌, leb, Bytes, codes, str_eq, str_lt, has_prefix, contains, trim_space,
  trim_prefix, to_lower, equal_fold, split, cut, is_empty, sort_by, less_on,
}
use cogmemory.Regex.{◌▷◌, lit_fold, many, first, re_space, date_part}
use cogmemory.Store.State.{MemoryStore, Result, ok, err, too_long, ◌>>=◌, abs_path, read_file}
use cogmemory.Store.Lines.{scan, mebibyte}
use cogmemory.Store.Actions.{
  OpenActionItem, open_mark, is_done, parse_open_action_item, quiet, scan_file, visible,
}

-- addedDateRE: `(?i)\badded:\s*(\d{4}-\d{2}-\d{2})`, searched from the left; `prev` says whether a
-- word character stands before.
abbrev pub is_word : ℕ → Bool
is_word c =
    (leb b'a' c && leb c b'z')
    || (leb b'A' c && leb c b'Z')
    || (leb b'0' c && leb c b'9')
    || c == b'_'

unfoldable pub added_here : Bytes → Option Bytes
unfolding lit_fold many re_space date_part
added_here s = first (
    lit_fold (codes "added:") s ▷ λ _ s1.
    many re_space s1 ▷ λ _ s2. date_part s2 ▷ λ date _. date ∷ [])

unfoldable pub added_from : Bool → Bytes → Option Bytes
unfolding added_here
added_from prev [] = none
added_from prev (c ∷ s) =
    let later = added_from (is_word c) s in
    elim (if prev then none else added_here (c ∷ s)) [ some date ↦ some date | none ↦ later ]

unfoldable pub added_date : Bytes → Option Bytes
unfolding added_from
added_date s = added_from false s

abbrev pub at_least : Bytes → Option Bytes → Bool
at_least since none = false
at_least since (some d) = not (str_lt d since)

-- Whether a completed line counts in the window: without a window every one does.
unfoldable pub in_window : Bytes → Bytes → Bool
unfolding added_date str_lt
in_window since trimmed = if is_empty since then true else at_least since (added_date trimmed)

unfoldable pub count_open : List (ℕ × Bytes) → ℕ
unfolding has_prefix
count_open [] = 0
count_open ((n, trimmed) ∷ ls) = (if has_prefix trimmed open_mark then 1 else 0) + count_open ls

-- The second case of the switch, which is reached only by lines that are not open items.
unfoldable pub count_done : Bytes → List (ℕ × Bytes) → ℕ
unfolding has_prefix is_done in_window
count_done since [] = 0
count_done since ((n, trimmed) ∷ ls) =
    (if has_prefix trimmed open_mark
      then 0
      else if is_done trimmed && in_window since trimmed
      then 1
      else 0)
    + count_done since ls

abbrev pub count_both : Bytes → List (ℕ × Bytes) → ℕ × ℕ
count_both since ls = (count_open ls, count_done since ls)

-- CountActions
unfoldable pub count_actions : MemoryStore → Bytes → Bytes → Result (ℕ × ℕ)
unfolding scan_file count_open count_done visible
count_actions s path since =
    scan_file s path (0, 0) (λ lines. count_both since (visible quiet 0 lines))

abbrev pub is_high : Option OpenActionItem → Bool
is_high none = false
is_high (some item) = equal_fold item.priority (codes "high")

unfoldable pub count_high : Bytes → List (ℕ × Bytes) → ℕ
unfolding has_prefix parse_open_action_item equal_fold
count_high path [] = 0
count_high path ((n, trimmed) ∷ ls) =
    (if has_prefix trimmed open_mark && is_high (parse_open_action_item [] path 0 trimmed)
      then 1
      else 0)
    + count_high path ls

-- countOpenActions of store/session_brief.go
unfoldable pub count_open_actions : MemoryStore → Bytes → Result (ℕ × ℕ)
unfolding scan_file count_open count_high visible
count_open_actions s path =
    scan_file s path (0, 0)
      (λ lines. let ls = visible quiet 0 lines in (count_open ls, count_high path ls))
