-- ===== src/Store/Actions.antt =====
-- store/store.go: the noise filter over markdown lines, and OpenActions.
pub mod Fences
pub mod Results
use cogmemory.Base.{
  ℕ, suc, Bool, true, false, not, ◌||◌, List, [], ◌∷◌, ◌++◌, Option, none, some, if◌then◌else◌,
  Bytes, codes, str_eq, str_lt, has_prefix, contains, trim_space, trim_prefix, to_lower, split, cut,
  is_empty, sort_by, less_on,
}
use cogmemory.Store.State.{MemoryStore, Result, ok, err, too_long, ◌>>=◌, abs_path, read_file}
use cogmemory.Store.Lines.{scan, mebibyte}

-- The two flags of the filter.
pub record Noise : Type 0 where
  pub in_comment : Bool
  pub in_fence : Bool

abbrev pub quiet : Noise
quiet = record { in_comment = false; in_fence = false }

-- isFenceLine
unfoldable pub is_fence_line : Bytes → Bool
unfolding has_prefix
is_fence_line trimmed = has_prefix trimmed (codes "```") || has_prefix trimmed (codes "~~~")

-- skipActionLine: whether the line is skipped, and the flags after it
unfoldable pub skip_action_line : Bytes → Noise → Bool × Noise
unfolding contains has_prefix is_fence_line
skip_action_line trimmed f =
    if f.in_comment
    then (true, if contains trimmed (codes "-->") then record f { in_comment = false } else f)
    else if has_prefix trimmed (codes "<!--")
    then (true, if not (contains trimmed (codes "-->")) then record f { in_comment = true } else f)
    else if f.in_fence
    then (true, if is_fence_line trimmed then record f { in_fence = false } else f)
    else if is_fence_line trimmed
    then (true, record f { in_fence = true })
    else (false, f)

-- The lines that a scan gets to see, trimmed and with their numbers.
unfoldable pub visible : Noise → ℕ → List Bytes → List (ℕ × Bytes)
unfolding skip_action_line trim_space
visible f n [] = []
visible f n (l ∷ ls) =
    let trimmed = trim_space l in
    let (skip, f') = skip_action_line trimmed f in
    let rest = visible f' (suc n) ls in if skip then rest else (suc n, trimmed) ∷ rest

pub record OpenActionItem : Type 0 where
  pub domain : Bytes
  pub path : Bytes
  pub line : ℕ
  pub text : Bytes
  pub raw : Bytes
  pub due : Bytes
  pub priority : Bytes
  pub added : Bytes

abbrev pub open_mark : Bytes
open_mark = codes "- [ ] "

abbrev pub done_mark : Bytes
done_mark = codes "- [x] "

abbrev pub done_mark_upper : Bytes
done_mark_upper = codes "- [X] "

unfoldable pub is_done : Bytes → Bool
unfolding has_prefix
is_done trimmed = has_prefix trimmed done_mark || has_prefix trimmed done_mark_upper

-- One `key: value` part behind a `|`.
abbrev pub set_field : OpenActionItem → Bytes → Bytes → OpenActionItem
set_field item key value =
    if str_eq key (codes "due")
    then record item { due = trim_space value }
    else if str_eq key (codes "pri") || str_eq key (codes "priority")
    then record item { priority = trim_space value }
    else if str_eq key (codes "added")
    then record item { added = trim_space value }
    else item

unfoldable pub read_part : OpenActionItem → Bytes → OpenActionItem
unfolding cut to_lower trim_space str_eq
read_part item part = elim (cut part (b':' ∷ [])) [
  | none ↦ item
  | some (key, value) ↦ set_field item (to_lower (trim_space key)) value
]

unfoldable pub read_parts : OpenActionItem → List Bytes → OpenActionItem
unfolding read_part
read_parts item [] = item
read_parts item (p ∷ ps) = read_parts (read_part item p) ps

abbrev pub head_or {ℓ} : {A : Type ℓ} → A → List A → A
head_or d [] = d
head_or d (x ∷ xs) = x

abbrev pub tail_of {ℓ} : {A : Type ℓ} → List A → List A
tail_of [] = []
tail_of (x ∷ xs) = xs

abbrev pub new_item : Bytes → Bytes → ℕ → Bytes → Bytes → OpenActionItem
new_item domain path line text raw = record {
  domain = domain;
  path = path;
  line = line;
  text = text;
  raw = raw;
  due = [];
  priority = [];
  added = [];
}

-- parseOpenActionItem
unfoldable pub parse_open_action_item : Bytes → Bytes → ℕ → Bytes → Option OpenActionItem
unfolding trim_space trim_prefix split read_parts
parse_open_action_item domain path line raw =
    let body = trim_space (trim_prefix raw open_mark) in
    let parts = split b'|' body in
    let text = trim_space (head_or [] parts) in
    if is_empty body
    then none
    else if is_empty text
    then none
    else some (read_parts (new_item domain path line text raw) (tail_of parts))

-- The body of the loop of OpenActions.
abbrev cons_some {ℓ} : {A : Type ℓ} → Option A → List A → List A
cons_some none xs = xs
cons_some (some x) xs = x ∷ xs

unfoldable pub open_items : Bytes → Bytes → List (ℕ × Bytes) → List OpenActionItem
unfolding has_prefix parse_open_action_item
open_items domain path [] = []
open_items domain path ((n, trimmed) ∷ ls) =
    let rest = open_items domain path ls in
    if has_prefix trimmed open_mark
    then cons_some (parse_open_action_item domain path n trimmed) rest
    else rest

pub record ActionTarget : Type 0 where
  pub domain : Bytes
  pub path : Bytes

-- What a scan of one file returns: nothing for a missing file, an error for a line that is too long.
abbrev pub scan_result {ℓ} : {A : Type ℓ} → A → (List Bytes → A) → Option Bytes → Result A
scan_result missing f none = ok missing
scan_result missing f (some content) =
    if (scan mebibyte content).1 then err too_long else ok (f (scan mebibyte content).0)

unfoldable pub scan_file {ℓ} : {A : Type ℓ} → MemoryStore → Bytes → A → (List Bytes → A) → Result A
unfolding abs_path read_file scan
scan_file s path missing f = do
  abs ← abs_path s path
  content ← read_file s abs
  scan_result missing f content

unfoldable pub items_of_file : MemoryStore → ActionTarget → Result (List OpenActionItem)
unfolding scan_file open_items visible
items_of_file s t =
    scan_file s t.path [] (λ lines. open_items t.domain t.path (visible quiet 0 lines))

unfoldable pub collect_items : MemoryStore → List ActionTarget → Result (List OpenActionItem)
unfolding items_of_file
collect_items s [] = ok []
collect_items s (t ∷ ts) = do
  items ← items_of_file s t
  rest ← collect_items s ts
  ok (items ++ rest)

-- OpenActions
unfoldable pub open_actions : MemoryStore → List ActionTarget → Result (List OpenActionItem)
unfolding collect_items sort_by str_lt
open_actions s targets = collect_items s (sort_by (less_on (λ (t : ActionTarget). t.path)) targets)
