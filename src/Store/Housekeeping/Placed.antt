-- ===== src/Store/Housekeeping/Placed.antt =====
-- store/housekeeping.go: what a scan of a file reports is at the path of that file.
use cogmemory.Base.{
  ℕ, Bool, not, List, [], ◌∷◌, Option, none, some, ◌≡◌, refl, arith, if◌then◌else◌, Bytes, is_empty,
  All, All-if, has_prefix, pos, ◌∙◌, trim_space, trim_prefix, split,
}
use cogmemory.Time.{Instant, Date, parse_date, instant, days_since, ltb_ℤ}
use cogmemory.Store.State.{MemoryStore}
use cogmemory.Store.Actions.{
  OpenActionItem, read_part, read_parts, parse_open_action_item, is_done, open_mark, head_or,
  tail_of, new_item,
}
use cogmemory.Store.Housekeeping.{
  ObservationsOverCap, OverCap, PatternsOverCap, StaleActionItem, scan_observations,
  scan_improvements, scan_hot_memory, scan_patterns, stale_items, stale_item, stale_at, added_of,
  scan_action_items, visible_in, scanned_lines,
}

pub observations_placed :
    (s : MemoryStore) (path : Bytes) (cap : ℕ) (v : ObservationsOverCap)
    → scan_observations s path cap ≡ some v
    → v.path ≡ path
unfolding scan_observations
observations_placed s path cap v h = ground arith

pub improvements_placed :
    (s : MemoryStore) (path : Bytes) (cap : ℕ) (v : OverCap)
    → scan_improvements s path cap ≡ some v
    → v.path ≡ path
unfolding scan_improvements
improvements_placed s path cap v h = ground arith

pub hot_placed :
    (s : MemoryStore) (path : Bytes) (cap : ℕ) (v : OverCap)
    → scan_hot_memory s path cap ≡ some v
    → v.path ≡ path
unfolding scan_hot_memory
hot_placed s path cap v h = ground arith

pub patterns_placed :
    (s : MemoryStore) (path : Bytes) (m n : ℕ) (v : PatternsOverCap)
    → scan_patterns s path m n ≡ some v
    → v.path ≡ path
unfolding scan_patterns
patterns_placed s path m n v h = ground arith

read_part_path : (a : OpenActionItem) (part : Bytes) → (read_part a part).path ≡ a.path
unfolding read_part
read_part_path a part = ground arith

read_parts_path : (a : OpenActionItem) (parts : List Bytes) → (read_parts a parts).path ≡ a.path
unfolding read_parts
read_parts_path a [] = refl
read_parts_path a (part ∷ parts) = read_parts_path (read_part a part) parts ∙ read_part_path a part

item_path :
    (d path : Bytes) (n : ℕ) (raw : Bytes) (i : OpenActionItem)
    → parse_open_action_item d path n raw ≡ some i
    → i.path ≡ path
unfolding parse_open_action_item
item_path d path n raw i h =
    let body = trim_space (trim_prefix raw open_mark) in
    let parts = split b'|' body in
    let text = trim_space (head_or [] parts) in
    either_item (is_empty body) (is_empty text)
      (read_parts (new_item d path n text raw) (tail_of parts)) h
      (read_parts_path (new_item d path n text raw) (tail_of parts))
  where
    either_item :
        (b c : Bool) (x : OpenActionItem)
        → (if b then none else if c then none else some x) ≡ some i
        → x.path ≡ path
        → i.path ≡ path
    either_item b c x h k = ground arith

module _ (path : Bytes) (stale : ℕ) (now : Instant) where
  abbrev pub AreAt : List StaleActionItem → Type 0
  AreAt xs = All (λ (i : StaleActionItem). i.path ≡ path) xs

  stale_at_path :
      (item : OpenActionItem) (added : Bytes) (o : Option Date) (rest : List StaleActionItem)
      → item.path ≡ path
      → AreAt rest
      → AreAt (stale_at stale now item added o rest)
  stale_at_path item added none rest h k = k
  stale_at_path item added (some d) rest h k =
      All-if _ (ltb_ℤ (days_since now (instant d)) (pos stale)) rest _ k (h, k)

  stale_item_path :
      (l : Bytes) (o : Option OpenActionItem) (rest : List StaleActionItem)
      → ((item : OpenActionItem) → o ≡ some item → item.path ≡ path)
      → AreAt rest
      → AreAt (stale_item stale now l o rest)
  stale_item_path l none rest h k = k
  stale_item_path l (some item) rest h k =
      stale_at_path item (added_of item l) (parse_date (added_of item l)) rest (h item refl) k

  stale_items_path : (ls : List (ℕ × Bytes)) → AreAt (stale_items path stale now ls)
  unfolding stale_items
  stale_items_path [] = tt
  stale_items_path ((n, l) ∷ ls) =
      let rest = stale_items_path ls in
      All-if _ (is_done l) _ _ rest (
        All-if _ (not (has_prefix l open_mark)) _ _ rest (
          stale_item_path l (parse_open_action_item [] path n l) (stale_items path stale now ls)
            (item_path [] path n l) rest))

pub stale_scanned :
    (s : MemoryStore) (path : Bytes) (stale : ℕ) (now : Instant)
    → AreAt path stale now (scan_action_items s path stale now).1
unfolding scan_action_items
stale_scanned s path stale now = stale_items_path path stale now (visible_in (scanned_lines s path))
