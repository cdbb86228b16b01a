-- ===== src/Store/Brief.antt =====
-- store/session_brief.go: SessionBrief.
use cogmemory.Base.{
  ℕ, Bool, false, ◌||◌, List, [], ◌∷◌, Option, none, some, if◌then◌else◌, Bytes, codes, str_eq,
  str_lt, sort_by, ltb,
}
use cogmemory.Store.State.{MemoryStore, Result, ok, ◌>>=◌, abs_path, read_file}
use cogmemory.Store.Actions.{ActionTarget}
use cogmemory.Store.Counts.{count_open_actions}

pub record DomainActionCountItem : Type 0 where
  pub domain : Bytes
  pub path : Bytes
  pub open_count : ℕ
  pub high_count : ℕ

pub record SessionBriefResult : Type 0 where
  pub hot_memory : Bytes
  pub patterns : Bytes
  pub counts : List DomainActionCountItem
  pub high_anywhere : Bool

abbrev or_empty : Option Bytes → Bytes
or_empty none = []
or_empty (some text) = text

-- readOptional
unfoldable pub read_optional : MemoryStore → Bytes → Result Bytes
unfolding abs_path read_file
read_optional s path = do abs ← abs_path s path; content ← read_file s abs; ok (or_empty content)

-- The order of the targets: by domain, then by path.
unfoldable pub target_less : ActionTarget → ActionTarget → Bool
unfolding str_eq str_lt
target_less a b =
    if str_eq a.domain b.domain then str_lt a.path b.path else str_lt a.domain b.domain

-- The loop over the sorted targets.
unfoldable pub count_targets : MemoryStore → List ActionTarget → Result (List DomainActionCountItem)
unfolding count_open_actions
count_targets s [] = ok []
count_targets s (t ∷ ts) = do
  n ← count_open_actions s t.path
  rest ← count_targets s ts
  ok (record { domain = t.domain; path = t.path; open_count = n.0; high_count = n.1 } ∷ rest)

unfoldable pub any_high : List DomainActionCountItem → Bool
any_high [] = false
any_high (c ∷ cs) = ltb 0 c.high_count || any_high cs

-- SessionBrief
unfoldable pub session_brief : MemoryStore → List ActionTarget → Result SessionBriefResult
unfolding read_optional sort_by target_less count_targets any_high
session_brief s targets = do
  hot ← read_optional s (codes "hot-memory.md")
  patterns ← read_optional s (codes "cog-meta/patterns.md")
  counts ← count_targets s (sort_by target_less targets)
  ok (record {
    hot_memory = hot;
    patterns = patterns;
    counts = counts;
    high_anywhere = any_high counts;
  })
