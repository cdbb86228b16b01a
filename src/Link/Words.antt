-- ===== src/Link/Words.antt =====
-- store/link.go: whole-word search on a line, and spans of links.
pub mod Whole
use cogmemory.Base.{
  ℕ, zero, suc, ◌+◌, Bool, true, not, ◌&&◌, ◌||◌, List, [], ◌∷◌, Option, none, some, if◌then◌else◌,
  ◌==◌, leb, ltb, Bytes, index, is_empty, length, drop, any,
}

unfoldable pub is_word_byte : ℕ → Bool
is_word_byte c =
    (leb b'a' c && leb c b'z')
    || (leb b'A' c && leb c b'Z')
    || (leb b'0' c && leb c b'9')
    || c == b'_'

-- isWordBoundary at an index that is not negative
unfoldable pub is_word_boundary : Bytes → ℕ → Bool
unfolding is_word_byte
is_word_boundary [] i = true
is_word_boundary (c ∷ line) zero = not (is_word_byte c)
is_word_boundary (c ∷ line) (suc i) = is_word_boundary line i

-- isWordBoundary(line, start-1), where -1 lies before the line
unfoldable pub boundary_before : Bytes → ℕ → Bool
unfolding is_word_boundary
boundary_before line zero = true
boundary_before line (suc i) = is_word_boundary line i

-- The test of the loop at a candidate.
unfoldable pub is_whole : Bytes → ℕ → ℕ → Bool
unfolding boundary_before is_word_boundary
is_whole line start n = boundary_before line start && is_word_boundary line (start + n)

-- The loop of wholeWordIndex, from the offset `idx`.
unfoldable pub whole_word_from : ℕ → Bytes → Bytes → ℕ → Option ℕ
unfolding index is_whole
whole_word_from zero line name idx = none
whole_word_from (suc fuel) line name idx = elim (index (drop idx line) name) [
  | none ↦ none
  | some j ↦
      let later = whole_word_from fuel line name (suc (idx + j)) in
      if is_whole line (idx + j) (length name) then some (idx + j) else later
]

-- wholeWordIndex, with `none` for -1
unfoldable pub whole_word_index : Bytes → Bytes → Option ℕ
unfolding whole_word_from
whole_word_index line name =
    if is_empty name then none else whole_word_from (suc (length line)) line name 0

-- insideAnySpan: `[start, end)` meets one of the spans, each a place with a length
unfoldable pub inside_any_span : List (ℕ × ℕ) → ℕ → ℕ → Bool
inside_any_span spans start end =
    any (λ (sp : ℕ × ℕ). ltb start (sp.0 + sp.1) && ltb sp.0 end) spans
