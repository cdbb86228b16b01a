-- ===== src/Regex.antt =====
-- Go's `regexp` on the patterns that the program compiles. A matcher lists what it can consume and
-- what then remains, in the order of preference, so the first answer is the leftmost-first match.
use cogmemory.Base.{
  ℕ, zero, suc, ◌-◌, Bool, ◌&&◌, ◌||◌, not, List, [], ◌∷◌, ◌++◌, Option, none, some, if◌then◌else◌,
  ◌==◌, leb, Bytes, lower_byte, drop_prefix,
}

abbrev pub Matcher : Type 0
Matcher = Bytes → List (Bytes × Bytes)

infixl 5 ◌▷◌
-- A match of the first part, and then whatever the rest of the pattern makes of it.
abbrev pub ◌▷◌ {ℓ} : {A : Type ℓ} → List (Bytes × Bytes) → (Bytes → Bytes → List A) → List A
[] ▷ k = []
((a, rest) ∷ ms) ▷ k = k a rest ++ (ms ▷ k)

abbrev keep_byte : ℕ → List (Bytes × Bytes) → List (Bytes × Bytes)
keep_byte c [] = []
keep_byte c ((a, rest) ∷ ms) = (c ∷ a, rest) ∷ keep_byte c ms

-- The literal text `p`.
unfoldable pub lit : Bytes → Matcher
unfolding drop_prefix
lit p s = elim (drop_prefix s p) [ none ↦ [] | some rest ↦ (p, rest) ∷ [] ]

-- The literal text `p`, of small letters, in either case: `(?i)p`.
unfoldable pub lit_fold : Bytes → Matcher
unfolding lower_byte
lit_fold [] s = ([], s) ∷ []
lit_fold (b ∷ p) [] = []
lit_fold (b ∷ p) (c ∷ s) = if lower_byte c == b then keep_byte c (lit_fold p s) else []

-- `[class]*`, greedy
unfoldable pub many : (ℕ → Bool) → Matcher
many p [] = ([], []) ∷ []
many p (c ∷ s) = if p c then keep_byte c (many p s) ++ (([], c ∷ s) ∷ []) else ([], c ∷ s) ∷ []

-- `[class]*?`, as few as possible
unfoldable pub few : (ℕ → Bool) → Matcher
few p [] = ([], []) ∷ []
few p (c ∷ s) = ([], c ∷ s) ∷ (if p c then keep_byte c (few p s) else [])

-- `[class]`
unfoldable pub one : (ℕ → Bool) → Matcher
one p [] = []
one p (c ∷ s) = if p c then (c ∷ [], s) ∷ [] else []

-- `[class]+` and `[class]+?`
unfoldable pub some_of : (ℕ → Bool) → Matcher
unfolding many
some_of p [] = []
some_of p (c ∷ s) = if p c then keep_byte c (many p s) else []

unfoldable pub some_few : (ℕ → Bool) → Matcher
unfolding few
some_few p [] = []
some_few p (c ∷ s) = if p c then keep_byte c (few p s) else []

-- `[class]{n}`
unfoldable pub times : ℕ → (ℕ → Bool) → Matcher
times zero p s = ([], s) ∷ []
times (suc n) p [] = []
times (suc n) p (c ∷ s) = if p c then keep_byte c (times n p s) else []

-- `[class]{0,n}`, greedy
unfoldable pub up_to : ℕ → (ℕ → Bool) → Matcher
up_to zero p s = ([], s) ∷ []
up_to (suc n) p [] = ([], []) ∷ []
up_to (suc n) p (c ∷ s) =
    if p c then keep_byte c (up_to n p s) ++ (([], c ∷ s) ∷ []) else ([], c ∷ s) ∷ []

-- `$` at the end of a text with no newline
unfoldable pub end : Bytes → List (Bytes × Bytes)
end [] = ([], []) ∷ []
end (c ∷ s) = []

abbrev pub first {ℓ} : {A : Type ℓ} → List A → Option A
first [] = none
first (a ∷ as') = some a

-- `\s`, `.` and `\d`
unfoldable pub re_space : ℕ → Bool
re_space c = c == b' ' || c == 9 || c == 10 || c == 12 || c == 13

unfoldable pub re_dot : ℕ → Bool
re_dot c = not (c == 10)

unfoldable pub re_digit : ℕ → Bool
re_digit c = leb b'0' c && leb c b'9'

-- `\d{4}-\d{2}-\d{2}`
unfoldable pub date_part : Matcher
unfolding times lit re_digit
date_part s = times 4 re_digit s ▷ λ y s1. lit (b'-' ∷ []) s1 ▷ λ d1 s2.
    times 2 re_digit s2 ▷ λ m s3. lit (b'-' ∷ []) s3 ▷ λ d2 s4.
    times 2 re_digit s4 ▷ λ d s5. (y ++ (b'-' ∷ (m ++ (b'-' ∷ d))), s5) ∷ []

-- FindAll: the matches from the left that do not overlap, each with its place, its capture and its
-- length. `skip` bytes still belong to the last match.
unfoldable pub find_all {ℓ} :
    {A : Type ℓ} → (Bytes → Option (A × ℕ)) → ℕ → ℕ → Bytes → List (ℕ × A × ℕ)
find_all m at skip [] = []
find_all m at (suc k) (c ∷ s) = find_all m (suc at) k s
find_all m at zero (c ∷ s) = elim (m (c ∷ s)) [
  | none ↦ find_all m (suc at) zero s
  | some (a, n) ↦ (at, a, n) ∷ find_all m (suc at) (n - 1) s
]
