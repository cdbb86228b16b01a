-- ===== src/Store/Append/Inserted.antt =====
-- What an append to a section does to the lines of the file.
use mathlib.Core.List.{reverse, reverse-append, reverse-reverse}
use cogmemory.Base.{
  ℕ, true, false, List, [], ◌∷◌, ◌++◌, none, some, ◌≡◌, refl, sym, ap, ◌∙◌, arith, Bytes, split,
  join, All, Option-cases, Bool-cases, inl, inr, is_empty, if◌then◌else◌, append_assoc, subst,
}
use cogmemory.FilePath.Normal.{All-reverse}
use cogmemory.Store.Lines.{newline}
use cogmemory.Store.State.{MemoryStore, ok}
use cogmemory.Store.Written.{IsWritten}
use cogmemory.Store.Append.{
  heading, want_title, matches_title, locate, ends_section, section_body, is_blank, trim_blank_end,
  block_lines, blank_line, behind, insert_block, with_newline, section_content, drop_blank,
}

-- The first heading with the wanted title ends `before`, and `rest` follows it.
pub record IsLocated (want : Bytes) (lines before : List Bytes) (level : ℕ) (rest : List Bytes)
    : Type 0 where
  pub above : List Bytes
  pub line : Bytes
  pub at_heading : before ≡ above ++ (line ∷ [])
  pub spelled : lines ≡ before ++ rest
  pub titled : matches_title want (heading line) ≡ some level
  pub untitled : All (λ l. matches_title want (heading l) ≡ none) above

locate-IsLocated :
    (want : Bytes) (lines before : List Bytes) (level : ℕ) (rest : List Bytes)
    → locate want lines ≡ some (before, level, rest)
    → IsLocated want lines before level rest
unfolding locate
locate-IsLocated want [] before level rest h = cc
locate-IsLocated want (l ∷ ls) before level rest h =
    elim (Option-cases (matches_title want (heading l))) [
      | inr (k, e) ↦ record {
        above = [];
        line = l;
        at_heading = ground arith;
        spelled = ground arith;
        titled = ground arith;
        untitled = tt;
      }
      | inl e ↦ elim (Option-cases (locate want ls)) [
        | inl f ↦ absurd (ground arith)
        | inr ((b, k, r), f) ↦
            let q : (before ≡ l ∷ b) × (level ≡ k) × (rest ≡ r) = ground arith in
            let i = locate-IsLocated want ls b k r f in
            record {
              above = l ∷ i.above;
              line = i.line;
              at_heading = q.0 ∙ ap (◌∷◌ l) i.at_heading;
              spelled = rw (q.0, q.2) (ap (◌∷◌ l) i.spelled);
              titled = rw q.1 i.titled;
              untitled = (e, i.untitled);
            }
      ]
    ]

-- What follows a section: nothing, or a heading that ends it.
abbrev pub Follows : ℕ → List Bytes → Type 0
Follows level [] = Unit
Follows level (l ∷ ls) = ends_section level (heading l) ≡ true

abbrev pub Inside : ℕ → List Bytes → Type 0
Inside level = All (λ l. ends_section level (heading l) ≡ false)

section_body-Follows :
    (level : ℕ) (ls : List Bytes)
    → (ls ≡ (section_body level ls).0 ++ (section_body level ls).1)
      × Inside level (section_body level ls).0
      × Follows level (section_body level ls).1
unfolding section_body
section_body-Follows level [] = (refl, tt, tt)
section_body-Follows level (l ∷ ls) =
    let (e, i, f) = section_body-Follows level ls in
    elim (Bool-cases (ends_section level (heading l))) [
      | inl h ↦ rw h (refl, tt, h)
      | inr h ↦ rw h (ap (◌∷◌ l) e, (h, i), f)
    ]

abbrev pub Blank : List Bytes → Type 0
Blank = All (λ l. is_blank l ≡ true)

-- A list is what is left of it without the blank lines at its start, behind blank lines.
dropped : (ls : List Bytes) → (bs : List Bytes) × (Blank bs) × (ls ≡ bs ++ drop_blank ls)
dropped [] = ([], tt, refl)
dropped (l ∷ ls) = elim (Bool-cases (is_blank l)) [
  | inl h ↦ let (bs, b, e) = dropped ls in (l ∷ bs, (h, b), rw h (ap (◌∷◌ l) e))
  | inr h ↦ ([], tt, rw h refl)
]

trim_blank_end-append :
    (ls : List Bytes) → (bs : List Bytes) × (Blank bs) × (ls ≡ trim_blank_end ls ++ bs)
unfolding trim_blank_end
trim_blank_end-append ls =
    let (bs, b, e) = dropped (reverse ls) in
    (
      reverse bs,
      All-reverse (λ l. is_blank l ≡ true) bs b,
      sym (reverse-reverse ls) ∙ ap reverse e ∙ reverse-append bs (drop_blank (reverse ls)),
    )

All-append_left : (level : ℕ) (xs ys : List Bytes) → Inside level (xs ++ ys) → Inside level xs
All-append_left level [] ys h = tt
All-append_left level (x ∷ xs) ys h = (h.0, All-append_left level xs ys h.1)

-- The parts of a file around the block that is inserted: the lines to the heading, the section without
-- the blank lines at its end, these blank lines, and what follows the section.
pub record IsInserted (section text existing content : Bytes) : Type 0 where
  pub before : List Bytes
  pub level : ℕ
  pub kept : List Bytes
  pub blanks : List Bytes
  pub tail : List Bytes
  pub located :
      IsLocated
        (want_title section)
        (split newline existing)
        before
        level
        (kept ++ (blanks ++ tail))
  pub inside : Inside level kept
  pub blank : Blank blanks
  pub follows : Follows level tail
  pub result :
      content
      ≡ with_newline (
          join newline (
            before
            ++ (kept
                ++ ((if is_empty kept then blank_line else [])
                    ++ (block_lines text ++ behind (split newline existing) tail)))))

inserted :
    (section text existing : Bytes) (before : List Bytes) (level : ℕ) (rest : List Bytes)
    → IsLocated (want_title section) (split newline existing) before level rest
    → IsInserted section text existing (
        with_newline (
          join newline (
            insert_block
              (split newline existing)
              before
              (section_body level rest).0
              (section_body level rest).1
              text)))
unfolding insert_block
inserted section text existing before level rest i =
    let (e, inner, f) = section_body-Follows level rest in
    let (bs, b, k) = trim_blank_end-append (section_body level rest).0 in
    record {
      before = before;
      level = level;
      kept = trim_blank_end (section_body level rest).0;
      blanks = bs;
      tail = (section_body level rest).1;
      located =
          rw
            (
              ← append_assoc (trim_blank_end (section_body level rest).0) bs
                  (section_body level rest).1,
              ← k,
              ← e,
            )
            i;
      inside = All-append_left level _ bs (rw (← k) inner);
      blank = b;
      follows = f;
      result = refl;
    }

-- An append to a section that succeeds keeps every line of the file but blank lines at the end of the
-- section: the section is the first whose heading has the wanted title, up to the next heading that is
-- not deeper, and the block stands behind its last line that is not blank, after a blank line where the
-- section is empty, and before a blank line where something follows.
pub section_content-IsInserted :
    (section text existing content : Bytes)
    → section_content section text existing ≡ ok content
    → IsInserted section text existing content
unfolding section_content
section_content-IsInserted section text existing content h =
    elim (Option-cases (locate (want_title section) (split newline existing))) [
      | inl e ↦ absurd (ground arith)
      | inr ((before, level, rest), e) ↦
          let i =
            locate-IsLocated (want_title section) (split newline existing) before level rest e in
          subst (IsInserted section text existing) (ground arith)
            (inserted section text existing before level rest i)
    ]

-- What an append to a section has done to the store.
pub record IsSectionAppended (s : MemoryStore) (abs section text existing : Bytes)
    (after : MemoryStore) : Type 0 where
  pub content : Bytes
  pub block : IsInserted section text existing content
  pub written : IsWritten s abs content after
