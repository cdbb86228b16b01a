-- ===== src/Store/Entities/Totals.antt =====
-- The totals of the audit of an entities file.
use cogmemory.Base.{
  ℕ, suc, ◌+◌, ◌≤◌, Bool, true, false, List, [], ◌∷◌, Option, none, some, ◌≡◌, refl, arith, Bytes,
  if◌then◌else◌, length, split, trim_space, is_some, keep, length-append,
}
use cogmemory.Time.{Instant}
use cogmemory.Store.Lines.{newline}
use cogmemory.Store.Entities.{EntityAuditResult, entity_heading, strip_paren_suffix}
use cogmemory.Store.Entities.Audit.{
  Block, Facts, close, add_line, blocks_from, is_skipped, with_line, facts_from, no_facts,
  with_block, audit_blocks, audit_one_entities_file,
}

-- The headings among some lines.
abbrev pub headings : List Bytes → ℕ
headings ls = length (keep (λ l. is_some (entity_heading l)) ls)

module _ (path domain name : Bytes) (now : Instant) where
  abbrev step : ℕ → Bytes → Facts → Bool → Facts
  step n l f b = if b then f else with_line path domain name now n l f

  step_count :
      (n : ℕ) (l : Bytes) (f : Facts) (b : Bool)
      → (f.count ≤ (step n l f b).count) × ((step n l f b).count ≤ f.count + 1)
  step_count n l f true = (omega arith, omega arith)
  step_count n l f false = (omega arith, omega arith)

  facts_count :
      (ls : List (ℕ × Bytes)) (f : Facts)
      → (f.count ≤ (facts_from path domain name now ls f).count)
        × ((facts_from path domain name now ls f).count ≤ f.count + length ls)
  unfolding facts_from
  facts_count [] f = (omega arith, omega arith)
  facts_count ((n, l) ∷ ls) f =
      let here = step_count n l f (is_skipped (trim_space l)) in
      let rest = facts_count ls (step n l f (is_skipped (trim_space l))) in
      (omega (arith, here.0, here.1, rest.0, rest.1), omega (arith, here.0, here.1, rest.0, rest.1))

-- The lines of some blocks, with their headings.
abbrev size_of : List Block → ℕ
size_of [] = 0
size_of (b ∷ bs) = 1 + length b.body + size_of bs

-- The entries are `n` more, and the lines at least `n` and at most `m` more.
abbrev pub AreTotals : EntityAuditResult → ℕ → ℕ → EntityAuditResult → Type 0
AreTotals r n m r' =
    (r'.total_entries ≡ r.total_entries + n)
    × (r.total_lines + n ≤ r'.total_lines)
    × (r'.total_lines ≤ r.total_lines + m)

audit_blocks-AreTotals :
    (domain path : Bytes) (now : Instant) (bs : List Block) (r : EntityAuditResult)
    → AreTotals r (length bs) (size_of bs) (audit_blocks domain path now bs r)
unfolding audit_blocks
audit_blocks-AreTotals domain path now [] r = (omega arith, omega arith, omega arith)
audit_blocks-AreTotals domain path now (b ∷ bs) r =
    let f = facts_from path domain b.name now b.body no_facts in
    let here = facts_count path domain b.name now b.body no_facts in
    let rest = audit_blocks-AreTotals domain path now bs (with_block path domain b.name now f r) in
    (omega (arith, rest.0), omega (arith, here.0, rest.1), omega (arith, here.1, rest.2))

abbrev open_size : Option Block → ℕ
open_size none = 0
open_size (some b) = 1 + length b.body

abbrev open_count : Option Block → ℕ
open_count none = 0
open_count (some b) = 1

close_size :
    (cur : Option Block) (bs : List Block) → size_of (close cur bs) ≡ open_size cur + size_of bs
close_size none bs = omega arith
close_size (some b) bs = omega arith

close_count :
    (cur : Option Block) (bs : List Block) → length (close cur bs) ≡ open_count cur + length bs
close_count none bs = omega arith
close_count (some b) bs = omega arith

add_line_size :
    (n : ℕ) (l : Bytes) (cur : Option Block) → open_size (add_line n l cur) ≤ open_size cur + 1
add_line_size n l none = omega arith
add_line_size n l (some b) = omega (arith, length-append b.body ((n, l) ∷ []))

add_line_count :
    (n : ℕ) (l : Bytes) (cur : Option Block) → open_count (add_line n l cur) ≡ open_count cur
add_line_count n l none = refl
add_line_count n l (some b) = refl

-- The blocks are as many as the headings, and no longer than the lines.
abbrev AreBlocks : Option Block → List Bytes → List Block → Type 0
AreBlocks cur ls bs =
    (length bs ≡ open_count cur + headings ls) × (size_of bs ≤ open_size cur + length ls)

blocks_from-AreBlocks :
    (cur : Option Block) (n : ℕ) (ls : List Bytes) → AreBlocks cur ls (blocks_from cur n ls)
unfolding blocks_from
blocks_from-AreBlocks cur n [] =
    (omega (arith, close_count cur []), omega (arith, close_size cur []))
blocks_from-AreBlocks cur n (l ∷ ls) =
    go (entity_heading l) (blocks_from-AreBlocks (add_line (suc n) l cur) (suc n) ls)
      (λ b. blocks_from-AreBlocks (some b) (suc n) ls)
  where
    go :
        (o : Option Bytes)
        → AreBlocks (add_line (suc n) l cur) ls (blocks_from (add_line (suc n) l cur) (suc n) ls)
        → ((b : Block) → AreBlocks (some b) ls (blocks_from (some b) (suc n) ls))
        → (length (elim o as (λ _. List Block) [
          | none ↦ blocks_from (add_line (suc n) l cur) (suc n) ls
          | some name ↦
              close cur (
                blocks_from
                  (some (record { name = strip_paren_suffix name; body = [] }))
                  (suc n)
                  ls)
        ])
            ≡ open_count cur
              + length (
                  if is_some o
                  then l ∷ keep (λ l. is_some (entity_heading l)) ls
                  else keep (λ l. is_some (entity_heading l)) ls))
          × (size_of (elim o as (λ _. List Block) [
            | none ↦ blocks_from (add_line (suc n) l cur) (suc n) ls
            | some name ↦ close cur (
                blocks_from
                  (some (record { name = strip_paren_suffix name; body = [] }))
                  (suc n)
                  ls)
          ])
              ≤ open_size cur + suc (length ls))
    go none h k = (
      omega (arith, h.0, add_line_count (suc n) l cur),
      omega (arith, h.1, add_line_size (suc n) l cur),
    )
    go (some name) h k =
        let b : Block = record { name = strip_paren_suffix name; body = [] } in
        (
          omega (arith, (k b).0, close_count cur (blocks_from (some b) (suc n) ls)),
          omega (arith, (k b).1, close_size cur (blocks_from (some b) (suc n) ls)),
        )

-- The audit of a file counts one entry for each heading, and lines that are at least as many as the
-- headings and at most all lines of the file.
pub audit_one_entities_file-AreTotals :
    (r : EntityAuditResult) (domain path body : Bytes) (now : Instant)
    → AreTotals r
        (headings (split newline body))
        (length (split newline body))
        (audit_one_entities_file r domain path body now)
unfolding audit_one_entities_file
audit_one_entities_file-AreTotals r domain path body now =
    let ls = split newline body in
    let blocks = blocks_from-AreBlocks none 0 ls in
    let totals = audit_blocks-AreTotals domain path now (blocks_from none 0 ls) r in
    (
      omega (arith, blocks.0, totals.0),
      omega (arith, blocks.0, totals.1),
      omega (arith, blocks.1, totals.2),
    )
