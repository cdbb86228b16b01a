-- ===== src/Store/Actions/Fences.antt =====
-- What a fenced block hides.
use cogmemory.Base.{
  ℕ, suc, ◌+◌, true, false, List, [], ◌∷◌, ◌++◌, ◌≡◌, refl, ap, ◌∙◌, arith, Bytes, codes,
  has_prefix, drop_prefix, trim_space, length, All,
}
use cogmemory.Store.Actions.{Noise, quiet, is_fence_line, skip_action_line, visible}

abbrev fenced : Noise
fenced = record { in_comment = false; in_fence = true }

-- A line that neither closes a fenced block nor opens a comment.
pub record IsInert (l : Bytes) : Type 0 where
  pub no_fence : is_fence_line (trim_space l) ≡ false
  pub no_comment : has_prefix (trim_space l) (codes "<!--") ≡ false

fence_no_comment : (t : Bytes) → is_fence_line t ≡ true → has_prefix t (codes "<!--") ≡ false
unfolding is_fence_line has_prefix drop_prefix
fence_no_comment [] h = refl
fence_no_comment (c ∷ t) h = ground arith

open_fence :
    (n : ℕ) (l : Bytes) (ls : List Bytes)
    → is_fence_line (trim_space l) ≡ true
    → visible quiet n (l ∷ ls) ≡ visible fenced (suc n) ls
unfolding visible skip_action_line
open_fence n l ls h = ground (arith, fence_no_comment (trim_space l) h)

close_fence :
    (n : ℕ) (l : Bytes) (ls : List Bytes)
    → is_fence_line (trim_space l) ≡ true
    → visible fenced n (l ∷ ls) ≡ visible quiet (suc n) ls
unfolding visible skip_action_line
close_fence n l ls h = ground (arith, fence_no_comment (trim_space l) h)

inside_fence :
    (n : ℕ) (body rest : List Bytes)
    → All IsInert body
    → visible fenced n (body ++ rest) ≡ visible fenced (n + length body) rest
unfolding visible skip_action_line
inside_fence n [] rest h = ap (λ k. visible fenced k rest) (omega arith)
inside_fence n (l ∷ body) rest h =
    ground (arith, inside_fence (suc n) body rest h.1, h.0.no_fence, h.0.no_comment)
    ∙ ap (λ k. visible fenced k rest) same
  where
    same : suc n + length body ≡ n + suc (length body)
    same = omega arith

-- A fenced block hides all its lines: the lines that a scan sees are those behind the block, under
-- their own numbers, where no line of the block opens a comment or is itself a fence.
pub fence_hides :
    (n : ℕ) (opening closing : Bytes) (body rest : List Bytes)
    → is_fence_line (trim_space opening) ≡ true
    → is_fence_line (trim_space closing) ≡ true
    → All IsInert body
    → visible quiet n (opening ∷ (body ++ (closing ∷ rest)))
      ≡ visible quiet (n + length body + 2) rest
fence_hides n opening closing body rest ho hc h =
    open_fence n opening (body ++ (closing ∷ rest)) ho
    ∙ inside_fence (suc n) body (closing ∷ rest) h
    ∙ close_fence (suc n + length body) closing rest hc
    ∙ ap (λ k. visible quiet k rest) (omega arith)
