-- ===== src/Store/Paths.antt =====
-- Where relative paths lead: absPath confines them to the root.
use cogmemory.Base.{
  ℕ, true, List, [], ◌∷◌, ◌++◌, ◌≡◌, refl, sym, ap, ◌∙◌, arith, Bytes, split, join, All, All-append,
  has_prefix, append_assoc,
}
use cogmemory.FilePath.{slash, is_abs, clean, clean_parts, join_path}
use cogmemory.FilePath.Normal.{
  IsPlain, split-Lacks, split-join, split-join-append, plain-Lacks, clean_parts-IsPlain,
  clean_parts_plain,
}
use cogmemory.Store.State.{MemoryStore, ok, abs_path}

-- Below `root`, at a component boundary, and without a `..`, a `.` or an empty component.
pub record IsConfined (root abs : Bytes) : Type 0 where
  pub below : has_prefix (abs ++ (slash ∷ [])) (root ++ (slash ∷ [])) ≡ true
  pub parts : List Bytes
  pub spelled : abs ≡ slash ∷ join slash parts
  pub plain : All IsPlain parts

is_abs-append : (p q : Bytes) → is_abs p ≡ true → is_abs (p ++ q) ≡ true
unfolding is_abs
is_abs-append [] q h = cc
is_abs-append (c ∷ p) q h = ground arith

clean_abs :
    (p : Bytes) → is_abs p ≡ true → clean p ≡ slash ∷ join slash (clean_parts true (split slash p))
unfolding clean
clean_abs p h = rw h

-- Every path that absPath accepts, below an absolute root, is confined to the root.
pub abs_path-IsConfined :
    (s : MemoryStore) (rel : Bytes) {abs : Bytes}
    → is_abs s.root ≡ true
    → abs_path s rel ≡ ok abs
    → IsConfined s.root abs
unfolding abs_path join_path
abs_path-IsConfined s rel {abs} h e =
    let full = s.root ++ (slash ∷ clean rel) in
    let same : clean full ≡ abs = ground arith in
    record {
      below = rw (← same) (ground arith);
      parts = clean_parts true (split slash full);
      spelled = sym same ∙ clean_abs full (is_abs-append s.root (slash ∷ clean rel) h);
      plain = clean_parts-IsPlain (split slash full) (split-Lacks slash full);
    }

-- A root in normal form other than `/`: an absolute path of plain components.
pub record IsRoot (root : Bytes) : Type 0 where
  pub first : Bytes
  pub rest : List Bytes
  pub plain : All IsPlain (first ∷ rest)
  pub spelled : root ≡ slash ∷ join slash (first ∷ rest)

join-append :
    (b : ℕ) (p : Bytes) (ps : List Bytes) (q : Bytes) (qs : List Bytes)
    → join b ((p ∷ ps) ++ (q ∷ qs)) ≡ join b (p ∷ ps) ++ (b ∷ join b (q ∷ qs))
unfolding join
join-append b p [] q qs = refl
join-append b p (p' ∷ ps) q qs =
    ap (λ (t : Bytes). p ++ (b ∷ t)) (join-append b p' ps q qs) ∙ sym (append_assoc p _ _)

skip_first : (ps : List Bytes) → clean_parts true ([] ∷ ps) ≡ clean_parts true ps
unfolding clean_parts
skip_first ps = refl

split-slash : (s : Bytes) → split slash (slash ∷ s) ≡ [] ∷ split slash s
unfolding split
split-slash s = refl

clean-split :
    (p : Bytes) (ps : List Bytes)
    → All IsPlain (p ∷ ps)
    → (s : Bytes) → split slash s ≡ p ∷ ps
    → clean (slash ∷ s) ≡ slash ∷ join slash (p ∷ ps)
clean-split p ps h s e =
    clean_abs (slash ∷ s) (unfold is_abs in refl)
    ∙ ap (λ (l : List Bytes). slash ∷ join slash (clean_parts true l))
        (split-slash s ∙ ap (λ (l : List Bytes). [] ∷ l) e)
    ∙ ap (λ (l : List Bytes). slash ∷ join slash l)
        (skip_first (p ∷ ps) ∙ clean_parts_plain true (p ∷ ps) h)

module _ (root : Bytes) (r : IsRoot root) (q : Bytes) (qs : List Bytes)
    (h : All IsPlain (q ∷ qs)) where
  -- Joining plain components to the root puts them behind it.
  pub join_path_plain : join_path root (join slash (q ∷ qs)) ≡ root ++ (slash ∷ join slash (q ∷ qs))
  unfolding join_path
  join_path_plain = rw r.spelled (
      clean-split r.first (r.rest ++ (q ∷ qs))
        (All-append IsPlain (r.first ∷ r.rest) (q ∷ qs) r.plain h)
        (join slash (r.first ∷ r.rest) ++ (slash ∷ join slash (q ∷ qs)))
        (split-join-append slash r.first r.rest (join slash (q ∷ qs))
            (plain-Lacks (r.first ∷ r.rest) r.plain)
          ∙ ap (λ (l : List Bytes). (r.first ∷ r.rest) ++ l)
              (split-join slash q qs (plain-Lacks (q ∷ qs) h)))
      ∙ ap (λ (l : Bytes). slash ∷ l) (join-append slash r.first r.rest q qs))
