-- ===== src/Store/Traversal.antt =====
-- Where a path with `..` inside leads.
use cogmemory.Base.{
  true, false, ◌||◌, inl, inr, Bool-cases, str_eq, str_eq_iff, codes, ℤ, List, [], ◌∷◌, ◌++◌, ◌≡◌,
  ◌≢◌, refl, ap, ◌∙◌, arith, Bytes, split, join, All, has_prefix, has_prefix-append, append_assoc,
  is_empty,
}
use cogmemory.FilePath.{slash, dot_dot, is_abs, clean}
use cogmemory.FilePath.Normal.{
  IsPlain, Lacks, split-append, split-join, plain-Lacks, clean_parts_up, clean_parts_plain,
}
use cogmemory.Store.State.{MemoryStore, ok, abs_path}
use cogmemory.Store.Files.{read}
use cogmemory.Store.Paths.{IsRoot, join_path_plain}

-- `d/../q`
abbrev pub up_from : Bytes → Bytes → Bytes
up_from d q = d ++ (slash ∷ (dot_dot ++ (slash ∷ q)))

rooted_no : (d q : Bytes) → IsPlain d → is_abs (d ++ q) ≡ false
unfolding is_abs
rooted_no [] q h = absurd (h.ne_nil refl)
rooted_no (c ∷ d) q h = ground (arith, h.no_slash.0)

dots-Lacks : Lacks slash dot_dot
dots-Lacks = omega arith

not_empty_clean : (p : Bytes) → clean p ≡ p → is_empty p ≡ false
unfolding clean
not_empty_clean [] e = cc
not_empty_clean (c ∷ p) e = refl

special_clean :
    (p : Bytes) → (str_eq p (codes "L0_INDEX") || str_eq p (codes "LIST")) ≡ true → clean p ≡ p
unfolding clean str_eq
special_clean p h = elim (Bool-cases (str_eq p (codes "L0_INDEX"))) [
  | inl e ↦ rw ((str_eq_iff p (codes "L0_INDEX")).0 e) refl
  | inr e ↦ rw ((str_eq_iff p (codes "LIST")).0 (ground arith)) refl
]

module _ (d q : Bytes) (qs : List Bytes) (hd : IsPlain d) (hq : All IsPlain (q ∷ qs)) where
  abbrev rel : Bytes
  rel = join slash (q ∷ qs)

  split-up_from : split slash (up_from d rel) ≡ d ∷ dot_dot ∷ q ∷ qs
  split-up_from =
      split-append slash d (dot_dot ++ (slash ∷ rel)) hd.no_slash
      ∙ ap (◌∷◌ d) (split-append slash dot_dot rel dots-Lacks)
      ∙ ap (λ (l : List Bytes). d ∷ dot_dot ∷ l) (split-join slash q qs (plain-Lacks (q ∷ qs) hq))

  -- Cleaning drops the directory and the `..` behind it.
  pub clean-up_from : clean (up_from d rel) ≡ rel
  unfolding clean
  clean-up_from =
      rw (rooted_no d (slash ∷ (dot_dot ++ (slash ∷ rel))) hd)
        (rw split-up_from (rw (clean_parts_up [] d (q ∷ qs) tt hd hq)))

  below_root :
      (root : Bytes)
      → has_prefix ((root ++ (slash ∷ rel)) ++ (slash ∷ [])) (root ++ (slash ∷ [])) ≡ true
  below_root root =
      rw
        (
          append_assoc root (slash ∷ rel) (slash ∷ []),
          ← append_assoc root (slash ∷ []) (rel ++ (slash ∷ [])),
        )
        (has_prefix-append (root ++ (slash ∷ [])) (rel ++ (slash ∷ [])))

  pub not_empty_up : is_empty (up_from d rel) ≡ false
  not_empty_up = ne d hd.ne_nil
    where
      ne : (p : Bytes) → p ≢ [] → is_empty (p ++ (slash ∷ (dot_dot ++ (slash ∷ rel)))) ≡ false
      ne [] h = absurd (h refl)
      ne (c ∷ p) h = refl

  -- `d/../q` is resolved to the file `q` below the root.
  pub abs_path-up_from :
      (s : MemoryStore)
      → IsRoot s.root
      → has_prefix rel dot_dot ≡ false
      → abs_path s (up_from d rel) ≡ ok (s.root ++ (slash ∷ rel))
  unfolding abs_path
  abs_path-up_from s r h =
      rw (not_empty_up, clean-up_from, h, join_path_plain s.root r q qs hq, below_root s.root)

  rel_no_root : is_abs rel ≡ false
  unfolding join is_abs
  rel_no_root = go q qs hq
    where
      go :
          (p : Bytes) (ps : List Bytes)
          → All IsPlain (p ∷ ps)
          → is_abs (join slash (p ∷ ps)) ≡ false
      go [] ps h = absurd (h.0.ne_nil refl)
      go (c ∷ p) [] h = ground (arith, h.0.no_slash.0)
      go (c ∷ p) (r ∷ ps) h = ground (arith, h.0.no_slash.0)

  clean-rel : clean rel ≡ rel
  unfolding clean
  clean-rel = rw rel_no_root (
      rw (split-join slash q qs (plain-Lacks (q ∷ qs) hq))
        (rw (clean_parts_plain false (q ∷ qs) hq) refl))

  -- Plain components are resolved to the file below the root that they name.
  pub abs_path-rel :
      (s : MemoryStore)
      → IsRoot s.root
      → has_prefix rel dot_dot ≡ false
      → abs_path s rel ≡ ok (s.root ++ (slash ∷ rel))
  unfolding abs_path
  abs_path-rel s r h = rw (
    not_empty_clean rel clean-rel,
    clean-rel,
    h,
    join_path_plain s.root r q qs hq,
    below_root s.root,
  )

  -- Read finds the same under `d/../q` as under `q`, where `q` is not a special path.
  pub read_up_from :
      (s : MemoryStore) (section : Bytes) (start end : ℤ)
      → IsRoot s.root
      → has_prefix rel dot_dot ≡ false
      → (str_eq rel (codes "L0_INDEX") || str_eq rel (codes "LIST")) ≡ false
      → read s (up_from d rel) section start end ≡ read s rel section start end
  unfolding read
  read_up_from s section start end r h sp = ground (
    arith,
    sp,
    special_clean (up_from d rel),
    clean-up_from,
    abs_path-up_from s r h,
    abs_path-rel s r h,
  )
