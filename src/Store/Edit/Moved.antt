-- ===== src/Store/Edit/Moved.antt =====
-- What Move does to the files.
use cogmemory.Base.{
  ℕ, Bool, true, false, [], ◌∷◌, ◌++◌, none, some, ◌≡◌, ◌≢◌, refl, ap, ◌∙◌, inl, inr, arith, Bytes,
  str_eq_iff, has_prefix, has_prefix-append, drop_prefix, Option-cases, append_assoc, length,
  length-append,
}
use cogmemory.FilePath.{slash}
use cogmemory.Store.Fs.{Fs, Node, file, lookup, is_dir, stat, blocked}
use cogmemory.Store.State.{MemoryStore, Result, ok, err, abs_path, mkdir_fails}
use cogmemory.Store.State
use cogmemory.Store.Edit.{rename_all, rename, move}

longer : (b rest : Bytes) → b ++ (slash ∷ rest) ≢ b
longer b rest e = omega (arith, ap length e, length-append {0} b (slash ∷ rest))

abbrev pub under : Bytes → Bytes → Bool
under q a = has_prefix q (a ++ (slash ∷ []))

under_spelled : (b rest : Bytes) → under (b ++ (slash ∷ rest)) b ≡ true
under_spelled b rest =
    rw (← append_assoc b (slash ∷ []) rest) (has_prefix-append (b ++ (slash ∷ [])) rest)

module _ (a b : Bytes) where
  lookup-rename_all_new :
      (fs : Fs) → lookup b fs ≡ none → lookup b (rename_all a b fs) ≡ lookup a fs
  unfolding lookup rename_all
  lookup-rename_all_new [] h = refl
  lookup-rename_all_new ((p, n) ∷ fs) h = elim (Option-cases (drop_prefix p (a ++ (slash ∷ [])))) [
    | inl e ↦
        ground (arith, str_eq_iff p a, str_eq_iff p b, str_eq_iff b b, lookup-rename_all_new fs, e)
    | inr (rest, e) ↦ ground (
      arith,
      str_eq_iff p a,
      str_eq_iff p b,
      str_eq_iff b b,
      lookup-rename_all_new fs,
      e,
      longer b rest,
      str_eq_iff (b ++ (slash ∷ rest)) b,
    )
  ]

  lookup-rename_all_old :
      (fs : Fs) → b ≢ a → under a b ≡ false → lookup a (rename_all a b fs) ≡ none
  unfolding lookup rename_all
  lookup-rename_all_old [] ne h = refl
  lookup-rename_all_old ((p, n) ∷ fs) ne h =
      elim (Option-cases (drop_prefix p (a ++ (slash ∷ [])))) [
        | inl e ↦ ground (arith, str_eq_iff p a, str_eq_iff b a, lookup-rename_all_old fs, e)
        | inr (rest, e) ↦ ground (
          arith,
          str_eq_iff p a,
          str_eq_iff b a,
          lookup-rename_all_old fs,
          e,
          under_spelled b rest,
          str_eq_iff (b ++ (slash ∷ rest)) a,
        )
      ]

  pub lookup-rename_all_other :
      (q : Bytes) (fs : Fs)
      → q ≢ a
      → q ≢ b
      → under q a ≡ false
      → under q b ≡ false
      → lookup q (rename_all a b fs) ≡ lookup q fs
  unfolding lookup rename_all has_prefix
  lookup-rename_all_other q [] ne nb ha hb = refl
  lookup-rename_all_other q ((p, n) ∷ fs) ne nb ha hb =
      elim (Option-cases (drop_prefix p (a ++ (slash ∷ [])))) [
        | inl e ↦
            ground (
              arith,
              str_eq_iff p a,
              str_eq_iff b q,
              str_eq_iff p q,
              lookup-rename_all_other q fs,
              e,
            )
        | inr (rest, e) ↦ ground (
          arith,
          str_eq_iff p a,
          str_eq_iff b q,
          str_eq_iff p q,
          lookup-rename_all_other q fs,
          e,
          under_spelled b rest,
          str_eq_iff (b ++ (slash ∷ rest)) q,
        )
      ]

-- A directory is there above every file.
above_is_dir :
    (a b : Bytes) (n : Node) (fs : Fs)
    → lookup a fs ≡ some n
    → is_dir b fs ≡ false
    → under a b ≡ false
unfolding lookup is_dir
above_is_dir a b n [] h k = cc
above_is_dir a b n ((p, m) ∷ fs) h k = ground (arith, str_eq_iff p a, above_is_dir a b n fs)

-- Nothing can be made below a file.
blocked_below_file :
    (a b text : Bytes) (t : ℕ) (fs : Fs)
    → lookup a fs ≡ some (file text t)
    → blocked b fs ≡ false
    → under b a ≡ false
unfolding lookup blocked
blocked_below_file a b text t [] h k = cc
blocked_below_file a b text t ((p, m) ∷ fs) h k =
    ground (arith, str_eq_iff p a, blocked_below_file a b text t fs)

lookup_of_stat :
    (s : MemoryStore) (a text : Bytes) (t : ℕ)
    → State.stat s a ≡ some (file text t)
    → lookup a s.fs ≡ some (file text t)
unfolding State.stat stat
lookup_of_stat s a text t h = ground arith

free_of_stat :
    (s : MemoryStore) (b : Bytes)
    → State.stat s b ≡ none
    → (lookup b s.fs ≡ none) × (is_dir b s.fs ≡ false)
unfolding State.stat stat
free_of_stat s b h = ground arith

-- What holds of the files when `a` has become `b`.
pub record IsMoved (a b text : Bytes) (t : ℕ) (old new : Fs) : Type 0 where
  pub arrived : lookup b new ≡ some (file text t)
  pub gone : lookup a new ≡ none
  pub others :
      (q : Bytes)
      → q ≢ a
      → q ≢ b
      → under q a ≡ false
      → under q b ≡ false
      → lookup q new ≡ lookup q old

rename_runs :
    (s : MemoryStore) (a b : Bytes) (n : Node)
    → under b a ≡ false
    → State.stat s a ≡ some n
    → rename s a b ≡ (ok tt, record s { fs = rename_all a b s.fs })
unfolding rename
rename_runs s a b n u h = rw (u, h)

-- Moving an existing file to a free path whose directory can be made succeeds: the file has its
-- content and time at the new path, nothing is left at the old one, and no path outside the two is
-- touched.
pub move_file :
    (s : MemoryStore) (from to a b text : Bytes) (t : ℕ)
    → abs_path s from ≡ ok a
    → abs_path s to ≡ ok b
    → State.stat s a ≡ some (file text t)
    → State.stat s b ≡ none
    → mkdir_fails s b ≡ false
    → ((move s from to).0 ≡ ok tt) × IsMoved a b text t s.fs (move s from to).1.fs
unfolding move
move_file s from to a b text t ha hb sa sb mk =
    let la = lookup_of_stat s a text t sa in
    let free = free_of_stat s b sb in
    let apart = above_is_dir a b (file text t) s.fs la free.1 in
    let inside = blocked_below_file a b text t s.fs la (unfold mkdir_fails in mk) in
    let ne : b ≢ a = λ e. cc (la, free.0, ap (λ (x : Bytes). lookup x s.fs) e) in
    rw (ha, hb, sb, mk, rename_runs s a b (file text t) inside sa)
      (
        refl,
        record {
          arrived = lookup-rename_all_new a b s.fs free.0 ∙ la;
          gone = lookup-rename_all_old a b s.fs ne apart;
          others = λ q qa qb ua ub. lookup-rename_all_other a b q s.fs qa qb ua ub;
        },
      )
