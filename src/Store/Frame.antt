-- ===== src/Store/Frame.antt =====
-- Which files an operation on the store can change, whether it succeeds or fails.
use cogmemory.Base.{
  ℕ, zero, suc, Bool, true, false, not, ◌≡◌, ◌⊎◌, inl, inr, refl, ap, Bytes, is_empty,
  if◌then◌else◌, Bool-cases, str_eq, str_eq_iff, ◌&&◌, none, some, Option,
}
use cogmemory.Store.Fs.{Node, file, lookup, lookup-put}
use cogmemory.Store.State.{
  MemoryStore, Result, Done, ok, err, abs_path, stat, put_file, may_replace, atomic_write, write,
  mkdir_fails, at_path, io, destination_exists,
}
use cogmemory.Store.Append.{
  append_section, append_end, append_under_section, checked, existing_of, existing_section,
  section_content, separator, is_obs_path, validate_obs_lines,
}
use cogmemory.Store.Edit.{
  patch, patch_count, move, must_read, count, rename, rename_all, replace_first, if_free,
}
use cogmemory.Store.Edit.Moved.{under, lookup-rename_all_other}

-- The file at `q`, or its absence, is the same in both.
abbrev pub IsSameAt : MemoryStore → MemoryStore → Bytes → Type 0
IsSameAt s after q = lookup q after.fs ≡ lookup q s.fs

-- Below `abs`, or `abs` itself.
abbrev pub IsIn : Bytes → Bytes → Type 0
IsIn abs q = (q ≡ abs) ⊎ (under q abs ≡ true)

-- No file changes but the one at the path that `rel` resolves to.
abbrev pub ChangesOnly : MemoryStore → Bytes → MemoryStore → Type 0
ChangesOnly s rel after = (q : Bytes) → IsSameAt s after q ⊎ (abs_path s rel ≡ ok q)

-- No file changes but those in the two trees.
abbrev pub ChangesTrees : MemoryStore → Bytes → Bytes → MemoryStore → Type 0
ChangesTrees s from to after =
    (q : Bytes)
    → IsSameAt s after q
      ⊎ ((a : Bytes) × (b : Bytes) × (abs_path s from ≡ ok a)
          × (abs_path s to ≡ ok b)
          × (IsIn a q ⊎ IsIn b q))

module _ (s : MemoryStore) where
  module _ (abs : Bytes) where
    abbrev OnlyAt : MemoryStore → Type 0
    OnlyAt after = (q : Bytes) → IsSameAt s after q ⊎ (abs ≡ q)

    put_at : (content : Bytes) → OnlyAt (put_file s abs content)
    put_at content q = elim (Bool-cases (str_eq abs q)) [
      | inl e ↦ inr ((str_eq_iff abs q).0 e)
      | inr e ↦ inl (rw (lookup-put abs q (file content s.clock) s.fs, e) refl)
    ]

    if_at :
        (b : Bool) (m n : Done × MemoryStore)
        → OnlyAt m.1
        → OnlyAt n.1
        → OnlyAt (if b then m else n).1
    if_at true m n h k = h
    if_at false m n h k = k

    bind_at :
        (r : Result Bytes) (k : Bytes → Done × MemoryStore)
        → ((c : Bytes) → OnlyAt (k c).1)
        → OnlyAt (at_path s r k).1
    bind_at (err e) k h = λ q. inl refl
    bind_at (ok c) k h = h c

    checked_at : (d : Done) (m : Done × MemoryStore) → OnlyAt m.1 → OnlyAt (checked s d m).1
    checked_at (err e) m h = λ q. inl refl
    checked_at (ok u) m h = h

    atomic_write_at : (content : Bytes) → OnlyAt (atomic_write s abs content).1
    unfolding atomic_write
    atomic_write_at content = if_at (may_replace (stat s abs)) _ _ (put_at content) (λ q. inl refl)

    append_end_at : (text existing : Bytes) → OnlyAt (append_end s abs text existing).1
    unfolding append_end
    append_end_at text existing =
        if_at (is_empty (separator existing text) && not (is_empty existing)) _ _ (put_at _)
          (atomic_write_at _)

    under_section_at : (section text : Bytes) → OnlyAt (append_under_section s abs section text).1
    unfolding append_under_section
    under_section_at section text =
        bind_at (existing_section (stat s abs)) _
          (λ existing. bind_at (section_content section text existing) _ atomic_write_at)

    patch_count_at :
        (content old new : Bytes) (n : ℕ) → OnlyAt (patch_count s abs content old new n).1
    patch_count_at content old new zero = λ q. inl refl
    patch_count_at content old new (suc zero) = atomic_write_at (replace_first content old new)
    patch_count_at content old new (suc (suc n)) = λ q. inl refl

  resolved_at :
      (r : Result Bytes) (k : Bytes → Done × MemoryStore)
      → ((abs : Bytes) → OnlyAt abs (k abs).1)
      → (q : Bytes) → IsSameAt s (at_path s r k).1 q ⊎ (r ≡ ok q)
  resolved_at (err e) k h q = inl refl
  resolved_at (ok abs) k h q = elim (h abs q) [ inl same ↦ inl same | inr e ↦ inr (ap ok e) ]

  pub write-ChangesOnly : (rel content : Bytes) → ChangesOnly s rel (write s rel content).1
  unfolding write
  write-ChangesOnly rel content =
      resolved_at (abs_path s rel) _
        (λ abs. if_at abs (mkdir_fails s abs) _ _ (λ q. inl refl) (atomic_write_at abs content))

  pub append_section-ChangesOnly :
      (rel section text : Bytes) → ChangesOnly s rel (append_section s rel section text).1
  unfolding append_section
  append_section-ChangesOnly rel section text = resolved_at (abs_path s rel) _ (λ abs.
      checked_at abs (if is_obs_path rel then validate_obs_lines text else ok tt) _ (
        if_at abs (mkdir_fails s abs) _ _ (λ q. inl refl)
          (if_at abs (not (is_empty section)) _ _ (under_section_at abs section text)
            (bind_at abs (existing_of (stat s abs)) _ (append_end_at abs text)))))

  pub patch-ChangesOnly : (rel old new : Bytes) → ChangesOnly s rel (patch s rel old new).1
  unfolding patch
  patch-ChangesOnly rel old new = resolved_at (abs_path s rel) _ (λ abs.
      bind_at abs (must_read (stat s abs)) _
        (λ content. patch_count_at abs content old new (count content old)))

  module _ (a b : Bytes) where
    abbrev OnlyIn : MemoryStore → Type 0
    OnlyIn after = (q : Bytes) → IsSameAt s after q ⊎ (IsIn a q ⊎ IsIn b q)

    rename_all_in : OnlyIn (record s { fs = rename_all a b s.fs })
    rename_all_in q = elim (Bool-cases (str_eq q a)) [
      | inl e ↦ inr (inl (inl ((str_eq_iff q a).0 e)))
      | inr na ↦ elim (Bool-cases (str_eq q b)) [
        | inl e ↦ inr (inr (inl ((str_eq_iff q b).0 e)))
        | inr nb ↦ elim (Bool-cases (under q a)) [
          | inl u ↦ inr (inl (inr u))
          | inr ua ↦ elim (Bool-cases (under q b)) [
            | inl u ↦ inr (inr (inr u))
            | inr ub ↦ inl (
                lookup-rename_all_other a b q s.fs (λ e. cc (na, (str_eq_iff q a).1 e))
                  (λ e. cc (nb, (str_eq_iff q b).1 e)) ua ub)
          ]
        ]
      ]
    ]

    rename_in : OnlyIn (rename s a b).1
    unfolding rename
    rename_in q = elim (Bool-cases (under b a)) [
      | inl u ↦ rw u (inl refl)
      | inr u ↦ rw u (found (stat s a) q)
    ]
      where
        found :
            (o : Option Node)
            → OnlyIn
                (elim o as (λ _. Done × MemoryStore) [
                  | none ↦ (err io, s)
                  | some n ↦ (ok tt, record s { fs = rename_all a b s.fs })
                ]).1
        found none = λ q. inl refl
        found (some n) = rename_all_in

    moved_in :
        (o : Option Node)
        → OnlyIn
            (if_free o
              (if mkdir_fails s b then (err io, s) else rename s a b)
              (err destination_exists, s)).1
    moved_in none q = elim (Bool-cases (mkdir_fails s b)) [
      | inl h ↦ rw h (inl refl)
      | inr h ↦ rw h (rename_in q)
    ]
    moved_in (some n) q = inl refl

  trees :
      (ra rb : Result Bytes) (k : Bytes → Bytes → Done × MemoryStore)
      → ((a b : Bytes) → OnlyIn a b (k a b).1)
      → (q : Bytes)
      → IsSameAt s (at_path s ra (λ a. at_path s rb (k a))).1 q
        ⊎ ((a : Bytes) × (b : Bytes) × (ra ≡ ok a) × (rb ≡ ok b) × (IsIn a q ⊎ IsIn b q))
  trees (err e) rb k h q = inl refl
  trees (ok a) (err e) k h q = inl refl
  trees (ok a) (ok b) k h q = elim (h a b q) [
    | inl same ↦ inl same
    | inr there ↦ inr (a, b, refl, refl, there)
  ]

  pub move-ChangesTrees : (from to : Bytes) → ChangesTrees s from to (move s from to).1
  unfolding move
  move-ChangesTrees from to =
      trees (abs_path s from) (abs_path s to) _ (λ a b. moved_in a b (stat s b))
