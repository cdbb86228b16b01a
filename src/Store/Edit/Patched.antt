-- ===== src/Store/Edit/Patched.antt =====
-- What Patch does to the content of a file.
use cogmemory.Base.{
  ℕ, zero, suc, ◌-◌, ◌≤◌, [], ◌∷◌, ◌++◌, Option, none, some, ◌≡◌, refl, sym, ap, subst, ◌∙◌, ◌⊎◌,
  inl, inr, arith, Bytes, has_prefix, drop_prefix, drop_prefix_sound, Option-cases, length, cut,
  cut_sound, drop, drop_append, push_left,
}
use cogmemory.Store.Fs.{file}
use cogmemory.Store.State.{
  MemoryStore, Done, ok, err, abs_path, stat, put_file, patch_not_found, patch_ambiguous,
  atomic_write,
}
use cogmemory.Store.Edit.{count_from, count, replace_first, patch, patch_count}

-- `old` stands in the text behind `before`, and what follows that place does not hold it again.
pub record OccursOnce (text old : Bytes) : Type 0 where
  pub before : Bytes
  pub after : Bytes
  pub spelled : text ≡ before ++ (old ++ after)
  pub found : cut text old ≡ some (before, after)
  pub last : cut after old ≡ none

count_skip : (k : ℕ) (sub s : Bytes) → count_from k sub s ≡ count_from zero sub (drop k s)
unfolding count_from
count_skip zero sub s = refl
count_skip (suc k) sub [] = refl
count_skip (suc k) sub (c ∷ s) = count_skip k sub s

abbrev count_after : Bytes → Option (Bytes × Bytes) → ℕ
count_after sub none = 0
count_after sub (some (before, after)) = suc (count_from zero sub after)

after_push :
    (c : ℕ) (sub : Bytes) (o : Option (Bytes × Bytes))
    → count_after sub (push_left c o) ≡ count_after sub o
after_push c sub none = refl
after_push c sub (some (a, b)) = refl

rest_of_hit :
    (b : ℕ) (sub : Bytes) (c : ℕ) (s r : Bytes)
    → drop_prefix (c ∷ s) (b ∷ sub) ≡ some r
    → drop (length sub) s ≡ r
rest_of_hit b sub c s r h =
    ap (λ (t : Bytes). drop (suc (length sub)) t) (drop_prefix_sound (c ∷ s) (b ∷ sub) r h)
    ∙ drop_append (b ∷ sub) r

pred_suc : (n : ℕ) → suc n - 1 ≡ n
pred_suc n = omega arith

-- Counting goes on behind the first occurrence.
count_cut :
    (b : ℕ) (sub s : Bytes) → count_from zero (b ∷ sub) s ≡ count_after (b ∷ sub) (cut s (b ∷ sub))
unfolding count_from cut has_prefix
count_cut b sub [] = unfold drop_prefix in refl
count_cut b sub (c ∷ s) = elim (Option-cases (drop_prefix (c ∷ s) (b ∷ sub))) [
  | inl miss ↦ ground (arith, miss, after_push c (b ∷ sub) (cut s (b ∷ sub)), count_cut b sub s)
  | inr (r, hit) ↦ ground (
    arith,
    hit,
    count_skip (length sub) (b ∷ sub) s,
    rest_of_hit b sub c s r hit,
    pred_suc (length sub),
  )
]

-- `old` stands in the text, and again in what follows the first place.
pub record OccursTwice (text old : Bytes) : Type 0 where
  pub before : Bytes
  pub between : Bytes
  pub after : Bytes
  pub spelled : text ≡ before ++ (old ++ (between ++ (old ++ after)))

abbrev Counted : Bytes → Bytes → ℕ → Type 0
Counted text old n =
    (n ≡ 0) × (cut text old ≡ none) ⊎ (n ≡ 1) × OccursOnce text old ⊎ (2 ≤ n) × OccursTwice text old

twice_more : (n : ℕ) → 2 ≤ suc (suc n)
twice_more n = omega arith

module _ (b : ℕ) (sub text : Bytes) where
  abbrev old : Bytes
  old = b ∷ sub

  suc_count-Counted :
      (x y : Bytes) → cut text old ≡ some (x, y) → Counted text old (suc (count_from zero old y))
  suc_count-Counted x y e = rw (count_cut b sub y) (go (cut y old) refl)
    where
      go :
          (o : Option (Bytes × Bytes))
          → cut y old ≡ o
          → Counted text old (suc (count_after old (cut y old)))
      go none f = rw f (
          inr (
            inl (
              refl,
              record {
                before = x;
                after = y;
                spelled = cut_sound text old x y e;
                found = e;
                last = f;
              },
            )))
      go (some (u, v)) f = rw f (
          inr (
            inr (
              twice_more (count_from zero old v),
              record {
                before = x;
                between = u;
                after = v;
                spelled =
                    cut_sound text old x y e
                    ∙ ap (λ (t : Bytes). x ++ (old ++ t)) (cut_sound y old u v f);
              },
            )))

  counted : Counted text old (count text old)
  unfolding count
  counted = rw (count_cut b sub text) (go (cut text old) refl)
    where
      go :
          (o : Option (Bytes × Bytes))
          → cut text old ≡ o
          → Counted text old (count_after old (cut text old))
      go none e = rw e (inl (refl, refl))
      go (some (x, y)) e =
          subst (λ (o : Option (Bytes × Bytes)). Counted text old (count_after old o)) (sym e)
            (suc_count-Counted x y e)

abbrev pub Patched : MemoryStore → Bytes → Bytes → Bytes → Bytes → Done × MemoryStore → Type 0
Patched s abs text old new m =
    (cut text old ≡ none) × (m ≡ (err patch_not_found, s))
    ⊎ ((o : OccursOnce text old) × (m ≡ (ok tt, put_file s abs (o.before ++ (new ++ o.after)))))
    ⊎ OccursTwice text old × ((n : ℕ) × (m ≡ (err (patch_ambiguous n), s)))

replaced :
    (s : MemoryStore) (abs text old new : Bytes) (t : ℕ)
    → stat s abs ≡ some (file text t)
    → (o : OccursOnce text old)
    → atomic_write s abs (replace_first text old new)
      ≡ (ok tt, put_file s abs (o.before ++ (new ++ o.after)))
unfolding atomic_write replace_first
replaced s abs text old new t hs o = rw (hs, o.found)

outcome :
    (s : MemoryStore) (abs text old new : Bytes) (t : ℕ)
    → stat s abs ≡ some (file text t)
    → (n : ℕ) → Counted text old n
    → Patched s abs text old new (patch_count s abs text old new n)
outcome s abs text old new t hs zero (inl (e, c)) = inl (c, refl)
outcome s abs text old new t hs zero (inr (inl (e, o))) = absurd (omega arith)
outcome s abs text old new t hs zero (inr (inr (h, w))) = absurd (omega arith)
outcome s abs text old new t hs (suc zero) (inl (e, c)) = absurd (omega arith)
outcome s abs text old new t hs (suc zero) (inr (inl (e, o))) =
    inr (inl (o, replaced s abs text old new t hs o))
outcome s abs text old new t hs (suc zero) (inr (inr (h, w))) = absurd (omega arith)
outcome s abs text old new t hs (suc (suc n)) (inl (e, c)) = absurd (omega arith)
outcome s abs text old new t hs (suc (suc n)) (inr (inl (e, o))) = absurd (omega arith)
outcome s abs text old new t hs (suc (suc n)) (inr (inr (h, w))) =
    inr (inr (w, (suc (suc n), refl)))

-- Patch with a text that is not empty, on a file that can be read, has one of three outcomes. The
-- text does not occur, and the patch fails as not found. It occurs and does not occur again behind
-- its first place, and the file then holds the new text in that place and is otherwise the same. It
-- occurs a second time behind the first place, and the patch fails as ambiguous.
pub patch_exact :
    (s : MemoryStore) (rel abs text : Bytes) (t b : ℕ) (sub new : Bytes)
    → abs_path s rel ≡ ok abs
    → stat s abs ≡ some (file text t)
    → Patched s abs text (b ∷ sub) new (patch s rel (b ∷ sub) new)
unfolding patch
patch_exact s rel abs text t b sub new ha hs =
    rw (ha, hs) (outcome s abs text (b ∷ sub) new t hs (count text (b ∷ sub)) (counted b sub text))
