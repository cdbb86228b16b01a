-- ===== src/Link/Words/Whole.antt =====
-- The whole-word search finds the first whole occurrence.
use cogmemory.Base.{
  ℕ, zero, suc, ◌+◌, ◌-◌, ◌≤◌, true, false, [], ◌∷◌, Option, none, some, ◌≡◌, refl, sym, ap, subst,
  ◌⊎◌, inl, inr, arith, Bytes, has_prefix, drop, drop-drop, drop_all, length, index, IsFirst,
  index-IsFirst, Bool-cases,
}
use cogmemory.Link.Words.{is_whole, whole_word_from, whole_word_index}

module _ (line : Bytes) (b : ℕ) (rest : Bytes) where
  abbrev name : Bytes
  name = b ∷ rest

  -- The name stands at the place, as a whole word.
  abbrev pub StandsAt : ℕ → Type 0
  StandsAt i = (has_prefix (drop i line) name ≡ true) × (is_whole line i (length name) ≡ true)

  -- The first place at or behind `from` where the name stands as a whole word, or `none` without one.
  abbrev pub FirstWhole : ℕ → Option ℕ → Type 0
  FirstWhole from none = (i : ℕ) → from ≤ i → ¬ StandsAt i
  FirstWhole from (some j) =
      (from ≤ j) × StandsAt j × ((k : ℕ) → from ≤ k → suc k ≤ j → ¬ StandsAt k)

  le_or_lt : (i p : ℕ) → (i ≤ p) ⊎ (suc p ≤ i)
  le_or_lt i p = omega arith

  past_end : (from : ℕ) → suc (length line) ≤ from → FirstWhole from none
  past_end from h i le s =
      cc (s.0, ap (λ (t : Bytes). has_prefix t name) (drop_all i line (omega arith)), gone)
    where
      gone : has_prefix [] name ≡ false
      gone = unfold has_prefix in refl

  -- What an index from an offset says of places in the line.
  shifted : (idx : ℕ) (i : ℕ) → idx ≤ i → (k : ℕ) × (i ≡ idx + k)
  shifted idx i le = (i - idx, omega arith)

  none_from :
      (idx : ℕ)
      → IsFirst (drop idx line) name none
      → (i : ℕ) → idx ≤ i
      → has_prefix (drop i line) name ≡ false
  none_from idx f i le = let (k, e) = shifted idx i le in rw (e, ← drop-drop idx k line) (f k)

  none_before :
      (idx j : ℕ)
      → IsFirst (drop idx line) name (some j)
      → (i : ℕ) → idx ≤ i
      → suc i ≤ idx + j
      → has_prefix (drop i line) name ≡ false
  none_before idx j f i le lt =
      let (k, e) = shifted idx i le in rw (e, ← drop-drop idx k line) (f.1 k (omega arith))

  not_there : (i : ℕ) → has_prefix (drop i line) name ≡ false → ¬ StandsAt i
  not_there i h s = cc

  -- Going on behind a place that is no whole word.
  widen :
      (idx p : ℕ) (o : Option ℕ)
      → idx ≤ p
      → ((i : ℕ) → idx ≤ i → suc i ≤ suc p → ¬ StandsAt i)
      → FirstWhole (suc p) o
      → FirstWhole idx o
  widen idx p none le before f =
      λ i li. elim (le_or_lt i p) [ inl small ↦ before i li (omega arith) | inr large ↦ f i large ]
  widen idx p (some j) le before f = (
    omega (arith, f.0),
    f.1,
    λ k lk lt. elim (le_or_lt k p) [
      | inl small ↦ before k lk (omega arith)
      | inr large ↦ f.2 k large lt
    ],
  )

  stays :
      (idx j : ℕ)
      → IsFirst (drop idx line) name (some j)
      → (i : ℕ) → idx ≤ i
      → suc i ≤ idx + j
      → ¬ StandsAt i
  stays idx j f i le lt = not_there i (none_before idx j f i le lt)

  through :
      (idx j : ℕ)
      → IsFirst (drop idx line) name (some j)
      → is_whole line (idx + j) (length name) ≡ false
      → (i : ℕ) → idx ≤ i
      → suc i ≤ suc (idx + j)
      → ¬ StandsAt i
  through idx j f w i le lt = elim (le_or_lt (idx + j) i) [
    | inl large ↦
        let meets : i ≡ idx + j = omega arith in
        λ s. cc (s.1, w, ap (λ (k : ℕ). is_whole line k (length name)) meets)
    | inr small ↦ stays idx j f i le small
  ]

  step :
      (fuel idx : ℕ) (o : Option ℕ)
      → index (drop idx line) name ≡ o
      → ((j : ℕ) → FirstWhole (suc (idx + j)) (whole_word_from fuel line name (suc (idx + j))))
      → FirstWhole idx (whole_word_from (suc fuel) line name idx)
  unfolding whole_word_from
  step fuel idx none e later =
      let ends : whole_word_from (suc fuel) line name idx ≡ none = ground arith in
      subst (FirstWhole idx) (sym ends)
        (λ i le. not_there i (none_from idx (rw e at (index-IsFirst b rest (drop idx line))) i le))
  step fuel idx (some j) e later =
      let f : IsFirst (drop idx line) name (some j) =
        rw e at (index-IsFirst b rest (drop idx line)) in
      elim (Bool-cases (is_whole line (idx + j) (length name))) [
        | inl w ↦
            let ends : whole_word_from (suc fuel) line name idx ≡ some (idx + j) = ground arith in
            subst (FirstWhole idx) (sym ends)
              (omega arith, (rw (← drop-drop idx j line) f.0, w), stays idx j f)
        | inr w ↦
            let goes : whole_word_from (suc fuel) line name idx
                ≡ whole_word_from fuel line name (suc (idx + j)) =
              ground arith in
            subst (FirstWhole idx) (sym goes) (
              widen idx (idx + j) (whole_word_from fuel line name (suc (idx + j))) (omega arith)
                (through idx j f w) (later j))
      ]

  whole_word_from-FirstWhole :
      (fuel idx : ℕ)
      → suc (length line) ≤ fuel + idx
      → FirstWhole idx (whole_word_from fuel line name idx)
  unfolding whole_word_from
  whole_word_from-FirstWhole zero idx h = past_end idx (omega arith)
  whole_word_from-FirstWhole (suc fuel) idx h =
      step fuel idx (index (drop idx line) name) refl
        (λ j. whole_word_from-FirstWhole fuel (suc (idx + j)) (omega arith))

-- wholeWordIndex returns the first place where the name stands as a whole word, and -1 only where it
-- stands so nowhere.
pub whole_word_index-FirstWhole :
    (line : Bytes) (b : ℕ) (rest : Bytes)
    → FirstWhole line b rest 0 (whole_word_index line (b ∷ rest))
unfolding whole_word_index
whole_word_index-FirstWhole line b rest =
    whole_word_from-FirstWhole line b rest (suc (length line)) 0 (omega arith)
