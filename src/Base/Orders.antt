-- ===== src/Base/Orders.antt =====
-- Orders by several fields, as the comparisons that `sort.Slice` is given.
use Prim.Native.Nat.{ℕ}
use mathlib.Core.Path.{◌≡◌}
use mathlib.Core.Logic.{◌↔◌}
use mathlib.Core.Bool.{Bool, true, false, not}
use native.Mathlib.Omega.{arith}
use cogmemory.Base.Tests.{◌==◌, ltb, if◌then◌else◌}
use cogmemory.Base.Compare.{
  Bytes, str_eq, str_lt, str_eq_iff, str_lt_asymm, str_lt_trans, eq_of_not_lt, str_lt_irrefl,
}
use mathlib.Core.Path.{refl}
use mathlib.Core.Logic.{inl, inr}
use mathlib.Core.List.{List, [], ◌∷◌}
use cogmemory.Base.Tests.{Bool-cases}
use cogmemory.Base.Lists.{All, keep}
use cogmemory.Base.Sort.{IsOrder, IsSorted, insert_by, sort_by, sort_by-IsSorted, above_trans}

-- The test `same` holds exactly for the ties of an order.
abbrev pub TestsTies {ℓ} : {A : Type ℓ} → (A → A → Bool) → (A → A → Bool) → Type ℓ
TestsTies {A = A} less same =
    (a b : A) → (same a b ≡ true) ↔ ((less a b ≡ false) × (less b a ≡ false))

pub ltb_on-IsOrder {ℓ} : {A : Type ℓ} (f : A → ℕ) → IsOrder (λ a b. ltb (f a) (f b))
ltb_on-IsOrder f = record { asymm = λ a b h. ground arith; trans = λ a b c h k. ground arith }

pub gtb_on-IsOrder {ℓ} : {A : Type ℓ} (f : A → ℕ) → IsOrder (λ a b. ltb (f b) (f a))
gtb_on-IsOrder f = record { asymm = λ a b h. ground arith; trans = λ a b c h k. ground arith }

pub gtb_on-TestsTies {ℓ} :
    {A : Type ℓ} (f : A → ℕ) → TestsTies (λ a b. ltb (f b) (f a)) (λ a b. f a == f b)
gtb_on-TestsTies f a b = (λ h. (ground arith, ground arith), λ h. ground (arith, h.0, h.1))

pub rising-TestsTies {ℓ} :
    {A : Type ℓ} (f : A → Bytes) → TestsTies (λ a b. str_lt (f a) (f b)) (λ a b. str_eq (f a) (f b))
rising-TestsTies f a b = (
  λ h. (
    ground (arith, str_eq_iff (f a) (f b), str_lt_irrefl (f a)),
    ground (arith, str_eq_iff (f a) (f b), str_lt_irrefl (f a)),
  ),
  λ h. ground (arith, str_eq_iff (f a) (f b), eq_of_not_lt (f a) (f b), h.0, h.1),
)

pub falling-IsOrder {ℓ} : {A : Type ℓ} (f : A → Bytes) → IsOrder (λ a b. str_lt (f b) (f a))
falling-IsOrder f = record {
  asymm = λ a b. str_lt_asymm (f b) (f a);
  trans = λ a b c h k. str_lt_trans (f c) (f b) (f a) k h;
}

pub falling-TestsTies {ℓ} :
    {A : Type ℓ} (f : A → Bytes) → TestsTies (λ a b. str_lt (f b) (f a)) (λ a b. str_eq (f a) (f b))
falling-TestsTies f a b = (
  λ h. (((rising-TestsTies f a b).0 h).1, ((rising-TestsTies f a b).0 h).0),
  λ h. (rising-TestsTies f a b).1 (h.1, h.0),
)

-- An order, with the ties decided by another.
module _ {ℓ} {A : Type ℓ} (less same rest : A → A → Bool) where
  pub then_by-IsOrder :
      IsOrder less
      → TestsTies less same
      → IsOrder rest
      → IsOrder (λ a b. if not (same a b) then less a b else rest a b)
  then_by-IsOrder o ties r = record {
    asymm = λ a b h. ground (arith, ties a b, ties b a, o.asymm a b, r.asymm a b);
    trans = λ a b c h k. ground (
      arith,
      ties b a,
      ties c b,
      ties c a,
      o.trans a b c,
      o.trans c a b,
      o.trans b c a,
      r.trans a b c,
    );
  }

-- A filter before the sort is a filter after it.
module _ {ℓ} {A : Type ℓ} (less : A → A → Bool) (p : A → Bool) where
  insert_by-above :
      (x : A) (ys : List A) → All (λ y. less y x ≡ false) ys → insert_by less x ys ≡ x ∷ ys
  unfolding insert_by
  insert_by-above x [] h = refl
  insert_by-above x (y ∷ ys) h = ground (arith, h.0)

  keep-above :
      (x : A) (ys : List A)
      → All (λ y. less y x ≡ false) ys
      → All (λ y. less y x ≡ false) (keep p ys)
  keep-above x [] h = tt
  keep-above x (y ∷ ys) h =
      elim (p y) as (λ b. All (λ z. less z x ≡ false) (if b then y ∷ keep p ys else keep p ys)) [
        | true ↦ (h.0, keep-above x ys h.1)
        | false ↦ keep-above x ys h.1
      ]

  module _ (o : IsOrder less) where
    keep-insert_by :
        (x : A) (ys : List A)
        → IsSorted less ys
        → keep p (insert_by less x ys) ≡ (if p x then insert_by less x (keep p ys) else keep p ys)
    unfolding insert_by
    keep-insert_by x [] h = refl
    keep-insert_by x (y ∷ ys) h = elim (Bool-cases (less y x)) [
      | inl lt ↦ ground (arith, keep-insert_by x ys h.1)
      | inr ge ↦ ground (
        arith,
        insert_by-above x (keep p ys) (keep-above x ys (above_trans less o x y ys ge h.0)),
      )
    ]

    pub keep-sort_by : (xs : List A) → keep p (sort_by less xs) ≡ sort_by less (keep p xs)
    unfolding sort_by
    keep-sort_by [] = refl
    keep-sort_by (x ∷ xs) =
        ground
          (arith, keep-insert_by x (sort_by less xs) (sort_by-IsSorted less o xs), keep-sort_by xs)
