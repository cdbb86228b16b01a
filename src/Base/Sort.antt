-- ===== src/Base/Sort.antt =====
-- `sort.Slice` and `sort.SliceStable` by the test `less`: a stable insertion sort.
use mathlib.Core.Path.{◌≡◌, refl}
use mathlib.Core.Bool.{Bool, true, false}
use mathlib.Core.List.{List, [], ◌∷◌, Perm}
use mathlib.Core.List.Perm
use cogmemory.Base.Tests.{if◌then◌else◌}
use mathlib.Core.Logic.{inl, inr}
use cogmemory.Base.Lists.{All, Any}
use cogmemory.Base.Compare.{Bytes, str_lt, str_lt_asymm, str_lt_trans}

module _ {ℓ} {A : Type ℓ} (less : A → A → Bool) where
  unfoldable pub insert_by : A → List A → List A
  insert_by x [] = x ∷ []
  insert_by x (y ∷ ys) = if less y x then y ∷ insert_by x ys else x ∷ y ∷ ys

  unfoldable pub sort_by : List A → List A
  unfolding insert_by
  sort_by [] = []
  sort_by (x ∷ xs) = insert_by x (sort_by xs)

  -- No later element is below an earlier one.
  abbrev pub IsSorted : List A → Type 0
  IsSorted [] = Unit
  IsSorted (x ∷ xs) = All (λ y. less y x ≡ false) xs × IsSorted xs

  insert_by-perm : (x : A) (xs : List A) → Perm (insert_by x xs) (x ∷ xs)
  unfolding insert_by
  insert_by-perm x [] = Perm.refl (x ∷ [])
  insert_by-perm x (y ∷ ys) =
      elim (less y x) as (λ b. Perm (if b then y ∷ insert_by x ys else x ∷ y ∷ ys) (x ∷ y ∷ ys)) [
        | true ↦ Perm.trans (Perm.cons y (insert_by-perm x ys)) (Perm.swap x y ys)
        | false ↦ Perm.refl (x ∷ y ∷ ys)
      ]

  -- Sorting only reorders.
  pub sort_by-perm : (xs : List A) → Perm (sort_by xs) xs
  unfolding sort_by
  sort_by-perm [] = Perm.refl []
  sort_by-perm (x ∷ xs) = Perm.trans (insert_by-perm x (sort_by xs)) (Perm.cons x (sort_by-perm xs))

module _ {ℓ κ} {A : Type ℓ} (P : A → Type κ) (less : A → A → Bool) where
  All-insert_by : (x : A) (xs : List A) → P x → All P xs → All P (insert_by less x xs)
  unfolding insert_by
  All-insert_by x [] p h = (p, tt)
  All-insert_by x (y ∷ ys) p h =
      elim (less y x) as (λ b. All P (if b then y ∷ insert_by less x ys else x ∷ y ∷ ys)) [
        | true ↦ (h.0, All-insert_by x ys p h.1)
        | false ↦ (p, h)
      ]

  pub All-sort_by : (xs : List A) → All P xs → All P (sort_by less xs)
  unfolding sort_by
  All-sort_by [] h = tt
  All-sort_by (x ∷ xs) h = All-insert_by x (sort_by less xs) h.0 (All-sort_by xs h.1)

-- The laws of a strict weak order, which sorting needs.
pub record IsOrder {ℓ} {A : Type ℓ} (less : A → A → Bool) : Type ℓ where
  pub asymm : (a b : A) → less a b ≡ true → less b a ≡ false
  pub trans : (a b c : A) → less b a ≡ false → less c b ≡ false → less c a ≡ false

module _ {ℓ} {A : Type ℓ} (less : A → A → Bool) (o : IsOrder less) where
  pub above_trans :
      (x y : A) (ys : List A)
      → less y x ≡ false
      → All (λ z. less z y ≡ false) ys
      → All (λ z. less z x ≡ false) ys
  above_trans x y [] h k = tt
  above_trans x y (z ∷ ys) h k = (o.trans x y z h k.0, above_trans x y ys h k.1)

  insert_by-IsSorted :
      (x : A) (xs : List A) → IsSorted less xs → IsSorted less (insert_by less x xs)
  unfolding insert_by
  insert_by-IsSorted x [] h = (tt, tt)
  insert_by-IsSorted x (y ∷ ys) h = go (insert_by-IsSorted x ys h.1) (less y x) refl
    where
      go :
          IsSorted less (insert_by less x ys)
          → (b : Bool) → less y x ≡ b
          → IsSorted less (if b then y ∷ insert_by less x ys else x ∷ y ∷ ys)
      go ih true e = (All-insert_by (λ z. less z y ≡ false) less x ys (o.asymm y x e) h.0, ih)
      go ih false e = ((e, above_trans x y ys e h.0), h)

  pub sort_by-IsSorted : (xs : List A) → IsSorted less (sort_by less xs)
  unfolding sort_by
  sort_by-IsSorted [] = tt
  sort_by-IsSorted (x ∷ xs) = insert_by-IsSorted x (sort_by less xs) (sort_by-IsSorted xs)

-- An order by a text field.
abbrev pub less_on {ℓ} : {A : Type ℓ} → (A → Bytes) → A → A → Bool
less_on f a b = str_lt (f a) (f b)

pub less_on-IsOrder {ℓ} : {A : Type ℓ} (f : A → Bytes) → IsOrder (less_on f)
less_on-IsOrder f = record {
  asymm = λ a b. str_lt_asymm (f a) (f b);
  trans = λ a b c. str_lt_trans (f a) (f b) (f c);
}

module _ {ℓ} {A : Type ℓ} (P : A → Type 0) (less : A → A → Bool) where
  Any-insert_by : (x : A) (xs : List A) → Any P (x ∷ xs) → Any P (insert_by less x xs)
  unfolding insert_by
  Any-insert_by x [] h = h
  Any-insert_by x (y ∷ ys) h =
      elim (less y x) as (λ b. Any P (if b then y ∷ insert_by less x ys else x ∷ y ∷ ys)) [
        | true ↦ elim h [
          | inl px ↦ inr (Any-insert_by x ys (inl px))
          | inr rest ↦ elim rest [
            | inl py ↦ inl py
            | inr later ↦ inr (Any-insert_by x ys (inr later))
          ]
        ]
        | false ↦ h
      ]

  pub Any-sort_by : (xs : List A) → Any P xs → Any P (sort_by less xs)
  unfolding sort_by
  Any-sort_by [] h = elim h [ ]
  Any-sort_by (x ∷ xs) (inl px) = Any-insert_by x (sort_by less xs) (inl px)
  Any-sort_by (x ∷ xs) (inr h) = Any-insert_by x (sort_by less xs) (inr (Any-sort_by xs h))
