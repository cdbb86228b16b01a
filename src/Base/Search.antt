-- ===== src/Base/Search.antt =====
-- The first place of a text in another.
use Prim.Native.Nat.{ℕ, zero, suc, ◌+◌, ◌≤◌}
use mathlib.Core.Path.{◌≡◌, refl, sym, ap, ◌∙◌}
use mathlib.Core.Logic.{inl, inr}
use mathlib.Core.Bool.{true, false}
use mathlib.Core.Option.{Option, none, some}
use mathlib.Core.List.{[], ◌∷◌}
use native.Mathlib.Omega.{arith}
use cogmemory.Base.Tests.{Bool-cases, if◌then◌else◌}
use cogmemory.Base.Lists.{drop, length}
use cogmemory.Base.Compare.{Bytes, has_prefix, drop_prefix}
use cogmemory.Base.Text.{index, cut, push_left}

abbrev raise : Option ℕ → Option ℕ
raise none = none
raise (some j) = some (suc j)

abbrev place : Option (Bytes × Bytes) → Option ℕ
place none = none
place (some (a, b)) = some (length a)

place-push_left : (c : ℕ) (o : Option (Bytes × Bytes)) → place (push_left c o) ≡ raise (place o)
place-push_left c none = refl
place-push_left c (some (a, b)) = refl

index-cons :
    (c : ℕ) (s sub : Bytes)
    → index (c ∷ s) sub ≡ (if has_prefix (c ∷ s) sub then some 0 else raise (index s sub))
unfolding index cut has_prefix
index-cons c s sub = ground (arith, place-push_left c (cut s sub))

-- `o` is the first place of the text `sub`, if it has one.
abbrev pub IsFirst : Bytes → Bytes → Option ℕ → Type 0
IsFirst s sub none = (i : ℕ) → has_prefix (drop i s) sub ≡ false
IsFirst s sub (some j) =
    (has_prefix (drop j s) sub ≡ true) × ((k : ℕ) → suc k ≤ j → has_prefix (drop k s) sub ≡ false)

module _ (b : ℕ) (sub : Bytes) where
  abbrev text : Bytes
  text = b ∷ sub

  nowhere : (i : ℕ) → has_prefix (drop i []) text ≡ false
  unfolding has_prefix
  nowhere zero = refl
  nowhere (suc i) = refl

  raise-IsFirst :
      (c : ℕ) (s : Bytes) (o : Option ℕ)
      → has_prefix (c ∷ s) text ≡ false
      → IsFirst s text o
      → IsFirst (c ∷ s) text (raise o)
  raise-IsFirst c s none h f = go
    where
      go : (i : ℕ) → has_prefix (drop i (c ∷ s)) text ≡ false
      go zero = h
      go (suc i) = f i
  raise-IsFirst c s (some j) h f = (f.0, go)
    where
      go : (k : ℕ) → suc k ≤ suc j → has_prefix (drop k (c ∷ s)) text ≡ false
      go zero lt = h
      go (suc k) lt = f.1 k (omega arith)

  pub index-IsFirst : (s : Bytes) → IsFirst s text (index s text)
  unfolding drop_prefix
  index-IsFirst [] = unfold index cut in nowhere
  index-IsFirst (c ∷ s) = elim (Bool-cases (has_prefix (c ∷ s) text)) [
    | inl h ↦ rw (index-cons c s text, h) (h, λ k lt. absurd (omega arith))
    | inr h ↦ rw (index-cons c s text, h) (raise-IsFirst c s (index s text) h (index-IsFirst s))
  ]

drop_nil : (i : ℕ) → drop {A = ℕ} i [] ≡ []
drop_nil zero = refl
drop_nil (suc i) = refl

pub drop-drop : (a b : ℕ) (s : Bytes) → drop b (drop a s) ≡ drop (a + b) s
drop-drop zero b s = ap (λ n. drop n s) (omega arith)
drop-drop (suc a) b [] = drop_nil b ∙ sym (drop_nil (suc a + b))
drop-drop (suc a) b (c ∷ s) = drop-drop a b s ∙ ap (λ n. drop n (c ∷ s)) same
  where
    same : suc (a + b) ≡ suc a + b
    same = omega arith

pub drop_all : (i : ℕ) (s : Bytes) → length s ≤ i → drop i s ≡ []
drop_all zero [] h = refl
drop_all (suc i) [] h = refl
drop_all zero (c ∷ s) h = absurd (omega arith)
drop_all (suc i) (c ∷ s) h = drop_all i s (omega arith)
