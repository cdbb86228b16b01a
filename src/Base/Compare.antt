-- ===== src/Base/Compare.antt =====
-- Texts as lists of bytes: equality, the lexicographic order of Go's `<` on strings, prefixes.
use Prim.Native.Nat.{ℕ}
use Prim.Native.Char.{code}
use Prim.Native.String.{String}
use mathlib.Core.Path.{◌≡◌, refl, ap}
use mathlib.Core.Logic.{◌↔◌}
use mathlib.Core.Bool.{Bool, true, false}
use mathlib.Core.Option.{Option, none, some}
use mathlib.Core.List.{List, [], ◌∷◌, ◌++◌}
use native.Mathlib.Omega.{arith}
use cogmemory.Base.Tests.{◌==◌, ltb, if◌then◌else◌}

abbrev pub Bytes : Type 0
Bytes = List ℕ

-- The bytes of an ASCII literal.
abbrev pub codes : String → Bytes
codes String.[] = []
codes (String.◌∷◌ c s) = code c ∷ codes s

unfoldable pub str_eq : Bytes → Bytes → Bool
str_eq [] [] = true
str_eq (a ∷ s) (b ∷ t) = if a == b then str_eq s t else false
str_eq _ _ = false

unfoldable pub str_lt : Bytes → Bytes → Bool
str_lt s [] = false
str_lt [] (b ∷ t) = true
str_lt (a ∷ s) (b ∷ t) = if a == b then str_lt s t else ltb a b

-- What follows the prefix `p`, if `s` begins with it.
unfoldable pub drop_prefix : Bytes → Bytes → Option Bytes
drop_prefix s [] = some s
drop_prefix [] (b ∷ p) = none
drop_prefix (a ∷ s) (b ∷ p) = if a == b then drop_prefix s p else none

abbrev pub is_some {ℓ} : {A : Type ℓ} → Option A → Bool
is_some none = false
is_some (some a) = true

-- strings.HasPrefix
unfoldable pub has_prefix : Bytes → Bytes → Bool
unfolding drop_prefix
has_prefix s p = is_some (drop_prefix s p)

pub str_eq_of_eq : (s : Bytes) → str_eq s s ≡ true
unfolding str_eq
str_eq_of_eq [] = refl
str_eq_of_eq (a ∷ s) = ground (arith, str_eq_of_eq s)

pub str_eq→eq : (s t : Bytes) → str_eq s t ≡ true → s ≡ t
unfolding str_eq
str_eq→eq [] [] h = refl
str_eq→eq [] (b ∷ t) h = cc
str_eq→eq (a ∷ s) [] h = cc
str_eq→eq (a ∷ s) (b ∷ t) h = ground (arith, str_eq→eq s t)

pub str_eq_iff : (s t : Bytes) → (str_eq s t ≡ true) ↔ (s ≡ t)
str_eq_iff s t = (str_eq→eq s t, λ e. subst_eq e)
  where
    subst_eq : s ≡ t → str_eq s t ≡ true
    subst_eq e = cc (str_eq_of_eq s, ap (str_eq s) e)

pub str_lt_irrefl : (s : Bytes) → str_lt s s ≡ false
unfolding str_lt
str_lt_irrefl [] = refl
str_lt_irrefl (a ∷ s) = ground (arith, str_lt_irrefl s)

pub str_lt_asymm : (s t : Bytes) → str_lt s t ≡ true → str_lt t s ≡ false
unfolding str_lt
str_lt_asymm s [] h = cc
str_lt_asymm [] (b ∷ t) h = refl
str_lt_asymm (a ∷ s) (b ∷ t) h = ground (arith, str_lt_asymm s t)

-- "not below" is transitive, so the order is a strict weak order.
pub str_lt_trans : (s t u : Bytes) → str_lt t s ≡ false → str_lt u t ≡ false → str_lt u s ≡ false
unfolding str_lt
str_lt_trans [] t u h k = refl
str_lt_trans (a ∷ s) [] u h k = cc
str_lt_trans (a ∷ s) (b ∷ t) [] h k = cc
str_lt_trans (a ∷ s) (b ∷ t) (c ∷ u) h k = ground (arith, str_lt_trans s t u)

-- Texts of which neither is below the other are equal.
pub eq_of_not_lt : (s t : Bytes) → str_lt s t ≡ false → str_lt t s ≡ false → s ≡ t
unfolding str_lt
eq_of_not_lt [] [] h k = refl
eq_of_not_lt [] (b ∷ t) h k = cc
eq_of_not_lt (a ∷ s) [] h k = cc
eq_of_not_lt (a ∷ s) (b ∷ t) h k = ground (arith, eq_of_not_lt s t)

pub drop_prefix_sound : (s p r : Bytes) → drop_prefix s p ≡ some r → s ≡ p ++ r
unfolding drop_prefix
drop_prefix_sound s [] r h = ground arith
drop_prefix_sound [] (b ∷ p) r h = cc
drop_prefix_sound (a ∷ s) (b ∷ p) r h = ground (arith, drop_prefix_sound s p r)

pub drop_prefix-append : (p r : Bytes) → drop_prefix (p ++ r) p ≡ some r
unfolding drop_prefix
drop_prefix-append [] r = refl
drop_prefix-append (b ∷ p) r = ground (arith, drop_prefix-append p r)

pub has_prefix-append : (p r : Bytes) → has_prefix (p ++ r) p ≡ true
unfolding has_prefix
has_prefix-append p r = ground (arith, drop_prefix-append p r)

pub has_prefix_sound : (s p : Bytes) → has_prefix s p ≡ true → (r : Bytes) × (s ≡ p ++ r)
unfolding has_prefix
has_prefix_sound s p h = go (drop_prefix s p) refl
  where
    go : (o : Option Bytes) → drop_prefix s p ≡ o → (r : Bytes) × (s ≡ p ++ r)
    go none e = ground arith
    go (some r) e = (r, drop_prefix_sound s p r e)
