-- ===== src/Base/Text.antt =====
-- What the program uses of Go's `strings` package, over ASCII bytes.
use Prim.Native.Nat.{ℕ, ◌+◌}
use mathlib.Core.Path.{◌≡◌, refl, ap}
use mathlib.Core.Logic.{◌≢◌}
use mathlib.Core.Bool.{Bool, ◌&&◌, ◌||◌}
use mathlib.Core.Option.{Option, none, some}
use mathlib.Core.List.{List, [], ◌∷◌, ◌++◌, reverse}
use native.Mathlib.Omega.{arith}
use cogmemory.Base.Tests.{◌==◌, leb, if◌then◌else◌}
use cogmemory.Base.Lists.{length, any}
use cogmemory.Base.Compare.{
  Bytes, str_eq, drop_prefix, has_prefix, is_some, drop_prefix_sound, drop_prefix-append,
}

-- strings.HasSuffix
unfoldable pub has_suffix : Bytes → Bytes → Bool
has_suffix s p = has_prefix (reverse s) (reverse p)

-- strings.TrimPrefix
unfoldable pub trim_prefix : Bytes → Bytes → Bytes
trim_prefix s p = elim (drop_prefix s p) [ none ↦ s | some r ↦ r ]

-- strings.TrimSuffix
unfoldable pub trim_suffix : Bytes → Bytes → Bytes
trim_suffix s p = elim (drop_prefix (reverse s) (reverse p)) [ none ↦ s | some r ↦ reverse r ]

abbrev pub push_left : ℕ → Option (Bytes × Bytes) → Option (Bytes × Bytes)
push_left c none = none
push_left c (some (a, b)) = some (c ∷ a, b)

-- An occurrence at the start comes before any later one.
abbrev cut_here : Option Bytes → Option (Bytes × Bytes) → Option (Bytes × Bytes)
cut_here none later = later
cut_here (some r) later = some ([], r)

-- strings.Cut: what stands before and after the first occurrence of `sub`.
unfoldable pub cut : Bytes → Bytes → Option (Bytes × Bytes)
cut [] sub = cut_here (drop_prefix [] sub) none
cut (c ∷ s) sub = cut_here (drop_prefix (c ∷ s) sub) (push_left c (cut s sub))

-- strings.Index, with `none` for -1
unfoldable pub index : Bytes → Bytes → Option ℕ
unfolding cut
index s sub = elim (cut s sub) [ none ↦ none | some (a, b) ↦ some (length a) ]

-- strings.Contains
unfoldable pub contains : Bytes → Bytes → Bool
unfolding cut
contains s sub = is_some (cut s sub)

unfoldable pub has_byte : ℕ → Bytes → Bool
has_byte b s = any (λ c. c == b) s

abbrev pub cons_head : ℕ → List Bytes → List Bytes
cons_head c [] = (c ∷ []) ∷ []
cons_head c (l ∷ ls) = (c ∷ l) ∷ ls

-- strings.Split at a separator of one byte
unfoldable pub split : ℕ → Bytes → List Bytes
split b [] = [] ∷ []
split b (c ∷ s) = if c == b then [] ∷ split b s else cons_head c (split b s)

-- strings.Join with a separator of one byte
unfoldable pub join : ℕ → List Bytes → Bytes
join b [] = []
join b (l ∷ []) = l
join b (l ∷ m ∷ ls) = l ++ (b ∷ join b (m ∷ ls))

-- unicode.IsSpace on ASCII
unfoldable pub is_space : ℕ → Bool
is_space c = c == b' ' || (leb 9 c && leb c 13)

unfoldable pub trim_class_left : (ℕ → Bool) → Bytes → Bytes
trim_class_left p [] = []
trim_class_left p (c ∷ s) = if p c then trim_class_left p s else c ∷ s

unfoldable pub trim_left : Bytes → Bytes
unfolding is_space trim_class_left
trim_left s = trim_class_left is_space s

unfoldable pub trim_right : Bytes → Bytes
unfolding trim_left
trim_right s = reverse (trim_left (reverse s))

-- strings.TrimSpace
unfoldable pub trim_space : Bytes → Bytes
unfolding trim_left trim_right
trim_space s = trim_right (trim_left s)

-- strings.Trim with a cut set of one byte
unfoldable pub trim_byte : ℕ → Bytes → Bytes
unfolding trim_class_left
trim_byte b s = reverse (trim_class_left (λ c. c == b) (reverse (trim_class_left (λ c. c == b) s)))

unfoldable pub lower_byte : ℕ → ℕ
lower_byte c = if leb b'A' c && leb c b'Z' then c + 32 else c

-- strings.ToLower
unfoldable pub to_lower : Bytes → Bytes
unfolding lower_byte
to_lower [] = []
to_lower (c ∷ s) = lower_byte c ∷ to_lower s

-- strings.EqualFold
unfoldable pub equal_fold : Bytes → Bytes → Bool
unfolding to_lower
equal_fold s t = str_eq (to_lower s) (to_lower t)

pub push_left_sound :
    (c : ℕ) (o : Option (Bytes × Bytes)) (a b : Bytes)
    → push_left c o ≡ some (a, b)
    → (a' : Bytes) × (o ≡ some (a', b)) × (a ≡ c ∷ a')
push_left_sound c none a b h = cc
push_left_sound c (some (a', b')) a b h = (a', ground arith, ground arith)

-- What `cut` returns spells the text.
pub cut_sound : (s sub a b : Bytes) → cut s sub ≡ some (a, b) → s ≡ a ++ (sub ++ b)
unfolding cut
cut_sound [] sub a b h = go (drop_prefix [] sub) refl h
  where
    go :
        (o : Option Bytes)
        → drop_prefix [] sub ≡ o
        → cut_here o none ≡ some (a, b)
        → [] ≡ a ++ (sub ++ b)
    go none e k = cc
    go (some r) e k = ground (arith, drop_prefix_sound [] sub r)
cut_sound (c ∷ s) sub a b h = go (λ a' k. cut_sound s sub a' b k) (drop_prefix (c ∷ s) sub) refl h
  where
    go :
        ((a' : Bytes) → cut s sub ≡ some (a', b) → s ≡ a' ++ (sub ++ b))
        → (o : Option Bytes) → drop_prefix (c ∷ s) sub ≡ o
        → cut_here o (push_left c (cut s sub)) ≡ some (a, b)
        → c ∷ s ≡ a ++ (sub ++ b)
    go ih none e k =
        let (a', k', ea) = push_left_sound c (cut s sub) a b k in
        cc (ih a' k', ap (λ (x : Bytes). x ++ (sub ++ b)) ea)
    go ih (some r) e k = ground (arith, drop_prefix_sound (c ∷ s) sub r)

-- If nothing is cut, the text has no occurrence.
pub cut_complete : (s sub a b : Bytes) → cut s sub ≡ none → s ≢ a ++ (sub ++ b)
unfolding cut
cut_complete [] sub [] b h e = cc (h, e, drop_prefix-append sub b)
cut_complete [] sub (x ∷ a) b h e = cc
cut_complete (c ∷ s) sub [] b h e =
    ground (arith, ap (λ (x : Bytes). drop_prefix x sub) e, drop_prefix-append sub b)
cut_complete (c ∷ s) sub (x ∷ a) b h e = cut_complete s sub a b (ground arith) (ground arith)

pub split-ne-nil : (b : ℕ) (s : Bytes) → split b s ≢ []
unfolding split
split-ne-nil b [] = cc
split-ne-nil b (c ∷ s) = ground arith

join-cons_head : (b c : ℕ) (ls : List Bytes) → join b (cons_head c ls) ≡ c ∷ join b ls
unfolding join
join-cons_head b c [] = refl
join-cons_head b c (l ∷ []) = refl
join-cons_head b c (l ∷ m ∷ ls) = refl

join-nil_cons : (b : ℕ) (ls : List Bytes) → ls ≢ [] → join b ([] ∷ ls) ≡ b ∷ join b ls
unfolding join
join-nil_cons b [] h = absurd (h refl)
join-nil_cons b (l ∷ ls) h = refl

-- Joining the lines of a text gives the text back.
pub join-split : (b : ℕ) (s : Bytes) → join b (split b s) ≡ s
unfolding split
join-split b [] = unfold join in refl
join-split b (c ∷ s) = ground (
  arith,
  join-nil_cons b (split b s) (split-ne-nil b s),
  join-cons_head b c (split b s),
  join-split b s,
)
