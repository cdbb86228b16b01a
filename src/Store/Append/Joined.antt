-- ===== src/Store/Append/Joined.antt =====
-- What stands between the old content and the text of an append, and at its end.
use mathlib.Core.List.{reverse, reverse-append, reverse-reverse}
use cogmemory.Base.{
  ℕ, true, false, [], ◌∷◌, ◌++◌, ◌≡◌, ◌≢◌, ◌⊎◌, refl, ap, sym, ◌∙◌, arith, Bytes, ◌==◌, has_suffix,
  has_prefix, has_prefix-append, has_prefix_sound, append_assoc, append-nil, Bool-cases, inl, inr,
  last_or,
}
use cogmemory.Store.Lines.{newline}
use cogmemory.Store.Append.{separator, trailing}

-- The text ends in a newline, or begins with one.
abbrev EndsInNewline : Bytes → Type 0
EndsInNewline s = (before : Bytes) × (s ≡ before ++ (newline ∷ []))

abbrev BeginsWithNewline : Bytes → Type 0
BeginsWithNewline s = (rest : Bytes) × (s ≡ newline ∷ rest)

-- `tail` is the text, with a newline behind it if it does not end in one.
abbrev pub IsEnded : Bytes → Bytes → Type 0
IsEnded text tail =
    (EndsInNewline text × (tail ≡ text))
    ⊎ ((¬ EndsInNewline text) × (tail ≡ text ++ (newline ∷ [])))

-- `tail` directly behind the old content, or behind a newline, for a text that `tail` begins with.
abbrev pub IsJoined : Bytes → Bytes → Bytes → Bytes → Type 0
IsJoined old text tail whole =
    (((old ≡ []) ⊎ (EndsInNewline old ⊎ BeginsWithNewline text)) × (whole ≡ old ++ tail))
    ⊎ ((old ≢ [])
        × (¬ EndsInNewline old)
        × (¬ BeginsWithNewline text)
        × (whole ≡ old ++ (newline ∷ tail)))

pub suffix-append : (x t p : Bytes) → has_suffix t p ≡ true → has_suffix (x ++ t) p ≡ true
unfolding has_suffix
suffix-append x t p h =
    let (r, e) = has_prefix_sound (reverse t) (reverse p) h in
    rw (reverse-append x t, e, append_assoc (reverse p) r (reverse x))
      (has_prefix-append (reverse p) (r ++ reverse x))

suffix_newline : (s : Bytes) → has_suffix s (newline ∷ []) ≡ true → EndsInNewline s
unfolding has_suffix
suffix_newline s h =
    let (r, e) = has_prefix_sound (reverse s) (newline ∷ []) h in
    (reverse r, sym (reverse-reverse s) ∙ ap reverse e ∙ reverse-append (newline ∷ []) r)

no_suffix : (s : Bytes) → has_suffix s (newline ∷ []) ≡ false → ¬ EndsInNewline s
unfolding has_suffix has_prefix
no_suffix s h (before, e) = cc (
  h,
  ap (λ t. has_suffix t (newline ∷ [])) e,
  suffix-append before (newline ∷ []) (newline ∷ []) refl,
)

pub trailing-IsEnded : (text : Bytes) → IsEnded text (text ++ trailing text)
unfolding trailing
trailing-IsEnded text = elim (Bool-cases (has_suffix text (newline ∷ []))) [
  | inl h ↦ inl (suffix_newline text h, rw h (append-nil text))
  | inr h ↦ inr (no_suffix text h, rw h refl)
]

last-append : (s : Bytes) → last_or newline (s ++ (newline ∷ [])) ≡ newline
last-append [] = refl
last-append (c ∷ []) = refl
last-append (c ∷ d ∷ s) = last-append (d ∷ s)

last_newline : (c : ℕ) (s : Bytes) → (last_or c s == newline) ≡ true → EndsInNewline (c ∷ s)
last_newline c [] h = ([], ap (λ d. d ∷ []) (ground arith))
last_newline c (d ∷ s) h = let (before, e) = last_newline d s h in (c ∷ before, ap (λ t. c ∷ t) e)

begins : (text : Bytes) → has_prefix text (newline ∷ []) ≡ true → BeginsWithNewline text
begins text h = has_prefix_sound text (newline ∷ []) h

begins_not : (text : Bytes) → has_prefix text (newline ∷ []) ≡ false → ¬ BeginsWithNewline text
begins_not text h (rest, e) =
    cc (h, ap (λ t. has_prefix t (newline ∷ [])) e, has_prefix-append (newline ∷ []) rest)

ends_not : (c : ℕ) (s : Bytes) → (last_or c s == newline) ≡ false → ¬ EndsInNewline (c ∷ s)
ends_not c s h (before, e) =
    cc (h, ap (λ t. last_or newline t == newline) e, ap (λ n. n == newline) (last-append before))

pub separator-IsJoined :
    (old text tail : Bytes) → IsJoined old text tail (old ++ (separator old text ++ tail))
unfolding separator
separator-IsJoined [] text tail = inl (inl refl, refl)
separator-IsJoined (c ∷ s) text tail = elim (Bool-cases (last_or c s == newline)) [
  | inl e ↦ rw e (inl (inr (inl (last_newline c s e)), refl))
  | inr e ↦ elim (Bool-cases (has_prefix text (newline ∷ []))) [
    | inl b ↦ rw (e, b) (inl (inr (inr (begins text b)), refl))
    | inr b ↦ rw (e, b) (inr (λ n. cc, ends_not c s e, begins_not text b, refl))
  ]
]
