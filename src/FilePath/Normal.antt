-- ===== src/FilePath/Normal.antt =====
-- A cleaned path is in normal form: a rooted one has no `..` component.
use mathlib.Core.List.{
  foldl, foldl-append, reverse, reverse_aux, reverse_aux-append, reverse-reverse,
}
use cogmemory.Base.{
  ℕ, Bool, true, false, List, [], ◌∷◌, ◌++◌, ◌≡◌, ◌≢◌, refl, arith, ◌==◌, Bytes, str_eq, str_eq_iff,
  split, join, All, Bool-cases, inl, inr, is_empty, cons_head, ◌||◌, ap, ◌∙◌, append_assoc,
}
use cogmemory.FilePath.{slash, dot, dot_dot, pop, clean_step, clean_parts}

abbrev pub Lacks : ℕ → Bytes → Type 0
Lacks b = All (λ c. c ≢ b)

-- A component that names something below its parent.
pub record IsPlain (p : Bytes) : Type 0 where
  pub ne_nil : p ≢ []
  pub ne_dot : p ≢ dot
  pub ne_dot_dot : p ≢ dot_dot
  pub no_slash : Lacks slash p

All-reverse_aux {ℓ κ} :
    {A : Type ℓ} (P : A → Type κ) (xs ys : List A) → All P xs → All P ys → All P (reverse_aux xs ys)
All-reverse_aux P [] ys h k = k
All-reverse_aux P (x ∷ xs) ys h k = All-reverse_aux P xs (x ∷ ys) h.1 (h.0, k)

pub All-reverse {ℓ κ} : {A : Type ℓ} (P : A → Type κ) (xs : List A) → All P xs → All P (reverse xs)
All-reverse P xs h = All-reverse_aux P xs [] h tt

All-cons_head :
    (b c : ℕ) (ls : List Bytes) → c ≢ b → All (Lacks b) ls → All (Lacks b) (cons_head c ls)
All-cons_head b c [] n h = ((n, tt), tt)
All-cons_head b c (l ∷ ls) n h = ((n, h.0), h.1)

-- No part of a split holds the separator.
pub split-Lacks : (b : ℕ) (s : Bytes) → All (Lacks b) (split b s)
unfolding split
split-Lacks b [] = (tt, tt)
split-Lacks b (c ∷ s) = elim (Bool-cases (c == b)) [
  | inl e ↦ rw e (tt, split-Lacks b s)
  | inr e ↦ rw e (All-cons_head b c (split b s) (ground arith) (split-Lacks b s))
]

pub split-append : (b : ℕ) (p s : Bytes) → Lacks b p → split b (p ++ (b ∷ s)) ≡ p ∷ split b s
unfolding split
split-append b [] s h = ground arith
split-append b (c ∷ p) s h = ground (arith, split-append b p s h.1)

split-Lacks_self : (b : ℕ) (p : Bytes) → Lacks b p → split b p ≡ p ∷ []
unfolding split
split-Lacks_self b [] h = refl
split-Lacks_self b (c ∷ p) h = ground (arith, split-Lacks_self b p h.1)

-- Splitting a join gives the parts back.
pub split-join :
    (b : ℕ) (p : Bytes) (ps : List Bytes)
    → All (Lacks b) (p ∷ ps)
    → split b (join b (p ∷ ps)) ≡ p ∷ ps
unfolding join
split-join b p [] h = split-Lacks_self b p h.0
split-join b p (q ∷ ps) h =
    split-append b p (join b (q ∷ ps)) h.0 ∙ ap (◌∷◌ p) (split-join b q ps h.1)

pop-IsPlain : (kept : List Bytes) → All IsPlain kept → All IsPlain (pop true kept)
unfolding pop
pop-IsPlain [] h = tt
pop-IsPlain (top ∷ rest) h = elim (Bool-cases (str_eq top dot_dot)) [
  | inl e ↦ absurd (h.0.ne_dot_dot ((str_eq_iff top dot_dot).0 e))
  | inr e ↦ rw e h.1
]

not_empty : (p : Bytes) → is_empty p ≡ false → p ≢ []
not_empty [] h = cc
not_empty (c ∷ p) h = cc

clean_step-IsPlain :
    (kept : List Bytes) (part : Bytes)
    → Lacks slash part
    → All IsPlain kept
    → All IsPlain (clean_step true kept part)
unfolding clean_step
clean_step-IsPlain kept part l h = elim (Bool-cases (is_empty part || str_eq part dot)) [
  | inl skip ↦ rw skip h
  | inr named ↦ rw named (elim (Bool-cases (str_eq part dot_dot)) [
    | inl up ↦ rw up (pop-IsPlain kept h)
    | inr e ↦ rw e (
      record {
        ne_nil = not_empty part (ground arith);
        ne_dot = ground (arith, str_eq_iff part dot);
        ne_dot_dot = ground (arith, str_eq_iff part dot_dot);
        no_slash = l;
      },
      h,
    )
  ])
]

foldl-IsPlain :
    (parts kept : List Bytes)
    → All (Lacks slash) parts
    → All IsPlain kept
    → All IsPlain (foldl (clean_step true) kept parts)
foldl-IsPlain [] kept l h = h
foldl-IsPlain (p ∷ parts) kept l h =
    foldl-IsPlain parts (clean_step true kept p) l.1 (clean_step-IsPlain kept p l.0 h)

-- The components of a rooted path, once cleaned, are plain.
pub clean_parts-IsPlain :
    (parts : List Bytes) → All (Lacks slash) parts → All IsPlain (clean_parts true parts)
unfolding clean_parts
clean_parts-IsPlain parts l =
    All-reverse IsPlain (foldl (clean_step true) [] parts) (foldl-IsPlain parts [] l tt)

is_empty_of_ne : (p : Bytes) → p ≢ [] → is_empty p ≡ false
is_empty_of_ne [] h = absurd (h refl)
is_empty_of_ne (c ∷ p) h = refl

clean_step_plain :
    (rooted : Bool) (kept : List Bytes) (p : Bytes)
    → IsPlain p
    → clean_step rooted kept p ≡ p ∷ kept
unfolding clean_step
clean_step_plain rooted kept p h = ground (
  arith,
  is_empty_of_ne p h.ne_nil,
  str_eq_iff p dot,
  str_eq_iff p dot_dot,
  h.ne_dot,
  h.ne_dot_dot,
)

foldl_plain :
    (rooted : Bool) (parts kept : List Bytes)
    → All IsPlain parts
    → foldl (clean_step rooted) kept parts ≡ reverse_aux parts kept
foldl_plain rooted [] kept h = refl
foldl_plain rooted (p ∷ parts) kept h =
    rw (clean_step_plain rooted kept p h.0) (foldl_plain rooted parts (p ∷ kept) h.1)

-- Plain components are in normal form already.
pub clean_parts_plain :
    (rooted : Bool) (parts : List Bytes) → All IsPlain parts → clean_parts rooted parts ≡ parts
unfolding clean_parts
clean_parts_plain rooted parts h = rw (foldl_plain rooted parts [] h) (reverse-reverse parts)

pub plain-Lacks : (parts : List Bytes) → All IsPlain parts → All (Lacks slash) parts
plain-Lacks [] h = tt
plain-Lacks (p ∷ ps) h = (h.0.no_slash, plain-Lacks ps h.1)

step_up : (d : Bytes) (kept : List Bytes) → IsPlain d → clean_step false (d ∷ kept) dot_dot ≡ kept
unfolding clean_step pop str_eq
step_up d kept h = ground (arith, str_eq_iff d dot_dot, h.ne_dot_dot)

-- `a/x/../b` and `a/b` have the same components, once cleaned.
pub clean_parts_up :
    (before : List Bytes) (d : Bytes) (after : List Bytes)
    → All IsPlain before
    → IsPlain d
    → All IsPlain after
    → clean_parts false (before ++ (d ∷ dot_dot ∷ after)) ≡ before ++ after
unfolding clean_parts
clean_parts_up before d after hb hd ha =
    rw
      (
        foldl-append,
        foldl_plain false before [] hb,
        clean_step_plain false (reverse_aux before []) d hd,
      )
      (rw (step_up d (reverse_aux before []) hd) (
        rw (foldl_plain false after (reverse_aux before []) ha)
          (rw (← reverse_aux-append before after []) (reverse-reverse (before ++ after)))))

pub split-join-append :
    (b : ℕ) (p : Bytes) (ps : List Bytes) (s : Bytes)
    → All (Lacks b) (p ∷ ps)
    → split b (join b (p ∷ ps) ++ (b ∷ s)) ≡ (p ∷ ps) ++ split b s
unfolding join
split-join-append b p [] s h = split-append b p s h.0
split-join-append b p (q ∷ ps) s h = rw append_assoc (
    split-append b p (join b (q ∷ ps) ++ (b ∷ s)) h.0 ∙ ap (◌∷◌ p) (split-join-append b q ps s h.1))
