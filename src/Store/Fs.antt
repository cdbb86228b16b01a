-- ===== src/Store/Fs.antt =====
-- The file system below the store: the files by absolute path, with content and modification time.
use cogmemory.Base.{
  ℕ, Bool, true, false, List, [], ◌∷◌, ◌++◌, Option, none, some, ◌≡◌, refl, arith, if◌then◌else◌,
  Bytes, str_eq, str_eq_iff, has_prefix, any,
}

-- `denied` is an existing file that cannot be opened, with its time; `dir` is a directory.
pub data Node : Type 0 where
  file : Bytes → ℕ → Node
  denied : ℕ → Node
  dir : Node

abbrev pub Fs : Type 0
Fs = List (Bytes × Node)

unfoldable pub lookup : Bytes → Fs → Option Node
lookup p [] = none
lookup p ((q, n) ∷ fs) = if str_eq q p then some n else lookup p fs

unfoldable pub put : Bytes → Node → Fs → Fs
put p n [] = (p, n) ∷ []
put p n ((q, m) ∷ fs) = if str_eq q p then (p, n) ∷ fs else (q, m) ∷ put p n fs

unfoldable pub remove : Bytes → Fs → Fs
remove p [] = []
remove p ((q, m) ∷ fs) = let rest = remove p fs in if str_eq q p then rest else (q, m) ∷ rest

-- A directory is there as soon as something lies below it.
unfoldable pub is_dir : Bytes → Fs → Bool
unfolding has_prefix
is_dir p fs = any (λ e. has_prefix e.0 (p ++ (b'/' ∷ []))) fs

-- What os.Stat finds.
unfoldable pub stat : Bytes → Fs → Option Node
unfolding lookup is_dir
stat p fs = elim (lookup p fs) [ some n ↦ some n | none ↦ if is_dir p fs then some dir else none ]

abbrev pub is_dir_node : Node → Bool
is_dir_node dir = true
is_dir_node _ = false

-- os.MkdirAll of the parent fails exactly where an ancestor is a file.
unfoldable pub blocked : Bytes → Fs → Bool
unfolding has_prefix
blocked p fs = any (λ e. if is_dir_node e.1 then false else has_prefix p (e.0 ++ (b'/' ∷ []))) fs

pub lookup-put :
    (p q : Bytes) (n : Node) (fs : Fs)
    → lookup q (put p n fs) ≡ (if str_eq p q then some n else lookup q fs)
unfolding lookup put
lookup-put p q n [] = refl
lookup-put p q n ((r, m) ∷ fs) =
    ground (arith, str_eq_iff p q, str_eq_iff r p, str_eq_iff r q, lookup-put p q n fs)

pub lookup-remove :
    (p q : Bytes) (fs : Fs) → lookup q (remove p fs) ≡ (if str_eq p q then none else lookup q fs)
unfolding lookup remove
lookup-remove p q [] = ground arith
lookup-remove p q ((r, m) ∷ fs) =
    ground (arith, str_eq_iff p q, str_eq_iff r p, str_eq_iff r q, lookup-remove p q fs)
