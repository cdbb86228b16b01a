-- ===== src/Store/State.antt =====
-- store/store.go: the store's state, its errors, and the resolution of relative paths.
use cogmemory.Base.{
  ◌||◌, ℕ, Bool, true, false, not, List, [], ◌∷◌, ◌++◌, Option, none, some, if◌then◌else◌, Bytes,
  str_eq, has_prefix, is_empty,
}
use cogmemory.FilePath.{is_abs, slash, dot_dot, clean, join_path}
use cogmemory.Store.Fs
use cogmemory.Store.Fs.{Fs, Node, file, denied, dir}

-- One constructor for each message that the store returns; `io` stands for an error of the system.
pub data Error : Type 0 where
  empty_path : Error
  path_traversal : Error
  io : Error
  section_not_found : Error
  obs_format : List Bytes → Error
  file_missing : Error
  empty_section : Error
  heading_not_found : Error
  patch_not_found : Error
  patch_ambiguous : ℕ → Error
  destination_exists : Error
  too_long : Error

pub data Result {ℓ} (A : Type ℓ) : Type ℓ where
  ok : A → Result A
  err : Error → Result A

infixl 10 ◌>>=◌
abbrev pub ◌>>=◌ {ℓ κ} : {A : Type ℓ} {B : Type κ} → Result A → (A → Result B) → Result B
ok a >>= f = f a
err e >>= f = err e

-- What a writing operation returns: success or an error, and the store afterwards.
abbrev pub Done : Type 0
Done = Result (Unit {0})

-- The files lie below `root`; `clock` is the time that a write stamps on its file.
pub record MemoryStore : Type 0 where
  pub root : Bytes
  pub fs : Fs
  pub clock : ℕ

abbrev is_not_dir : Option Node → Bool
is_not_dir none = false
is_not_dir (some dir) = false
is_not_dir (some (file c t)) = true
is_not_dir (some (denied t)) = true

-- New; `none` is an error. The directory that it makes is not kept, as none is that is empty.
unfoldable pub new_store : Bytes → Fs → ℕ → Option MemoryStore
unfolding is_abs Fs.stat Fs.blocked
new_store root fs clock =
    if not (is_abs root)
    then none
    else if is_not_dir (Fs.stat root fs) || Fs.blocked root fs
    then none
    else some (record { root = root; fs = fs; clock = clock })

-- absPath
unfoldable pub abs_path : MemoryStore → Bytes → Result Bytes
abs_path s rel =
    if is_empty rel
    then err empty_path
    else if has_prefix (clean rel) dot_dot
    then err path_traversal
    else let abs = join_path s.root (clean rel) in
      if not (has_prefix (abs ++ (slash ∷ [])) (s.root ++ (slash ∷ [])))
      then err path_traversal
      else ok abs

-- os.Stat; the root itself is a directory.
unfoldable pub stat : MemoryStore → Bytes → Option Node
stat s abs = if str_eq abs s.root then some dir else Fs.stat abs s.fs

-- os.Stat where os.IsNotExist tells a missing file from another error: a path below a file is no
-- missing file (ENOTDIR).
unfoldable pub stat_checked : MemoryStore → Bytes → Result (Option Node)
unfolding stat Fs.blocked
stat_checked s abs = elim (stat s abs) [
  | none ↦ if Fs.blocked abs s.fs then err io else ok none
  | some n ↦ ok (some n)
]

-- os.Open and reading to the end: `none` for a file that does not exist.
abbrev pub content_of : Option Node → Result (Option Bytes)
content_of none = ok none
content_of (some (file c t)) = ok (some c)
content_of (some (denied t)) = err io
content_of (some dir) = err io

unfoldable pub read_file : MemoryStore → Bytes → Result (Option Bytes)
unfolding stat_checked
read_file s abs = stat_checked s abs >>= content_of

abbrev pub put_file : MemoryStore → Bytes → Bytes → MemoryStore
put_file s abs content = record s { fs = Fs.put abs (file content s.clock) s.fs }

abbrev pub may_replace : Option Node → Bool
may_replace (some dir) = false
may_replace _ = true

-- atomicWrite: a temporary file beside the target, renamed over it. A directory is never replaced.
unfoldable pub atomic_write : MemoryStore → Bytes → Bytes → Done × MemoryStore
unfolding stat
atomic_write s abs content =
    if may_replace (stat s abs) then (ok tt, put_file s abs content) else (err io, s)

-- os.MkdirAll of the directory of `abs`.
unfoldable pub mkdir_fails : MemoryStore → Bytes → Bool
mkdir_fails s abs = Fs.blocked abs s.fs

-- Go on with an absolute path, or return the error and leave the store as it is.
abbrev pub at_path {ℓ} :
    {A : Type ℓ}
    → MemoryStore
    → Result Bytes
    → (Bytes → Result A × MemoryStore)
    → Result A × MemoryStore
at_path s (err e) k = (err e, s)
at_path s (ok abs) k = k abs

-- os.WriteFile semantics of `Write`
unfoldable pub write : MemoryStore → Bytes → Bytes → Done × MemoryStore
write s rel content =
    at_path s (abs_path s rel)
      λ abs. if mkdir_fails s abs then (err io, s) else atomic_write s abs content
