-- ===== src/Store/Edit.antt =====
-- store/store.go: Patch and Move.
pub mod Moved
pub mod Patched
use cogmemory.Base.{
  ℕ, zero, suc, ◌-◌, ◌+◌, ◌&&◌, Bool, true, false, List, [], ◌∷◌, ◌++◌, Option, none, some,
  if◌then◌else◌, leb, Bytes, str_eq, has_prefix, drop_prefix, cut, is_empty, length,
}
use cogmemory.FilePath.{slash}
use cogmemory.Store.Fs
use cogmemory.Store.Fs.{Fs, Node, file, denied, dir}
use cogmemory.Store.State.{
  MemoryStore, Error, Result, Done, ok, err, io, patch_not_found, patch_ambiguous,
  destination_exists, abs_path, stat, atomic_write, mkdir_fails, at_path,
}

-- strings.Count: the occurrences that do not overlap; `skip` bytes belong to the last one.
unfoldable pub count_from : ℕ → Bytes → Bytes → ℕ
unfolding has_prefix
count_from skip sub [] = 0
count_from (suc k) sub (c ∷ s) = count_from k sub s
count_from zero sub (c ∷ s) = elim (has_prefix (c ∷ s) sub) [
  | true ↦ suc (count_from (length sub - 1) sub s)
  | false ↦ count_from zero sub s
]

-- utf8.RuneCountInString, for valid UTF-8: the bytes that begin a character.
unfoldable rune_count : Bytes → ℕ
rune_count [] = 0
rune_count (c ∷ s) = (if leb 128 c && leb c 191 then 0 else 1) + rune_count s

unfoldable pub count : Bytes → Bytes → ℕ
unfolding count_from rune_count
count s sub = if is_empty sub then suc (rune_count s) else count_from zero sub s

abbrev spliced : Bytes → Bytes → Option (Bytes × Bytes) → Bytes
spliced s new none = s
spliced s new (some (before, after)) = before ++ (new ++ after)

-- strings.Replace with the limit 1
unfoldable pub replace_first : Bytes → Bytes → Bytes → Bytes
unfolding cut
replace_first s old new = spliced s new (cut s old)

abbrev pub patch_count : MemoryStore → Bytes → Bytes → Bytes → Bytes → ℕ → Done × MemoryStore
patch_count s abs content old new zero = (err patch_not_found, s)
patch_count s abs content old new (suc zero) = atomic_write s abs (replace_first content old new)
patch_count s abs content old new (suc (suc n)) = (err (patch_ambiguous (suc (suc n))), s)

-- os.OpenFile with O_RDWR and reading to the end: a missing file is an error.
abbrev pub must_read : Option Node → Result Bytes
must_read none = err io
must_read (some (file c t)) = ok c
must_read (some (denied t)) = err io
must_read (some dir) = err io

unfoldable pub patch : MemoryStore → Bytes → Bytes → Bytes → Done × MemoryStore
unfolding abs_path stat count replace_first atomic_write
patch s rel old new = at_path s (abs_path s rel) λ abs.
    at_path s (must_read (stat s abs))
      λ content. patch_count s abs content old new (count content old)

-- The name of an entry after `from` has become `to`.
abbrev pub renamed : Bytes → Bytes → Bytes → Bytes
renamed from to p =
    if str_eq p from
    then to
    else elim (drop_prefix p (from ++ (slash ∷ []))) [ none ↦ p | some rest ↦ to ++ (slash ∷ rest) ]

unfoldable pub rename_all : Bytes → Bytes → Fs → Fs
rename_all from to [] = []
rename_all from to ((p, n) ∷ fs) = (renamed from to p, n) ∷ rename_all from to fs

-- os.Rename onto a free name; a missing source, or one above its destination, is an error.
unfoldable pub rename : MemoryStore → Bytes → Bytes → Done × MemoryStore
unfolding stat rename_all has_prefix
rename s from to =
    if has_prefix to (from ++ (slash ∷ [])) then (err io, s) else elim (stat s from) [
      | none ↦ (err io, s)
      | some n ↦ (ok tt, record s { fs = rename_all from to s.fs })
    ]

abbrev pub if_free {ℓ} : {A : Type ℓ} → Option Node → A → A → A
if_free none free taken = free
if_free (some n) free taken = taken

-- The directories that MkdirAll makes are not kept.
unfoldable pub move : MemoryStore → Bytes → Bytes → Done × MemoryStore
unfolding abs_path stat mkdir_fails rename
move s from to = at_path s (abs_path s from) λ abs_from. at_path s (abs_path s to) λ abs_to.
    if_free (stat s abs_to) (if mkdir_fails s abs_to then (err io, s) else rename s abs_from abs_to)
      (err destination_exists, s)
