-- ===== src/Tests/Stores.antt =====
-- The theorems on the store.
use cogmemory.Base.{
  true, false, [], ◌∷◌, ◌++◌, ◌≡◌, refl, Bytes, codes, none, some, ◌||◌, str_eq, pos,
}
use cogmemory.FilePath.{clean, join_path, is_abs}
use cogmemory.Store.Fs.{Fs, file}
use cogmemory.Store.Fs
use cogmemory.Store.Append
use cogmemory.Base
use cogmemory.Store.State
use cogmemory.Store.State.{MemoryStore, ok, abs_path, write, mkdir_fails}
use cogmemory.Store.Paths.{IsConfined, abs_path-IsConfined}
use cogmemory.Store.Written.{IsWritten, read-write}
use cogmemory.Base.{trim_space}
use cogmemory.Store.Actions.{is_fence_line, visible, quiet}
use cogmemory.Store.Actions.Fences.{IsInert, fence_hides}
use cogmemory.Store.Counts.{count_actions}
use cogmemory.Store.Counts.Agreement.{Agree, count_actions-Agree}
use cogmemory.Store.Append.{append, existing_of}
use cogmemory.Store.Append.Appended.{IsAppended, append_content}
use cogmemory.Store.Edit.{patch, move}
use cogmemory.Store.Edit.Moved.{IsMoved, move_file}
use cogmemory.Store.Edit.Patched.{Patched, patch_exact}
use cogmemory.Store.Files.{read}
use cogmemory.Tests.Fixtures.{memory}

path_of_a : abs_path memory (codes "b/../a.md") ≡ ok (codes "/m/a.md")
unfolding abs_path join_path clean str_eq
path_of_a = refl

path_of_c : abs_path memory (codes "c.md") ≡ ok (codes "/m/c.md")
unfolding abs_path join_path clean str_eq
path_of_c = refl

file_a : State.stat memory (codes "/m/a.md") ≡ some (file (codes "one two") 5)
unfolding State.stat str_eq Fs.stat
file_a = refl

no_file_c : State.stat memory (codes "/m/c.md") ≡ none
unfolding State.stat str_eq Fs.stat
no_file_c = refl

room_for_c : mkdir_fails memory (codes "/m/c.md") ≡ false
unfolding mkdir_fails Fs.blocked
room_for_c = refl

abs_path-IsConfined_example : IsConfined (codes "/m") (codes "/m/a.md")
unfolding is_abs
abs_path-IsConfined_example = abs_path-IsConfined memory (codes "b/../a.md") refl path_of_a

written : (write memory (codes "b/../a.md") (codes "new")).0 ≡ ok tt
unfolding write abs_path mkdir_fails str_eq Base.has_prefix clean join_path Fs.blocked
    State.atomic_write Fs.stat
written = refl

not_special :
    (str_eq (codes "b/../a.md") (codes "L0_INDEX") || str_eq (codes "b/../a.md") (codes "LIST"))
    ≡ false
unfolding str_eq
not_special = refl

read-write_example :
    (read (write memory (codes "b/../a.md") (codes "new")).1 (codes "b/../a.md") [] (pos 0) (pos 0)
      ≡ ok (codes "new"))
    × IsWritten memory
        (codes "/m/a.md")
        (codes "new")
        (write memory (codes "b/../a.md") (codes "new")).1
read-write_example =
    read-write memory (codes "b/../a.md") (codes "/m/a.md") (codes "new") not_special path_of_a
      written

held_a : existing_of (State.stat memory (codes "/m/a.md")) ≡ ok (codes "one two")
unfolding State.stat str_eq Fs.stat
held_a = refl

appended : (append memory (codes "b/../a.md") (codes "end")).0 ≡ ok tt
unfolding append abs_path mkdir_fails str_eq Base.has_prefix clean join_path Append.is_obs_path
    Fs.blocked Fs.stat Append.append_end Append.separator State.atomic_write
appended = refl

append_content_example :
    IsAppended memory
      (codes "b/../a.md")
      (codes "/m/a.md")
      (codes "end")
      (codes "one two")
      (append memory (codes "b/../a.md") (codes "end")).1
append_content_example =
    append_content memory (codes "b/../a.md") (codes "/m/a.md") (codes "end") (codes "one two")
      path_of_a held_a appended

patch_exact_example :
    Patched memory
      (codes "/m/a.md")
      (codes "one two")
      (codes "two")
      (codes "2")
      (patch memory (codes "b/../a.md") (codes "two") (codes "2"))
patch_exact_example =
    patch_exact memory (codes "b/../a.md") (codes "/m/a.md") (codes "one two") 5 b't' (codes "wo")
      (codes "2") path_of_a file_a

move_file_example :
    ((move memory (codes "b/../a.md") (codes "c.md")).0 ≡ ok tt)
    × IsMoved
        (codes "/m/a.md")
        (codes "/m/c.md")
        (codes "one two")
        5
        memory.fs
        (move memory (codes "b/../a.md") (codes "c.md")).1.fs
move_file_example =
    move_file memory (codes "b/../a.md") (codes "c.md") (codes "/m/a.md") (codes "/m/c.md")
      (codes "one two") 5 path_of_a path_of_c file_a no_file_c room_for_c

counted : count_actions memory (codes "i.md") [] ≡ ok (1, 1)
unfolding count_actions abs_path str_eq clean join_path Fs.stat
counted = refl

count_actions-Agree_example : Agree memory (codes "i.md") (codes "d") []
count_actions-Agree_example = count_actions-Agree memory (codes "i.md") (codes "d") [] 1 1 counted

fence_line : is_fence_line (trim_space (codes "```go")) ≡ true
unfolding is_fence_line trim_space
fence_line = refl

item_line : IsInert (codes "- [ ] hidden")
unfolding is_fence_line trim_space
item_line = record { no_fence = refl; no_comment = refl }

fence_hides_example :
    visible quiet 0 (codes "```go" ∷ codes "- [ ] hidden" ∷ codes "```go" ∷ codes "- [ ] seen" ∷ [])
    ≡ visible quiet 3 (codes "- [ ] seen" ∷ [])
fence_hides_example =
    fence_hides 0 (codes "```go") (codes "```go") (codes "- [ ] hidden" ∷ [])
      (codes "- [ ] seen" ∷ []) fence_line fence_line (item_line, tt)
