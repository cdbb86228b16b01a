-- ===== src/Store/Written.antt =====
-- What Write leaves behind, and what Read then returns.
use cogmemory.Base.{
  false, [], some, ◌≡◌, ◌≢◌, refl, sym, subst, ◌∙◌, arith, Bytes, codes, str_eq, str_eq_iff,
  str_eq_of_eq, ◌||◌, pos,
}
use cogmemory.Store.Fs.{Fs, Node, file, denied, dir, lookup, put, lookup-put}
use cogmemory.Store.Fs
use cogmemory.Store.State.{
  MemoryStore, ok, abs_path, stat, stat_checked, read_file, put_file, atomic_write, write,
}
use cogmemory.Store.Files.{read}

-- The file at `abs` holds the content, stamped with the clock, and every other path is untouched.
pub record IsWritten (s : MemoryStore) (abs content : Bytes) (after : MemoryStore) : Type 0 where
  pub root : after.root ≡ s.root
  pub held : lookup abs after.fs ≡ some (file content s.clock)
  pub others : (q : Bytes) → q ≢ abs → lookup q after.fs ≡ lookup q s.fs

pub put_file-IsWritten :
    (s : MemoryStore) (abs content : Bytes) → IsWritten s abs content (put_file s abs content)
put_file-IsWritten s abs content = record {
  root = refl;
  held = rw (lookup-put, str_eq_of_eq abs);
  others = λ q ne. ground (arith, lookup-put abs q (file content s.clock) s.fs, str_eq_iff abs q);
}

pub atomic_write-ok :
    (s : MemoryStore) (abs content : Bytes)
    → (atomic_write s abs content).0 ≡ ok tt
    → (str_eq abs s.root ≡ false) × ((atomic_write s abs content).1 ≡ put_file s abs content)
unfolding atomic_write
atomic_write-ok s abs content h = ground arith

pub read_written :
    (s s' : MemoryStore) (abs content : Bytes)
    → IsWritten s abs content s'
    → str_eq abs s.root ≡ false
    → read_file s' abs ≡ ok (some content)
unfolding read_file stat_checked stat Fs.stat
read_written s s' abs content w h = ground (arith, w.root, w.held)

abs_path_root :
    (s s' : MemoryStore) (rel : Bytes) → s'.root ≡ s.root → abs_path s' rel ≡ abs_path s rel
unfolding abs_path
abs_path_root s s' rel e = rw e

write_runs :
    (s : MemoryStore) (rel abs content : Bytes)
    → abs_path s rel ≡ ok abs
    → (write s rel content).0 ≡ ok tt
    → (str_eq abs s.root ≡ false) × ((write s rel content).1 ≡ put_file s abs content)
unfolding write
write_runs s rel abs content ha h = ground (arith, atomic_write-ok s abs content)

pub read_runs :
    (s : MemoryStore) (rel abs content : Bytes)
    → (str_eq rel (codes "L0_INDEX") || str_eq rel (codes "LIST")) ≡ false
    → abs_path s rel ≡ ok abs
    → read_file s abs ≡ ok (some content)
    → read s rel [] (pos 0) (pos 0) ≡ ok content
unfolding read
read_runs s rel abs content special ha h = ground arith

-- A write that succeeds is read back: Read of the whole file returns the content written, the file at
-- the resolved path holds it, and no other path changes.
pub read-write :
    (s : MemoryStore) (rel abs content : Bytes)
    → (str_eq rel (codes "L0_INDEX") || str_eq rel (codes "LIST")) ≡ false
    → abs_path s rel ≡ ok abs
    → (write s rel content).0 ≡ ok tt
    → (read (write s rel content).1 rel [] (pos 0) (pos 0) ≡ ok content)
      × IsWritten s abs content (write s rel content).1
read-write s rel abs content special ha h =
    let (apart, same) = write_runs s rel abs content ha h in
    let w : IsWritten s abs content (write s rel content).1 =
      subst (IsWritten s abs content) (sym same) (put_file-IsWritten s abs content) in
    (
      read_runs (write s rel content).1 rel abs content special
          (abs_path_root s (write s rel content).1 rel w.root ∙ ha)
          (read_written s (write s rel content).1 abs content w apart),
      w,
    )
