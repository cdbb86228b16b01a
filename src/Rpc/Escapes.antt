-- ===== src/Rpc/Escapes.antt =====
-- What the rules do not guard: the path that a move takes a file from.
use cogmemory.Base.{
  ℕ, true, false, ◌∷◌, none, some, ◌≡◌, refl, arith, Bytes, is_empty, List, All, ℤ, not, has_prefix,
  join,
}
use cogmemory.FilePath.{slash, dot_dot}
use cogmemory.FilePath.Normal.{IsPlain}
use cogmemory.Store.Files
use cogmemory.Store.Paths.{IsRoot}
use cogmemory.Store.Traversal.{up_from, not_empty_up, read_up_from}
use cogmemory.Rbac.{write_op, read_op}
use cogmemory.Store.Fs.{file}
use cogmemory.Store.State.{MemoryStore, ok, abs_path, mkdir_fails}
use cogmemory.Store.State
use cogmemory.Store.Edit.Moved.{IsMoved, move_file}
use cogmemory.Rpc.Protocol.{Externals, Server, ok_response, may, done, content}
use cogmemory.Rpc.Files.{MoveParams, handle_move, handle_read, is_special, answer_with}
use cogmemory.Rpc.Dispatch.{move, read, dispatch}

not_empty_path :
    (s : MemoryStore) (rel abs : Bytes) → abs_path s rel ≡ ok abs → is_empty rel ≡ false
unfolding abs_path
not_empty_path s rel abs h = ground arith

module _ (x : Externals) (srv : Server) where
  -- A move succeeds as soon as the rules let the role write the destination, whatever they say of the
  -- path that the file is taken from: where an existing file is moved to a free path whose directory
  -- can be made, it has its content at the destination, and is gone from the source.
  pub move_source_unguarded :
      (id : Bytes) (p : MoveParams) (a b text : Bytes) (t : ℕ)
      → may x srv p.role p.to write_op ≡ true
      → abs_path srv.store p.from ≡ ok a
      → abs_path srv.store p.to ≡ ok b
      → State.stat srv.store a ≡ some (file text t)
      → State.stat srv.store b ≡ none
      → mkdir_fails srv.store b ≡ false
      → ((dispatch x srv (move id p)).0 ≡ ok_response id done)
        × IsMoved a b text t srv.store.fs (dispatch x srv (move id p)).1.store.fs
  unfolding dispatch handle_move
  move_source_unguarded id p a b text t h ha hb sa sb mk =
      let m = move_file srv.store p.from p.to a b text t ha hb sa sb mk in
      rw (not_empty_path srv.store p.from a ha, not_empty_path srv.store p.to b hb, h, m.0)
        (refl, m.1)

  handle_read_unguarded :
      (id role d q : Bytes) (qs : List Bytes) (section : Bytes) (start end : ℤ)
      → IsPlain d
      → All IsPlain (q ∷ qs)
      → IsRoot srv.store.root
      → has_prefix (join slash (q ∷ qs)) dot_dot ≡ false
      → is_special (join slash (q ∷ qs)) ≡ false
      → may x srv role (up_from d (join slash (q ∷ qs))) read_op ≡ true
      → handle_read x srv id (record {
        role = role;
        path = up_from d (join slash (q ∷ qs));
        section = section;
        start = start;
        end = end;
      })
        ≡ answer_with id
            (λ text. content text (not (is_empty text)))
            (Files.read srv.store (join slash (q ∷ qs)) section start end)
  unfolding handle_read is_special
  handle_read_unguarded id role d q qs section start end hd hq r h sp g =
      rw
        (not_empty_up d q qs hd hq, g, read_up_from d q qs hd hq srv.store section start end r h sp)
        (ground arith)

  -- A read is answered as soon as the rules let the role read the spelling of its path: a read of
  -- `d/../q`, where that spelling may be read, is answered with the file `q`, whatever the rules say
  -- of `q`.
  pub read_source_unguarded :
      (id role d q : Bytes) (qs : List Bytes) (section : Bytes) (start end : ℤ)
      → IsPlain d
      → All IsPlain (q ∷ qs)
      → IsRoot srv.store.root
      → has_prefix (join slash (q ∷ qs)) dot_dot ≡ false
      → is_special (join slash (q ∷ qs)) ≡ false
      → may x srv role (up_from d (join slash (q ∷ qs))) read_op ≡ true
      → (dispatch x srv (
          read id (record {
            role = role;
            path = up_from d (join slash (q ∷ qs));
            section = section;
            start = start;
            end = end;
          }))).0
        ≡ answer_with id
            (λ text. content text (not (is_empty text)))
            (Files.read srv.store (join slash (q ∷ qs)) section start end)
  unfolding dispatch
  read_source_unguarded = handle_read_unguarded
