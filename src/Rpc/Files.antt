-- ===== src/Rpc/Files.antt =====
-- rpc/methods.go: the methods on single files, and the checks that stand before them.
use cogmemory.Base.{
  Bool, true, false, not, ◌&&◌, ◌||◌, Option, none, some, if◌then◌else◌, Bytes, codes, str_eq,
  is_empty, length, ℤ,
}
use cogmemory.Rbac.{read_op, write_op}
use cogmemory.Store.State.{MemoryStore, Result, Done, ok, err, write}
use cogmemory.Store.Append.{append_section}
use cogmemory.Store.Edit.{patch, move}
use cogmemory.Store.Files.{read, outline}
use cogmemory.Domain.Controller.{Controller}
use cogmemory.Domain.Owner.{WriteError, id_as_path, undeclared, validate_write}
use cogmemory.Rpc.Protocol.{
  Externals, Payload, Response, Server, error_response, ok_response, may, sync, content, bytes,
  done, entries, invalid_params, rbac_denied, store_error,
}

pub record ReadParams : Type 0 where
  pub role : Bytes
  pub path : Bytes
  pub section : Bytes
  pub start : ℤ
  pub end : ℤ

pub record WriteParams : Type 0 where
  pub role : Bytes
  pub path : Bytes
  pub content : Bytes

pub record AppendParams : Type 0 where
  pub role : Bytes
  pub path : Bytes
  pub text : Bytes
  pub section : Bytes

pub record PatchParams : Type 0 where
  pub role : Bytes
  pub path : Bytes
  pub old_text : Bytes
  pub new_text : Bytes

pub record PathParams : Type 0 where
  pub role : Bytes
  pub path : Bytes

pub record MoveParams : Type 0 where
  pub role : Bytes
  pub from : Bytes
  pub to : Bytes

abbrev pub answer_with {ℓ} : {A : Type ℓ} → Bytes → (A → Payload) → Result A → Response
answer_with id f (ok a) = ok_response id (f a)
answer_with id f (err e) = error_response id store_error

-- The response to a writing operation, and the server with the store after it.
abbrev pub finish : Bytes → Payload → Server → Done × MemoryStore → Response × Server
finish id p srv (r, s) = (answer_with id (λ u. p) r, record srv { store = s })

-- Paths that are metadata, which no rule guards.
unfoldable pub is_special : Bytes → Bool
unfolding str_eq
is_special path = str_eq path (codes "L0_INDEX") || str_eq path (codes "LIST")

-- checkWritePath after its query of the controller: whether the write is rejected
abbrev pub rejects : Option WriteError → Bool
rejects none = false
rejects (some id_as_path) = true
rejects (some undeclared) = false

unfoldable pub check_write_path : Option Controller → Bytes → Bool
check_write_path none path = false
check_write_path (some c) path = rejects (validate_write c path)

module _ (x : Externals) where
  unfoldable pub handle_read : Server → Bytes → ReadParams → Response
  unfolding is_special
  handle_read srv id p =
      if is_empty p.path
      then error_response id invalid_params
      else if not (is_special p.path) && not (may x srv p.role p.path read_op)
      then error_response id rbac_denied
      else answer_with id (λ text. content text (not (is_empty text)))
          (read srv.store p.path p.section p.start p.end)

  -- The guards that write and append share, in front of the operation `op` on the store.
  unfoldable pub guarded_write :
      Server
      → Bytes
      → Bytes
      → Bytes
      → Payload
      → (MemoryStore → Done × MemoryStore)
      → Response × Server
  unfolding sync check_write_path
  guarded_write srv id role path p op =
      if is_empty path
      then (error_response id invalid_params, srv)
      else if not (may x srv role path write_op)
      then (error_response id rbac_denied, srv)
      else if check_write_path (sync x srv).controller path
      then (error_response id invalid_params, sync x srv)
      else finish id p (sync x srv) (op srv.store)

  unfoldable pub handle_write : Server → Bytes → WriteParams → Response × Server
  unfolding guarded_write
  handle_write srv id p =
      guarded_write srv id p.role p.path (bytes (length p.content)) (λ s. write s p.path p.content)

  unfoldable pub handle_append : Server → Bytes → AppendParams → Response × Server
  unfolding guarded_write
  handle_append srv id p =
      guarded_write srv id p.role p.path done (λ s. append_section s p.path p.section p.text)

  unfoldable pub handle_patch : Server → Bytes → PatchParams → Response × Server
  handle_patch srv id p =
      if is_empty p.path
      then (error_response id invalid_params, srv)
      else if not (may x srv p.role p.path write_op)
      then (error_response id rbac_denied, srv)
      else finish id done srv (patch srv.store p.path p.old_text p.new_text)

  unfoldable pub handle_outline : Server → Bytes → PathParams → Response
  handle_outline srv id p =
      if is_empty p.path
      then error_response id invalid_params
      else if not (may x srv p.role p.path read_op)
      then error_response id rbac_denied
      else answer_with id entries (outline srv.store p.path)

  unfoldable pub handle_move : Server → Bytes → MoveParams → Response × Server
  handle_move srv id p =
      if is_empty p.from
      then (error_response id invalid_params, srv)
      else if is_empty p.to
      then (error_response id invalid_params, srv)
      else if not (may x srv p.role p.to write_op)
      then (error_response id rbac_denied, srv)
      else finish id done srv (move srv.store p.from p.to)
