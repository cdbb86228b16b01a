-- ===== src/Tests/Requests.antt =====
-- The theorems on the requests.
use cogmemory.Base.{
  ◌≡◌, ◌⊎◌, refl, codes, arith, true, false, none, some, [], ◌∷◌, not, is_empty, has_prefix, join,
  str_eq, pos, ℕ, List,
}
use cogmemory.FilePath.{slash, dot_dot, clean, join_path}
use cogmemory.FilePath.Normal.{IsPlain}
use cogmemory.Rbac.{read_op, write_op}
use cogmemory.Store.Fs
use cogmemory.Store.Fs.{file}
use cogmemory.Store.State
use cogmemory.Store.State.{ok, abs_path, mkdir_fails}
use cogmemory.Store.Files
use cogmemory.Store.Paths.{IsRoot}
use cogmemory.Store.Edit.Moved.{IsMoved}
use cogmemory.Domain.Schema
use cogmemory.Domain.Controller.{present, loaded, reload}
use cogmemory.Domain.Controller.Serving.{IsServing, after_history, history-IsServing}
use cogmemory.Rpc.Protocol.{ok_response, may, done, content, candidates}
use cogmemory.Rpc.Files.{ReadParams, MoveParams, is_special, answer_with}
use cogmemory.Base.{map}
use cogmemory.Rpc.Answered.{response_id, response_id-serve}
use cogmemory.Rpc.Dispatch.{
  Call, garbage, read, write, move, domains_list, link_audit, dispatch, serve, Line,
}
use cogmemory.Base.{any}
use cogmemory.Store.Brief.{DomainActionCountItem}
use cogmemory.Rpc.Queries.{can_read}
use cogmemory.Rpc.Protocol.{flag}
use cogmemory.Rpc.Brief.{add_counts}
use cogmemory.Rpc.Brief.High.{get_count, readable_high, add_counts_flag}
use cogmemory.Rpc.Guard.{MayChange, dispatch_guarded}
use cogmemory.Rpc.Escapes.{move_source_unguarded, read_source_unguarded}
use cogmemory.Rpc.Serving.{ServesRegistry, serve-ServesRegistry}
use cogmemory.Rpc.Readable.{DisclosesReadable, dispatch-DisclosesReadable}
use cogmemory.Tests.Fixtures
use cogmemory.Tests.Fixtures.{memory, town, externals, server, parse, controller}

abbrev denied_write : Call
denied_write =
    write (codes "1") (record { role = codes "guest"; path = codes "a.md"; content = codes "new" })

abbrev line : ℕ → Call → Line
line n c = record { size = n; call = c }

abbrev lines : List Line
lines = line 90 denied_write ∷ line 7 garbage ∷ line 65536 denied_write ∷ line 90 denied_write ∷ []

abbrev stolen : MoveParams
stolen = record { role = codes "guest"; from = codes "a.md"; to = codes "c.md" }

dispatch_guarded_example :
    MayChange externals server
      (move (codes "1") stolen)
      (dispatch externals server (move (codes "1") stolen)).1.store
    ⊎ ((dispatch externals server (move (codes "1") stolen)).1.store ≡ server.store)
dispatch_guarded_example = dispatch_guarded externals server (move (codes "1") stolen)

may_write_c : may externals server (codes "guest") (codes "c.md") write_op ≡ true
unfolding may Fixtures.glob
may_write_c = refl

path_of_a : abs_path memory (codes "a.md") ≡ ok (codes "/m/a.md")
unfolding abs_path join_path clean str_eq
path_of_a = refl

path_of_c : abs_path memory (codes "c.md") ≡ ok (codes "/m/c.md")
unfolding abs_path join_path clean str_eq
path_of_c = refl

file_a : State.stat memory (codes "/m/a.md") ≡ some (file (codes "one two") 5)
unfolding State.stat str_eq Fs.stat
file_a = refl

no_file_c : State.stat memory (codes "/m/c.md") ≡ none
unfolding State.stat str_eq Fs.stat
no_file_c = refl

room_for_c : mkdir_fails memory (codes "/m/c.md") ≡ false
unfolding mkdir_fails Fs.blocked
room_for_c = refl

move_source_unguarded_example :
    ((dispatch externals server (move (codes "1") stolen)).0 ≡ ok_response (codes "1") done)
    × IsMoved
        (codes "/m/a.md")
        (codes "/m/c.md")
        (codes "one two")
        5
        memory.fs
        (dispatch externals server (move (codes "1") stolen)).1.store.fs
move_source_unguarded_example =
    move_source_unguarded externals server (codes "1") stolen (codes "/m/a.md") (codes "/m/c.md")
      (codes "one two") 5 may_write_c path_of_a path_of_c file_a no_file_c room_for_c

b-IsPlain : IsPlain (codes "b")
b-IsPlain = record {
  ne_nil = cc;
  ne_dot = ground arith;
  ne_dot_dot = ground arith;
  no_slash = omega arith;
}

a-IsPlain : IsPlain (codes "a.md")
a-IsPlain = record {
  ne_nil = cc;
  ne_dot = ground arith;
  ne_dot_dot = ground arith;
  no_slash = omega arith;
}

m-IsPlain : IsPlain (codes "m")
m-IsPlain = record {
  ne_nil = cc;
  ne_dot = ground arith;
  ne_dot_dot = ground arith;
  no_slash = omega arith;
}

memory-IsRoot : IsRoot (codes "/m")
unfolding join
memory-IsRoot = record { first = codes "m"; rest = []; plain = (m-IsPlain, tt); spelled = refl }

may_read_up : may externals server (codes "guest") (codes "b/../a.md") read_op ≡ true
unfolding may Fixtures.glob
may_read_up = refl

not_dots : has_prefix (join slash (codes "a.md" ∷ [])) dot_dot ≡ false
unfolding has_prefix join
not_dots = refl

not_special : is_special (join slash (codes "a.md" ∷ [])) ≡ false
unfolding is_special join
not_special = refl

abbrev detour : ReadParams
detour = record {
  role = codes "guest";
  path = codes "b/../a.md";
  section = [];
  start = pos 0;
  end = pos 0;
}

read_source_unguarded_example :
    (dispatch externals server (read (codes "1") detour)).0
    ≡ answer_with
        (codes "1")
        (λ text. content text (not (is_empty text)))
        (Files.read memory (codes "a.md") [] (pos 0) (pos 0))
unfolding join
read_source_unguarded_example =
    read_source_unguarded externals server (codes "1") (codes "guest") (codes "b") (codes "a.md") []
      [] (pos 0) (pos 0) b-IsPlain (a-IsPlain, tt) memory-IsRoot not_dots not_special may_read_up

loads : reload parse (present (codes "v1") 3) ≡ loaded controller
unfolding reload parse Schema.check_info
loads = refl

serves : IsServing controller
unfolding after_history
serves = history-IsServing parse (present (codes "v1") 3) controller [] loads

serve-ServesRegistry_example :
    ServesRegistry
      (serve externals server (
        line 90 denied_write
        ∷ line 60 (domains_list (codes "2") (codes "owner"))
        ∷ [])).1.controller
serve-ServesRegistry_example =
    serve-ServesRegistry externals server
      (line 90 denied_write ∷ line 60 (domains_list (codes "2") (codes "owner")) ∷ []) serves

-- Of the three mentions, the guest is told only of Ann Lee's in `i.md`.
guest_audit :
    (dispatch externals town (link_audit (codes "2") (codes "guest"))).0
    ≡ ok_response (codes "2") (
        candidates (
          record {
            source_path = codes "i.md";
            line = 1;
            entity_name = codes "Ann Lee";
            target_link = codes "entities#Ann Lee";
            context = codes "Bo Ek met Ann Lee";
          }
          ∷ []))
unfolding dispatch Fixtures.glob
guest_audit = refl

dispatch-DisclosesReadable_example :
    DisclosesReadable externals town (link_audit (codes "2") (codes "guest"))
dispatch-DisclosesReadable_example =
    dispatch-DisclosesReadable externals town (link_audit (codes "2") (codes "guest"))

abbrev high_count : DomainActionCountItem
high_count = record { domain = codes "job"; path = codes "i.md"; open_count = 1; high_count = 1 }

add_counts_flag_example :
    get_count
      (codes "_pri_high_anywhere")
      (add_counts (can_read externals server (codes "owner")) (high_count ∷ []) [] false)
    ≡ some
        (flag (any (readable_high (can_read externals server (codes "owner"))) (high_count ∷ [])))
add_counts_flag_example =
    add_counts_flag (can_read externals server (codes "owner")) (high_count ∷ [])

-- The third line is too long, so the fourth is not answered either.
response_id-serve_example :
    (map response_id (serve externals server lines).0 ≡ (codes "1" ∷ [] ∷ []))
    × ((serve externals server lines).1
        ≡ (serve externals server (line 90 denied_write ∷ line 7 garbage ∷ [])).1)
response_id-serve_example =
    response_id-serve externals server (line 90 denied_write ∷ line 7 garbage ∷ [])
      (line 65536 denied_write ∷ line 90 denied_write ∷ []) (omega arith, (omega arith, tt))
      (omega arith)
