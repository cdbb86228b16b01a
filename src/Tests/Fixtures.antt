-- ===== src/Tests/Fixtures.antt =====
-- The data of the tests: a small memory with two files, two roles and two domains.
use cogmemory.Base.{
  Bool, true, false, ◌||◌, [], ◌∷◌, Option, none, some, if◌then◌else◌, Bytes, codes, str_eq,
}
use cogmemory.Store.Fs.{file}
use cogmemory.Store.State.{MemoryStore}
use cogmemory.Rbac.{Rule, Roles}
use cogmemory.Domain.Schema.{Domains, Info, Domain, node, nil, cons}
use cogmemory.Domain.Controller.{Controller, serving}
use cogmemory.Rpc.Protocol.{Externals, Server}

abbrev pub memory : MemoryStore
memory = record {
  root = codes "/m";
  fs =
      (codes "/m/a.md", file (codes "one two") 5)
      ∷ (codes "/m/o/observations.md", file (codes "# O") 6)
      ∷ (codes "/m/t.md", file (codes "# T\n## Open\n- x\n\n## Done\n") 7)
      ∷ (codes "/m/i.md", file (codes "- [ ] one | pri: high\n- [x] two\n") 8)
      ∷ [];
  clock = 9;
}

-- A pattern matches itself, and `**` matches every path.
unfoldable pub glob : Bytes → Bytes → Option Bool
unfolding str_eq
glob pattern path = some (str_eq pattern path || str_eq pattern (codes "**"))

abbrev pub secret_rule : Rule
secret_rule = record { pattern = codes "a.md"; read = false; write = false }

abbrev pub all_rule : Rule
all_rule = record { pattern = codes "**"; read = true; write = true }

abbrev pub roles : Roles
roles = (codes "guest", secret_rule ∷ all_rule ∷ []) ∷ (codes "owner", all_rule ∷ []) ∷ []

abbrev pub work_info : Info
work_info = record {
  id = codes "job";
  path = codes "work";
  label = [];
  kind = [];
  triggers = [];
  files = codes "action-items" ∷ [];
}

abbrev pub sub_info : Info
sub_info = record {
  id = codes "sub";
  path = codes "work/sub";
  label = [];
  kind = [];
  triggers = [];
  files = codes "observations" ∷ [];
}

abbrev pub sub_domain : Domain
sub_domain = node sub_info nil

abbrev pub work_domain : Domain
work_domain = node work_info (cons sub_domain nil)

abbrev pub registry : Domains
registry = cons work_domain nil

-- The text `v1` is the manifest of the registry; no other text parses.
unfoldable pub parse : Bytes → Option Domains
unfolding str_eq
parse text = if str_eq text (codes "v1") then some registry else none

abbrev pub controller : Controller
controller = serving registry 3

abbrev pub externals : Externals
externals = record {
  glob = glob;
  parse = parse;
  related = λ _. none;
  glacier = λ _. none;
  wiki = λ _. none;
  scenario = λ _. none;
}

abbrev pub server : Server
server = record { store = memory; roles = roles; controller = some controller }

-- A guest may read neither `b/entities.md`, where Bo Ek is described, nor `a.md`, which names Ann Lee.
abbrev pub town : Server
town = record {
  store = record {
    root = codes "/m";
    fs =
        (codes "/m/a.md", file (codes "Ann Lee came") 5)
        ∷ (codes "/m/b/entities.md", file (codes "### Bo Ek") 5)
        ∷ (codes "/m/entities.md", file (codes "### Ann Lee (friend)") 6)
        ∷ (codes "/m/i.md", file (codes "Bo Ek met Ann Lee") 7)
        ∷ [];
    clock = 9;
  };
  roles =
      (
        codes "guest",
        secret_rule
            ∷ record { pattern = codes "b/entities.md"; read = false; write = false }
            ∷ all_rule
            ∷ [],
      )
      ∷ [];
  controller = none;
}
