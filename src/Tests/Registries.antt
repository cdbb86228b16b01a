-- ===== src/Tests/Registries.antt =====
-- The theorems on the registry and the rules.
use cogmemory.Base.{true, [], ◌∷◌, ◌≡◌, refl, Bytes, codes, some, inl, inr, ◌↔◌, Any, All, ◌≤◌}
use cogmemory.FilePath.{clean}
use cogmemory.Domain.Schema
use cogmemory.Domain.Schema.{declares_file, info}
use cogmemory.Rbac.{check, read_op}
use cogmemory.Rbac.FirstMatch.{Grants, check_iff}
use cogmemory.Domain.Schema.{Domain, walk, validate, fine, info}
use cogmemory.Domain.Schema.Valid.{IsRegistry, validate-IsRegistry}
use cogmemory.Domain.Controller.{missing, present, parse_error, loaded, failed, reload, get}
use cogmemory.Domain.Controller.Serving.{
  IsServing, after_history, history-IsServing, stale_last_error, get_declared,
}
use cogmemory.Domain.Owner.{Best, domain_for_path}
use cogmemory.Domain.Owner.Deepest.{IsOwner, Owns, depth_of, domain_for_path_deepest}
use cogmemory.Tests.Fixtures.{glob, roles, parse, registry, sub_domain, controller}

check_iff_example :
    (check glob roles (codes "guest") (codes "a.md") read_op ≡ true)
    ↔ Grants glob (codes "a.md") roles (codes "guest") read_op
check_iff_example = check_iff glob (codes "a.md") roles (codes "guest") read_op

accepted : validate registry ≡ fine (codes "sub" ∷ codes "job" ∷ [])
unfolding validate Schema.check_info
accepted = refl

validate-IsRegistry_example : IsRegistry [] (walk registry)
validate-IsRegistry_example = validate-IsRegistry registry (codes "sub" ∷ codes "job" ∷ []) accepted

loads : reload parse (present (codes "v1") 3) ≡ loaded controller
unfolding reload parse Schema.check_info
loads = refl

broken : reload parse (present (codes "junk") 4) ≡ failed parse_error
unfolding reload parse
broken = refl

history-IsServing_example :
    IsServing (after_history parse controller (present (codes "junk") 4 ∷ missing ∷ []))
history-IsServing_example =
    history-IsServing parse (present (codes "v1") 3) controller
      (present (codes "junk") 4 ∷ missing ∷ []) loads

stale_last_error_example :
    (after_history parse controller
      (present (codes "junk") 4 ∷ present (codes "v1") 3 ∷ [])).last_err
    ≡ some parse_error
stale_last_error_example =
    stale_last_error parse (codes "v1") (codes "junk") 3 4 controller parse_error loads broken refl

serves : IsServing controller
unfolding after_history
serves = history-IsServing parse (present (codes "v1") 3) controller [] loads

get_declared_example : get controller (codes "sub") ≡ some sub_domain
unfolding walk
get_declared_example = get_declared controller sub_domain serves (inr (inl refl))

abbrev sub_best : Best
sub_best = record { id = codes "sub"; file = codes "observations"; depth = 8 }

owner : domain_for_path controller (codes "work/sub/observations.md") ≡ some sub_best
unfolding domain_for_path
owner = refl

domain_for_path_deepest_example :
    Any (IsOwner (clean (codes "work/sub/observations.md")) sub_best) (walk registry)
    × All
        (λ d.
          (file : Bytes) → Owns (clean (codes "work/sub/observations.md")) d file → depth_of d ≤ 8)
        (walk registry)
domain_for_path_deepest_example =
    domain_for_path_deepest controller (codes "work/sub/observations.md") sub_best owner
