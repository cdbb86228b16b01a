-- ===== src/Domain/Controller/Serving.antt =====
-- What the controller serves, over any history of the manifest on disk.
use cogmemory.Base.{
  ℕ, Bool, true, false, List, [], ◌∷◌, Option, none, some, ◌≡◌, refl, ap, ◌∙◌, inl, inr, arith,
  if◌then◌else◌, Bytes, str_eq, str_eq_iff, str_eq_of_eq, Any, ◌==◌, Bool-cases,
}
use cogmemory.Domain.Schema.{
  Domain, Domains, info, walk, declares_file, Checked, fine, bad, validate,
}
use cogmemory.Domain.Schema.Valid.{IsRegistry, validate-IsRegistry}
use cogmemory.Domain.Controller.{
  Manifest, missing, unreachable, locked, present, LoadError, Controller, Loaded, loaded, failed,
  find, flatten, flatten_list, no_domains, reload, maybe_reload, get, keep_last_good, load_parsed,
  load_checked, same_time,
}

-- The registry is valid and the map is the flattened registry.
pub record IsServing (c : Controller) : Type 0 where
  pub registry : IsRegistry [] (walk c.domains)
  pub mapped : c.flat ≡ flatten c.domains

abbrev LoadedServing : Loaded → Type 0
LoadedServing (loaded c) = IsServing c
LoadedServing (failed e) = Unit

no_domains-IsServing : IsServing no_domains
unfolding walk flatten
no_domains-IsServing = record { registry = tt; mapped = refl }

load_checked-IsServing :
    (ds : Domains) (t : ℕ) (v : Checked (List Bytes))
    → validate ds ≡ v
    → LoadedServing (load_checked ds t v)
load_checked-IsServing ds t (fine r) h = record {
  registry = validate-IsRegistry ds r h;
  mapped = refl;
}
load_checked-IsServing ds t (bad e) h = tt

load_parsed-IsServing :
    (parse : Bytes → Option Domains) (o : Option Domains) (t : ℕ)
    → LoadedServing (load_parsed parse o t)
load_parsed-IsServing parse none t = tt
load_parsed-IsServing parse (some ds) t = load_checked-IsServing ds t (validate ds) refl

loaded_checked_time :
    (ds : Domains) (t : ℕ) (v : Checked (List Bytes)) (c : Controller)
    → load_checked ds t v ≡ loaded c
    → c.mod_time ≡ some t
loaded_checked_time ds t (fine r) c h = ground arith
loaded_checked_time ds t (bad e) c h = cc

loaded_time :
    (parse : Bytes → Option Domains) (o : Option Domains) (t : ℕ) (c : Controller)
    → load_parsed parse o t ≡ loaded c
    → c.mod_time ≡ some t
loaded_time parse none t c h = cc
loaded_time parse (some ds) t c h = loaded_checked_time ds t (validate ds) c h

module _ (parse : Bytes → Option Domains) where
  reload-IsServing : (m : Manifest) → LoadedServing (reload parse m)
  unfolding reload
  reload-IsServing missing = no_domains-IsServing
  reload-IsServing unreachable = tt
  reload-IsServing (locked t) = tt
  reload-IsServing (present content t) = load_parsed-IsServing parse (parse content) t

  kept-IsServing :
      (c : Controller) (l : Loaded)
      → IsServing c
      → LoadedServing l
      → IsServing (keep_last_good parse c l)
  kept-IsServing c (loaded c') h k = k
  kept-IsServing c (failed e) h k = record { registry = h.registry; mapped = h.mapped }

  IsServing-if :
      (b : Bool) (c c' : Controller) → IsServing c → IsServing c' → IsServing (if b then c else c')
  IsServing-if true c c' h k = h
  IsServing-if false c c' h k = k

  pub maybe_reload-IsServing :
      (m : Manifest) (c : Controller) → IsServing c → IsServing (maybe_reload parse m c)
  unfolding maybe_reload
  maybe_reload-IsServing missing c h =
      IsServing-if _ c _ h (kept-IsServing c (reload parse missing) h (reload-IsServing missing))
  maybe_reload-IsServing unreachable c h = h
  maybe_reload-IsServing (locked t) c h =
      IsServing-if _ c _ h
        (kept-IsServing c (reload parse (locked t)) h (reload-IsServing (locked t)))
  maybe_reload-IsServing (present content t) c h =
      IsServing-if _ c _ h (
        kept-IsServing c (reload parse (present content t)) h
          (reload-IsServing (present content t)))

  -- The controller after it has been queried while the disk went through these states.
  unfoldable pub after_history : Controller → List Manifest → Controller
  unfolding maybe_reload
  after_history c [] = c
  after_history c (m ∷ ms) = after_history (maybe_reload parse m c) ms

  after_history-IsServing :
      (c : Controller) (ms : List Manifest) → IsServing c → IsServing (after_history c ms)
  unfolding after_history
  after_history-IsServing c [] h = h
  after_history-IsServing c (m ∷ ms) h =
      after_history-IsServing (maybe_reload parse m c) ms (maybe_reload-IsServing m c h)

  -- From a manifest that loads, whatever the disk then holds (manifests that do not parse or do not
  -- validate included), the controller serves a valid registry, and its map agrees with it.
  pub history-IsServing :
      (m : Manifest) (c : Controller) (ms : List Manifest)
      → reload parse m ≡ loaded c
      → IsServing (after_history c ms)
  history-IsServing m c ms h = after_history-IsServing c ms (rw h at (reload-IsServing m))

  -- A manifest that does not load changes the recorded error only.
  last_good :
      (content : Bytes) (t : ℕ) (c : Controller) (e : LoadError)
      → reload parse (present content t) ≡ failed e
      → same_time parse c.mod_time t ≡ false
      → maybe_reload parse (present content t) c ≡ record c { last_err = some e }
  unfolding maybe_reload
  last_good content t c e h k = rw (k, h)

  reload_time :
      (content : Bytes) (t : ℕ) (c : Controller)
      → reload parse (present content t) ≡ loaded c
      → c.mod_time ≡ some t
  unfolding reload
  reload_time content t c h = loaded_time parse (parse content) t c h

  -- Once an error is recorded, a valid manifest that has the time of the one that is served does not
  -- clear it: LastError goes on reporting an error while the manifest on disk validates.
  pub stale_last_error :
      (good bad_content : Bytes) (t u : ℕ) (c : Controller) (e : LoadError)
      → reload parse (present good t) ≡ loaded c
      → reload parse (present bad_content u) ≡ failed e
      → (t == u) ≡ false
      → (after_history c (present bad_content u ∷ present good t ∷ [])).last_err ≡ some e
  unfolding after_history
  stale_last_error good bad_content t u c e h k d =
      let time = reload_time good t c h in
      rw (last_good bad_content u c e k (ground arith)) (ground arith)

module _ where
  declared_apart :
      (seen : List Bytes) (a b : Bytes)
      → declares_file seen a ≡ true
      → declares_file seen b ≡ false
      → str_eq b a ≡ false
  declared_apart seen a b h k = elim (Bool-cases (str_eq b a)) [
    | inl e ↦ cc (h, k, ap (declares_file seen) ((str_eq_iff b a).0 e))
    | inr e ↦ e
  ]

  find_seen :
      (id : Bytes) (seen : List Bytes) (ds : List Domain) (m : List (Bytes × Domain))
      → declares_file seen id ≡ true
      → IsRegistry seen ds
      → find id (flatten_list ds m) ≡ find id m
  unfolding flatten_list find
  find_seen id seen [] m h r = refl
  find_seen id seen (d ∷ ds) m h r =
      find_seen id ((info d).id ∷ seen) ds (((info d).id, d) ∷ m)
        (unfold declares_file in ground arith) r.2
      ∙ rw (declared_apart seen id (info d).id h r.0)

  find_declared :
      (d : Domain) (seen : List Bytes) (ds : List Domain) (m : List (Bytes × Domain))
      → IsRegistry seen ds
      → Any (λ e. e ≡ d) ds
      → find (info d).id (flatten_list ds m) ≡ some d
  unfolding flatten_list
  find_declared d seen [] m r h = elim h [ ]
  find_declared d seen (e ∷ ds) m r (inl same) = rw (← same) (
      find_seen (info e).id ((info e).id ∷ seen) ds (((info e).id, e) ∷ m)
        (unfold declares_file in rw (str_eq_of_eq (info e).id)) r.2
      ∙ (unfold find in rw (str_eq_of_eq (info e).id)))
  find_declared d seen (e ∷ ds) m r (inr later) =
      find_declared d ((info e).id ∷ seen) ds (((info e).id, e) ∷ m) r.2 later

  -- Get finds every declared domain, subdomains included, under its id.
  pub get_declared :
      (c : Controller) (d : Domain)
      → IsServing c
      → Any (λ e. e ≡ d) (walk c.domains)
      → get c (info d).id ≡ some d
  unfolding get flatten
  get_declared c d h place = rw h.mapped (find_declared d [] (walk c.domains) [] h.registry place)
