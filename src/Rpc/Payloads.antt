-- ===== src/Rpc/Payloads.antt =====
-- What the payloads of the filtered queries disclose.
use cogmemory.Base.{
  ℕ, suc, List, [], ◌∷◌, ◌++◌, Option, none, some, ◌≡◌, refl, arith, Bool, true, false, ◌&&◌,
  if◌then◌else◌, Bytes, All, All-keep, All-append, All-sort_by, All-if, trim_space, trim_suffix,
  str_eq, not, Bool-cases, inl, inr, is_empty, keep, has_suffix, map,
}
use cogmemory.Domain.Schema.{Info, walk, info}
use cogmemory.Domain.Controller.{LoadError, Controller, Target}
use cogmemory.Link.Index.{LinkEntry, md, filter_entries}
use cogmemory.Link.Audit.{
  mentions_unlinked, LinkAuditCandidate, Entity, line_candidates, file_candidates, node_candidates,
  all_candidates, all_entities, candidate_less,
}
use cogmemory.Store.Actions.{OpenActionItem}
use cogmemory.Store.Fs.{Node, file, denied, dir}
use cogmemory.Store.Scan.{Scanned, scan_files}
use cogmemory.Store.State.{Result, ok, err, MemoryStore}
use cogmemory.Rpc.Protocol.{
  brief, housekeeping, glacier_entries, wiki_entries, scenarios, recent, Server, Payload, Response,
  error_response, ok_response, items, domains, domain, links, candidates,
}
use cogmemory.Rpc.Brief.{collect_domains, answer_brief}
use cogmemory.Rpc.Housekeeping.{answer_housekeeping}
use cogmemory.Rpc.Housekeeping.Disclosed.{NamesReadable, after_filter}
use cogmemory.Store.Housekeeping.Scan.{HousekeepingResult}
use cogmemory.Store.Actions.Results.{IsOk}
use cogmemory.Store.Indexes.{GlacierEntry, WikiEntry, ScenarioEntry}
use cogmemory.Store.Observations.{ObsTarget, ObservationEntry, RecentObservationsResult}
use cogmemory.Rpc.Observed.{readable_obs}
use cogmemory.Store.Brief.{SessionBriefResult}
use cogmemory.Rpc.Files.{answer_with}
use cogmemory.Link.Audit
use cogmemory.Link.Audit.Homes.{IsAtHome, all_entities-IsAtHome}

module _ (p : Bytes → Bool) where
  -- The mention is in a file that passes the test, and so is the file of the entity, which the proposed
  -- link names without its ending.
  abbrev FromReadable : LinkAuditCandidate → Type 0
  FromReadable c =
      (p c.source_path ≡ true)
      × ((home : Bytes) × (c.target_link ≡ home ++ (b'#' ∷ c.entity_name))
          × (p (home ++ md) ≡ true))

  -- These paths of a payload of the filtered queries pass the test.
  abbrev Discloses : Payload → Type 0
  Discloses (items xs) = All (λ (i : OpenActionItem). p i.path ≡ true) xs
  Discloses (domains ds) = All (λ d. p (info d).path ≡ true) ds
  Discloses (domain d) = p (info d).path ≡ true
  Discloses (links es) = All (λ (e : LinkEntry). All (λ src. p (src ++ md) ≡ true) e.sources) es
  Discloses (brief hot patterns ds counts e) = All (λ (i : Info). p i.path ≡ true) ds
  Discloses (candidates cs) = All FromReadable cs
  Discloses (housekeeping r) = NamesReadable p r
  Discloses (glacier_entries es n) = All (λ (e : GlacierEntry). p e.path ≡ true) es
  Discloses (wiki_entries es n) = All (λ (e : WikiEntry). p e.path ≡ true) es
  Discloses (scenarios es) = All (λ (e : ScenarioEntry). p e.path ≡ true) es
  Discloses (recent r) = All (λ (e : ObservationEntry). p e.path ≡ true) r.entries
  Discloses _ = Unit

  abbrev pub Answers : Response → Type 0
  Answers (error_response id code) = Unit
  Answers (ok_response id payload) = Discloses payload

  pub filter_entries_readable :
      (related : Bytes → Option (List Bytes)) (es : List LinkEntry)
      → All
          (λ (e : LinkEntry). All (λ src. p (src ++ md) ≡ true) e.sources)
          (filter_entries related p es)
  unfolding filter_entries
  filter_entries_readable related [] = tt
  filter_entries_readable related (e ∷ es) =
      elim (Bool-cases (is_empty (keep (λ src. p (src ++ md)) e.sources))) [
        | inl h ↦ rw h (filter_entries_readable related es)
        | inr h ↦
            rw h (All-keep (λ src. p (src ++ md)) e.sources, filter_entries_readable related es)
      ]

  line_readable :
      (path : Bytes) (n : ℕ) (line : Bytes) (es : List Entity)
      → p path ≡ true
      → All (IsAtHome p) es
      → All FromReadable (line_candidates path n line es)
  unfolding line_candidates
  line_readable path n line [] h k = tt
  line_readable path n line (e ∷ es) h k =
      let here : FromReadable (record {
        source_path = path;
        line = n;
        entity_name = e.name;
        target_link = e.target;
        context = trim_space line;
      }) =
        (h, (e.source, k.0.0, k.0.1)) in
      let rest = line_readable path n line es h k.1 in
      All-if FromReadable
        (not (str_eq (trim_suffix path md) e.source) && mentions_unlinked line e.name) (_ ∷ _) _
        (here, rest) rest

  file_readable :
      (path : Bytes) (n : ℕ) (ls : List Bytes) (es : List Entity)
      → p path ≡ true
      → All (IsAtHome p) es
      → All FromReadable (file_candidates path n ls es)
  unfolding file_candidates
  file_readable path n [] es h k = tt
  file_readable path n (l ∷ ls) es h k =
      All-append FromReadable (line_candidates path (suc n) l es)
        (file_candidates path (suc n) ls es) (line_readable path (suc n) l es h k)
        (file_readable path (suc n) ls es h k)

  node_readable :
      (path : Bytes) (n : Node) (es : List Entity)
      → p path ≡ true
      → All (IsAtHome p) es
      → All FromReadable (node_candidates path n es)
  node_readable path (file content t) es h k = file_readable path 0 _ es h k
  node_readable path (denied t) es h k = tt
  node_readable path dir es h k = tt

  if_readable :
      (b : Bool) (cs : List LinkAuditCandidate)
      → (b ≡ true → All FromReadable cs)
      → All FromReadable (if b then cs else [])
  if_readable true cs h = h refl
  if_readable false cs h = tt

  second_true : (a b : Bool) → (a && b) ≡ true → b ≡ true
  second_true a b h = ground arith

  all_candidates_readable :
      (fs : List Scanned) (es : List Entity)
      → All (IsAtHome p) es
      → All FromReadable (all_candidates p fs es)
  unfolding all_candidates
  all_candidates_readable [] es k = tt
  all_candidates_readable (f ∷ fs) es k =
      All-append FromReadable
        (if has_suffix f.rel md && p f.rel then node_candidates f.rel f.node es else [])
        (all_candidates p fs es)
        (if_readable (has_suffix f.rel md && p f.rel) (node_candidates f.rel f.node es)
          (λ h. node_readable f.rel f.node es (second_true (has_suffix f.rel md) (p f.rel) h) k))
        (all_candidates_readable fs es k)

  pub link_audit_readable : (s : MemoryStore) → All FromReadable (Audit.link_audit p s)
  unfolding Audit.link_audit
  link_audit_readable s = All-sort_by FromReadable candidate_less _ (
      all_candidates_readable (scan_files s) (all_entities p (scan_files s) [])
        (all_entities-IsAtHome p (scan_files s) [] tt))

  pub filtered_items_readable :
      (id : Bytes) (r : Result (List OpenActionItem))
      → Answers (answer_with id (λ found. items (keep (λ (i : OpenActionItem). p i.path) found)) r)
  filtered_items_readable id (ok found) = All-keep (λ (i : OpenActionItem). p i.path) found
  filtered_items_readable id (err e) = tt

  pub if-Answers :
      (b : Bool) (r q : Response)
      → Answers r
      → (b ≡ false → Answers q)
      → Answers (if b then r else q)
  if-Answers true r q h k = h
  if-Answers false r q h k = k refl

  pub if_served-Answers :
      (b : Bool) (m n : Response × Server)
      → Answers m.0
      → Answers n.0
      → Answers (if b then m else n).0
  if_served-Answers true m n h k = h
  if_served-Answers false m n h k = k

  domains_collected :
      (o : Option Controller) → All (λ (i : Info). p i.path ≡ true) (collect_domains p o)
  unfolding collect_domains
  domains_collected none = tt
  domains_collected (some c) = All-keep (λ (i : Info). p i.path) (map info (walk c.domains))

  pub brief_answered :
      (id : Bytes) (o : Option Controller) (e : Option LoadError) (r : Result SessionBriefResult)
      → Answers (answer_brief p id (collect_domains p o) e r)
  brief_answered id o e (ok b) = domains_collected o
  brief_answered id o e (err x) = tt

  pub housekeeping_answered :
      (id : Bytes) (r : Result HousekeepingResult)
      → IsOk (λ r. NamesReadable p (after_filter p r)) r
      → Answers (answer_housekeeping p id r)
  housekeeping_answered id (ok r) h = h
  housekeeping_answered id (err e) h = tt

  pub readable_obs_pass :
      (ts : List Target) → All (λ (t : ObsTarget). p t.path ≡ true) (readable_obs p ts)
  readable_obs_pass [] = tt
  readable_obs_pass (t ∷ ts) = elim (Bool-cases (p t.path)) [
    | inl h ↦ rw h (h, readable_obs_pass ts)
    | inr h ↦ rw h (readable_obs_pass ts)
  ]

  pub entries_answered :
      (id : Bytes) (r : Result RecentObservationsResult)
      → IsOk
          (λ (r : RecentObservationsResult).
            All (λ (e : ObservationEntry). p e.path ≡ true) r.entries)
          r
      → Answers (answer_with id recent r)
  entries_answered id (ok r) h = h
  entries_answered id (err e) h = tt
