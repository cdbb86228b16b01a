-- ===== src/Store/Entities/Audit.antt =====
-- store/store.go: the blocks of an entities file, and their audit.
use cogmemory.Base.{
  ℕ, suc, ◌+◌, Bool, false, not, ◌&&◌, ◌||◌, List, [], ◌∷◌, ◌++◌, Option, none, some, if◌then◌else◌,
  leb, ltb, Bytes, codes, has_prefix, trim_space, equal_fold, split, is_empty, sort_by, less_on,
  str_lt, ℤ, pos, negsuc,
}
use cogmemory.Regex.{find_all}
use cogmemory.Time.{Instant, Date, parse_date, instant, days_since, ltb_ℤ}
use cogmemory.Store.State.{MemoryStore, Result, ok, ◌>>=◌, abs_path, read_file}
use cogmemory.Store.Lines.{newline}
use cogmemory.Store.Actions.{ActionTarget}
use cogmemory.Store.Entities.{
  EntityFormatViolation, EntityGlacierCandidate, EntityMissingMetadata, EntityTemporalViolation,
  EntityAuditResult, entity_heading, until_here, has_detail_link, strip_paren_suffix,
  extract_inline_field, is_past_month, is_struck_through,
}

-- A heading and the numbered lines below it.
pub record Block : Type 0 where
  pub name : Bytes
  pub body : List (ℕ × Bytes)

abbrev pub close : Option Block → List Block → List Block
close none bs = bs
close (some b) bs = b ∷ bs

abbrev pub add_line : ℕ → Bytes → Option Block → Option Block
add_line n l none = none
add_line n l (some b) = some (record b { body = b.body ++ ((n, l) ∷ []) })

-- The blocks of the lines behind line `n`; `cur` is the block that is open.
unfoldable pub blocks_from : Option Block → ℕ → List Bytes → List Block
unfolding entity_heading strip_paren_suffix
blocks_from cur n [] = close cur []
blocks_from cur n (l ∷ ls) = elim (entity_heading l) [
  | none ↦ blocks_from (add_line (suc n) l cur) (suc n) ls
  | some name ↦
      close cur
        (blocks_from (some (record { name = strip_paren_suffix name; body = [] })) (suc n) ls)
]

-- What the lines of a block say.
pub record Facts : Type 0 where
  pub count : ℕ
  pub has_detail : Bool
  pub status : Option Bytes
  pub last : Option Bytes
  pub temporal : List EntityTemporalViolation

abbrev or_keep : Option Bytes → Option Bytes → Option Bytes
or_keep none old = old
or_keep (some v) old = some v

abbrev temporal_at : Bytes → Bytes → Bytes → ℕ → Bytes → EntityTemporalViolation
temporal_at path domain name n line = record {
  path = path;
  domain = domain;
  name = name;
  line = n;
  text = trim_space line;
}

-- The markers of a line whose month has passed and that are not struck through.
unfoldable pub past_markers :
    EntityTemporalViolation → Instant → Bytes → List (ℕ × Bytes × ℕ) → List EntityTemporalViolation
unfolding is_past_month is_struck_through
past_markers v now line [] = []
past_markers v now line ((at, month, size) ∷ ms) =
    let rest = past_markers v now line ms in
    if is_past_month month now && not (is_struck_through line at (at + size))
    then v ∷ rest
    else rest

abbrev pub is_skipped : Bytes → Bool
is_skipped trim = is_empty trim || has_prefix trim (codes "<!--")

abbrev pub with_line : Bytes → Bytes → Bytes → Instant → ℕ → Bytes → Facts → Facts
with_line path domain name now n line f = record {
  count = f.count + 1;
  has_detail = f.has_detail || has_detail_link line;
  status = or_keep (extract_inline_field line (codes "status")) f.status;
  last = or_keep (extract_inline_field line (codes "last")) f.last;
  temporal =
      f.temporal
      ++ past_markers (temporal_at path domain name n line) now line (find_all until_here 0 0 line);
}

-- The loop over the body lines, from the facts so far.
unfoldable pub facts_from : Bytes → Bytes → Bytes → Instant → List (ℕ × Bytes) → Facts → Facts
unfolding trim_space has_prefix has_detail_link extract_inline_field past_markers find_all
    until_here
facts_from path domain name now [] f = f
facts_from path domain name now ((n, l) ∷ ls) f =
    facts_from path domain name now ls
      (if is_skipped (trim_space l) then f else with_line path domain name now n l f)

abbrev pub no_facts : Facts
no_facts = record { count = 1; has_detail = false; status = none; last = none; temporal = [] }

abbrev or_empty : Option Bytes → Bytes
or_empty none = []
or_empty (some v) = v

abbrev age_at : Instant → Option Date → ℤ
age_at now none = negsuc 0
age_at now (some d) = if ltb (instant d) now then days_since now (instant d) else pos 0

-- The days since the last mention; -1 where there is none that reads as a date.
unfoldable pub age_of : Instant → Option Bytes → ℤ
unfolding trim_space parse_date days_since
age_of now none = negsuc 0
age_of now (some v) = age_at now (parse_date (trim_space v))

abbrev missing_fields : Facts → List Bytes
missing_fields f =
    elim f.status [ none ↦ codes "status" ∷ [] | some v ↦ [] ]
    ++ elim f.last [ none ↦ codes "last" ∷ [] | some v ↦ [] ]

abbrev format_of : Bytes → Bytes → Bytes → Facts → List EntityFormatViolation
format_of path domain name f =
    if leb f.count 3
    then []
    else record {
      path = path;
      domain = domain;
      name = name;
      lines = f.count;
      has_detail_file = f.has_detail;
    }
      ∷ []

abbrev missing_of : Bytes → Bytes → Bytes → List Bytes → List EntityMissingMetadata
missing_of path domain name missing =
    if is_empty missing
    then []
    else record { path = path; domain = domain; name = name; missing = missing } ∷ []

abbrev glacier_of : Bytes → Bytes → Bytes → Instant → Facts → List EntityGlacierCandidate
glacier_of path domain name now f =
    if equal_fold (or_empty f.status) (codes "inactive") || ltb_ℤ (pos 180) (age_of now f.last)
    then record {
      path = path;
      domain = domain;
      name = name;
      status = or_empty f.status;
      last = or_empty f.last;
      age_days = age_of now f.last;
    }
      ∷ []
    else []

-- The body of the loop over the blocks.
abbrev pub with_block :
    Bytes → Bytes → Bytes → Instant → Facts → EntityAuditResult → EntityAuditResult
with_block path domain name now f r = record {
  format_violations = r.format_violations ++ format_of path domain name f;
  glacier_candidates = r.glacier_candidates ++ glacier_of path domain name now f;
  missing_metadata = r.missing_metadata ++ missing_of path domain name (missing_fields f);
  temporal_violations = r.temporal_violations ++ f.temporal;
  total_entries = r.total_entries + 1;
  total_lines = r.total_lines + f.count;
}

unfoldable pub audit_blocks :
    Bytes → Bytes → Instant → List Block → EntityAuditResult → EntityAuditResult
unfolding facts_from age_of equal_fold
audit_blocks domain path now [] r = r
audit_blocks domain path now (b ∷ bs) r =
    audit_blocks domain path now bs
      (with_block path domain b.name now (facts_from path domain b.name now b.body no_facts) r)

-- auditOneEntitiesFile
unfoldable pub audit_one_entities_file :
    EntityAuditResult → Bytes → Bytes → Bytes → Instant → EntityAuditResult
unfolding audit_blocks blocks_from split
audit_one_entities_file r domain path body now =
    audit_blocks domain path now (blocks_from none 0 (split newline body)) r

abbrev audit_content : EntityAuditResult → ActionTarget → Instant → Option Bytes → EntityAuditResult
audit_content r t now none = r
audit_content r t now (some body) = audit_one_entities_file r t.domain t.path body now

unfoldable pub audit_targets :
    MemoryStore → Instant → List ActionTarget → EntityAuditResult → Result EntityAuditResult
unfolding abs_path read_file audit_one_entities_file
audit_targets s now [] r = ok r
audit_targets s now (t ∷ ts) r = do
  abs ← abs_path s t.path
  content ← read_file s abs
  audit_targets s now ts (audit_content r t now content)

abbrev no_violations : EntityAuditResult
no_violations = record {
  format_violations = [];
  glacier_candidates = [];
  missing_metadata = [];
  temporal_violations = [];
  total_entries = 0;
  total_lines = 0;
}

-- EntityAudit
unfoldable pub entity_audit : MemoryStore → List ActionTarget → Instant → Result EntityAuditResult
unfolding audit_targets sort_by str_lt
entity_audit s targets now =
    audit_targets s now (sort_by (less_on (λ (t : ActionTarget). t.path)) targets) no_violations
