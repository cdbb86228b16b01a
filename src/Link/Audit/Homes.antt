-- ===== src/Link/Audit/Homes.antt =====
-- The files in which LinkAudit finds its entities.
use mathlib.Core.List.{reverse, reverse-append, reverse-reverse}
use cogmemory.Base.{
  Bool, true, ◌&&◌, List, [], ◌∷◌, ◌++◌, Option, none, some, ◌≡◌, refl, ap, sym, ◌∙◌, arith, Bytes,
  codes, All, All-append, Bool-cases, inl, inr, has_suffix, has_prefix, has_prefix_sound,
  drop_prefix, drop_prefix_sound, is_some, trim_suffix, str_eq, str_eq_iff, split, All-if,
}
use cogmemory.Store.Fs.{Node, file, denied, dir}
use cogmemory.Store.Lines.{newline}
use cogmemory.Store.Scan.{Scanned}
use cogmemory.Link.Index.{md}
use cogmemory.Link.Audit.{
  Entity, entity_header, entity_name, add_entity, entities_of_lines, is_entities_file,
  entities_of_node, all_entities,
}

-- A suffix that is cut off and put back.
trim_suffix-append : (s p : Bytes) → has_suffix s p ≡ true → trim_suffix s p ++ p ≡ s
unfolding has_suffix trim_suffix has_prefix
trim_suffix-append s p h = go (drop_prefix (reverse s) (reverse p)) refl h
  where
    go :
        (o : Option Bytes)
        → drop_prefix (reverse s) (reverse p) ≡ o
        → is_some o ≡ true
        → (elim o as (λ _. Bytes) [ none ↦ s | some r ↦ reverse r ]) ++ p ≡ s
    go none e k = cc
    go (some r) e k =
        ap (λ t. reverse r ++ t) (sym (reverse-reverse p))
        ∙ sym (reverse-append (reverse p) r)
        ∙ ap reverse (sym (drop_prefix_sound (reverse s) (reverse p) r e))
        ∙ reverse-reverse s

-- A file of entities is a markdown file.
is_entities_file-md : (rel : Bytes) → is_entities_file rel ≡ true → has_suffix rel md ≡ true
unfolding has_suffix str_eq has_prefix
is_entities_file-md rel h = elim (Bool-cases (has_suffix rel (codes "/entities.md"))) [
  | inl below ↦
      let (r, e) = has_prefix_sound (reverse rel) (reverse (codes "/entities.md")) below in
      rw e refl
  | inr top ↦ rw ((str_eq_iff rel (codes "entities.md")).0 (ground arith)) refl
]

module _ (p : Bytes → Bool) where
  -- The entity's link is its file's path without the ending and its name, and the file passes the test.
  abbrev pub IsAtHome : Entity → Type 0
  IsAtHome e = (e.target ≡ e.source ++ (b'#' ∷ e.name)) × (p (e.source ++ md) ≡ true)

  added :
      (home name : Bytes) (es : List Entity)
      → p (home ++ md) ≡ true
      → All IsAtHome es
      → All IsAtHome (add_entity home name es)
  added home name es h k = All-if IsAtHome _ es _ k (All-append IsAtHome es _ k ((refl, h), tt))

  lines-IsAtHome :
      (home : Bytes) (ls : List Bytes) (es : List Entity)
      → p (home ++ md) ≡ true
      → All IsAtHome es
      → All IsAtHome (entities_of_lines home ls es)
  unfolding entities_of_lines
  lines-IsAtHome home [] es h k = k
  lines-IsAtHome home (l ∷ ls) es h k = lines-IsAtHome home ls _ h (found (entity_header l))
    where
      found :
          (o : Option Bytes)
          → All IsAtHome (elim o [ none ↦ es | some raw ↦ add_entity home (entity_name raw) es ])
      found none = k
      found (some raw) = added home (entity_name raw) es h k

  node-IsAtHome :
      (rel : Bytes) (n : Node) (es : List Entity)
      → (is_entities_file rel && p rel) ≡ true
      → All IsAtHome es
      → All IsAtHome (entities_of_node rel n es)
  node-IsAtHome rel (file content t) es h k =
      lines-IsAtHome (trim_suffix rel md) (split newline content) es
        (rw (trim_suffix-append rel md (is_entities_file-md rel (ground arith))) (ground arith)) k
  node-IsAtHome rel (denied t) es h k = k
  node-IsAtHome rel dir es h k = k

  pub all_entities-IsAtHome :
      (fs : List Scanned) (es : List Entity) → All IsAtHome es → All IsAtHome (all_entities p fs es)
  unfolding all_entities
  all_entities-IsAtHome [] es k = k
  all_entities-IsAtHome (f ∷ fs) es k = elim (Bool-cases (is_entities_file f.rel && p f.rel)) [
    | inl h ↦ rw h (all_entities-IsAtHome fs _ (node-IsAtHome f.rel f.node es h k))
    | inr h ↦ rw h (all_entities-IsAtHome fs es k)
  ]
