-- ===== src/Rbac/FirstMatch.antt =====
-- The engine answers by the first rule that matches, and denies where none does.
use cogmemory.Base.{
  Bool, true, false, List, [], ◌∷◌, ◌++◌, Option, some, ◌≡◌, refl, ◌⊎◌, inl, inr, arith, Bytes, All,
  Bool-cases, Option-cases, ◌↔◌,
}
use cogmemory.Rbac.{Rule, Roles, rules_of, answer, matched, check_rules, check}

module _ (glob : Bytes → Bytes → Option Bool) (path : Bytes) where
  abbrev pub Passes : Rule → Type 0
  Passes rule = matched (glob rule.pattern path) ≡ false

  -- A rule that matches, and no match before it.
  pub record FirstMatch (rules : List Rule) : Type 0 where
    pub before : List Rule
    pub rule : Rule
    pub after : List Rule
    pub splits : rules ≡ before ++ (rule ∷ after)
    pub none_before : All Passes before
    pub hits : matched (glob rule.pattern path) ≡ true

  skip_before :
      (before rest : List Rule) (op : Bytes)
      → All Passes before
      → check_rules glob (before ++ rest) path op ≡ check_rules glob rest path op
  unfolding check_rules
  skip_before [] rest op h = refl
  skip_before (r ∷ before) rest op h = ground (arith, skip_before before rest op h.1)

  pub FirstMatch-check :
      {rules : List Rule} (op : Bytes) (m : FirstMatch rules)
      → check_rules glob rules path op ≡ answer m.rule op
  unfolding check_rules
  FirstMatch-check op m =
      rw m.splits (rw (skip_before m.before (m.rule ∷ m.after) op m.none_before) (rw m.hits))

  pub find_first : (rules : List Rule) → FirstMatch rules ⊎ All Passes rules
  find_first [] = inr tt
  find_first (r ∷ rules) = elim (Bool-cases (matched (glob r.pattern path))) [
    | inl hit ↦ inl (record {
      before = [];
      rule = r;
      after = rules;
      splits = refl;
      none_before = tt;
      hits = hit;
    })
    | inr pass ↦ elim (find_first rules) [
      | inl m ↦ inl (record {
        before = r ∷ m.before;
        rule = m.rule;
        after = m.after;
        splits = λ i. r ∷ m.splits i;
        none_before = (pass, m.none_before);
        hits = m.hits;
      })
      | inr none_hits ↦ inr (pass, none_hits)
    ]
  ]

  pub check_rules_unmatched :
      (rules : List Rule) (op : Bytes) → All Passes rules → check_rules glob rules path op ≡ false
  unfolding check_rules
  check_rules_unmatched [] op h = refl
  check_rules_unmatched (r ∷ rules) op h = ground (arith, check_rules_unmatched rules op h.1)

  abbrev pub Grants : Roles → Bytes → Bytes → Type 0
  Grants roles role op =
      (rules : List Rule) × (rules_of role roles ≡ some rules)
      × ((m : FirstMatch rules) × (answer m.rule op ≡ true))

  -- Access is granted exactly if the role has rules, one of them matches the path, and the first that
  -- does permits the operation; an unknown role and a path that no rule matches are denied.
  pub check_iff :
      (roles : Roles) (role op : Bytes)
      → (check glob roles role path op ≡ true) ↔ Grants roles role op
  unfolding check
  check_iff roles role op = (to, from)
    where
      to : check glob roles role path op ≡ true → Grants roles role op
      to h = elim (Option-cases (rules_of role roles)) [
        | inl e ↦ absurd (ground arith)
        | inr (rules, e) ↦ elim (find_first rules) [
          | inl m ↦ (rules, e, (m, ground (arith, FirstMatch-check op m)))
          | inr passed ↦ absurd (ground (arith, check_rules_unmatched rules op passed))
        ]
      ]

      from : Grants roles role op → check glob roles role path op ≡ true
      from (rules, e, (m, a)) = ground (arith, FirstMatch-check op m)
