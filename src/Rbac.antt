-- ===== src/Rbac.antt =====
-- rbac/rbac.go: the first rule of the role that matches the path decides.
pub mod FirstMatch
use cogmemory.Base.{
  ℕ, Bool, true, false, List, [], ◌∷◌, Option, none, some, if◌then◌else◌, Bytes, codes, str_eq,
}

-- config.Rule
pub record Rule : Type 0 where
  pub pattern : Bytes
  pub read : Bool
  pub write : Bool

-- config.RBACConfig.Roles: the first entry of a role is its entry in the map.
abbrev pub Roles : Type 0
Roles = List (Bytes × List Rule)

unfoldable pub rules_of : Bytes → Roles → Option (List Rule)
unfolding str_eq
rules_of role [] = none
rules_of role ((r, rules) ∷ rest) = if str_eq r role then some rules else rules_of role rest

abbrev pub read_op : Bytes
read_op = codes "read"

abbrev pub write_op : Bytes
write_op = codes "write"

-- The answer of a rule that matches.
unfoldable pub answer : Rule → Bytes → Bool
unfolding str_eq
answer rule op =
    if str_eq op read_op then rule.read else if str_eq op write_op then rule.write else false

abbrev pub matched : Option Bool → Bool
matched none = false
matched (some b) = b

-- doublestar.Match is a parameter: `none` is its error for a malformed pattern.
module _ (glob : Bytes → Bytes → Option Bool) where
  unfoldable pub check_rules : List Rule → Bytes → Bytes → Bool
  unfolding answer
  check_rules [] path op = false
  check_rules (rule ∷ rules) path op =
      if matched (glob rule.pattern path) then answer rule op else check_rules rules path op

  abbrev check_found : Option (List Rule) → Bytes → Bytes → Bool
  check_found none path op = false
  check_found (some rules) path op = check_rules rules path op

  -- Engine.Check
  unfoldable pub check : Roles → Bytes → Bytes → Bytes → Bool
  unfolding rules_of check_rules
  check roles role path op = check_found (rules_of role roles) path op
