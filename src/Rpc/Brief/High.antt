-- ===== src/Rpc/Brief/High.antt =====
-- The flag of high priority in the counts of a brief.
use cogmemory.Base.{
  Bool, true, false, ◌&&◌, ◌||◌, List, [], ◌∷◌, Option, none, some, ◌≡◌, arith, Bytes, codes,
  str_eq, str_eq_of_eq, if◌then◌else◌, any, ltb,
}
use cogmemory.Store.Brief.{DomainActionCountItem}
use cogmemory.Rpc.Protocol.{CountValue, flag, number}
use cogmemory.Rpc.Brief.{set_count, add_counts}

-- What the map holds under a key.
unfoldable pub get_count : Bytes → List (Bytes × CountValue) → Option CountValue
get_count k [] = none
get_count k ((j, v) ∷ m) = if str_eq j k then some v else get_count k m

get_count-set_count :
    (k : Bytes) (v : CountValue) (m : List (Bytes × CountValue))
    → get_count k (set_count k v m) ≡ some v
unfolding get_count set_count
get_count-set_count k v [] = ground (arith, str_eq_of_eq k)
get_count-set_count k v ((j, w) ∷ m) = ground (arith, str_eq_of_eq k, get_count-set_count k v m)

-- A target that the role may read and that has an item of high priority.
abbrev pub readable_high : (Bytes → Bool) → DomainActionCountItem → Bool
readable_high p c = p c.path && ltb 0 c.high_count

high_kept :
    (p : Bytes → Bool) (c : DomainActionCountItem) (cs : List DomainActionCountItem) (high : Bool)
    → (if p c.path
        then (if ltb 0 c.high_count then true else high) || any (readable_high p) cs
        else high || any (readable_high p) cs)
      ≡ (high || any (readable_high p) (c ∷ cs))
high_kept p c cs high = ground arith

flag_of :
    (p : Bytes → Bool) (cs : List DomainActionCountItem) (m : List (Bytes × CountValue))
    (high : Bool)
    → get_count (codes "_pri_high_anywhere") (add_counts p cs m high)
      ≡ some (flag (high || any (readable_high p) cs))
unfolding add_counts
flag_of p [] m high = ground (arith, get_count-set_count (codes "_pri_high_anywhere") (flag high) m)
flag_of p (c ∷ cs) m high = ground (
  arith,
  high_kept p c cs high,
  flag_of p cs (set_count c.domain (number c.open_count) m)
      (if ltb 0 c.high_count then true else high),
  flag_of p cs m high,
)

-- The counts of a brief hold under `_pri_high_anywhere` whether a target that the role may read has an
-- item of high priority, whatever the targets that it may not read have, and even where a domain is
-- called so.
pub add_counts_flag :
    (p : Bytes → Bool) (cs : List DomainActionCountItem)
    → get_count (codes "_pri_high_anywhere") (add_counts p cs [] false)
      ≡ some (flag (any (readable_high p) cs))
add_counts_flag p cs = flag_of p cs [] false
