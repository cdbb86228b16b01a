-- ===== src/Store/Counts/Agreement.antt =====
-- The counts of action items and the items that are listed agree.
use cogmemory.Base.{
  ℕ, ◌≤◌, Bool, List, [], ◌∷◌, Option, none, some, ◌≡◌, refl, arith, Bytes, codes, keep, length,
  equal_fold, if◌then◌else◌, sort_by, append-nil, trim_space, trim_prefix, split, is_empty, ap, sym,
  Bool-cases, inl, inr,
}
use cogmemory.Store.Lines.{scan, mebibyte}
use cogmemory.Store.State.{MemoryStore, Result, ok, err, abs_path, read_file}
use cogmemory.Store.Actions.{
  OpenActionItem, read_part, read_parts, parse_open_action_item, open_items, open_mark, new_item,
  head_or, tail_of, open_actions, items_of_file, collect_items, scan_file, visible, quiet,
}
use cogmemory.Store.Counts.{
  is_high, count_high, count_open, count_both, count_done, count_actions, count_open_actions,
}

read_part_priority :
    (a b : OpenActionItem) (p : Bytes)
    → a.priority ≡ b.priority
    → (read_part a p).priority ≡ (read_part b p).priority
unfolding read_part
read_part_priority a b p h = ground arith

read_parts_priority :
    (a b : OpenActionItem) (ps : List Bytes)
    → a.priority ≡ b.priority
    → (read_parts a ps).priority ≡ (read_parts b ps).priority
unfolding read_parts
read_parts_priority a b [] h = h
read_parts_priority a b (p ∷ ps) h =
    read_parts_priority (read_part a p) (read_part b p) ps (read_part_priority a b p h)

abbrev pub has_high : OpenActionItem → Bool
has_high item = equal_fold item.priority (codes "high")

same_high :
    (b c : Bool) (x y : OpenActionItem)
    → x.priority ≡ y.priority
    → is_high (if b then none else if c then none else some x)
      ≡ is_high (if b then none else if c then none else some y)
same_high b c x y h = ground arith

-- Whether a line is an item of high priority does not depend on where it stands.
is_high_anywhere :
    (d e p q : Bytes) (m n : ℕ) (raw : Bytes)
    → is_high (parse_open_action_item d p m raw) ≡ is_high (parse_open_action_item e q n raw)
unfolding parse_open_action_item
is_high_anywhere d e p q m n raw =
    let body = trim_space (trim_prefix raw open_mark) in
    let parts = split b'|' body in
    let text = trim_space (head_or [] parts) in
    same_high (is_empty body) (is_empty text) (read_parts (new_item d p m text raw) (tail_of parts))
      (read_parts (new_item e q n text raw) (tail_of parts))
      (read_parts_priority (new_item d p m text raw) (new_item e q n text raw) (tail_of parts) refl)

module _ (domain path : Bytes) where
  count_high_listed :
      (ls : List (ℕ × Bytes))
      → count_high path ls ≡ length (keep has_high (open_items domain path ls))
  unfolding count_high open_items
  count_high_listed [] = refl
  count_high_listed ((n, l) ∷ ls) =
      ground (arith, is_high_anywhere [] domain path path 0 n l, count_high_listed ls)

  listed_le_open : (ls : List (ℕ × Bytes)) → length (open_items domain path ls) ≤ count_open ls
  unfolding count_open open_items
  listed_le_open [] = omega arith
  listed_le_open ((n, l) ∷ ls) = ground (arith, listed_le_open ls)

module _ (s : MemoryStore) (path : Bytes) where
  -- What the two counts and the list of one file say of its visible lines.
  pub record Agree (domain since : Bytes) : Type 0 where
    pub listed : List OpenActionItem
    pub opened : ℕ
    pub completed : ℕ
    pub high : ℕ
    pub lists : open_actions s (record { domain = domain; path = path } ∷ []) ≡ ok listed
    pub counts : count_actions s path since ≡ ok (opened, completed)
    pub ranks : count_open_actions s path ≡ ok (opened, high)
    pub all_counted : length listed ≤ opened
    pub high_listed : length (keep has_high listed) ≡ high

  abbrev picked {ℓ} : {A : Type ℓ} → A → (List Bytes → A) → Option (List Bytes) → A
  picked m f none = m
  picked m f (some ls) = f ls

  abbrev Scans : Option (List Bytes) → Type 1
  Scans o = (B : Type 0) (m : B) (g : List Bytes → B) → scan_file s path m g ≡ ok (picked m g o)

  -- A scan that succeeds finds the same lines as every other scan of the file.
  scan_file-Scans :
      {A : Type 0} (m : A) (f : List Bytes → A) (v : A)
      → scan_file s path m f ≡ ok v
      → (o : Option (List Bytes)) × Scans o
  unfolding scan_file
  scan_file-Scans m f v h = at_abs (abs_path s path) refl
    where
      at_content :
          (abs : Bytes) (o : Option Bytes)
          → abs_path s path ≡ ok abs
          → read_file s abs ≡ ok o
          → (o' : Option (List Bytes)) × Scans o'
      at_content abs none e k = (none, λ B m' g. rw (e, k) refl)
      at_content abs (some content) e k = elim (Bool-cases (scan mebibyte content).1) [
        | inl long ↦ absurd (ground arith)
        | inr short ↦ (some (scan mebibyte content).0, λ B m' g. rw (e, k) (rw short refl))
      ]

      at_file :
          (abs : Bytes) (r : Result (Option Bytes))
          → abs_path s path ≡ ok abs
          → read_file s abs ≡ r
          → (o : Option (List Bytes)) × Scans o
      at_file abs (err x) e k = absurd (ground arith)
      at_file abs (ok o) e k = at_content abs o e k

      at_abs : (r : Result Bytes) → abs_path s path ≡ r → (o : Option (List Bytes)) × Scans o
      at_abs (err x) e = absurd (ground arith)
      at_abs (ok abs) e = at_file abs (read_file s abs) e refl

  -- Where one of the counts of a file succeeds, the other count and the list of its items do, and they
  -- agree: both counts give the same number of open items, the list is not longer than that, and it has
  -- as many items of high priority as the count of these says.
  pub count_actions-Agree :
      (domain since : Bytes) (o c : ℕ) → count_actions s path since ≡ ok (o, c) → Agree domain since
  unfolding count_actions count_open_actions open_actions collect_items items_of_file sort_by
  count_actions-Agree domain since o c h =
      let (found, scans) =
        scan_file-Scans (0, 0) (λ lines. count_both since (visible quiet 0 lines)) (o, c) h in
      agree found scans
    where
      agree : (found : Option (List Bytes)) → Scans found → Agree domain since
      agree none scans = record {
        listed = [];
        opened = 0;
        completed = 0;
        high = 0;
        lists =
            rw
              (scans (List OpenActionItem) []
                (λ lines. open_items domain path (visible quiet 0 lines)))
              refl;
        counts = scans (ℕ × ℕ) (0, 0) (λ lines. count_both since (visible quiet 0 lines));
        ranks =
            scans (ℕ × ℕ) (0, 0)
              (λ lines.
                (count_open (visible quiet 0 lines), count_high path (visible quiet 0 lines)));
        all_counted = omega arith;
        high_listed = refl;
      }
      agree (some lines) scans =
          let ls = visible quiet 0 lines in
          record {
            listed = open_items domain path ls;
            opened = count_open ls;
            completed = count_done since ls;
            high = count_high path ls;
            lists =
                rw
                  (scans (List OpenActionItem) []
                    (λ lines'. open_items domain path (visible quiet 0 lines')))
                  (ap ok (append-nil (open_items domain path ls)));
            counts = scans (ℕ × ℕ) (0, 0) (λ lines'. count_both since (visible quiet 0 lines'));
            ranks =
                scans (ℕ × ℕ) (0, 0)
                  (λ lines'. (
                    count_open (visible quiet 0 lines'),
                    count_high path (visible quiet 0 lines'),
                  ));
            all_counted = listed_le_open domain path ls;
            high_listed = sym (count_high_listed domain path ls);
          }
