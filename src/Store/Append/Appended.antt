-- ===== src/Store/Append/Appended.antt =====
-- What Append does to the content of a file.
use cogmemory.Base.{
  true, not, ◌&&◌, [], ◌∷◌, ◌++◌, ◌≡◌, refl, ap, arith, if◌then◌else◌, Bytes, has_suffix,
  has_prefix, split, is_empty, append-nil, Bool-cases, inl, inr,
}
use cogmemory.Store.Lines.{newline}
use cogmemory.Store.State.{MemoryStore, ok, abs_path, stat, put_file}
use cogmemory.Store.Written.{IsWritten, put_file-IsWritten, atomic_write-ok}
use cogmemory.Store.Append.Joined.{
  IsEnded, IsJoined, trailing-IsEnded, separator-IsJoined, suffix-append,
}
use cogmemory.Store.Append.{
  append, append_section, append_end, separator, trailing, existing_of, is_obs_path, bad_lines,
  validate_obs_lines,
}

-- The content after an append.
abbrev pub appended : Bytes → Bytes → Bytes
appended existing text = existing ++ (separator existing text ++ (text ++ trailing text))

ends_with_newline : (text : Bytes) → has_suffix (text ++ trailing text) (newline ∷ []) ≡ true
unfolding trailing has_prefix has_suffix
ends_with_newline text = elim (Bool-cases (has_suffix text (newline ∷ []))) [
  | inl h ↦ rw (h, append-nil text) h
  | inr h ↦ rw h (suffix-append text (newline ∷ []) (newline ∷ []) refl)
]

append_end_runs :
    (s : MemoryStore) (abs text existing : Bytes)
    → (append_end s abs text existing).0 ≡ ok tt
    → (append_end s abs text existing).1 ≡ put_file s abs (appended existing text)
unfolding append_end
append_end_runs s abs text existing h =
    elim (Bool-cases (is_empty (separator existing text) && not (is_empty existing))) [
      | inl direct ↦
          rw direct (ap (put_file s abs) (same (separator existing text) (existing) (ground arith)))
      | inr rewritten ↦ ground (arith, atomic_write-ok s abs (appended existing text))
    ]
  where
    same :
        (sep old : Bytes)
        → is_empty sep ≡ true
        → old ++ (text ++ trailing text) ≡ old ++ (sep ++ (text ++ trailing text))
    same [] old h = refl
    same (c ∷ sep) old h = cc

valid_lines : (text : Bytes) → validate_obs_lines text ≡ ok tt → bad_lines (split newline text) ≡ []
unfolding validate_obs_lines
valid_lines text h = ground arith

-- What an append has done. `tail` is the text with a newline at its end: one is added where it has none.
-- Between the old content and the text stands a newline exactly where there is old content, it does not
-- end in a newline, and the text does not begin with one.
pub record IsAppended (s : MemoryStore) (rel abs text existing : Bytes) (after : MemoryStore)
    : Type 0 where
  pub tail : Bytes
  pub whole : Bytes
  pub ended : IsEnded text tail
  pub joined : IsJoined existing text tail whole
  pub written : IsWritten s abs whole after
  pub ends : has_suffix whole (newline ∷ []) ≡ true
  pub valid : is_obs_path rel ≡ true → bad_lines (split newline text) ≡ []

append_runs :
    (s : MemoryStore) (rel abs text existing : Bytes)
    → abs_path s rel ≡ ok abs
    → existing_of (stat s abs) ≡ ok existing
    → (append s rel text).0 ≡ ok tt
    → ((append s rel text).1 ≡ put_file s abs (appended existing text))
      × ((if is_obs_path rel then validate_obs_lines text else ok tt) ≡ ok tt)
unfolding append append_section
append_runs s rel abs text existing ha he h = ground (arith, append_end_runs s abs text existing)

-- An append at the end that succeeds, in place or by a rewrite, leaves the old content followed by the
-- text. A newline stands between the two exactly where the old content is not empty and does not end in
-- one and the text does not begin with one, and one is added at the end exactly where the text does not
-- end in one. Other paths keep their files. Where the path is one of observations, every line of the
-- text that is not blank is a well-formed observation.
pub append_content :
    (s : MemoryStore) (rel abs text existing : Bytes)
    → abs_path s rel ≡ ok abs
    → existing_of (stat s abs) ≡ ok existing
    → (append s rel text).0 ≡ ok tt
    → IsAppended s rel abs text existing (append s rel text).1
append_content s rel abs text existing ha he h =
    let (same, checks) = append_runs s rel abs text existing ha he h in
    record {
      tail = text ++ trailing text;
      whole = appended existing text;
      ended = trailing-IsEnded text;
      joined = separator-IsJoined existing text (text ++ trailing text);
      written = rw same (put_file-IsWritten s abs (appended existing text));
      ends =
          suffix-append existing _ (newline ∷ [])
            (suffix-append (separator existing text) _ (newline ∷ []) (ends_with_newline text));
      valid = λ obs. valid_lines text (rw obs at checks);
    }
