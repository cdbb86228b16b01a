-- ===== src/Store/Actions/Results.antt =====
-- The result of a scan of one file, and of two scans in turn.
use cogmemory.Base.{
  true, false, List, ◌++◌, Option, none, some, ◌≡◌, All, All-append, refl, sym, subst, arith, Bytes,
  if◌then◌else◌,
}
use cogmemory.Store.State.{MemoryStore, Result, ok, err, too_long, ◌>>=◌, abs_path, read_file}
use cogmemory.Store.Lines.{scan, mebibyte}
use cogmemory.Store.Actions.{scan_file, scan_result}

-- A scan of the same file into another value.
module _ {ℓ κ} {A : Type ℓ} {B : Type κ} (f : List Bytes → A) (g : List Bytes → B) (h : A → B)
    (a m : A) where
  scan_result_same :
      (o : Option Bytes)
      → ((ls : List Bytes) → g ls ≡ h (f ls))
      → scan_result m f o ≡ ok a
      → scan_result (h m) g o ≡ ok (h a)
  scan_result_same none same e = ground arith
  scan_result_same (some content) same e = ground (arith, same (scan mebibyte content).0)

  content_same :
      (r : Result (Option Bytes))
      → ((ls : List Bytes) → g ls ≡ h (f ls))
      → (r >>= λ o. scan_result m f o) ≡ ok a
      → (r >>= λ o. scan_result (h m) g o) ≡ ok (h a)
  content_same (ok o) same e = scan_result_same o same e
  content_same (err x) same e = cc

  path_same :
      (s : MemoryStore) (r : Result Bytes)
      → ((ls : List Bytes) → g ls ≡ h (f ls))
      → (r >>= λ abs. read_file s abs >>= λ o. scan_result m f o) ≡ ok a
      → (r >>= λ abs. read_file s abs >>= λ o. scan_result (h m) g o) ≡ ok (h a)
  path_same s (ok abs) same e = content_same (read_file s abs) same e
  path_same s (err x) same e = cc

  pub scan_file_same :
      (s : MemoryStore) (path : Bytes)
      → ((ls : List Bytes) → g ls ≡ h (f ls))
      → scan_file s path m f ≡ ok a
      → scan_file s path (h m) g ≡ ok (h a)
  unfolding scan_file
  scan_file_same s path same e = path_same s (abs_path s path) same e

-- A scan that gives the same value for all files gives no other.
module _ {ℓ} {A : Type ℓ} (m a : A) where
  const_result : (r : Result (Option Bytes)) → (r >>= scan_result m (λ ls. m)) ≡ ok a → ok a ≡ ok m
  const_result (ok none) h = sym h
  const_result (ok (some content)) h = ground arith
  const_result (err e) h = cc

  const_path :
      (s : MemoryStore) (r : Result Bytes)
      → (r >>= λ abs. read_file s abs >>= scan_result m (λ ls. m)) ≡ ok a
      → ok a ≡ ok m
  const_path s (ok abs) h = const_result (read_file s abs) h
  const_path s (err e) h = cc

  pub scan_file_const :
      (s : MemoryStore) (path : Bytes) → scan_file s path m (λ ls. m) ≡ ok a → ok a ≡ ok m
  unfolding scan_file
  scan_file_const s path h = const_path s (abs_path s path) h

-- Two scans, one after the other.
module _ {ℓ} {A : Type ℓ} (f : List A → List A)
    (hom : (xs ys : List A) → f (xs ++ ys) ≡ f xs ++ f ys) where
  pub append_same :
      (es : List A) (r q r' q' : Result (List A))
      → ((xs : List A) → r ≡ ok xs → r' ≡ ok (f xs))
      → ((xs : List A) → q ≡ ok xs → q' ≡ ok (f xs))
      → (r >>= λ xs. q >>= λ ys. ok (xs ++ ys)) ≡ ok es
      → (r' >>= λ xs. q' >>= λ ys. ok (xs ++ ys)) ≡ ok (f es)
  append_same es (ok xs) (ok ys) r' q' hr hq h = ground (arith, hr xs refl, hq ys refl, hom xs ys)
  append_same es (ok xs) (err e) r' q' hr hq h = cc
  append_same es (err e) q r' q' hr hq h = cc

-- The value of a success satisfies `Q`.
abbrev pub IsOk {ℓ κ} : {A : Type ℓ} → (A → Type κ) → Result A → Type κ
IsOk Q (ok a) = Q a
IsOk Q (err e) = Unit

pub IsOk-bind {ℓ κ} :
    {A : Type ℓ} {B : Type ℓ} (P : A → Type κ) (Q : B → Type κ) (r : Result A) (k : A → Result B)
    → IsOk P r
    → ((a : A) → P a → IsOk Q (k a))
    → IsOk Q (r >>= k)
IsOk-bind P Q (ok a) k h f = f a h
IsOk-bind P Q (err e) k h f = tt

pub ok-IsOk {ℓ κ} : {A : Type ℓ} (P : A → Type κ) (r : Result A) (a : A) → r ≡ ok a → IsOk P r → P a
ok-IsOk P r a e h = subst (IsOk P) e h

pub append-IsOk {ℓ} :
    {A : Type ℓ} (P : A → Type 0) (r q : Result (List A))
    → IsOk (All P) r
    → IsOk (All P) q
    → IsOk (All P) (r >>= λ xs. q >>= λ ys. ok (xs ++ ys))
append-IsOk P (ok xs) (ok ys) h k = All-append P xs ys h k
append-IsOk P (ok xs) (err e) h k = tt
append-IsOk P (err e) q h k = tt

-- What holds of each value that a scan computes holds of its result.
module _ {ℓ κ} {A : Type ℓ} (Q : A → Type κ) (m : A) (f : List Bytes → A) (missing : Q m)
    (each : (ls : List Bytes) → Q (f ls)) where
  scan_result-IsOk : (r : Result (Option Bytes)) → IsOk Q (r >>= scan_result m f)
  scan_result-IsOk (ok none) = missing
  scan_result-IsOk (ok (some content)) =
      elim (scan mebibyte content).1
        as (λ b. IsOk Q (if b then err too_long else ok (f (scan mebibyte content).0))) [
          | true ↦ tt
          | false ↦ each (scan mebibyte content).0
        ]
  scan_result-IsOk (err e) = tt

  path-IsOk :
      (s : MemoryStore) (r : Result Bytes)
      → IsOk Q (r >>= λ abs. read_file s abs >>= scan_result m f)
  path-IsOk s (ok abs) = scan_result-IsOk (read_file s abs)
  path-IsOk s (err e) = tt

  pub scan_file-IsOk : (s : MemoryStore) (path : Bytes) → IsOk Q (scan_file s path m f)
  unfolding scan_file
  scan_file-IsOk s path = path-IsOk s (abs_path s path)
