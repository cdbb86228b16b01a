-- ===== src/Domain/Owner/Deepest.antt =====
-- The owner of a path is the deepest domain that owns it.
use cogmemory.Base.{
  ℕ, suc, ◌≤◌, Bool, true, false, List, [], ◌∷◌, Option, none, some, ◌≡◌, refl, ◌⊎◌, inl, inr,
  arith, Bytes, All, Any, length,
}
use cogmemory.FilePath.{clean}
use cogmemory.Domain.Schema.{Domain, info, walk}
use cogmemory.Domain.Controller.{Controller}
use cogmemory.Domain.Owner.{owns, Best, beats, take_better, best_owner, domain_for_path}

abbrev pub depth_of : Domain → ℕ
depth_of d = length (clean (info d).path)

abbrev rank : Option Best → ℕ
rank none = 0
rank (some b) = suc b.depth

rank_step :
    (id : Bytes) (n : ℕ) (o : Option Bytes) (b : Option Best) → rank b ≤ rank (take_better id n o b)
rank_step id n o b = ground arith

rank_grows :
    (rel : Bytes) (ds : List Domain) (b : Option Best) → rank b ≤ rank (best_owner rel ds b)
unfolding best_owner
rank_grows rel [] b = omega arith
rank_grows rel (d ∷ ds) b =
    let n = take_better (info d).id (depth_of d) (owns rel (clean (info d).path)) b in
    omega (
      arith,
      rank_step (info d).id (depth_of d) (owns rel (clean (info d).path)) b,
      rank_grows rel ds n,
    )

abbrev pub Owns : Bytes → Domain → Bytes → Type 0
Owns rel d file = owns rel (clean (info d).path) ≡ some file

rank_taken :
    (id file : Bytes) (n : ℕ) (b : Option Best) → suc n ≤ rank (take_better id n (some file) b)
rank_taken id file n b = ground arith

owners_below :
    (rel : Bytes) (ds : List Domain) (b : Option Best)
    → All (λ d. (file : Bytes) → Owns rel d file → suc (depth_of d) ≤ rank (best_owner rel ds b)) ds
unfolding best_owner
owners_below rel [] b = tt
owners_below rel (d ∷ ds) b = (
  λ file h. rw h (
      omega (
        arith,
        rank_taken (info d).id file (depth_of d) b,
        rank_grows rel ds (take_better (info d).id (depth_of d) (some file) b),
      )),
  owners_below rel ds (take_better (info d).id (depth_of d) (owns rel (clean (info d).path)) b),
)

-- `b` names a domain that owns the path, with its depth and the file name in it.
pub record IsOwner (rel : Bytes) (b : Best) (d : Domain) : Type 0 where
  pub same_id : b.id ≡ (info d).id
  pub same_depth : b.depth ≡ depth_of d
  pub owned : Owns rel d b.file

take_source :
    (rel : Bytes) (d : Domain) (b : Option Best) (o : Option Bytes) (r : Best)
    → owns rel (clean (info d).path) ≡ o
    → take_better (info d).id (depth_of d) o b ≡ some r
    → (b ≡ some r) ⊎ IsOwner rel r d
take_source rel d b none r e h = inl h
take_source rel d b (some file) r e h = go (beats (depth_of d) b) refl
  where
    go : (t : Bool) → beats (depth_of d) b ≡ t → (b ≡ some r) ⊎ IsOwner rel r d
    go true k =
        inr (record { same_id = ground arith; same_depth = ground arith; owned = ground arith })
    go false k = inl (ground arith)

best_source :
    (rel : Bytes) (ds : List Domain) (b : Option Best) (r : Best)
    → best_owner rel ds b ≡ some r
    → (b ≡ some r) ⊎ Any (IsOwner rel r) ds
unfolding best_owner
best_source rel [] b r h = inl h
best_source rel (d ∷ ds) b r h =
    elim (best_source rel ds
      (take_better (info d).id (depth_of d) (owns rel (clean (info d).path)) b) r h) [
        | inr later ↦ inr (inr later)
        | inl now ↦ elim (take_source rel d b (owns rel (clean (info d).path)) r refl now) [
          | inl old ↦ inl old
          | inr own ↦ inr (inl own)
        ]
      ]

bounded_by :
    (rel : Bytes) (ds : List Domain) (n : ℕ)
    → All (λ d. (file : Bytes) → Owns rel d file → suc (depth_of d) ≤ suc n) ds
    → All (λ d. (file : Bytes) → Owns rel d file → depth_of d ≤ n) ds
bounded_by rel [] n h = tt
bounded_by rel (d ∷ ds) n h = (λ file o. omega (arith, h.0 file o), bounded_by rel ds n h.1)

-- The answer of DomainForPath is a declared domain that owns the path, and no declared domain that
-- owns it has a longer path.
pub domain_for_path_deepest :
    (c : Controller) (rel : Bytes) (best : Best)
    → domain_for_path c rel ≡ some best
    → Any (IsOwner (clean rel) best) (walk c.domains)
      × All
          (λ d. (file : Bytes) → Owns (clean rel) d file → depth_of d ≤ best.depth)
          (walk c.domains)
unfolding domain_for_path
domain_for_path_deepest c rel best h = (
  elim (best_source (clean rel) (walk c.domains) none best h) [
    | inl e ↦ absurd (ground arith)
    | inr found ↦ found
  ],
  bounded_by (clean rel) (walk c.domains) best.depth
      (rw h at (owners_below (clean rel) (walk c.domains) none)),
)
