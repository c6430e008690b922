-- ===== src/Resolver/Lookup/Rank.antt =====
-- PkgResolver.order of pkg/apk/apk/repo.go sorts by rank, and keeps the order of equal ranks.
use apko.Base.{ℕ, ◌≡◌, refl, true, ◌≤◌, List, [], ◌∷◌, arith, leb, ◌==◌, keep_if, All}
use apko.Package.{RepositoryPackage, PinnedPackage}
use apko.Resolver.Lookup.{is_sorted, insert_ranked, sort_stable, order}

module _ (rank : RepositoryPackage → ℕ) where
  -- Inserting keeps a sorted list sorted, behind an element of no higher rank too.
  insert_ranked-sorted :
      (a b : PinnedPackage) (pkgs : List PinnedPackage)
      → is_sorted rank (b ∷ pkgs) ≡ true
      → leb (rank b.repository_package) (rank a.repository_package) ≡ true
      → is_sorted rank (b ∷ insert_ranked rank a pkgs) ≡ true
  unfolding is_sorted insert_ranked
  insert_ranked-sorted a b [] h k = ground arith
  insert_ranked-sorted a b (c ∷ pkgs) h k = ground (arith, insert_ranked-sorted a c pkgs)

  sort_stable-sorted : (pkgs : List PinnedPackage) → is_sorted rank (sort_stable rank pkgs) ≡ true
  unfolding sort_stable
  sort_stable-sorted [] = unfold is_sorted in refl
  sort_stable-sorted (a ∷ pkgs) = insert_sorted (sort_stable rank pkgs) (sort_stable-sorted pkgs)
    where
      insert_sorted :
          (l : List PinnedPackage)
          → is_sorted rank l ≡ true
          → is_sorted rank (insert_ranked rank a l) ≡ true
      insert_sorted [] h = unfold is_sorted insert_ranked in refl
      insert_sorted (b ∷ l) h =
          unfold is_sorted insert_ranked in ground (arith, insert_ranked-sorted a b l h)

  -- Every package has at most the rank of each package behind it.
  abbrev pub Ascending : List PinnedPackage → Type 0
  Ascending [] =
      All {A = PinnedPackage} (λ b. rank b.repository_package ≤ rank b.repository_package) []
  Ascending (a ∷ pkgs) =
      All (λ b. rank a.repository_package ≤ rank b.repository_package) pkgs × Ascending pkgs

  sorted-above :
      (n : ℕ) (b : PinnedPackage) (pkgs : List PinnedPackage)
      → n ≤ rank b.repository_package
      → is_sorted rank (b ∷ pkgs) ≡ true
      → All (λ c. n ≤ rank c.repository_package) (b ∷ pkgs)
  unfolding is_sorted
  sorted-above n b [] h k = (h, tt)
  sorted-above n b (c ∷ pkgs) h k = (h, sorted-above n c pkgs (ground arith) (ground arith))

  sorted-Ascending : (pkgs : List PinnedPackage) → is_sorted rank pkgs ≡ true → Ascending pkgs
  unfolding is_sorted
  sorted-Ascending [] h = tt
  sorted-Ascending (a ∷ []) h = (tt, tt)
  sorted-Ascending (a ∷ b ∷ pkgs) h = (
    sorted-above (rank a.repository_package) b pkgs (ground arith) (ground arith),
    sorted-Ascending (b ∷ pkgs) (ground arith),
  )

  order-sorted : (pkgs : List PinnedPackage) → is_sorted rank (order rank pkgs) ≡ true
  unfolding order
  order-sorted pkgs = ground (arith, sort_stable-sorted pkgs)

  insert_ranked-same :
      (r : ℕ) (a : PinnedPackage) (pkgs : List PinnedPackage)
      → keep_if (λ p. rank p.repository_package == r) (insert_ranked rank a pkgs)
        ≡ keep_if (λ p. rank p.repository_package == r) (a ∷ pkgs)
  unfolding keep_if insert_ranked
  insert_ranked-same r a [] = refl
  insert_ranked-same r a (b ∷ pkgs) = ground (arith, insert_ranked-same r a pkgs)

  sort_stable-same :
      (r : ℕ) (pkgs : List PinnedPackage)
      → keep_if (λ p. rank p.repository_package == r) (sort_stable rank pkgs)
        ≡ keep_if (λ p. rank p.repository_package == r) pkgs
  unfolding sort_stable keep_if
  sort_stable-same r [] = refl
  sort_stable-same r (a ∷ pkgs) =
      ground (arith, insert_ranked-same r a (sort_stable rank pkgs), sort_stable-same r pkgs)

  -- In the ordered packages no package has a higher rank than one behind it, and those of each rank
  -- are the given ones of that rank in their given order.
  pub order_lem :
      (pkgs : List PinnedPackage)
      → Ascending (order rank pkgs)
        × ((r : ℕ)
            → keep_if (λ p. rank p.repository_package == r) (order rank pkgs)
              ≡ keep_if (λ p. rank p.repository_package == r) pkgs)
  unfolding order
  order_lem pkgs = (
    sorted-Ascending (order rank pkgs) (order-sorted pkgs),
    λ r. ground (arith, sort_stable-same r pkgs),
  )
