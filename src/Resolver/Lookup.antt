-- ===== src/Resolver/Lookup.antt =====
-- PkgResolver.lookup, filter and order of pkg/apk/apk/repo.go.
pub mod Memo
pub mod Rank
use apko.Base.{
  ℕ, Bool, true, false, ◌&&◌, List, [], ◌∷◌, ◌++◌, Option, none, some, leb, ltb, if◌then◌else◌, Str,
  StrMap, get, put, keep_if,
}
use apko.Package.{RepositoryPackage, PinnedPackage}
use apko.Resolver.{PackageMap, PkgResolver}

-- PkgResolver.filter. That nothing is copied as long as nothing is rejected is not modelled.
unfoldable pub filter_kept :
    Option (RepositoryPackage → Bool) → List PinnedPackage → List PinnedPackage
filter_kept none all = all
filter_kept (some keep) all = keep_if (λ pkg. keep pkg.repository_package) all

module _ (rank : RepositoryPackage → ℕ) where
  -- slices.IsSortedFunc by rank.
  unfoldable pub is_sorted : List PinnedPackage → Bool
  is_sorted [] = true
  is_sorted (a ∷ []) = true
  is_sorted (a ∷ b ∷ pkgs) =
      leb (rank a.repository_package) (rank b.repository_package) && is_sorted (b ∷ pkgs)

  -- slices.SortStableFunc by rank: each package goes before the first one of at least its rank.
  unfoldable pub insert_ranked : PinnedPackage → List PinnedPackage → List PinnedPackage
  insert_ranked a [] = a ∷ []
  insert_ranked a (b ∷ pkgs) =
      let rest = insert_ranked a pkgs in
      if leb (rank a.repository_package) (rank b.repository_package) then a ∷ b ∷ pkgs else b ∷ rest

  unfoldable pub sort_stable : List PinnedPackage → List PinnedPackage
  sort_stable [] = []
  sort_stable (a ∷ pkgs) = insert_ranked a (sort_stable pkgs)

  -- PkgResolver.order
  unfoldable pub order : List PinnedPackage → List PinnedPackage
  order pkgs = if is_sorted pkgs then pkgs else sort_stable pkgs

unfoldable pub order_kept : Option (RepositoryPackage → ℕ) → List PinnedPackage → List PinnedPackage
order_kept none pkgs = pkgs
order_kept (some rank) pkgs = order rank pkgs

-- `p.keep == nil && p.rank == nil`
abbrev pub is_plain : Option (RepositoryPackage → Bool) → Option (RepositoryPackage → ℕ) → Bool
is_plain none none = true
is_plain _ _ = false

-- `kept, len(kept) != 0`
abbrev pub if_some : List PinnedPackage → Option (List PinnedPackage)
if_some [] = none
if_some (p ∷ ps) = some (p ∷ ps)

-- The kept and ordered slice of a key.
unfoldable pub arrange : PkgResolver → List PinnedPackage → List PinnedPackage
arrange p all = order_kept p.rank (filter_kept p.keep all)

-- Behind a miss of the memo: compute the slice and store it.
unfoldable pub fill_memo :
    PkgResolver → PackageMap → Str → List PinnedPackage → Option (List PinnedPackage) × PackageMap
fill_memo p memo key all = (if_some (arrange p all), put key (arrange p all) memo)

-- PkgResolver.lookup: the answer, and the memo behind it.
unfoldable pub lookup :
    PkgResolver → PackageMap → PackageMap → Str → Option (List PinnedPackage) × PackageMap
lookup p m memo key = elim (get key m) [
  | none ↦ (none, memo)
  | some all ↦ if is_plain p.keep p.rank then (some all, memo) else (elim (get key memo) [
    | some kept ↦ (if_some kept, memo)
    | none ↦ fill_memo p memo key all
  ])
]

-- The answer with an empty memo.
unfoldable pub candidates_in : PkgResolver → PackageMap → Str → Option (List PinnedPackage)
candidates_in p m key = elim (get key m) [
  | none ↦ none
  | some all ↦ if is_plain p.keep p.rank then some all else if_some (arrange p all)
]

-- PkgResolver.candidates and PkgResolver.installIf: the lookups store the new memo.
unfoldable pub candidates : PkgResolver → Str → Option (List PinnedPackage) × PkgResolver
candidates p name =
    let (pkgs, memo) = lookup p p.name_map p.kept_names name in
    (pkgs, record p { kept_names = memo })

unfoldable pub install_if : PkgResolver → Str → Option (List PinnedPackage) × PkgResolver
install_if p dep =
    let (pkgs, memo) = lookup p p.install_if_map p.kept_install_if dep in
    (pkgs, record p { kept_install_if = memo })
