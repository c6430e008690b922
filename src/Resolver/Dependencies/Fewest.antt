-- ===== src/Resolver/Dependencies/Fewest.antt =====
-- The choice of the next dependency in getPackageDependencies of pkg/apk/apk/repo.go does not
-- depend on the order in which Go goes through the map of options.
use apko.Base.{◌<◌, ◌≡◌, ◌≢◌, ◌⊎◌, List, [], some, Str, StrMap, get, In}
use apko.Version.{greater}
use apko.Compare.{compare_text}
use apko.Package.{PinnedPackage}
use apko.Resolver.Dependencies.{count_at}

abbrev Options : Type 0
Options = StrMap (List PinnedPackage)

module _ (all : Options) where
  -- Fewer solutions, or as many and no later name.
  abbrev pub NoWorse : Str → Str → Type 0
  NoWorse a b =
      (count_at a all < count_at b all)
      ⊎ ((count_at a all ≡ count_at b all) × (compare_text a b ≢ greater))

  -- The entries are those of the map, and no key is empty.
  abbrev pub AreEntries : Options → Type 0
  AreEntries entries =
      (k : Str) (v : List PinnedPackage) → In (k, v) entries → (get k all ≡ some v) × (k ≢ [])

  abbrev HasKey : Options → Str → Type 0
  HasKey entries k = (v : List PinnedPackage) × In (k, v) entries

  -- A name as good as the starting one and as every entry, and one of these names.
  abbrev IsBest : Str → Options → Str → Type 0
  IsBest low entries r =
      (r ≢ [])
      × (NoWorse r low)
      × ((k : Str) → HasKey entries k → NoWorse r k)
      × ((r ≡ low) ⊎ HasKey entries r)
