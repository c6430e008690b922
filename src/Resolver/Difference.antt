-- ===== src/Resolver/Difference.antt =====
-- disqualifyResolverDifference and disqualifyDifference of pkg/apk/apk/repo.go: packages that
-- another architecture lacks.
pub mod Versions
pub mod Available
use apko.Base.{
  ℕ, Bool, true, false, not, ◌||◌, List, [], ◌∷◌, ◌++◌, Option, none, some, leb, ◌==◌,
  if◌then◌else◌, Str, str_eq, length, any, StrMap, get, put,
}
use apko.Package.{RepositoryPackage, PinnedPackage, Disqualified, not_available, disqualify}
use apko.Resolver.{NamedIndex, PackageMap, PkgResolver, new_pkg_resolver}

-- The packages of an architecture, and the versions that it has under each name.
pub record ArchPackages : Type 0 where
  pub kept : List PinnedPackage
  pub allowed : StrMap (List Str)

unfoldable pub versions_at : Str → StrMap (List Str) → List Str
versions_at name m = elim (get name m) [ none ↦ [] | some l ↦ l ]

unfoldable pub is_kept : PkgResolver → RepositoryPackage → Bool
is_kept r pkg = elim r.keep [ none ↦ true | some keep ↦ keep pkg ]

-- One package that is listed under a name: passed over under a name that it provides, and if the
-- resolver's filter drops it.
unfoldable pub add_own_package : PkgResolver → Str → PinnedPackage → ArchPackages → ArchPackages
add_own_package r name pkg a =
    if not (str_eq pkg.name name) || not (is_kept r pkg.repository_package) then a else record {
      kept = a.kept ++ pkg ∷ [];
      allowed = put pkg.name (pkg.version ∷ versions_at pkg.name a.allowed) a.allowed;
    }

unfoldable pub add_own : PkgResolver → Str → List PinnedPackage → ArchPackages → ArchPackages
add_own r name [] a = a
add_own r name (pkg ∷ pkgs) a = add_own r name pkgs (add_own_package r name pkg a)

-- The loop over the map of names, in the order of its entries.
unfoldable pub add_entries : PkgResolver → PackageMap → ArchPackages → ArchPackages
add_entries r [] a = a
add_entries r ((name, pkgs) ∷ entries) a = add_entries r entries (add_own r name pkgs a)

unfoldable pub arch_packages : PkgResolver → ArchPackages
arch_packages r = add_entries r r.name_map (record { kept = []; allowed = [] })

-- `perArch`
unfoldable pub per_arch : StrMap PkgResolver → StrMap ArchPackages
per_arch [] = []
per_arch ((arch, r) ∷ rs) = (arch, arch_packages r) ∷ per_arch rs

unfoldable pub has_version : ArchPackages → RepositoryPackage → Bool
has_version a pkg = any (str_eq pkg.version) (versions_at pkg.name a.allowed)

-- The inner loop: the first other architecture that lacks the package's version.
unfoldable pub missing_from : Str → RepositoryPackage → StrMap ArchPackages → Option Str
missing_from arch pkg [] = none
missing_from arch pkg ((other_arch, other) ∷ others) =
    let rest = missing_from arch pkg others in
    if str_eq other_arch arch then rest else if has_version other pkg then rest else some other_arch

-- One round for a package that its own architecture keeps.
unfoldable pub disqualify_if_missing :
    Str → StrMap ArchPackages → RepositoryPackage → Disqualified → Disqualified
disqualify_if_missing arch all pkg dq = elim (missing_from arch pkg all) [
  | none ↦ dq
  | some other_arch ↦ disqualify dq pkg (not_available other_arch)
]

unfoldable pub disqualify_missing :
    Str → StrMap ArchPackages → List PinnedPackage → Disqualified → Disqualified
disqualify_missing arch all [] dq = dq
disqualify_missing arch all (pkg ∷ pkgs) dq =
    disqualify_missing arch all pkgs (disqualify_if_missing arch all pkg.repository_package dq)

unfoldable pub disqualify_archs :
    StrMap ArchPackages → StrMap ArchPackages → Disqualified → Disqualified
disqualify_archs all [] dq = dq
disqualify_archs all ((arch, a) ∷ archs) dq =
    disqualify_archs all archs (disqualify_missing arch all a.kept dq)

-- disqualifyResolverDifference. The maps are gone through in the order of their entries.
unfoldable pub disqualify_resolver_difference : StrMap PkgResolver → Disqualified
disqualify_resolver_difference by_arch =
    let found = disqualify_archs (per_arch by_arch) (per_arch by_arch) [] in
    if leb (length by_arch) 1 then [] else found

-- The versions under each name in the indexes of an architecture.
unfoldable pub allow_packages : List RepositoryPackage → StrMap (List Str) → StrMap (List Str)
allow_packages [] allowed = allowed
allow_packages (pkg ∷ pkgs) allowed =
    allow_packages pkgs (put pkg.name (pkg.version ∷ versions_at pkg.name allowed) allowed)

unfoldable pub allow_indexes : List NamedIndex → StrMap (List Str) → StrMap (List Str)
allow_indexes [] allowed = allowed
allow_indexes (index ∷ indexes) allowed =
    allow_indexes indexes (allow_packages index.packages allowed)

-- `allowablePackages`
unfoldable pub allowable_packages : StrMap (List NamedIndex) → StrMap (StrMap (List Str))
allowable_packages [] = []
allowable_packages ((arch, indexes) ∷ by_arch) =
    (arch, allow_indexes indexes []) ∷ allowable_packages by_arch

-- The loop over the packages under one name, provided names included.
unfoldable pub disqualify_not_allowed :
    Str → StrMap (List Str) → List PinnedPackage → Disqualified → Disqualified
disqualify_not_allowed other_arch allowed [] dq = dq
disqualify_not_allowed other_arch allowed (pkg ∷ pkgs) dq =
    disqualify_not_allowed other_arch allowed pkgs (
      if any (str_eq pkg.version) (versions_at pkg.name allowed)
      then dq
      else disqualify dq pkg.repository_package (not_available other_arch))

unfoldable pub disqualify_names : Str → StrMap (List Str) → PackageMap → Disqualified → Disqualified
disqualify_names other_arch allowed [] dq = dq
disqualify_names other_arch allowed ((name, pkgs) ∷ entries) dq =
    disqualify_names other_arch allowed entries (disqualify_not_allowed other_arch allowed pkgs dq)

-- The loop over the other architectures.
unfoldable pub disqualify_against :
    Str → PackageMap → StrMap (StrMap (List Str)) → Disqualified → Disqualified
disqualify_against arch name_map [] dq = dq
disqualify_against arch name_map ((other_arch, allowed) ∷ others) dq =
    disqualify_against arch name_map others
      (if str_eq other_arch arch then dq else disqualify_names other_arch allowed name_map dq)

unfoldable pub disqualify_each :
    (List Str → List Str)
    → StrMap (List NamedIndex)
    → StrMap (List NamedIndex)
    → Disqualified
    → Disqualified
disqualify_each visit by_arch [] dq = dq
disqualify_each visit by_arch ((arch, indexes) ∷ archs) dq = disqualify_each visit by_arch archs (
    disqualify_against arch (new_pkg_resolver visit indexes).name_map (allowable_packages by_arch)
      dq)

-- disqualifyDifference. A resolver from the cache is one that is built from the same indexes.
unfoldable pub disqualify_difference :
    (List Str → List Str) → StrMap (List NamedIndex) → Disqualified
disqualify_difference visit by_arch =
    let found = disqualify_each visit by_arch by_arch [] in
    if length by_arch == 1 then [] else found
