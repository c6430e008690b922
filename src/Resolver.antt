-- ===== src/Resolver.antt =====
-- pkg/apk/apk/repo.go: the resolver's data, its copies, and the maps of packages that it is built
-- from.
pub mod Index
pub mod Lookup
pub mod Select
pub mod Resolve
pub mod Dependencies
pub mod Install
pub mod Difference
use apko.Base.{
  ℕ, Bool, true, false, ◌&&◌, List, [], ◌∷◌, ◌++◌, map, Option, none, some, if◌then◌else◌, Str,
  StrMap, get, put,
}
use apko.Constraint.{resolve_package_name_version_pin}
use apko.Package.{RepositoryPackage, PinnedPackage}

-- A NamedIndex: its name, by which packages are pinned, and its packages.
pub record NamedIndex : Type 0 where
  pub index_name : Str
  pub packages : List RepositoryPackage

abbrev pub PackageMap : Type 0
PackageMap = StrMap (List PinnedPackage)

pub record PkgResolver : Type 0 where
  pub indexes : List NamedIndex
  pub name_map : PackageMap
  pub install_if_map : PackageMap
  pub keep : Option (RepositoryPackage → Bool)
  pub rank : Option (RepositoryPackage → ℕ)
  pub kept_names : PackageMap
  pub kept_install_if : PackageMap
  pub selected : StrMap RepositoryPackage

-- `m[k]` of a map of slices: a missing key is the empty slice.
unfoldable pub list_at : Str → PackageMap → List PinnedPackage
list_at k m = elim (get k m) [ none ↦ [] | some l ↦ l ]

-- `m[k] = append(m[k], pkg)`
unfoldable pub append_to : Str → PinnedPackage → PackageMap → PackageMap
append_to k pkg m = put k (list_at k m ++ pkg ∷ []) m

-- The loop over the install-if triggers of a package.
unfoldable pub add_triggers : PinnedPackage → List Str → PackageMap → PackageMap
add_triggers pkg [] m = m
add_triggers pkg (dep ∷ deps) m = add_triggers pkg deps (append_to dep pkg m)

-- The packages of the indexes with their pins, in the order of the two nested loops.
unfoldable pub pinned : Str → List RepositoryPackage → List PinnedPackage
pinned n [] = []
pinned n (p ∷ ps) = record { repository_package = p; pinned_name = n } ∷ pinned n ps

unfoldable pub listed : List NamedIndex → List PinnedPackage
listed [] = []
listed (i ∷ is) = pinned i.index_name i.packages ++ listed is

unfoldable pub add_names : List PinnedPackage → PackageMap → PackageMap
add_names [] m = m
add_names (pkg ∷ pkgs) m = add_names pkgs (append_to pkg.name pkg m)

unfoldable pub add_install_if : List PinnedPackage → PackageMap → PackageMap
add_install_if [] m = m
add_install_if (pkg ∷ pkgs) m = add_install_if pkgs (add_triggers pkg pkg.install_if m)

-- The loop over the provides of a package.
unfoldable pub add_provides : PinnedPackage → List Str → PackageMap → PackageMap
add_provides pkg [] m = m
add_provides pkg (prov ∷ provs) m =
    add_provides pkg provs (append_to (resolve_package_name_version_pin prov).name pkg m)

unfoldable pub add_all_provides : List PinnedPackage → PackageMap → PackageMap
add_all_provides [] m = m
add_all_provides (pkg ∷ pkgs) m = add_all_provides pkgs (add_provides pkg pkg.provides m)

-- `allPkgs`: the slices of the map in the order in which `range` visits its keys.
unfoldable pub collect : List Str → PackageMap → List PinnedPackage
collect [] m = []
collect (k ∷ ks) m = list_at k m ++ collect ks m

-- mapPackages. `visit` is the order in which `range` goes through the names of the first pass.
unfoldable pub map_packages : (List Str → List Str) → List NamedIndex → PackageMap × PackageMap
map_packages visit indexes =
    let names = add_names (listed indexes) [] in
    (
      add_all_provides (collect (visit (map (λ e. e.0) names)) names) names,
      add_install_if (listed indexes) [],
    )

-- newPkgResolver
unfoldable pub new_pkg_resolver : (List Str → List Str) → List NamedIndex → PkgResolver
new_pkg_resolver visit indexes =
    let (name_map, install_if_map) = map_packages visit indexes in
    record {
      indexes = indexes;
      name_map = name_map;
      install_if_map = install_if_map;
      keep = none;
      rank = none;
      kept_names = [];
      kept_install_if = [];
      selected = [];
    }

-- PkgResolver.Clone
unfoldable pub clone : PkgResolver → PkgResolver
clone p = record p { kept_names = []; kept_install_if = []; selected = [] }

unfoldable pub both_keep :
    Option (RepositoryPackage → Bool)
    → Option (RepositoryPackage → Bool)
    → Option (RepositoryPackage → Bool)
both_keep outer none = outer
both_keep none (some keep) = some keep
both_keep (some outer) (some keep) = some (λ pkg. outer pkg && keep pkg)

-- PkgResolver.Filtered
unfoldable pub filtered : PkgResolver → Option (RepositoryPackage → Bool) → PkgResolver
filtered p keep = record (clone p) { keep = both_keep p.keep keep }

-- PkgResolver.Ranked
unfoldable pub ranked : PkgResolver → Option (RepositoryPackage → ℕ) → PkgResolver
ranked p none = clone p
ranked p (some rank) = record (clone p) { rank = some rank }

-- The loop of Extend over an added map: `m[name] = slices.Concat(m[name], pkgs)`.
unfoldable pub concat_maps : PackageMap → PackageMap → PackageMap
concat_maps m [] = m
concat_maps m ((k, pkgs) ∷ added) = concat_maps (put k (list_at k m ++ pkgs) m) added

-- PkgResolver.Extend
unfoldable pub extend : (List Str → List Str) → PkgResolver → List NamedIndex → PkgResolver
extend visit p indexes =
    let (names, install_if) = map_packages visit indexes in
    record {
      indexes = p.indexes ++ indexes;
      name_map = concat_maps p.name_map names;
      install_if_map = concat_maps p.install_if_map install_if;
      keep = p.keep;
      rank = p.rank;
      kept_names = [];
      kept_install_if = [];
      selected = [];
    }
