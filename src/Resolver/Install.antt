-- ===== src/Resolver/Install.antt =====
-- GetPackageWithDependencies and getPackagesWithDependencies of pkg/apk/apk/repo.go.
pub mod Rounds
pub mod Names
use apko.Base.{
  ℕ, zero, suc, Bool, true, false, List, [], ◌∷◌, ◌++◌, none, some, ◌==◌, if◌then◌else◌, Str, codes,
  str_eq, length, StrMap, get, put,
}
use apko.Constraint.{resolve_package_name_version_pin}
use apko.Package.{RepositoryPackage, PinnedPackage, Disqualified}
use apko.Resolver.{PkgResolver}
use apko.Resolver.Lookup.{candidates_in}
use apko.Resolver.Select.{
  dep_error, constraining_initial, panicked, out_of_fuel, Outcome, done, failed, ◌>>=◌, constrain,
  disqualify_conflicts,
}
use apko.Resolver.Resolve.{resolve_package, next_package, wrap_constraint, uniqify}
use apko.Resolver.Dependencies.{Range, set_origin, or_failed, delete_text, get_package_dependencies}

-- The orders in which `range` goes through maps: the options of a round, the packages that are
-- there already, and the names that were added, of which some may be added on the way.
pub record Orders : Type 0 where
  pub range_options : Range
  pub range_existing : StrMap RepositoryPackage → StrMap RepositoryPackage
  pub range_added : StrMap RepositoryPackage → List Str

-- The origins of the packages that are there already.
unfoldable pub origins_of : StrMap RepositoryPackage → StrMap Str → StrMap Str
origins_of [] origins = origins
origins_of ((k, v) ∷ existing) origins = origins_of existing (set_origin v origins)

-- Dependencies in order, with the map of those added by name.
pub record Added : Type 0 where
  pub dependencies : List RepositoryPackage
  pub by_name : StrMap RepositoryPackage

-- A package is added unless its name is there.
unfoldable pub add_package : Added → RepositoryPackage → Added
add_package a dep = elim (get dep.name a.by_name) [
  | some _ ↦ a
  | none ↦ record {
    dependencies = a.dependencies ++ dep ∷ [];
    by_name = put dep.name dep a.by_name;
  }
]

unfoldable pub add_packages : Added → List RepositoryPackage → Added
add_packages a [] = a
add_packages a (dep ∷ deps) = add_packages (add_package a dep) deps

-- A trigger is there by its text, or by its name at its version.
unfoldable pub trigger_met : StrMap RepositoryPackage → Str → Bool
trigger_met added sub_dep =
    let c = resolve_package_name_version_pin sub_dep in
    elim (get sub_dep added) [
      | some _ ↦ true
      | none ↦ elim (get c.name added) [ none ↦ false | some pkg ↦ str_eq pkg.version c.version ]
    ]

unfoldable pub match_count : StrMap RepositoryPackage → List Str → ℕ
match_count added [] = 0
match_count added (sub_dep ∷ sub_deps) =
    let rest = match_count added sub_deps in if trigger_met added sub_dep then suc rest else rest

-- The loop over the packages that a name triggers.
unfoldable pub add_triggered : Added → List PinnedPackage → Added
add_triggered a [] = a
add_triggered a (pkg ∷ pkgs) =
    add_triggered
      (if match_count a.by_name pkg.install_if == length pkg.install_if
        then add_package a pkg.repository_package
        else a)
      pkgs

-- `p.installIf(dep)`, and if there is nothing, `p.installIf(dep=version)`.
unfoldable pub triggered_by : PkgResolver → Str → RepositoryPackage → List PinnedPackage
triggered_by p dep dep_pkg = elim (candidates_in p p.install_if_map dep) [
  | some pkgs ↦ pkgs
  | none ↦ elim (candidates_in p p.install_if_map (dep ++ (codes "=" ++ dep_pkg.version))) [
    | some pkgs ↦ pkgs
    | none ↦ []
  ]
]

-- The loop over the added names, in the order of their visits.
unfoldable pub add_install_ifs : PkgResolver → Added → List Str → Added
add_install_ifs p a [] = a
add_install_ifs p a (dep ∷ deps) =
    add_install_ifs p
      (elim (get dep a.by_name) [
        | none ↦ a
        | some dep_pkg ↦ add_triggered a (triggered_by p dep dep_pkg)
      ])
      deps

pub record PackageFound : Type 0 where
  pub found_package : RepositoryPackage
  pub dependencies : List RepositoryPackage
  pub conflicts : List Str
  pub dq : Disqualified
  pub selected : StrMap RepositoryPackage

abbrev pub wrap_dep : {A : Type 0} → RepositoryPackage → Outcome A → Outcome A
wrap_dep pkg (done a) = done a
wrap_dep pkg (failed e) = failed (dep_error pkg e)

module _ (fuel : ℕ) (p : PkgResolver) (orders : Orders) where
  -- PkgResolver.GetPackageWithDependencies. The copy of `existing` is dropped behind the call.
  unfoldable pub get_package_with_dependencies :
      Str
      → StrMap RepositoryPackage
      → Disqualified
      → StrMap RepositoryPackage
      → Outcome PackageFound
  get_package_with_dependencies pkg_name existing dq selected = do
    pkg ← wrap_constraint pkg_name (resolve_package p pkg_name dq)
    found ← wrap_dep pkg (
        get_package_dependencies fuel p orders.range_options
          (resolve_package_name_version_pin pkg_name).pin [] pkg
          (record {
            dq = dq;
            selected = selected;
            existing = existing;
            existing_origins = origins_of (orders.range_existing existing) [];
          }))
    let unique = add_packages (record { dependencies = []; by_name = [] }) found.dependencies
    let all = add_install_ifs p unique (orders.range_added unique.by_name)
    done (record {
      found_package = pkg;
      dependencies = all.dependencies;
      conflicts = found.conflicts;
      dq = found.state.dq;
      selected = found.state.selected;
    })

-- The first loop: what it carries besides the constraints.
pub record Choosing : Type 0 where
  pub chosen : StrMap RepositoryPackage
  pub dq : Disqualified

-- The loop that chooses a package for every constraint, with fuel for its rounds.
unfoldable pub choose_rounds : PkgResolver → ℕ → List Str → Choosing → Outcome Choosing
choose_rounds p rounds [] c = done c
choose_rounds p zero (s ∷ ss) c = failed out_of_fuel
choose_rounds p (suc rounds) (s ∷ ss) c = do
  next ← next_package p (s ∷ ss) c.dq
  pkg ← wrap_constraint next (resolve_package p next c.dq)
  dq ← or_failed (disqualify_conflicts p pkg c.dq) panicked
  choose_rounds p rounds (delete_text next (s ∷ ss))
      (record { chosen = put pkg.name pkg c.chosen; dq = dq })

-- What the second loop carries.
pub record Installing : Type 0 where
  pub to_install : Added
  pub dependencies_map : StrMap RepositoryPackage
  pub conflicts : List Str
  pub dq : Disqualified
  pub selected : StrMap RepositoryPackage

unfoldable pub put_new : StrMap RepositoryPackage → RepositoryPackage → StrMap RepositoryPackage
put_new m pkg = elim (get pkg.name m) [ some _ ↦ m | none ↦ put pkg.name pkg m ]

unfoldable pub put_all_new :
    StrMap RepositoryPackage → List RepositoryPackage → StrMap RepositoryPackage
put_all_new m [] = m
put_all_new m (pkg ∷ pkgs) = put_all_new (put_new m pkg) pkgs

-- One package with its dependencies, behind the packages that are there.
unfoldable pub install_found : Installing → PackageFound → Installing
install_found i f = record {
  to_install = add_package (add_packages i.to_install f.dependencies) f.found_package;
  dependencies_map = put_new (put_all_new i.dependencies_map f.dependencies) f.found_package;
  conflicts = i.conflicts ++ f.conflicts;
  dq = f.dq;
  selected = f.selected;
}

abbrev pub wrap_initial : Outcome Disqualified → Outcome Disqualified
wrap_initial (done dq) = done dq
wrap_initial (failed e) = failed (constraining_initial e)

-- What the second loop starts with.
abbrev pub start_installing : PkgResolver → Choosing → Installing
start_installing p chosen = record {
  to_install = record { dependencies = []; by_name = [] };
  dependencies_map = chosen.chosen;
  conflicts = [];
  dq = chosen.dq;
  selected = p.selected;
}

module _ (fuel : ℕ) (p : PkgResolver) (orders : Orders) where
  -- The loop over the packages that are asked for.
  unfoldable pub install_all : List Str → Installing → Outcome Installing
  install_all [] i = done i
  install_all (pkg_name ∷ packages) i = do
    found ←
        wrap_constraint pkg_name
          (get_package_with_dependencies fuel p orders pkg_name i.dependencies_map i.dq i.selected)
    install_all packages (install_found i found)

  -- PkgResolver.getPackagesWithDependencies: the packages to install and the conflicts.
  unfoldable pub get_packages_with_dependencies :
      List Str → Disqualified → Outcome (List RepositoryPackage × List Str)
  get_packages_with_dependencies packages dq = do
    dq' ← wrap_initial (constrain p packages dq)
    chosen ← choose_rounds p (length packages) packages (record { chosen = []; dq = dq' })
    i ← install_all packages (start_installing p chosen)
    done (i.to_install.dependencies, uniqify i.conflicts)
