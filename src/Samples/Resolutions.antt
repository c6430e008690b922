-- ===== src/Samples/Resolutions.antt =====
-- Samples for whole resolutions.
use apko.Base.{◌≡◌, refl, ◌≢◌, ◌↔◌, ◌≤◌, List, [], ◌∷◌, arith, Str, codes, In, keys, length}
use apko.Package.{RepositoryPackage, filename, url}
use apko.Filter.{
  installed_elsewhere, pin_rejected, version_satisfies, provides_satisfy, package_satisfies,
  verdict, filter_loop, filter_packages,
}
use apko.Compare.{
  compare_text, provided_version, get_dep_version_for_name, prefer, newest_first, by_version,
  is_existing, text_at, origin_matched, by_compared, by_requested_name, by_principal_name,
  by_priority, by_build, compare_packages, earlier, min_from, best_package,
}
use apko.Resolver.Select.{done, failed, out_of_fuel}
use apko.Resolver.Resolve.{
  reasons, maybe_dq_error, meeting, resolve_package, insert_behind, reverse_onto, sort_onto,
  sort_packages, unpinned, resolve_packages, take_fewer, next_loop, next_package, uniqify_from,
  uniqify,
}
use apko.Resolver.Dependencies.{
  my_provides, meets_itself, provide_meets, selected_verdict, selected_meets, find_options,
  examine_needed, examine, record_finding, scan_constraints, fewer, lowest_from, delete_text,
  set_origin, add_existing, take_lowest, dependency_rounds, get_package_dependencies,
}
use apko.Resolver.Install.{
  Orders, origins_of, add_package, add_packages, trigger_met, match_count, add_triggered,
  triggered_by, add_install_ifs, get_package_with_dependencies, choose_rounds, put_new, put_all_new,
  install_found, install_all, get_packages_with_dependencies,
}
use apko.Resolver.Install.Rounds.{choose_rounds_lem}
use apko.Resolver.Resolve.NextPackage.{next_package_lem}
use apko.Resolver.Install.Names.{
  NamesDiffer, Distinct, uniqify_lem, get_packages_with_dependencies_lem,
}
use apko.Resolver.{PkgResolver}
use apko.Resolver.Difference.{disqualify_resolver_difference}
use apko.Resolver.Difference.Versions.{Owns}
use apko.Resolver.Difference.Available.{Lacks, disqualify_resolver_difference_iff}
use apko.Package.{is_disqualified}
use apko.Base.{true}
use apko.Package.{PinnedPackage}
use apko.Base.{StrMap}
use apko.Samples.{new_library, program_package, resolver, program}

resolution : Unit {0}
unfolding program filename url installed_elsewhere pin_rejected version_satisfies provides_satisfy
    package_satisfies verdict filter_loop filter_packages compare_text provided_version
    get_dep_version_for_name prefer newest_first by_version is_existing text_at origin_matched
    by_compared by_requested_name by_principal_name by_priority by_build compare_packages earlier
    min_from best_package reasons maybe_dq_error meeting resolve_package insert_behind reverse_onto
    sort_onto sort_packages unpinned resolve_packages take_fewer next_loop next_package uniqify_from
    uniqify my_provides meets_itself provide_meets selected_verdict selected_meets find_options
    examine_needed examine record_finding scan_constraints fewer lowest_from delete_text set_origin
    add_existing take_lowest dependency_rounds get_package_dependencies origins_of add_package
    add_packages trigger_met match_count add_triggered triggered_by add_install_ifs
    get_package_with_dependencies choose_rounds put_new put_all_new install_found install_all
    get_packages_with_dependencies
resolution = tt

abbrev visits : Orders
visits = record { range_options = λ m. m; range_existing = λ m. m; range_added = λ m. keys m }

abbrev asked : List Str
asked = codes "lib" ∷ codes "app" ∷ []

-- The library is installed before the package that needs it.
resolves :
    get_packages_with_dependencies 3 resolver visits asked []
    ≡ done (new_library ∷ program_package ∷ [], [])
unfolding resolution
resolves = refl

get_packages_with_dependencies_lem_example :
    NamesDiffer (new_library ∷ program_package ∷ []) × Distinct []
get_packages_with_dependencies_lem_example =
    get_packages_with_dependencies_lem 3 resolver visits asked []
      (new_library ∷ program_package ∷ []) [] resolves

next_package-asked : next_package resolver asked [] ≡ done (codes "lib")
unfolding resolution
next_package-asked = refl

asked-nonempty : (s : Str) → In s asked → s ≢ []
asked-nonempty s i h = ground (arith, i, h)

next_package_lem_example :
    In (codes "lib") asked
    × ((pkgs : List RepositoryPackage) × (resolve_packages resolver (codes "lib") [] ≡ done pkgs)
        × ((s : Str) (others : List RepositoryPackage)
            → In s asked
            → resolve_packages resolver s [] ≡ done others
            → length pkgs ≤ length others))
next_package_lem_example =
    next_package_lem resolver asked [] (codes "lib") (λ h. cc) asked-nonempty next_package-asked

choose_rounds_lem_example :
    choose_rounds resolver 2 asked (record { chosen = []; dq = [] }) ≢ failed out_of_fuel
choose_rounds_lem_example =
    choose_rounds_lem resolver 2 asked (record { chosen = []; dq = [] }) (omega arith)

abbrev repeated : List Str
repeated = codes "a" ∷ codes "b" ∷ codes "a" ∷ []

uniqify_lem_example :
    Distinct (uniqify repeated) × ((s : Str) → In s (uniqify repeated) ↔ In s repeated)
uniqify_lem_example = uniqify_lem repeated

abbrev by_arch : StrMap PkgResolver
by_arch = (codes "x86_64", resolver) ∷ (codes "riscv64", record resolver { name_map = [] }) ∷ []

disqualify_resolver_difference_iff_example :
    (is_disqualified (disqualify_resolver_difference by_arch) new_library ≡ true) ↔ (
      (arch : Str) × (r : PkgResolver) × (e : PinnedPackage) × In (arch, r) by_arch
      × Owns r e
      × (e.address ≡ new_library.address)
      × Lacks by_arch arch e.repository_package)
disqualify_resolver_difference_iff_example = disqualify_resolver_difference_iff by_arch new_library
