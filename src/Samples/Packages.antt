-- ===== src/Samples/Packages.antt =====
-- Samples for packages: the index, the filter, the comparison and the resolver's steps.
use apko.Base.{
  subst, sym, ℕ, ◌≡◌, refl, ◌≢◌, ◌↔◌, inl, inr, List, [], ◌∷◌, none, some, arith, ◌==◌, codes, ltb,
  str_eq, str_eq_iff, Bool-cases, StrMap, get, In, keep_if,
}
use apko.Version.{version_greater}
use apko.Version.Parse.{could_not_parse, error, parse_version}
use apko.Constraint.{resolve_package_name_version_pin}
use apko.Package.{RepositoryPackage, PinnedPackage, Disqualified, does_not_satisfy}
use apko.Filter.{FilterOptions, default_options, with_version, filter_packages}
use apko.Filter.Reference.{Kept, filter_packages_iff, filter_packages_unparsable}
use apko.Compare.{
  by_compared, prefer, is_existing, origin_matched, best_package, min_from, earlier,
  compare_packages,
}
use apko.Compare.Chain.{IsNamed}
use apko.Compare.Preferred.{Preferred, best_package-Preferred}
use apko.Resolver.{PackageMap, PkgResolver, list_at, listed, map_packages}
use apko.Resolver.Index.{Answers, map_packages_lem}
use apko.Resolver.Lookup.{
  arrange, order, order_kept, is_sorted, insert_ranked, sort_stable, filter_kept, lookup,
  candidates_in,
}
use apko.Resolver.Lookup.Memo.{IsMemo, lookup_lem}
use apko.Resolver.Lookup.Rank.{Ascending, order_lem}
use apko.Resolver.Select.{done, disqualify_conflicts, pick}
use apko.Resolver.Select.Pick.{Picked, pick-Picked, pick-ne-done_self}
use apko.Resolver.Select.Conflicts.{IsIndexed, new_pkg_resolver-IsIndexed}
use apko.Resolver.Select.Disqualify.{RulesOut, disqualify_conflicts_lem}
use apko.Resolver.Select.Grows.{Grows}
use apko.Samples.{
  candidate, old_library, new_library, program_package, taker, narcissist, at_index, sample_indexes,
  in_order, resolver, program, parse_version-candidate,
}

map_packages_lem_example :
    In (at_index [] taker) (list_at (codes "cmd:app") (map_packages in_order sample_indexes).0) ↔ (
      In (at_index [] taker) (listed sample_indexes)
      × Answers (at_index [] taker) (codes "cmd:app"))
map_packages_lem_example =
    map_packages_lem in_order sample_indexes (codes "cmd:app") (at_index [] taker) (λ ks k i. i)

resolver-IsIndexed : IsIndexed resolver
resolver-IsIndexed = new_pkg_resolver-IsIndexed in_order sample_indexes (λ ks k i. i)

disqualify_conflicts_lem_example :
    (dq' : Disqualified) × (disqualify_conflicts resolver program_package [] ≡ some dq')
    × RulesOut resolver program_package program_package.provides [] dq'
disqualify_conflicts_lem_example =
    disqualify_conflicts_lem resolver program_package [] resolver-IsIndexed

abbrev picked : StrMap RepositoryPackage
picked = (codes "cmd:app", program_package) ∷ (codes "app", program_package) ∷ []

pick-program : pick program_package [] ≡ done picked
unfolding program
pick-program = refl

pick-Picked_example : Picked program_package [] picked
pick-Picked_example = pick-Picked program_package [] picked pick-program

get-nothing : get narcissist.name picked ≡ none
unfolding program
get-nothing = refl

provides-itself : (resolve_package_name_version_pin (codes "own=1")).name ≡ narcissist.name
unfolding program
provides-itself = refl

pick-ne-done_self_example : pick narcissist picked ≢ done picked
pick-ne-done_self_example =
    pick-ne-done_self narcissist picked picked (codes "own=1") get-nothing (inl refl)
      provides-itself

abbrev constrained : Disqualified
constrained = (1, does_not_satisfy (codes "1.0") (codes "lib>1.5")) ∷ []

abbrev asked : FilterOptions
asked = with_version (codes "1.2_rc2-r3") version_greater default_options

abbrev libraries : List PinnedPackage
libraries = at_index [] new_library ∷ at_index (codes "edge") old_library ∷ []

filter_packages_iff_example :
    In (at_index [] new_library) (filter_packages libraries [] asked)
    ↔ (In (at_index [] new_library) libraries × Kept asked [] (at_index [] new_library))
filter_packages_iff_example =
    filter_packages_iff libraries [] asked (at_index [] new_library)
      (inr (candidate, parse_version-candidate))

abbrev unparsable : FilterOptions
unparsable = with_version (codes "latest") version_greater default_options

parse_version-latest : parse_version (codes "latest") ≡ error could_not_parse
unfolding program
parse_version-latest = refl

filter_packages_unparsable_example : filter_packages libraries [] unparsable ≡ []
filter_packages_unparsable_example =
    filter_packages_unparsable libraries [] unparsable could_not_parse (λ h. cc)
      parse_version-latest

libraries-some : libraries ≢ []
libraries-some h = cc

new-IsNamed : IsNamed (codes "lib") (at_index [] new_library)
unfolding program
new-IsNamed = record { named = refl; parsed = _; parses = refl }

old-IsNamed : IsNamed (codes "lib") (at_index (codes "edge") old_library)
unfolding program
old-IsNamed = record { named = refl; parsed = _; parses = refl }

libraries-IsNamed : (q : PinnedPackage) → In q libraries → IsNamed (codes "lib") q
libraries-IsNamed q (inl e) = subst (IsNamed (codes "lib")) (sym e) new-IsNamed
libraries-IsNamed q (inr (inl e)) = subst (IsNamed (codes "lib")) (sym e) old-IsNamed
libraries-IsNamed q (inr (inr i)) = elim i [ ]

-- With the pin the older library is the best one.
best_pinned :
    best_package none (codes "lib") [] [] (codes "edge") libraries
    ≡ some (at_index (codes "edge") old_library)
unfolding program best_package min_from earlier compare_packages by_compared prefer is_existing
    origin_matched
best_pinned = refl

best_package-Preferred_example :
    (p : PinnedPackage) × (best_package none (codes "lib") [] [] (codes "edge") libraries ≡ some p)
    × In p libraries
    × ((q : PinnedPackage) → In q libraries → Preferred none [] [] (codes "edge") p q)
best_package-Preferred_example =
    best_package-Preferred none (codes "lib") [] [] (codes "edge") libraries libraries-some
      libraries-IsNamed

abbrev by_address : RepositoryPackage → ℕ
by_address p = p.address

-- A resolver that keeps some packages and ranks them, and its memo after it looked up "lib".
abbrev choosy : PkgResolver
choosy = record resolver { keep = some (λ p. ltb p.address 3); rank = some by_address }

abbrev looked_up : PackageMap
looked_up = (codes "lib", arrange choosy (list_at (codes "lib") resolver.name_map)) ∷ []

get-lib : get (codes "lib") resolver.name_map ≡ some (list_at (codes "lib") resolver.name_map)
unfolding program
get-lib = refl

looked_up-IsMemo : IsMemo choosy resolver.name_map looked_up
unfolding get
looked_up-IsMemo k kept h = elim (Bool-cases (str_eq (codes "lib") k)) [
  | inl e ↦ (
    list_at (codes "lib") resolver.name_map,
    rw (← (str_eq_iff (codes "lib") k).0 e) get-lib,
    ground (arith, e, h),
  )
  | inr e ↦ absurd (ground (arith, e, h))
]

-- The older library has the lower rank, so the memo holds it first.
looked_up-order :
    (lookup choosy resolver.name_map looked_up (codes "lib")).0
    ≡ some (at_index (codes "edge") old_library ∷ at_index [] new_library ∷ [])
unfolding program lookup order_kept order is_sorted insert_ranked sort_stable filter_kept
looked_up-order = refl

order_lem_example :
    Ascending by_address (order by_address libraries)
    × ((r : ℕ)
        → keep_if (λ p. by_address p.repository_package == r) (order by_address libraries)
          ≡ keep_if (λ p. by_address p.repository_package == r) libraries)
order_lem_example = order_lem by_address libraries

lookup_lem_example :
    ((lookup choosy resolver.name_map looked_up (codes "lib")).0
      ≡ candidates_in choosy resolver.name_map (codes "lib"))
    × IsMemo choosy resolver.name_map (lookup choosy resolver.name_map looked_up (codes "lib")).1
lookup_lem_example = lookup_lem choosy resolver.name_map looked_up (codes "lib") looked_up-IsMemo

abbrev options : StrMap (List PinnedPackage)
options = (codes "lib", libraries) ∷ (codes "cmd", at_index [] taker ∷ []) ∷ []

abbrev reordered : StrMap (List PinnedPackage)
reordered = (codes "cmd", at_index [] taker ∷ []) ∷ (codes "lib", libraries) ∷ []
