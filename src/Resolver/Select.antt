-- ===== src/Resolver/Select.antt =====
-- pkg/apk/apk/repo.go: what a selection or a constraint rules out. `dq` is the map of disqualified
-- packages, and the lookups go without the memo, which never changes an answer.
pub mod Pick
pub mod Conflicts
pub mod Disqualify
pub mod Grows
pub mod Constraints
pub mod Outcomes
use apko.Base.{
  ℕ, Bool, true, false, not, ◌&&◌, ◌||◌, List, [], ◌∷◌, ◌++◌, Option, none, some, ◌==◌,
  if◌then◌else◌, Str, codes, str_eq, is_empty, cut_prefix, StrMap, get, put,
}
use apko.Version.{Version, VersionDependency, version_any, satisfies}
use apko.Version.Parse.{VersionError, OrError, value, error, parse_version}
use apko.Constraint.{ParsedConstraint, resolve_package_name_version_pin}
use apko.Package.{
  RepositoryPackage, filename, PinnedPackage, Reason, excluded_by, already_provides,
  version_unparsable, does_not_satisfy, provide_does_not_satisfy, Disqualified, is_disqualified,
  disqualify,
}
use apko.Filter.{
  FilterOptions, default_options, with_version, with_prefer_pin, is_any, filter_packages,
}
use apko.Resolver.{PkgResolver}
use apko.Resolver.Lookup.{candidates_in}

-- Why a resolution fails. A context that is cancelled is not modelled.
pub data ResolveError : Type 0 where
  nothing_provides : Str → ResolveError
  could_not_find : Str → ResolveError
  not_in_indexes : ResolveError
  disqualified : List (RepositoryPackage × Reason) → ResolveError
  parsing_constraint : Str → VersionError → ResolveError
  parsing_version : VersionError → ResolveError
  selection_conflict : RepositoryPackage → RepositoryPackage → Str → ResolveError
  already_selected : RepositoryPackage → Str → ResolveError
  constraint_error : Str → ResolveError → ResolveError
  dep_error : RepositoryPackage → ResolveError → ResolveError
  constraining_initial : ResolveError → ResolveError
  constraining_deps : ResolveError → ResolveError
  panicked : ResolveError
  out_of_fuel : ResolveError

pub data Outcome (A : Type 0) : Type 0 where
  done : A → Outcome A
  failed : ResolveError → Outcome A

infixl 5 ◌>>=◌
abbrev pub ◌>>=◌ : {A B : Type 0} → Outcome A → (A → Outcome B) → Outcome B
failed reason >>= next = failed reason
done a >>= next = next a

-- The packages with a name, or that provide it.
unfoldable pub named : PkgResolver → Str → Option (List PinnedPackage)
named p name = candidates_in p p.name_map name

unfoldable pub exclude : Str → Disqualified → List PinnedPackage → Disqualified
exclude constraint dq [] = dq
exclude constraint dq (conflict ∷ conflicting) =
    exclude constraint
      (if is_disqualified dq conflict.repository_package
        then dq
        else disqualify dq conflict.repository_package (excluded_by constraint))
      conflicting

-- PkgResolver.disqualifyProviders
unfoldable pub disqualify_providers : PkgResolver → Str → Disqualified → Disqualified
disqualify_providers p constraint dq =
    let parsed = resolve_package_name_version_pin constraint in
    elim (named p parsed.name) [
      | none ↦ dq
      | some providers ↦ exclude constraint dq (
          filter_packages providers dq
            (with_prefer_pin parsed.pin (with_version parsed.version parsed.dep default_options)))
    ]

-- The loop of conflictingVersion; without a provide of the name it panics.
unfoldable pub provided_conflict : ParsedConstraint → List Str → Option Bool
provided_conflict constraint [] = none
provided_conflict constraint (prov ∷ provs) =
    let conf = resolve_package_name_version_pin prov in
    let rest = provided_conflict constraint provs in
    if str_eq conf.name constraint.name
    then some (not (str_eq conf.version constraint.version))
    else rest

-- PkgResolver.conflictingVersion; `none` is a panic.
unfoldable pub conflicting_version : ParsedConstraint → PinnedPackage → Option Bool
conflicting_version constraint conflict =
    if not (is_empty constraint.version)
    then some true
    else if str_eq conflict.name constraint.name
    then some (not (str_eq conflict.version constraint.version))
    else provided_conflict constraint conflict.provides

-- The inner loop of disqualifyConflicts, over the providers of one provided name.
unfoldable pub disqualify_providing :
    RepositoryPackage → ParsedConstraint → Disqualified → List PinnedPackage → Option Disqualified
disqualify_providing pkg constraint dq [] = some dq
disqualify_providing pkg constraint dq (conflict ∷ providers) =
    let skipped = disqualify_providing pkg constraint dq providers in
    let disqualified =
      disqualify_providing pkg constraint
        (disqualify dq conflict.repository_package (already_provides pkg constraint.name))
        providers in
    if conflict.address == pkg.address
    then skipped
    else if is_disqualified dq conflict.repository_package
    then skipped
    else (elim (conflicting_version constraint conflict) [
      | none ↦ none
      | some false ↦ skipped
      | some true ↦ disqualified
    ])

-- No candidates: the round is passed over, as one over an empty slice.
abbrev pub or_nil : Option (List PinnedPackage) → List PinnedPackage
or_nil none = []
or_nil (some l) = l

-- The outer loop of disqualifyConflicts, over the provides of the package.
unfoldable pub disqualify_provided :
    PkgResolver → RepositoryPackage → List Str → Disqualified → Option Disqualified
disqualify_provided p pkg [] dq = some dq
disqualify_provided p pkg (prov ∷ provs) dq =
    let constraint = resolve_package_name_version_pin prov in
    elim (disqualify_providing pkg constraint dq (or_nil (named p constraint.name))) [
      | none ↦ none
      | some dq' ↦ disqualify_provided p pkg provs dq'
    ]

-- PkgResolver.disqualifyConflicts; `none` is a panic.
unfoldable pub disqualify_conflicts :
    PkgResolver → RepositoryPackage → Disqualified → Option Disqualified
disqualify_conflicts p pkg dq = disqualify_provided p pkg pkg.provides dq

-- The loop of pick over the provides.
unfoldable pub pick_provides :
    RepositoryPackage → List Str → StrMap RepositoryPackage → Outcome (StrMap RepositoryPackage)
pick_provides pkg [] selected = done selected
pick_provides pkg (prov ∷ provs) selected =
    let constraint = resolve_package_name_version_pin prov in
    let unversioned = pick_provides pkg provs selected in
    let versioned = pick_provides pkg provs (put constraint.name pkg selected) in
    elim (get constraint.name selected) [
      | some conflict ↦ failed (selection_conflict pkg conflict constraint.name)
      | none ↦ if is_empty constraint.version then unversioned else versioned
    ]

-- PkgResolver.pick: the packages that are selected behind it. Behind a failure the resolution ends.
unfoldable pub pick :
    RepositoryPackage → StrMap RepositoryPackage → Outcome (StrMap RepositoryPackage)
pick pkg selected = elim (get pkg.name selected) [
  | some conflict ↦
      if conflict.address == pkg.address
      then done selected
      else failed (selection_conflict pkg conflict pkg.name)
  | none ↦ pick_provides pkg pkg.provides (put pkg.name pkg selected)
]

-- A parsed version against a constraint: the reason to disqualify, if there is one.
unfoldable pub version_fault : VersionDependency → Version → Str → Reason → Reason → Option Reason
version_fault dep required version unparsable unsatisfied = elim (parse_version version) [
  | error e ↦ some unparsable
  | value actual ↦ if satisfies dep actual required then none else some unsatisfied
]

unfoldable pub disqualify_if : Disqualified → RepositoryPackage → Option Reason → Disqualified
disqualify_if dq pkg none = dq
disqualify_if dq pkg (some r) = disqualify dq pkg r

-- The loop of constrain over the provides of a package with another name.
unfoldable pub constrain_provides :
    Str → ParsedConstraint → Version → RepositoryPackage → List Str → Disqualified → Disqualified
constrain_provides constraint parsed required pkg [] dq = dq
constrain_provides constraint parsed required pkg (prov ∷ provs) dq =
    let pp = resolve_package_name_version_pin prov in
    constrain_provides constraint parsed required pkg provs (
      if not (str_eq pp.name parsed.name) || is_empty pp.version
      then dq
      else disqualify_if dq pkg (
          version_fault parsed.dep required pp.version (version_unparsable pp.version)
            (provide_does_not_satisfy prov constraint)))

unfoldable pub constrain_provider :
    Str → ParsedConstraint → Version → Disqualified → RepositoryPackage → Disqualified
constrain_provider constraint parsed required dq pkg =
    if str_eq pkg.name parsed.name
    then disqualify_if dq pkg (
        version_fault parsed.dep required pkg.version (version_unparsable pkg.version)
          (does_not_satisfy pkg.version constraint))
    else constrain_provides constraint parsed required pkg pkg.provides dq

unfoldable pub constrain_providers :
    Str → ParsedConstraint → Version → List PinnedPackage → Disqualified → Disqualified
constrain_providers constraint parsed required [] dq = dq
constrain_providers constraint parsed required (provider ∷ providers) dq =
    constrain_providers constraint parsed required providers
      (constrain_provider constraint parsed required dq provider.repository_package)

-- One round of constrain for a constraint without "!".
unfoldable pub constrain_one : PkgResolver → Str → Disqualified → Outcome Disqualified
constrain_one p constraint dq =
    let parsed = resolve_package_name_version_pin constraint in
    if is_any parsed.dep then done dq else (elim (named p parsed.name) [
      | none ↦ done dq
      | some providers ↦ elim (parse_version parsed.version) [
        | error e ↦ failed (parsing_constraint constraint e)
        | value required ↦ done (constrain_providers constraint parsed required providers dq)
      ]
    ])

unfoldable pub constrain_step : PkgResolver → Str → Disqualified → Outcome Disqualified
constrain_step p constraint dq = elim (cut_prefix (codes "!") constraint) [
  | some excluded ↦ done (disqualify_providers p excluded dq)
  | none ↦ constrain_one p constraint dq
]

-- PkgResolver.constrain
unfoldable pub constrain : PkgResolver → List Str → Disqualified → Outcome Disqualified
constrain p [] dq = done dq
constrain p (constraint ∷ constraints) dq = do
  dq' ← constrain_step p constraint dq
  constrain p constraints dq'
