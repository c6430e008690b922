-- ===== src/Resolver/Dependencies.antt =====
-- getPackageDependencies of pkg/apk/apk/repo.go.
pub mod Fewest
use apko.Base.{
  ℕ, zero, suc, Bool, true, false, not, ◌&&◌, ◌||◌, List, [], ◌∷◌, ◌++◌, map, Option, none, some,
  ltb, ◌==◌, if◌then◌else◌, Str, codes, str_eq, is_empty, cut_prefix, length, any, keep_if, StrMap,
  get, put,
}
use apko.Version.{
  Version, Comparison, less, equal, greater, VersionDependency, version_any, satisfies,
}
use apko.Version.Parse.{VersionError, OrError, value, error, parse_version}
use apko.Constraint.{ParsedConstraint, resolve_package_name_version_pin}
use apko.Package.{RepositoryPackage, PinnedPackage, Disqualified}
use apko.Filter.{
  default_options, with_version, with_allow_pin, with_installed_package, is_any, filter_packages,
}
use apko.Compare.{compare_text, best_package}
use apko.Resolver.{PkgResolver}
use apko.Resolver.Select.{
  ResolveError, nothing_provides, could_not_find, parsing_version, already_selected,
  constraint_error, dep_error, constraining_deps, panicked, out_of_fuel, Outcome, done, failed,
  ◌>>=◌, named, constrain, disqualify_conflicts, pick,
}
use apko.Resolver.Resolve.{maybe_dq_error}

-- What a resolution changes: the disqualified and the selected packages, and the two maps of what
-- is there already. The maps are shared by all calls below one package.
pub record Solving : Type 0 where
  pub dq : Disqualified
  pub selected : StrMap RepositoryPackage
  pub existing : StrMap RepositoryPackage
  pub existing_origins : StrMap Str

-- `myProvides`: the provides as they are written, and their names.
unfoldable pub my_provides : List Str → List Str
my_provides [] = []
my_provides (prov ∷ provs) = prov ∷ (resolve_package_name_version_pin prov).name ∷ my_provides provs

-- The zero Version, which a constraint without an operator is tested against.
abbrev pub zero_version : Version
zero_version = record {
  numbers = [];
  letter = 0;
  pre_suffix = 0;
  pre_suffix_number = 0;
  post_suffix = 0;
  post_suffix_number = 0;
  revision = 0;
}

-- Whether the package's own version meets a dependency on its own name; an invalid version of
-- either is passed over.
unfoldable pub meets_itself : RepositoryPackage → ParsedConstraint → Bool
meets_itself pkg c = elim (parse_version pkg.version) [
  | error e ↦ false
  | value actual ↦
      if is_any c.dep
      then satisfies c.dep actual zero_version
      else (elim (parse_version c.version) [
        | error e ↦ false
        | value required ↦ satisfies c.dep actual required
      ])
]

-- The loop over the provides of a selected package: each provide of the name is tested by the
-- operator of the provide.
unfoldable pub provide_meets : Str → Version → List Str → Outcome Bool
provide_meets name required [] = done false
provide_meets name required (prov ∷ provs) =
    let c = resolve_package_name_version_pin prov in
    let rest = provide_meets name required provs in
    if not (str_eq c.name name)
    then rest
    else if is_empty c.version
    then rest
    else (elim (parse_version c.version) [
      | error e ↦ failed (parsing_version e)
      | value prover ↦ if satisfies c.dep prover required then done true else rest
    ])

abbrev pub parsed : OrError Version → Outcome Version
parsed (value v) = done v
parsed (error e) = failed (parsing_version e)

-- The tests behind the loop: a provide meets the dependency, or the package's own version does.
unfoldable pub selected_verdict :
    Str → ParsedConstraint → RepositoryPackage → Version → Version → Bool → Outcome (Unit {0})
selected_verdict dep c picked actual required by_provide =
    if by_provide
    then done tt
    else if satisfies c.dep actual required
    then done tt
    else failed (already_selected picked dep)

-- A dependency that a selected package is there for: met, or an error.
unfoldable pub selected_meets : Str → ParsedConstraint → RepositoryPackage → Outcome (Unit {0})
selected_meets dep c picked =
    let versioned = (do
      actual ← parsed (parse_version picked.version)
      required ← parsed (parse_version c.version)
      by_provide ← provide_meets c.name required picked.provides
      selected_verdict dep c picked actual required by_provide) in
    if is_empty c.version then done tt else versioned

-- What the inner loop makes of a dependency.
pub data Finding : Type 0 where
  conflict : Str → Finding
  met : Finding
  options : List PinnedPackage → Finding

abbrev pub some_options :
    Str → List PinnedPackage → Disqualified → List PinnedPackage → Outcome Finding
some_options dep with_versions dq [] =
    failed (constraint_error dep (maybe_dq_error with_versions dq))
some_options dep with_versions dq (q ∷ qs) = done (options (q ∷ qs))

abbrev pub as_met : Outcome (Unit {0}) → Outcome Finding
as_met (done _) = done met
as_met (failed e) = failed e

-- The candidates for a dependency that nothing meets yet.
unfoldable pub find_options : PkgResolver → Solving → Str → Str → ParsedConstraint → Outcome Finding
find_options p s allow_pin dep c = elim (named p c.name) [
  | none ↦ failed (constraint_error dep (nothing_provides c.name))
  | some with_versions ↦ some_options dep with_versions s.dq (
      filter_packages with_versions s.dq (
        with_installed_package (get c.name s.existing)
          (with_allow_pin allow_pin (with_version c.version c.dep default_options))))
]

-- A dependency behind the test for "!".
unfoldable pub examine_needed :
    PkgResolver → Solving → RepositoryPackage → Str → Str → ParsedConstraint → Outcome Finding
examine_needed p s pkg allow_pin dep c =
    if any (str_eq c.name) (my_provides pkg.provides) || any (str_eq dep) (my_provides pkg.provides)
    then done met
    else if str_eq pkg.name c.name && meets_itself pkg c
    then done met
    else (elim (get c.name s.selected) [
      | some picked ↦ as_met (selected_meets dep c picked)
      | none ↦ find_options p s allow_pin dep c
    ])

-- One round of the inner loop.
unfoldable pub examine : PkgResolver → Solving → RepositoryPackage → Str → Str → Outcome Finding
examine p s pkg allow_pin dep = elim (cut_prefix (codes "!") dep) [
  | some name ↦ done (conflict name)
  | none ↦ examine_needed p s pkg allow_pin dep (resolve_package_name_version_pin dep)
]

-- What the inner loop collects: the conflicts, and the candidates of each open dependency.
pub record Scan : Type 0 where
  pub conflicts : List Str
  pub open_options : StrMap (List PinnedPackage)

unfoldable pub record_finding : Str → Scan → Finding → Scan
record_finding dep scan (conflict name) = record scan { conflicts = scan.conflicts ++ name ∷ [] }
record_finding dep scan met = scan
record_finding dep scan (options pkgs) = record scan {
  open_options = put dep pkgs scan.open_options;
}

-- The inner loop. The map of options is new in each round of the outer loop.
unfoldable pub scan_constraints :
    PkgResolver → Solving → RepositoryPackage → Str → Scan → List Str → Outcome Scan
scan_constraints p s pkg allow_pin scan [] = done scan
scan_constraints p s pkg allow_pin scan (dep ∷ deps) = do
  finding ← examine p s pkg allow_pin dep
  scan_constraints p s pkg allow_pin (record_finding dep scan finding) deps

abbrev pub count_at : Str → StrMap (List PinnedPackage) → ℕ
count_at k m = elim (get k m) [ none ↦ 0 | some l ↦ length l ]

-- `options[lowest]`
abbrev pub options_at : Str → StrMap (List PinnedPackage) → List PinnedPackage
options_at k m = elim (get k m) [ none ↦ [] | some l ↦ l ]

abbrev pub is_less : Comparison → Bool
is_less less = true
is_less _ = false

-- One round of the loop below keeps the name so far or takes the one that is visited.
unfoldable pub fewer : StrMap (List PinnedPackage) → Str → Str → List PinnedPackage → Str
fewer all lowest k v =
    if is_empty lowest || ltb (length v) (count_at lowest all)
    then k
    else if length v == count_at lowest all && is_less (compare_text k lowest)
    then k
    else lowest

-- The loop for the constraint with the fewest solutions; of those with as few, the first by name.
-- The entries come in the order in which `range` visits them.
unfoldable pub lowest_from : StrMap (List PinnedPackage) → Str → StrMap (List PinnedPackage) → Str
lowest_from all lowest [] = lowest
lowest_from all lowest ((k, v) ∷ entries) = lowest_from all (fewer all lowest k v) entries

-- slices.DeleteFunc of the elements that are `lowest`.
unfoldable pub delete_text : Str → List Str → List Str
delete_text lowest l = keep_if (λ s. not (str_eq s lowest)) l

unfoldable pub set_origin : RepositoryPackage → StrMap Str → StrMap Str
set_origin dep m = if is_empty dep.origin then m else put dep.origin dep.version m

-- The loop over the dependencies of a dependency.
unfoldable pub add_existing : List RepositoryPackage → Solving → Solving
add_existing [] s = s
add_existing (dep ∷ deps) s = add_existing deps (record s {
  existing = put dep.name dep s.existing;
  existing_origins = set_origin dep s.existing_origins;
})

-- The dependencies and the conflicts that a call returns, with the state behind it.
pub record Found : Type 0 where
  pub dependencies : List RepositoryPackage
  pub conflicts : List Str
  pub state : Solving

abbrev pub or_failed : {A : Type 0} → Option A → ResolveError → Outcome A
or_failed none e = failed e
or_failed (some a) e = done a

abbrev pub wrap_deps : {A : Type 0} → Str → RepositoryPackage → Outcome A → Outcome A
wrap_deps name pkg (done a) = done a
wrap_deps name pkg (failed e) = failed (constraint_error name (dep_error pkg e))

abbrev pub wrap_constraining : {A : Type 0} → Outcome A → Outcome A
wrap_constraining (done a) = done a
wrap_constraining (failed e) = failed (constraining_deps e)

-- The order in which `range` goes through the entries of the map of options.
abbrev pub Range : Type 0
Range = StrMap (List PinnedPackage) → StrMap (List PinnedPackage)

module _ (p : PkgResolver) (range : Range) (pkg : RepositoryPackage) (allow_pin : Str)
    (recurse : RepositoryPackage → Solving → Outcome Found) where
  -- The outer loop behind the choice of a constraint: the best candidate is taken, the package
  -- itself is picked, and the candidate's own dependencies are found.
  unfoldable pub take_lowest : Str → StrMap (List PinnedPackage) → List Str → Found → Outcome Found
  take_lowest lowest opts conflicts found =
      let name = (resolve_package_name_version_pin lowest).name in
      let pkgs = options_at lowest opts in
      let s = found.state in
      do
        best ←
            or_failed (best_package none name s.existing s.existing_origins [] pkgs)
              (constraint_error name (could_not_find name))
        let dep_pkg = best.repository_package
        dq ← or_failed (disqualify_conflicts p dep_pkg s.dq) panicked
        selected ← pick pkg s.selected
        sub ← wrap_deps name dep_pkg (recurse dep_pkg (record s { dq = dq; selected = selected }))
        done (record {
          dependencies = found.dependencies ++ (sub.dependencies ++ dep_pkg ∷ []);
          conflicts = conflicts ++ sub.conflicts;
          state = add_existing sub.dependencies sub.state;
        })

  -- The outer loop, with fuel for its rounds.
  unfoldable pub dependency_rounds : ℕ → List Str → Found → Outcome Found
  dependency_rounds rounds [] found = done found
  dependency_rounds zero (c ∷ cs) found = failed out_of_fuel
  dependency_rounds (suc rounds) (c ∷ cs) found = do
    scan ←
        scan_constraints p found.state pkg allow_pin
          (record { conflicts = found.conflicts; open_options = [] }) (c ∷ cs)
    let entries = range scan.open_options
    let lowest = lowest_from scan.open_options [] entries
    let left = delete_text lowest (map (λ x. x.0) entries)
    let next = (do
      found' ← take_lowest lowest scan.open_options scan.conflicts found
      dependency_rounds rounds left found')
    elim entries [ [] ↦ done (record found { conflicts = scan.conflicts }) | _ ↦ next ]

-- getPackageDependencies, with fuel for the depth of the calls. `parents` are the names of the
-- packages above.
unfoldable pub get_package_dependencies :
    ℕ → PkgResolver → Range → Str → List Str → RepositoryPackage → Solving → Outcome Found
get_package_dependencies zero p range allow_pin parents pkg s = failed out_of_fuel
get_package_dependencies (suc fuel) p range allow_pin parents pkg s =
    let below = get_package_dependencies fuel p range allow_pin (pkg.name ∷ parents) in
    let search = (do
      dq ← wrap_constraining (constrain p pkg.dependencies s.dq)
      dependency_rounds p range pkg allow_pin below (length pkg.dependencies) pkg.dependencies
          (record { dependencies = []; conflicts = []; state = record s { dq = dq } })) in
    if any (str_eq pkg.name) parents
    then done (record { dependencies = []; conflicts = []; state = s })
    else search
