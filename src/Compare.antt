-- ===== src/Compare.antt =====
-- comparePackages, bestPackage and getDepVersionForName of pkg/apk/apk/repo.go.
pub mod Best
pub mod Swap
pub mod Chain
pub mod Preferred
use apko.Base.{
  ℕ, Bool, true, false, not, ◌&&◌, ◌||◌, List, [], ◌∷◌, ◌++◌, Option, none, some, ltb, ◌==◌,
  if◌then◌else◌, Str, str_eq, is_empty, StrMap, get,
}
use apko.Version.{Comparison, less, equal, greater, compare_then, compare_versions}
use apko.Version.Parse.{OrError, value, error, parse_version}
use apko.Constraint.{resolve_package_name_version_pin}
use apko.Package.{RepositoryPackage, PinnedPackage}

-- cmp.Compare on strings.
unfoldable pub compare_text : Str → Str → Comparison
unfolding compare_then
compare_text [] [] = equal
compare_text [] (b ∷ t) = less
compare_text (a ∷ s) [] = greater
compare_text (a ∷ s) (b ∷ t) = compare_then a b (compare_text s t)

-- The version of the first provide with the name.
unfoldable pub provided_version : List Str → Str → Str
provided_version [] name = []
provided_version (prov ∷ provs) name =
    let constraint = resolve_package_name_version_pin prov in
    let rest = provided_version provs name in
    if str_eq constraint.name name then constraint.version else rest

unfoldable pub get_dep_version_for_name : PinnedPackage → Str → Str
get_dep_version_for_name pkg name =
    if is_empty name || str_eq name pkg.name
    then pkg.version
    else provided_version pkg.provides name

-- `if i && !j { return -1 }; if j && !i { return 1 }`
unfoldable pub prefer : Bool → Bool → Comparison → Comparison
prefer i j rest = if i && not j then less else if j && not i then greater else rest

-- `-1 * versions`, or what follows if the versions are equal.
unfoldable pub newest_first : Comparison → Comparison → Comparison
newest_first equal rest = rest
newest_first less rest = greater
newest_first greater rest = less

-- Both versions are parsed, the first one first; the one that cannot be parsed comes last.
unfoldable pub by_version : Str → Str → Comparison → Comparison
by_version i j rest = elim (parse_version i) [
  | error e ↦ greater
  | value iv ↦ elim (parse_version j) [
    | error e ↦ less
    | value jv ↦ newest_first (compare_versions iv jv) rest
  ]
]

-- Whether `existing` holds the package's name at the package's version.
unfoldable pub is_existing : StrMap RepositoryPackage → PinnedPackage → Bool
is_existing existing pkg = elim (get pkg.name existing) [
  | none ↦ false
  | some matched ↦ str_eq matched.version pkg.version
]

-- A Go map lookup of a text: the empty text stands for a missing key.
unfoldable pub text_at : Str → StrMap Str → Str
text_at k m = elim (get k m) [ none ↦ [] | some v ↦ v ]

unfoldable pub origin_matched : StrMap Str → PinnedPackage → Bool
unfolding text_at
origin_matched existing_origins pkg =
    not (is_empty pkg.origin) && str_eq (text_at pkg.origin existing_origins) pkg.version

-- The steps on a package to compare with, if there is one.
unfoldable pub by_compared :
    Option RepositoryPackage → PinnedPackage → PinnedPackage → Comparison → Comparison
by_compared none a b rest = rest
by_compared (some c) a b rest =
    prefer (str_eq a.repository_uri c.repository_uri) (str_eq b.repository_uri c.repository_uri)
      (prefer (str_eq a.origin c.origin) (str_eq b.origin c.origin) rest)

-- Latest by the name that is looked for; a package with no version for it ties with any other.
unfoldable pub by_requested_name : Str → Str → Comparison → Comparison
by_requested_name i j rest =
    if not (is_empty i) && not (is_empty j) && not (str_eq i j) then by_version i j rest else rest

-- Latest by the name of the packages themselves.
unfoldable pub by_principal_name : PinnedPackage → PinnedPackage → Comparison → Comparison
by_principal_name a b rest =
    if str_eq a.name b.name && not (str_eq a.version b.version)
    then by_version a.version b.version rest
    else rest

-- The highest priority first.
unfoldable pub by_priority : PinnedPackage → PinnedPackage → Comparison → Comparison
by_priority a b rest =
    if a.provider_priority == b.provider_priority
    then rest
    else if ltb b.provider_priority a.provider_priority
    then less
    else greater

-- The more recent build, and last the names.
unfoldable pub by_build : PinnedPackage → PinnedPackage → Comparison
by_build a b =
    let names = compare_text a.name b.name in
    if str_eq a.version b.version then names else by_version a.version b.version names

module _ (compare : Option RepositoryPackage) (name : Str) (existing : StrMap RepositoryPackage)
    (existing_origins : StrMap Str) (pin : Str) where
  unfoldable pub compare_packages : PinnedPackage → PinnedPackage → Comparison
  compare_packages a b = by_compared compare a b (
      prefer (is_existing existing a) (is_existing existing b) (
        prefer (origin_matched existing_origins a) (origin_matched existing_origins b) (
          prefer (str_eq a.pinned_name pin) (str_eq b.pinned_name pin) (
            by_requested_name (get_dep_version_for_name a name) (get_dep_version_for_name b name)
              (by_principal_name a b (by_priority a b (by_build a b)))))))

-- `if cmp(x, m) < 0 { m = x }`
unfoldable pub earlier : {A : Type 0} → Comparison → A → A → A
earlier less x m = x
earlier _ x m = m

-- slices.MinFunc: the first element that no later one comes before.
unfoldable pub min_from : {A : Type 0} → (A → A → Comparison) → A → List A → A
unfolding earlier
min_from cmp m [] = m
min_from cmp m (x ∷ xs) = min_from cmp (earlier (cmp x m) x m) xs

module _ (compare : Option RepositoryPackage) (name : Str) (existing : StrMap RepositoryPackage)
    (existing_origins : StrMap Str) (pin : Str) where
  unfoldable pub best_package : List PinnedPackage → Option PinnedPackage
  unfolding min_from
  best_package [] = none
  best_package (p ∷ pkgs) =
      some (min_from (compare_packages compare name existing existing_origins pin) p pkgs)
