-- ===== src/Filter.antt =====
-- filterPackages of pkg/apk/apk/version.go.
pub mod Reference
use apko.Base.{
  ℕ, Bool, true, false, not, ◌&&◌, ◌||◌, List, [], ◌∷◌, ◌++◌, Option, none, some, if◌then◌else◌,
  Str, str_eq, is_empty,
}
use apko.Version.{Version, VersionDependency, version_any, satisfies}
use apko.Version.Parse.{OrError, value, error, parse_version}
use apko.Constraint.{resolve_package_name_version_pin}
use apko.Package.{RepositoryPackage, url, PinnedPackage, Disqualified, is_disqualified}

pub record FilterOptions : Type 0 where
  pub allow_pin : Str
  pub prefer_pin : Str
  pub version : Str
  pub installed : Option RepositoryPackage
  pub compare : VersionDependency

-- `&filterOptions{compare: versionAny}`
abbrev pub default_options : FilterOptions
default_options = record {
  allow_pin = [];
  prefer_pin = [];
  version = [];
  installed = none;
  compare = version_any;
}

abbrev pub with_allow_pin : Str → FilterOptions → FilterOptions
with_allow_pin pin o = record o { allow_pin = pin }

abbrev pub with_prefer_pin : Str → FilterOptions → FilterOptions
with_prefer_pin pin o = record o { prefer_pin = pin }

abbrev pub with_version : Str → VersionDependency → FilterOptions → FilterOptions
with_version version compare o = record o { version = version; compare = compare }

abbrev pub with_installed_package : Option RepositoryPackage → FilterOptions → FilterOptions
with_installed_package pkg o = record o { installed = pkg }

abbrev pub is_any : VersionDependency → Bool
is_any version_any = true
is_any _ = false

-- `o.installed == nil || installedURL != pkg.URL()`
unfoldable pub installed_elsewhere : Option RepositoryPackage → RepositoryPackage → Bool
installed_elsewhere none pkg = true
installed_elsewhere (some i) pkg = not (str_eq (url i) (url pkg))

-- A package with a pin that is neither preferred nor allowed, and that is not installed from the
-- same place.
unfoldable pub pin_rejected : FilterOptions → PinnedPackage → Bool
unfolding installed_elsewhere
pin_rejected o pkg =
    (not (is_empty pkg.pinned_name)
      && not (str_eq pkg.pinned_name o.allow_pin)
      && not (str_eq pkg.pinned_name o.prefer_pin))
    && installed_elsewhere o.installed pkg.repository_package

-- A parsed version against the constraint; a version that cannot be parsed is passed over.
unfoldable pub version_satisfies : VersionDependency → Version → Str → Bool
version_satisfies compare required version = elim (parse_version version) [
  | error e ↦ false
  | value actual ↦ satisfies compare actual required
]

-- The loop over the provides of a package.
unfoldable pub provides_satisfy : VersionDependency → Version → List Str → Bool
provides_satisfy compare required [] = false
provides_satisfy compare required (prov ∷ provs) =
    let version = (resolve_package_name_version_pin prov).version in
    let rest = provides_satisfy compare required provs in
    if is_empty version
    then rest
    else if version_satisfies compare required version
    then true
    else rest

-- A package behind the pin test, for a constraint with an operator: first its own version, and if
-- that one can be parsed and does not satisfy, the versions that it provides.
unfoldable pub package_satisfies : VersionDependency → Version → PinnedPackage → Bool
package_satisfies compare required pkg = elim (parse_version pkg.version) [
  | error e ↦ false
  | value actual ↦
      if satisfies compare actual required
      then true
      else provides_satisfy compare required pkg.provides
]

-- What one round of the loop does: pass the package over, keep it, or give up and return nothing.
pub data Verdict : Type 0 where
  skip pass stop : Verdict

unfoldable pub verdict : FilterOptions → Disqualified → PinnedPackage → Verdict
verdict o dq pkg =
    if is_disqualified dq pkg.repository_package
    then skip
    else if pin_rejected o pkg
    then skip
    else if is_any o.compare
    then pass
    else (elim (parse_version o.version) [
      | error e ↦ stop
      | value required ↦ if package_satisfies o.compare required pkg then pass else skip
    ])

unfoldable pub filter_loop :
    FilterOptions → Disqualified → List PinnedPackage → List PinnedPackage → List PinnedPackage
filter_loop o dq [] passed = passed
filter_loop o dq (pkg ∷ pkgs) passed = elim (verdict o dq pkg) [
  | skip ↦ filter_loop o dq pkgs passed
  | pass ↦ filter_loop o dq pkgs (passed ++ pkg ∷ [])
  | stop ↦ []
]

unfoldable pub filter_packages :
    List PinnedPackage → Disqualified → FilterOptions → List PinnedPackage
filter_packages pkgs dq o = filter_loop o dq pkgs []
