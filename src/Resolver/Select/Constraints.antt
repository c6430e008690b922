-- ===== src/Resolver/Select/Constraints.antt =====
-- constrain of pkg/apk/apk/repo.go: what a versioned constraint rules out.
use apko.Base.{◌≡◌, ◌≢◌, false, [], Str, In}
use apko.Version.{Version}
use apko.Version.Parse.{value, parse_version}
use apko.Constraint.{ParsedConstraint, resolve_package_name_version_pin}
use apko.Package.{RepositoryPackage, PinnedPackage, Disqualified, is_disqualified}
use apko.Filter.{is_any}
use apko.Filter.Reference.{Offers}
use apko.Resolver.{PkgResolver}
use apko.Resolver.Select.{named, or_nil}
use apko.Resolver.Select.Grows.{Grows}

-- What a constraint asks of a package that it leaves: by its own version if it has the name, and
-- otherwise by each versioned provide of the name.
pub record Survives (c : ParsedConstraint) (v : Version) (p : RepositoryPackage) : Type 0 where
  pub own : p.name ≡ c.name → Offers c.dep v p.version
  pub provided :
      p.name ≢ c.name
      → (prov : Str) → In prov p.provides
      → (resolve_package_name_version_pin prov).name ≡ c.name
      → (resolve_package_name_version_pin prov).version ≢ []
      → Offers c.dep v (resolve_package_name_version_pin prov).version

-- The packages that a versioned constraint leaves survive it.
pub record Enforced (p : PkgResolver) (s : Str) (after : Disqualified) : Type 0 where
  pub survivors :
      is_any (resolve_package_name_version_pin s).dep ≡ false
      → (e : PinnedPackage) → In e (or_nil (named p (resolve_package_name_version_pin s).name))
      → is_disqualified after e.repository_package ≡ false
      → (v : Version) × (parse_version (resolve_package_name_version_pin s).version ≡ value v)
        × Survives (resolve_package_name_version_pin s) v e.repository_package
