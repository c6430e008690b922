-- ===== src/Package.antt =====
-- pkg/apk/apk/repository.go, pkg/apk/types/package.go and repo.go: packages of repositories, and
-- the set of disqualified packages.
use apko.Base.{
  ℕ, Bool, true, false, List, [], ◌∷◌, ◌++◌, Option, none, some, ◌==◌, if◌then◌else◌, Str, codes,
}

-- A *RepositoryPackage. Packages are compared and stored in maps by their pointer, the address.
-- Of the repository only the URI is used.
pub record RepositoryPackage : Type 0 where
  pub address : ℕ
  pub name : Str
  pub version : Str
  pub origin : Str
  pub dependencies : List Str
  pub provides : List Str
  pub install_if : List Str
  pub provider_priority : ℕ
  pub repository_uri : Str

-- Package.Filename
unfoldable pub filename : RepositoryPackage → Str
filename p = p.name ++ (codes "-" ++ (p.version ++ codes ".apk"))

-- RepositoryPackage.URL
unfoldable pub url : RepositoryPackage → Str
url p = p.repository_uri ++ (codes "/" ++ filename p)

-- repositoryPackage: a package with the name of the index that it was listed in.
pub record PinnedPackage : Type 0 where
  pub repository_package : RepositoryPackage
  pub open repository_package use *
  pub pinned_name : Str

-- Why a package was disqualified; the code stores a text made of these values.
pub data Reason : Type 0 where
  excluded_by : Str → Reason
  already_provides : RepositoryPackage → Str → Reason
  version_unparsable : Str → Reason
  does_not_satisfy : Str → Str → Reason
  provide_does_not_satisfy : Str → Str → Reason
  not_available : Str → Reason

-- `map[*RepositoryPackage]string`
abbrev pub Disqualified : Type 0
Disqualified = List (ℕ × Reason)

unfoldable pub find_reason : ℕ → Disqualified → Option Reason
find_reason a [] = none
find_reason a ((b, r) ∷ dq) = let rest = find_reason a dq in if b == a then some r else rest

unfoldable pub is_disqualified : Disqualified → RepositoryPackage → Bool
unfolding find_reason
is_disqualified dq p = elim (find_reason p.address dq) [ some r ↦ true | none ↦ false ]

-- PkgResolver.disqualify: the newest reason is the one that a lookup finds.
unfoldable pub disqualify : Disqualified → RepositoryPackage → Reason → Disqualified
disqualify dq p r = (p.address, r) ∷ dq
