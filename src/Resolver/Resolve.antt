-- ===== src/Resolver/Resolve.antt =====
-- ResolvePackage, resolvePackage, nextPackage and uniqify of pkg/apk/apk/repo.go and util.go.
pub mod NextPackage
use apko.Base.{
  ℕ, List, [], ◌∷◌, Option, none, some, ltb, if◌then◌else◌, Str, str_eq, is_empty, length, any,
}
use apko.Version.{Comparison, less}
use apko.Constraint.{resolve_package_name_version_pin}
use apko.Package.{
  RepositoryPackage, PinnedPackage, Reason, Disqualified, find_reason, is_disqualified,
}
use apko.Filter.{default_options, with_version, with_prefer_pin, filter_packages}
use apko.Compare.{compare_packages, best_package}
use apko.Resolver.{PkgResolver}
use apko.Resolver.Select.{
  ResolveError, nothing_provides, could_not_find, not_in_indexes, disqualified, constraint_error,
  Outcome, done, failed, ◌>>=◌, named,
}

-- The loop of maybedqerror.
unfoldable pub reasons : List PinnedPackage → Disqualified → List (RepositoryPackage × Reason)
reasons [] dq = []
reasons (pkg ∷ pkgs) dq =
    let rest = reasons pkgs dq in
    elim (find_reason pkg.address dq) [ none ↦ rest | some r ↦ (pkg.repository_package, r) ∷ rest ]

abbrev pub join_reasons : List (RepositoryPackage × Reason) → ResolveError
join_reasons [] = not_in_indexes
join_reasons (r ∷ rs) = disqualified (r ∷ rs)

-- maybedqerror
unfoldable pub maybe_dq_error : List PinnedPackage → Disqualified → ResolveError
maybe_dq_error pkgs dq = join_reasons (reasons pkgs dq)

-- What both forms of resolving share: the packages that meet the constraint and its pin.
unfoldable pub meeting : PkgResolver → Str → Disqualified → Outcome (List PinnedPackage)
meeting p pkg_name dq =
    let constraint = resolve_package_name_version_pin pkg_name in
    elim (named p constraint.name) [
      | none ↦ failed (nothing_provides constraint.name)
      | some with_versions ↦
          let packages = filter_packages with_versions dq (
            with_prefer_pin constraint.pin
              (with_version constraint.version constraint.dep default_options)) in
          elim packages [ [] ↦ failed (maybe_dq_error with_versions dq) | q ∷ qs ↦ done (q ∷ qs) ]
    ]

abbrev pub package_of : Option PinnedPackage → Str → Outcome RepositoryPackage
package_of none pkg_name = failed (could_not_find pkg_name)
package_of (some p) pkg_name = done p.repository_package

-- PkgResolver.resolvePackage
unfoldable pub resolve_package : PkgResolver → Str → Disqualified → Outcome RepositoryPackage
resolve_package p pkg_name dq =
    let constraint = resolve_package_name_version_pin pkg_name in
    do
      packages ← meeting p pkg_name dq
      package_of (best_package none constraint.name [] [] constraint.pin packages) pkg_name

-- slices.SortFunc by insertion, as it works on slices of at most twelve elements: each element
-- moves towards the front past those that it comes before. The sorted front is held in reverse.
unfoldable pub insert_behind :
    (PinnedPackage → PinnedPackage → Comparison)
    → PinnedPackage
    → List PinnedPackage
    → List PinnedPackage
insert_behind cmp a [] = a ∷ []
insert_behind cmp a (b ∷ bs) =
    let rest = insert_behind cmp a bs in elim (cmp a b) [ less ↦ b ∷ rest | _ ↦ a ∷ b ∷ bs ]

unfoldable pub reverse_onto : List PinnedPackage → List PinnedPackage → List PinnedPackage
reverse_onto [] sorted = sorted
reverse_onto (p ∷ ps) sorted = reverse_onto ps (p ∷ sorted)

unfoldable pub sort_onto :
    (PinnedPackage → PinnedPackage → Comparison)
    → List PinnedPackage
    → List PinnedPackage
    → List PinnedPackage
sort_onto cmp [] front = reverse_onto front []
sort_onto cmp (a ∷ rest) front = sort_onto cmp rest (insert_behind cmp a front)

unfoldable pub sort_packages :
    (PinnedPackage → PinnedPackage → Comparison) → List PinnedPackage → List PinnedPackage
sort_packages cmp pkgs = sort_onto cmp pkgs []

unfoldable pub unpinned : Disqualified → List PinnedPackage → List RepositoryPackage
unpinned dq [] = []
unpinned dq (p ∷ ps) =
    let rest = unpinned dq ps in
    if is_disqualified dq p.repository_package then rest else p.repository_package ∷ rest

-- PkgResolver.ResolvePackage
unfoldable pub resolve_packages :
    PkgResolver → Str → Disqualified → Outcome (List RepositoryPackage)
resolve_packages p pkg_name dq =
    let constraint = resolve_package_name_version_pin pkg_name in
    do
      packages ← meeting p pkg_name dq
      done (
          unpinned dq
            (sort_packages (compare_packages none constraint.name [] [] constraint.pin) packages))

-- What the loop of nextPackage carries: the name and the number of its packages.
pub record Next : Type 0 where
  pub next : Str
  pub least_deps : ℕ

abbrev pub wrap_constraint : {A : Type 0} → Str → Outcome A → Outcome A
wrap_constraint name (done a) = done a
wrap_constraint name (failed e) = failed (constraint_error name e)

unfoldable pub take_fewer : Next → Str → List RepositoryPackage → Outcome Next
take_fewer n pkg_name [] = failed (could_not_find pkg_name)
take_fewer n pkg_name (q ∷ pkgs) =
    let this : Next = record { next = pkg_name; least_deps = length (q ∷ pkgs) } in
    if is_empty n.next
    then done this
    else if ltb (length (q ∷ pkgs)) n.least_deps
    then done this
    else done n

unfoldable pub next_loop : PkgResolver → Disqualified → Next → List Str → Outcome Next
next_loop p dq n [] = done n
next_loop p dq n (pkg_name ∷ packages) = do
  pkgs ← wrap_constraint pkg_name (resolve_packages p pkg_name dq)
  n' ← take_fewer n pkg_name pkgs
  next_loop p dq n' packages

-- PkgResolver.nextPackage
unfoldable pub next_package : PkgResolver → List Str → Disqualified → Outcome Str
next_package p packages dq = do
  n ← next_loop p dq (record { next = []; least_deps = 0 }) packages
  done n.next

-- uniqify: `seen` holds the values so far.
unfoldable pub uniqify_from : List Str → List Str → List Str
uniqify_from seen [] = []
uniqify_from seen (v ∷ vs) =
    let old = uniqify_from seen vs in
    let new = v ∷ uniqify_from (v ∷ seen) vs in if any (str_eq v) seen then old else new

unfoldable pub uniqify : List Str → List Str
uniqify s = uniqify_from [] s
