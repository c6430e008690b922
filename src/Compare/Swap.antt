-- ===== src/Compare/Swap.antt =====
-- comparePackages of pkg/apk/apk/repo.go with its arguments swapped.
use apko.Base.{
  ◌≡◌, refl, ◌≢◌, Bool, [], ◌∷◌, Option, none, some, arith, Str, str_eq, str_eq_iff, StrMap,
}
use apko.Version.{Version, Comparison, compare_then}
use apko.Version.Order.{flip, compare_versions-flip}
use apko.Version.Parse.{value, parse_version}
use apko.Package.{RepositoryPackage, PinnedPackage}
use apko.Compare.{
  compare_text, get_dep_version_for_name, prefer, newest_first, by_version, by_compared,
  by_requested_name, by_principal_name, by_priority, by_build, compare_packages,
}

abbrev pub Parses : Str → Type 0
Parses s = (v : Version) × (parse_version s ≡ value v)

pub compare_text-flip : (s t : Str) → compare_text t s ≡ flip (compare_text s t)
unfolding compare_text
compare_text-flip [] [] = refl
compare_text-flip [] (b ∷ t) = refl
compare_text-flip (a ∷ s) [] = refl
compare_text-flip (a ∷ s) (b ∷ t) = unfold compare_then in ground (arith, compare_text-flip s t)

str_eq_comm : (s t : Str) → str_eq s t ≡ str_eq t s
str_eq_comm s t = ground (arith, str_eq_iff s t, str_eq_iff t s)

prefer-flip : (i j : Bool) (r r' : Comparison) → r' ≡ flip r → prefer j i r' ≡ flip (prefer i j r)
unfolding prefer
prefer-flip i j r r' h = ground arith

by_version-flip :
    (i j : Str) (r r' : Comparison)
    → Parses i
    → Parses j
    → r' ≡ flip r
    → by_version j i r' ≡ flip (by_version i j r)
unfolding by_version newest_first
by_version-flip i j r r' (v, e) (w, f) h = ground (arith, e, f, compare_versions-flip v w, h)

by_requested_name-flip :
    (i j : Str) (r r' : Comparison)
    → (i ≢ [] → Parses i)
    → (j ≢ [] → Parses j)
    → r' ≡ flip r
    → by_requested_name j i r' ≡ flip (by_requested_name i j r)
unfolding by_requested_name
by_requested_name-flip [] [] r r' p q h = h
by_requested_name-flip [] (d ∷ j) r r' p q h = h
by_requested_name-flip (c ∷ i) [] r r' p q h = h
by_requested_name-flip (c ∷ i) (d ∷ j) r r' p q h =
    let vi : Parses (c ∷ i) = p (λ k. cc) in
    let vj : Parses (d ∷ j) = q (λ k. cc) in
    ground (arith, str_eq_comm (c ∷ i) (d ∷ j), by_version-flip (c ∷ i) (d ∷ j) r r' vi vj h)

module _ (a b : PinnedPackage) where
  by_priority-flip :
      (r r' : Comparison) → r' ≡ flip r → by_priority b a r' ≡ flip (by_priority a b r)
  unfolding by_priority
  by_priority-flip r r' h = ground arith

  by_build-flip : Parses a.version → Parses b.version → by_build b a ≡ flip (by_build a b)
  unfolding by_build
  by_build-flip p q = ground (
    arith,
    str_eq_comm a.version b.version,
    compare_text-flip a.name b.name,
    by_version-flip a.version b.version _ _ p q (compare_text-flip a.name b.name),
  )

  by_principal_name-flip :
      (r r' : Comparison)
      → Parses a.version
      → Parses b.version
      → r' ≡ flip r
      → by_principal_name b a r' ≡ flip (by_principal_name a b r)
  unfolding by_principal_name
  by_principal_name-flip r r' p q h = ground (
    arith,
    str_eq_comm a.version b.version,
    str_eq_comm a.name b.name,
    by_version-flip a.version b.version r r' p q h,
  )

  by_compared-flip :
      (c : Option RepositoryPackage) (r r' : Comparison)
      → r' ≡ flip r
      → by_compared c b a r' ≡ flip (by_compared c a b r)
  unfolding by_compared
  by_compared-flip none r r' h = h
  by_compared-flip (some c) r r' h = prefer-flip _ _ _ _ (prefer-flip _ _ _ _ h)

pub compare_packages-flip :
    (compare : Option RepositoryPackage) (name : Str) (existing : StrMap RepositoryPackage)
    (origins : StrMap Str) (pin : Str) (a b : PinnedPackage)
    → Parses a.version
    → Parses b.version
    → (get_dep_version_for_name a name ≢ [] → Parses (get_dep_version_for_name a name))
    → (get_dep_version_for_name b name ≢ [] → Parses (get_dep_version_for_name b name))
    → compare_packages compare name existing origins pin b a
      ≡ flip (compare_packages compare name existing origins pin a b)
unfolding compare_packages
compare_packages-flip compare name existing origins pin a b pa pb na nb =
    by_compared-flip a b compare _ _ (
      prefer-flip _ _ _ _ (
        prefer-flip _ _ _ _ (
          prefer-flip _ _ _ _ (
            by_requested_name-flip _ _ _ _ na nb (
              by_principal_name-flip a b _ _ pa pb
                (by_priority-flip a b _ _ (by_build-flip a b pa pb)))))))
