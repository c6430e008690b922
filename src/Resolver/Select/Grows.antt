-- ===== src/Resolver/Select/Grows.antt =====
-- The map of disqualified packages of pkg/apk/apk/repo.go through the steps of constrain.
use apko.Base.{
  ◌≡◌, inl, inr, Bool, true, false, not, ◌||◌, List, [], ◌∷◌, Option, none, some, arith,
  if◌then◌else◌, Str, str_eq, is_empty, Bool-cases, Option-cases,
}
use apko.Version.{Version}
use apko.Constraint.{ParsedConstraint, resolve_package_name_version_pin}
use apko.Package.{
  RepositoryPackage, PinnedPackage, Reason, Disqualified, is_disqualified, disqualify,
}
use apko.Resolver.{PkgResolver}
use apko.Resolver.Select.{
  named, exclude, disqualify_providers, disqualify_if, constrain_provides, constrain_provider,
  constrain_providers,
}
use apko.Resolver.Select.Disqualify.{is_disqualified-disqualify}

-- Nothing is requalified.
abbrev pub Grows : Disqualified → Disqualified → Type 0
Grows before after =
    (q : RepositoryPackage) → is_disqualified before q ≡ true → is_disqualified after q ≡ true

pub disqualify-Grows :
    (dq : Disqualified) (p : RepositoryPackage) (r : Reason) → Grows dq (disqualify dq p r)
disqualify-Grows dq p r q h = ground (arith, is_disqualified-disqualify dq p q r)

pub disqualify_if-Grows :
    (dq : Disqualified) (p : RepositoryPackage) (o : Option Reason)
    → Grows dq (disqualify_if dq p o)
unfolding disqualify_if
disqualify_if-Grows dq p none q h = h
disqualify_if-Grows dq p (some r) q h = disqualify-Grows dq p r q h

pub constrain_provides-Grows :
    (s : Str) (c : ParsedConstraint) (v : Version) (p : RepositoryPackage) (provs : List Str)
    (dq : Disqualified)
    → Grows dq (constrain_provides s c v p provs dq)
unfolding constrain_provides
constrain_provides-Grows s c v p [] dq q h = h
constrain_provides-Grows s c v p (prov ∷ provs) dq q h =
    let pp = resolve_package_name_version_pin prov in
    constrain_provides-Grows s c v p provs _ q
      (by_test (not (str_eq pp.name c.name) || is_empty pp.version) _)
  where
    by_test :
        (b : Bool) (o : Option Reason)
        → is_disqualified (if b then dq else disqualify_if dq p o) q ≡ true
    by_test true o = h
    by_test false o = disqualify_if-Grows dq p o q h

pub constrain_provider-Grows :
    (s : Str) (c : ParsedConstraint) (v : Version) (dq : Disqualified) (p : RepositoryPackage)
    → Grows dq (constrain_provider s c v dq p)
unfolding constrain_provider
constrain_provider-Grows s c v dq p q h = elim (Bool-cases (str_eq p.name c.name)) [
  | inl e ↦ rw (e, constrain_provider) (disqualify_if-Grows dq p _ q h)
  | inr e ↦ rw (e, constrain_provider) (constrain_provides-Grows s c v p p.provides dq q h)
]

pub constrain_providers-Grows :
    (s : Str) (c : ParsedConstraint) (v : Version) (ps : List PinnedPackage) (dq : Disqualified)
    → Grows dq (constrain_providers s c v ps dq)
unfolding constrain_providers
constrain_providers-Grows s c v [] dq q h = h
constrain_providers-Grows s c v (p ∷ ps) dq q h =
    constrain_providers-Grows s c v ps _ q
      (constrain_provider-Grows s c v dq p.repository_package q h)

pub exclude-Grows :
    (s : Str) (ps : List PinnedPackage) (dq : Disqualified) → Grows dq (exclude s dq ps)
unfolding exclude
exclude-Grows s [] dq q h = h
exclude-Grows s (p ∷ ps) dq q h =
    exclude-Grows s ps _ q (by_test (is_disqualified dq p.repository_package) _)
  where
    by_test :
        (b : Bool) (r : Reason)
        → is_disqualified (if b then dq else disqualify dq p.repository_package r) q ≡ true
    by_test true r = h
    by_test false r = disqualify-Grows dq p.repository_package r q h

-- What is not disqualified behind a step was not before it.
pub un-Grows :
    (before after : Disqualified) (q : RepositoryPackage)
    → Grows before after
    → is_disqualified after q ≡ false
    → is_disqualified before q ≡ false
un-Grows before after q g h = ground (arith, g q)

pub disqualify_self :
    (dq : Disqualified) (p : RepositoryPackage) (r : Reason)
    → is_disqualified (disqualify dq p r) p ≡ true
disqualify_self dq p r = ground (arith, is_disqualified-disqualify dq p p r)

pub disqualify_providers-Grows :
    (p : PkgResolver) (s : Str) (dq : Disqualified) → Grows dq (disqualify_providers p s dq)
unfolding disqualify_providers
disqualify_providers-Grows p s dq q h =
    let c = resolve_package_name_version_pin s in
    elim (Option-cases (named p c.name)) [
      | inl e ↦ rw (e, disqualify_providers) h
      | inr (l, e) ↦ rw (e, disqualify_providers) (exclude-Grows s _ dq q h)
    ]
