-- ===== src/Constraint/Cache.antt =====
-- cachedParseVersion and cachedResolvePackageNameVersionPin of pkg/apk/apk/repo.go: the caches
-- `parsedVersions` and `parsedConstraints` never change an answer.
use apko.Base.{
  ◌≡◌, refl, sym, inl, inr, none, some, arith, Str, str_eq_iff, StrMap, get, put, get-put,
  Option-cases,
}
use apko.Version.{Version}
use apko.Version.Parse.{OrError, value, error, parse_version}
use apko.Constraint.{ParsedConstraint, resolve_package_name_version_pin}

-- An error is returned and not stored.
pub store_version : StrMap Version → Str → OrError Version → OrError Version × StrMap Version
store_version parsed_versions version (error e) = (error e, parsed_versions)
store_version parsed_versions version (value v) = (value v, put version v parsed_versions)

pub cached_parse_version : StrMap Version → Str → OrError Version × StrMap Version
unfolding store_version
cached_parse_version parsed_versions version = elim (get version parsed_versions) [
  | some v ↦ (value v, parsed_versions)
  | none ↦ store_version parsed_versions version (parse_version version)
]

pub cached_resolve_package_name_version_pin :
    StrMap ParsedConstraint → Str → ParsedConstraint × StrMap ParsedConstraint
cached_resolve_package_name_version_pin parsed_constraints pkg_name =
    elim (get pkg_name parsed_constraints) [
      | some c ↦ (c, parsed_constraints)
      | none ↦
          let pin = resolve_package_name_version_pin pkg_name in
          (pin, put pkg_name pin parsed_constraints)
    ]

-- Every entry of the cache is what the parser returns for its key.
abbrev pub AreParsed : StrMap Version → Type 0
AreParsed m = (k : Str) (v : Version) → get k m ≡ some v → parse_version k ≡ value v

abbrev pub AreResolved : StrMap ParsedConstraint → Type 0
AreResolved m =
    (k : Str) (c : ParsedConstraint) → get k m ≡ some c → resolve_package_name_version_pin k ≡ c

put-AreParsed :
    (m : StrMap Version) (s : Str) (v : Version)
    → AreParsed m
    → parse_version s ≡ value v
    → AreParsed (put s v m)
put-AreParsed m s v h e k w g = ground (arith, get-put s k v m, str_eq_iff s k, h k w)

put-AreResolved :
    (m : StrMap ParsedConstraint) (s : Str)
    → AreResolved m
    → AreResolved (put s (resolve_package_name_version_pin s) m)
put-AreResolved m s h k c g =
    ground (arith, get-put s k (resolve_package_name_version_pin s) m, str_eq_iff s k, h k c)

store_version_lem :
    (m : StrMap Version) (s : Str) (r : OrError Version)
    → AreParsed m
    → parse_version s ≡ r
    → ((store_version m s r).0 ≡ r) × AreParsed (store_version m s r).1
unfolding store_version
store_version_lem m s (value v) h e = (refl, put-AreParsed m s v h e)
store_version_lem m s (error x) h e = (refl, h)

-- A lookup through a cache of parsed versions gives the parser's answer, an error included, and
-- leaves a cache of parsed versions.
pub cached_parse_version_lem :
    (m : StrMap Version) (s : Str)
    → AreParsed m
    → ((cached_parse_version m s).0 ≡ parse_version s) × AreParsed (cached_parse_version m s).1
unfolding cached_parse_version
cached_parse_version_lem m s h = elim (Option-cases (get s m)) [
  | inl e ↦ rw (e, cached_parse_version) (store_version_lem m s (parse_version s) h refl)
  | inr (v, e) ↦ rw (e, cached_parse_version) (sym (h s v e), h)
]

-- The same for the cache of resolved constraints.
pub cached_resolve_package_name_version_pin_lem :
    (m : StrMap ParsedConstraint) (s : Str)
    → AreResolved m
    → ((cached_resolve_package_name_version_pin m s).0 ≡ resolve_package_name_version_pin s)
      × AreResolved (cached_resolve_package_name_version_pin m s).1
unfolding cached_resolve_package_name_version_pin
cached_resolve_package_name_version_pin_lem m s h = elim (Option-cases (get s m)) [
  | inl e ↦ rw (e, cached_resolve_package_name_version_pin) (refl, put-AreResolved m s h)
  | inr (c, e) ↦ rw (e, cached_resolve_package_name_version_pin) (sym (h s c e), h)
]
