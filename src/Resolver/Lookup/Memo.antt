-- ===== src/Resolver/Lookup/Memo.antt =====
-- PkgResolver.lookup of pkg/apk/apk/repo.go: the memo never changes an answer.
use apko.Base.{
  ◌≡◌, refl, inl, inr, List, some, arith, Str, str_eq, str_eq_iff, get, put, get-put, Option-cases,
  Bool-cases,
}
use apko.Package.{PinnedPackage}
use apko.Resolver.{PackageMap, PkgResolver}
use apko.Resolver.Lookup.{is_plain, arrange, fill_memo, lookup, candidates_in}

-- Every entry of the memo is the kept and ordered slice of its key.
abbrev pub IsMemo : PkgResolver → PackageMap → PackageMap → Type 0
IsMemo p m memo =
    (k : Str) (kept : List PinnedPackage)
    → get k memo ≡ some kept
    → (all : List PinnedPackage) × (get k m ≡ some all) × (kept ≡ arrange p all)

put-IsMemo :
    (p : PkgResolver) (m memo : PackageMap) (key : Str) (all : List PinnedPackage)
    → IsMemo p m memo
    → get key m ≡ some all
    → IsMemo p m (put key (arrange p all) memo)
put-IsMemo p m memo key all h e k kept g = elim (Bool-cases (str_eq key k)) [
  | inl s ↦
      let same = (str_eq_iff key k).0 s in
      (all, rw same at e, ground (arith, get-put key k (arrange p all) memo))
  | inr s ↦ h k kept (ground (arith, get-put key k (arrange p all) memo))
]

-- A lookup with a memo of earlier lookups gives the answer that a lookup without one gives, and
-- leaves such a memo.
pub lookup_lem :
    (p : PkgResolver) (m memo : PackageMap) (key : Str)
    → IsMemo p m memo
    → ((lookup p m memo key).0 ≡ candidates_in p m key) × IsMemo p m (lookup p m memo key).1
unfolding lookup candidates_in fill_memo
lookup_lem p m memo key h = elim (Option-cases (get key m)) [
  | inl e ↦ rw (e, lookup, candidates_in) (refl, h)
  | inr (all, e) ↦ elim (Bool-cases (is_plain p.keep p.rank)) [
    | inl b ↦ rw (e, b, lookup, candidates_in) (refl, h)
    | inr b ↦ elim (Option-cases (get key memo)) [
      | inl n ↦ rw (e, b, n, lookup, candidates_in) (refl, put-IsMemo p m memo key all h e)
      | inr (kept, n) ↦
          let (all', e', q) = h key kept n in
          rw (e, b, n, lookup, candidates_in) (ground (arith, e, e', q), h)
    ]
  ]
]
