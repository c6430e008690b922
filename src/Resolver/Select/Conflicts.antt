-- ===== src/Resolver/Select/Conflicts.antt =====
-- disqualifyConflicts of pkg/apk/apk/repo.go.
use apko.Base.{
  ℕ, ◌≡◌, inl, inr, Bool, List, [], ◌∷◌, Option, none, some, arith, Str, get, In, In-keep_if,
  Bool-cases, Option-cases, leb,
}
use apko.Package.{RepositoryPackage, PinnedPackage}
use apko.Resolver.{PkgResolver, list_at, new_pkg_resolver, NamedIndex}
use apko.Resolver.Index.{Answers, map_packages_lem}
use apko.Resolver.Lookup.{
  is_plain, if_some, arrange, filter_kept, order_kept, order, sort_stable, insert_ranked,
  candidates_in,
}
use apko.Resolver.Select.{named}

-- Every package that a name finds has the name or provides it.
abbrev pub IsIndexed : PkgResolver → Type 0
IsIndexed p = (name : Str) (e : PinnedPackage) → In e (list_at name p.name_map) → Answers e name

In-insert_ranked :
    (rank : RepositoryPackage → ℕ) (a e : PinnedPackage) (l : List PinnedPackage)
    → In e (insert_ranked rank a l)
    → In e (a ∷ l)
unfolding insert_ranked
In-insert_ranked rank a e [] i = i
In-insert_ranked rank a e (b ∷ l) i =
    elim (Bool-cases (leb (rank a.repository_package) (rank b.repository_package))) [
      | inl h ↦ ground arith
      | inr h ↦ ground (arith, In-insert_ranked rank a e l)
    ]

In-sort_stable :
    (rank : RepositoryPackage → ℕ) (e : PinnedPackage) (l : List PinnedPackage)
    → In e (sort_stable rank l)
    → In e l
unfolding sort_stable
In-sort_stable rank e [] i = i
In-sort_stable rank e (a ∷ l) i = elim (In-insert_ranked rank a e (sort_stable rank l) i) [
  | inl h ↦ inl h
  | inr h ↦ inr (In-sort_stable rank e l h)
]

In-order_kept :
    (rank : Option (RepositoryPackage → ℕ)) (e : PinnedPackage) (l : List PinnedPackage)
    → In e (order_kept rank l)
    → In e l
unfolding order_kept order
In-order_kept none e l i = i
In-order_kept (some rank) e l i = ground (arith, In-sort_stable rank e l)

In-filter_kept :
    (keep : Option (RepositoryPackage → Bool)) (e : PinnedPackage) (l : List PinnedPackage)
    → In e (filter_kept keep l)
    → In e l
unfolding filter_kept
In-filter_kept none e l i = i
In-filter_kept (some keep) e l i = ((In-keep_if (λ q. keep q.repository_package) l e).0 i).0

In-arrange :
    (p : PkgResolver) (e : PinnedPackage) (l : List PinnedPackage) → In e (arrange p l) → In e l
unfolding arrange
In-arrange p e l i = In-filter_kept p.keep e l (In-order_kept p.rank e (filter_kept p.keep l) i)

if_some-eq : (l m : List PinnedPackage) → if_some l ≡ some m → m ≡ l
if_some-eq [] m h = cc
if_some-eq (a ∷ l) m h = cc

-- A lookup finds packages of the map only.
pub In-named :
    (p : PkgResolver) (name : Str) (l : List PinnedPackage) (e : PinnedPackage)
    → named p name ≡ some l
    → In e l
    → In e (list_at name p.name_map)
unfolding named candidates_in list_at
In-named p name l e h i = elim (Option-cases (get name p.name_map)) [
  | inl g ↦ absurd (ground arith)
  | inr (all, g) ↦ elim (Bool-cases (is_plain p.keep p.rank)) [
    | inl b ↦ ground arith
    | inr b ↦
        let m = if_some-eq (arrange p all) l (ground arith) in
        let j : In e all = In-arrange p e all (rw m at i) in ground arith
  ]
]

-- A resolver that is built from indexes is indexed, in whatever order its names are gone through.
pub new_pkg_resolver-IsIndexed :
    (visit : List Str → List Str) (indexes : List NamedIndex)
    → ((ks : List Str) (k : Str) → In k ks → In k (visit ks))
    → IsIndexed (new_pkg_resolver visit indexes)
unfolding new_pkg_resolver
new_pkg_resolver-IsIndexed visit indexes covers name e i =
    ((map_packages_lem visit indexes name e covers).0 i).1
