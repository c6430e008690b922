-- ===== src/Resolver/Index.antt =====
-- mapPackages of pkg/apk/apk/repo.go: where the packages of the indexes are found.
use apko.Base.{
  ◌≡◌, refl, sym, subst, ◌↔◌, ◌⊎◌, inl, inr, Bool, true, false, List, [], ◌∷◌, ◌++◌, map, arith,
  if◌then◌else◌, Str, str_eq, str_eq_iff, get, get-put, In, In-append_left, In-append_right,
  In-append, Bool-cases,
}
use apko.Constraint.{resolve_package_name_version_pin}
use apko.Package.{PinnedPackage}
use apko.Resolver.{
  NamedIndex, PackageMap, list_at, append_to, listed, add_names, add_provides, add_all_provides,
  collect, map_packages,
}

-- The package has the name, or provides it, with a version or without.
abbrev pub Provides : PinnedPackage → Str → Type 0
Provides e name =
    (prov : Str) × In prov e.provides × ((resolve_package_name_version_pin prov).name ≡ name)

abbrev pub Answers : PinnedPackage → Str → Type 0
Answers e name = (e.name ≡ name) ⊎ Provides e name

In-append_to :
    (k j : Str) (p e : PinnedPackage) (m : PackageMap)
    → In e (list_at j (append_to k p m)) ↔ (In e (list_at j m) ⊎ ((k ≡ j) × (e ≡ p)))
In-append_to k j p e m = by_key (str_eq k j) refl
  where
    at : list_at j (append_to k p m) ≡ (if str_eq k j then list_at k m ++ p ∷ [] else list_at j m)
    at = unfold list_at append_to in ground (arith, get-put k j (list_at k m ++ p ∷ []) m)

    by_key :
        (b : Bool)
        → str_eq k j ≡ b
        → In e (list_at j (append_to k p m)) ↔ (In e (list_at j m) ⊎ ((k ≡ j) × (e ≡ p)))
    by_key true h =
        let same = (str_eq_iff k j).0 h in
        rw (at, h, same)
          (
            (λ i. elim (In-append (list_at j m) (p ∷ []) e i) [
              | inl q ↦ inl q
              | inr (inl q) ↦ inr (refl, q)
              | inr (inr q) ↦ absurd q
            ]),
            λ i. elim i [
              | inl q ↦ In-append_left (list_at j m) (p ∷ []) e q
              | inr (_, q) ↦ In-append_right (list_at j m) (p ∷ []) e (inl q)
            ],
          )
    by_key false h =
        rw (at, h)
          (
            (λ i. inl i),
            λ i. elim i [ inl q ↦ q | inr (q, _) ↦ absurd (ground (arith, str_eq_iff k j, q)) ],
          )

In-add_names :
    (ps : List PinnedPackage) (m : PackageMap) (j : Str) (e : PinnedPackage)
    → In e (list_at j (add_names ps m)) ↔ (In e (list_at j m) ⊎ (In e ps × (e.name ≡ j)))
unfolding add_names
In-add_names [] m j e = ((λ i. inl i), λ i. elim i [ inl q ↦ q | inr (q, _) ↦ absurd q ])
In-add_names (p ∷ ps) m j e =
    let (down, up) = In-add_names ps (append_to p.name p m) j e in
    let (before, after) = In-append_to p.name j p e m in
    (
      (λ i. elim (down i) [
        | inl q ↦ elim (before q) [ inl r ↦ inl r | inr (n, r) ↦ inr (inl r, rw r n) ]
        | inr (q, n) ↦ inr (inr q, n)
      ]),
      λ i. elim i [
        | inl q ↦ up (inl (after (inl q)))
        | inr (inl q, n) ↦ up (inl (after (inr (rw q at n, q))))
        | inr (inr q, n) ↦ up (inr (q, n))
      ],
    )

In-add_provides :
    (p : PinnedPackage) (provs : List Str) (m : PackageMap) (j : Str) (e : PinnedPackage)
    → In e (list_at j (add_provides p provs m)) ↔ (
        In e (list_at j m)
        ⊎ ((e ≡ p)
            × ((prov : Str) × In prov provs × ((resolve_package_name_version_pin prov).name ≡ j))))
unfolding add_provides
In-add_provides p [] m j e =
    ((λ i. inl i), λ i. elim i [ inl q ↦ q | inr (_, (_, q, _)) ↦ absurd q ])
In-add_provides p (prov ∷ provs) m j e =
    let n = (resolve_package_name_version_pin prov).name in
    let (down, up) = In-add_provides p provs (append_to n p m) j e in
    let (before, after) = In-append_to n j p e m in
    (
      (λ i. elim (down i) [
        | inl q ↦ elim (before q) [ inl r ↦ inl r | inr (k, r) ↦ inr (r, (prov, inl refl, k)) ]
        | inr (q, (v, i', k)) ↦ inr (q, (v, inr i', k))
      ]),
      λ i. elim i [
        | inl q ↦ up (inl (after (inl q)))
        | inr (q, (v, inl f, k)) ↦
            up (
              inl (after (inr (subst (λ x. (resolve_package_name_version_pin x).name ≡ j) f k, q))))
        | inr (q, (v, inr i', k)) ↦ up (inr (q, (v, i', k)))
      ],
    )

In-add_all_provides :
    (ps : List PinnedPackage) (m : PackageMap) (j : Str) (e : PinnedPackage)
    → In e (list_at j (add_all_provides ps m)) ↔ (In e (list_at j m) ⊎ (In e ps × Provides e j))
unfolding add_all_provides
In-add_all_provides [] m j e = ((λ i. inl i), λ i. elim i [ inl q ↦ q | inr (q, _) ↦ absurd q ])
In-add_all_provides (p ∷ ps) m j e =
    let (down, up) = In-add_all_provides ps (add_provides p p.provides m) j e in
    let (before, after) = In-add_provides p p.provides m j e in
    (
      (λ i. elim (down i) [
        | inl q ↦ elim (before q) [
          | inl r ↦ inl r
          | inr (r, k) ↦ inr (inl r, subst (λ x. Provides x j) (sym r) k)
        ]
        | inr (q, k) ↦ inr (inr q, k)
      ]),
      λ i. elim i [
        | inl q ↦ up (inl (after (inl q)))
        | inr (inl q, k) ↦ up (inl (after (inr (q, subst (λ x. Provides x j) q k))))
        | inr (inr q, k) ↦ up (inr (q, k))
      ],
    )

In-collect :
    (ks : List Str) (m : PackageMap) (e : PinnedPackage)
    → In e (collect ks m) ↔ ((k : Str) × In k ks × In e (list_at k m))
unfolding collect
In-collect [] m e = ((λ i. absurd i), λ (k, i, q). i)
In-collect (k ∷ ks) m e =
    let (down, up) = In-collect ks m e in
    (
      (λ i. elim (In-append (list_at k m) (collect ks m) e i) [
        | inl q ↦ (k, inl refl, q)
        | inr q ↦ let (j, i', r) = down q in (j, inr i', r)
      ]),
      λ (j, i, q). elim i [
        | inl f ↦ In-append_left (list_at k m) (collect ks m) e (rw f at q)
        | inr i' ↦ In-append_right (list_at k m) (collect ks m) e (up (j, i', q))
      ],
    )

list_at-cons :
    (k j : Str) (l : List PinnedPackage) (m : PackageMap)
    → list_at k ((j, l) ∷ m) ≡ (if str_eq j k then l else list_at k m)
unfolding list_at get
list_at-cons k j l m = ground arith

-- A key with a package is among the keys.
In-keys :
    (k : Str) (m : PackageMap) (e : PinnedPackage) → In e (list_at k m) → In k (map (λ x. x.0) m)
In-keys k [] e i = unfold list_at get in i
In-keys k ((j, l) ∷ m) e i = elim (Bool-cases (str_eq j k)) [
  | inl s ↦ inl (sym ((str_eq_iff j k).0 s))
  | inr s ↦ inr (In-keys k m e (rw (list_at-cons, s) at i))
]

-- A name finds exactly the listed packages, under the pins of their indexes, that have the name or
-- provide it, in whatever order the map of names is gone through.
pub map_packages_lem :
    (visit : List Str → List Str) (indexes : List NamedIndex) (name : Str) (e : PinnedPackage)
    → ((ks : List Str) (k : Str) → In k ks → In k (visit ks))
    → In e (list_at name (map_packages visit indexes).0) ↔ (In e (listed indexes) × Answers e name)
unfolding map_packages
map_packages_lem visit indexes name e covers =
    let names = add_names (listed indexes) [] in
    let ks = visit (map (λ x. x.0) names) in
    let (down, up) = In-add_all_provides (collect ks names) names name e in
    let named = λ (j : Str). In-add_names (listed indexes) [] j e in
    let (gather, spread) = In-collect ks names e in
    let first = λ (j : Str) (i : In e (list_at j names)). only ((named j).0 i) in
    (
      (λ i. elim (down i) [
        | inl q ↦ let (l, n) = first name q in (l, inl n)
        | inr (q, v) ↦ let (k, _, r) = gather q in let (l, _) = first k r in (l, inr v)
      ]),
      λ (l, a). elim a [
        | inl n ↦ up (inl ((named name).1 (inr (l, n))))
        | inr v ↦
            let r = (named e.name).1 (inr (l, refl)) in
            up (inr (spread (e.name, covers _ _ (In-keys e.name names e r), r), v))
      ],
    )
  where
    only :
        {j : Str}
        → In e (list_at j []) ⊎ (In e (listed indexes) × (e.name ≡ j))
        → In e (listed indexes) × (e.name ≡ j)
    only (inl q) = absurd (unfold list_at get in q)
    only (inr q) = q
