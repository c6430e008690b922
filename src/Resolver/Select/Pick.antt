-- ===== src/Resolver/Select/Pick.antt =====
-- PkgResolver.pick of pkg/apk/apk/repo.go: the map of selected packages.
use apko.Base.{
  ◌≡◌, refl, sym, subst, ◌≢◌, ◌⊎◌, inl, inr, true, false, List, [], ◌∷◌, none, some, arith, ◌==◌,
  Str, str_eq, str_eq_iff, str_eq_refl, is_empty, StrMap, get, put, get-put, In, Bool-cases,
  Option-cases,
}
use apko.Constraint.{resolve_package_name_version_pin}
use apko.Package.{RepositoryPackage}
use apko.Resolver.Select.{done, failed, pick_provides, pick, ResolveError}

-- A provide with a version, under a name.
abbrev pub VersionedProvide : RepositoryPackage → List Str → Str → Type 0
VersionedProvide pkg provs name =
    (prov : Str) × In prov provs
    × ((resolve_package_name_version_pin prov).name ≡ name)
    × ((resolve_package_name_version_pin prov).version ≢ [])

is_empty_iff_false : (s : Str) → is_empty s ≡ false → s ≢ []
is_empty_iff_false [] h = cc
is_empty_iff_false (c ∷ s) h = λ e. cc

-- What a loop over provides does to the map: entries stay, and new ones are the package's own.
record Extends (pkg : RepositoryPackage) (provs : List Str)
    (before after : StrMap RepositoryPackage) : Type 0 where
  kept : (k : Str) (q : RepositoryPackage) → get k before ≡ some q → get k after ≡ some q
  own :
      (k : Str) (q : RepositoryPackage)
      → get k after ≡ some q
      → (get k before ≡ some q) ⊎ ((q ≡ pkg) × VersionedProvide pkg provs k)
  all : (k : Str) → VersionedProvide pkg provs k → get k after ≡ some pkg

fresh :
    (k n : Str) (pkg q : RepositoryPackage) (m : StrMap RepositoryPackage)
    → get n m ≡ none
    → get k m ≡ some q
    → get k (put n pkg m) ≡ some q
fresh k n pkg q m h e = ground (arith, get-put n k pkg m, str_eq_iff n k)

-- A failed step is no success.
failed≢done : {A : Type 0} {e : ResolveError} {a : A} → failed e ≡ done a → ⊥
failed≢done h = cc

pick_provides-Extends :
    (pkg : RepositoryPackage) (provs : List Str) (before after : StrMap RepositoryPackage)
    → pick_provides pkg provs before ≡ done after
    → Extends pkg provs before after
unfolding pick_provides
pick_provides-Extends pkg [] before after h =
    let same : before ≡ after = ground arith in
    record {
      kept = λ k q e. rw (← same) e;
      own = λ k q e. inl (rw same e);
      all = λ k (v, i, n, w). absurd i;
    }
pick_provides-Extends pkg (prov ∷ provs) before after h =
    let c = resolve_package_name_version_pin prov in
    elim (Option-cases (get c.name before)) [
      | inr (q, e) ↦ absurd (failed≢done (rw (e, pick_provides) at h))
      | inl e ↦ elim (Bool-cases (is_empty c.version)) [
        | inl b ↦
            let r = pick_provides-Extends pkg provs before after (rw (e, b, pick_provides) at h) in
            record {
              kept = r.kept;
              own = λ k q g. elim (r.own k q g) [
                | inl l ↦ inl l
                | inr (l, (v, i, n, w)) ↦ inr (l, (v, inr i, n, w))
              ];
              all = λ k (v, i, n, w). elim i [
                | inl l ↦ absurd (is_empty_no c.version b (rw l at w))
                | inr j ↦ r.all k (v, j, n, w)
              ];
            }
        | inr b ↦
            let r =
              pick_provides-Extends pkg provs (put c.name pkg before) after
                (rw (e, b, pick_provides) at h) in
            record {
              kept = λ k q g. r.kept k q (fresh k c.name pkg q before e g);
              own = λ k q g. elim (r.own k q g) [
                | inl l ↦ elim (Bool-cases (str_eq c.name k)) [
                  | inl s ↦ inr (
                    ground (arith, get-put c.name k pkg before, l),
                    (prov, inl refl, (str_eq_iff c.name k).0 s, is_empty_iff_false c.version b),
                  )
                  | inr s ↦ inl (ground (arith, get-put c.name k pkg before, l))
                ]
                | inr (l, (v, i, n, w)) ↦ inr (l, (v, inr i, n, w))
              ];
              all = λ k (v, i, n, w). elim i [
                | inl l ↦ r.kept k pkg (here k v l n)
                | inr j ↦ r.all k (v, j, n, w)
              ];
            }
      ]
    ]
  where
    is_empty_no : (s : Str) → is_empty s ≡ true → s ≢ [] → ⊥
    is_empty_no [] b w = w refl
    is_empty_no (x ∷ s) b w = cc

    here :
        (k v : Str)
        → v ≡ prov
        → (resolve_package_name_version_pin v).name ≡ k
        → get k (put (resolve_package_name_version_pin prov).name pkg before) ≡ some pkg
    here k v l n =
        let m : (resolve_package_name_version_pin prov).name ≡ k =
          subst (λ x. (resolve_package_name_version_pin x).name ≡ k) l n in
        ground (
          arith,
          get-put (resolve_package_name_version_pin prov).name k pkg before,
          (str_eq_iff (resolve_package_name_version_pin prov).name k).1 m,
        )

-- What a successful pick does. The package's name is taken by it, each name that was taken before
-- keeps its package, only the package's own name and its versioned provides are new, and a package
-- that was not selected takes the names of all its versioned provides.
pub record Picked (pkg : RepositoryPackage) (before after : StrMap RepositoryPackage) : Type 0 where
  pub selected : (q : RepositoryPackage) × (get pkg.name after ≡ some q) × (q.address ≡ pkg.address)
  pub kept : (k : Str) (q : RepositoryPackage) → get k before ≡ some q → get k after ≡ some q
  pub own :
      (k : Str) (q : RepositoryPackage)
      → get k after ≡ some q
      → (get k before ≡ some q)
        ⊎ ((q ≡ pkg) × ((k ≡ pkg.name) ⊎ VersionedProvide pkg pkg.provides k))
  pub provides :
      get pkg.name before ≡ none
      → (k : Str) → VersionedProvide pkg pkg.provides k
      → get k after ≡ some pkg

-- A pick that succeeds gives each name at most one owner.
pub pick-Picked :
    (pkg : RepositoryPackage) (before after : StrMap RepositoryPackage)
    → pick pkg before ≡ done after
    → Picked pkg before after
unfolding pick
pick-Picked pkg before after h = elim (Option-cases (get pkg.name before)) [
  | inr (q, e) ↦ elim (Bool-cases (q.address == pkg.address)) [
    | inl b ↦
        let same : before ≡ after = ground arith in
        record {
          selected = (q, rw (← same) e, ground arith);
          kept = λ k r g. rw (← same) g;
          own = λ k r g. inl (rw same g);
          provides = λ n. absurd (ground arith);
        }
    | inr b ↦ absurd (failed≢done (rw (e, b, pick) at h))
  ]
  | inl e ↦
      let r =
        pick_provides-Extends pkg pkg.provides (put pkg.name pkg before) after
          (rw (e, pick) at h) in
      record {
        selected = (
          pkg,
          r.kept pkg.name pkg
              (ground (arith, get-put pkg.name pkg.name pkg before, str_eq_refl pkg.name)),
          refl,
        );
        kept = λ k q g. r.kept k q (fresh k pkg.name pkg q before e g);
        own = λ k q g. elim (r.own k q g) [
          | inl l ↦ elim (Bool-cases (str_eq pkg.name k)) [
            | inl s ↦ inr (
              ground (arith, get-put pkg.name k pkg before, l),
              inl (sym ((str_eq_iff pkg.name k).0 s)),
            )
            | inr s ↦ inl (ground (arith, get-put pkg.name k pkg before, l))
          ]
          | inr (l, v) ↦ inr (l, inr v)
        ];
        provides = λ n k v. r.all k v;
      }
]

-- A provide of a name that is taken makes the loop fail, wherever it stands.
pick_provides-ne-done :
    (pkg q : RepositoryPackage) (provs : List Str) (m : StrMap RepositoryPackage) (prov : Str)
    (after : StrMap RepositoryPackage)
    → In prov provs
    → get (resolve_package_name_version_pin prov).name m ≡ some q
    → pick_provides pkg provs m ≢ done after
unfolding pick_provides
pick_provides-ne-done pkg q [] m prov after i e h = i
pick_provides-ne-done pkg q (v ∷ provs) m prov after (inl l) e h =
    let e' : get (resolve_package_name_version_pin v).name m ≡ some q =
      subst (λ x. get (resolve_package_name_version_pin x).name m ≡ some q) l e in
    failed≢done (rw (e', pick_provides) at h)
pick_provides-ne-done pkg q (v ∷ provs) m prov after (inr i) e h =
    let c = resolve_package_name_version_pin v in
    elim (Option-cases (get c.name m)) [
      | inr (r, g) ↦ failed≢done (rw (g, pick_provides) at h)
      | inl g ↦ elim (Bool-cases (is_empty c.version)) [
        | inl b ↦ pick_provides-ne-done pkg q provs m prov after i e (rw (g, b, pick_provides) at h)
        | inr b ↦
            pick_provides-ne-done pkg q provs (put c.name pkg m) prov after i
              (fresh _ c.name pkg q m g e) (rw (g, b, pick_provides) at h)
      ]
    ]

-- A package that provides its own name cannot be picked: the loop over its provides finds the name
-- taken by the package itself, and fails without looking whose it is.
pub pick-ne-done_self :
    (pkg : RepositoryPackage) (selected after : StrMap RepositoryPackage) (prov : Str)
    → get pkg.name selected ≡ none
    → In prov pkg.provides
    → (resolve_package_name_version_pin prov).name ≡ pkg.name
    → pick pkg selected ≢ done after
unfolding pick
pick-ne-done_self pkg selected after prov e i n h =
    pick_provides-ne-done pkg pkg pkg.provides (put pkg.name pkg selected) prov after i
      (rw n (ground (arith, get-put pkg.name pkg.name pkg selected, str_eq_refl pkg.name)))
      (rw (e, pick) at h)
