-- ===== src/Resolver/Difference/Versions.antt =====
-- The packages of one architecture in disqualifyResolverDifference of pkg/apk/apk/repo.go, and the
-- versions that it has under each name.
use apko.Base.{
  ◌≡◌, refl, sym, ap, ◌∙◌, subst, ◌↔◌, ◌⊎◌, inl, inr, true, false, List, [], ◌∷◌, ◌++◌, arith,
  if◌then◌else◌, Str, str_eq, str_eq_iff, str_eq_refl, In, In-append, In-append_left,
  In-append_right, any-In, In-any, StrMap, get, put, get-put, Bool-cases,
}
use apko.Package.{RepositoryPackage, PinnedPackage}
use apko.Resolver.{PackageMap, PkgResolver}
use apko.Resolver.Difference.{
  ArchPackages, versions_at, is_kept, add_own_package, add_own, add_entries, arch_packages,
  has_version,
}

-- The resolver lists the package under its own name, and its filter keeps it.
abbrev pub OwnIn : PkgResolver → PackageMap → PinnedPackage → Type 0
OwnIn r m e =
    (name : Str) × (pkgs : List PinnedPackage) × In (name, pkgs) m
    × In e pkgs
    × (e.name ≡ name)
    × (is_kept r e.repository_package ≡ true)

abbrev pub Owns : PkgResolver → PinnedPackage → Type 0
Owns r e = OwnIn r r.name_map e

-- The resolver has a package of this name and version.
abbrev pub Offers : PkgResolver → RepositoryPackage → Type 0
Offers r p = (e : PinnedPackage) × Owns r e × (e.name ≡ p.name) × (e.version ≡ p.version)

-- The packages of a list under a name that count.
abbrev Counts : PkgResolver → Str → List PinnedPackage → PinnedPackage → Type 0
Counts r name pkgs e = In e pkgs × (e.name ≡ name) × (is_kept r e.repository_package ≡ true)

-- The map of versions holds those of the packages in the list.
pub record Agrees (a : ArchPackages) : Type 0 where
  pub sound :
      (name version : Str)
      → In version (versions_at name a.allowed)
      → (e : PinnedPackage) × In e a.kept × (e.name ≡ name) × (e.version ≡ version)
  pub full : (e : PinnedPackage) → In e a.kept → In e.version (versions_at e.name a.allowed)

versions_at-put :
    (k j : Str) (l : List Str) (m : StrMap (List Str))
    → versions_at j (put k l m) ≡ (if str_eq k j then l else versions_at j m)
unfolding versions_at
versions_at-put k j l m = ground (arith, get-put k j l m)

abbrev with_package : ArchPackages → PinnedPackage → ArchPackages
with_package a p = record {
  kept = a.kept ++ p ∷ [];
  allowed = put p.name (p.version ∷ versions_at p.name a.allowed) a.allowed;
}

with_package-Agrees : (p : PinnedPackage) (a : ArchPackages) → Agrees a → Agrees (with_package a p)
with_package-Agrees p a g = record {
  sound = λ n v i. sound n v i (Bool-cases (str_eq p.name n));
  full = λ q i. elim (In-append a.kept (p ∷ []) q i) [
    | inl j ↦ still q (g.full q j)
    | inr (inl e) ↦
        subst (λ (x : PinnedPackage). In x.version (versions_at x.name (with_package a p).allowed))
          (sym e) new
    | inr (inr j) ↦ absurd j
  ];
}
  where
    at_same :
        (n : Str)
        → str_eq p.name n ≡ true
        → versions_at n (with_package a p).allowed ≡ p.version ∷ versions_at p.name a.allowed
    at_same n e =
        ground
          (arith, versions_at-put p.name n (p.version ∷ versions_at p.name a.allowed) a.allowed)

    at_other :
        (n : Str)
        → str_eq p.name n ≡ false
        → versions_at n (with_package a p).allowed ≡ versions_at n a.allowed
    at_other n e =
        ground
          (arith, versions_at-put p.name n (p.version ∷ versions_at p.name a.allowed) a.allowed)

    new : In p.version (versions_at p.name (with_package a p).allowed)
    new = subst (In p.version) (sym (at_same p.name (str_eq_refl p.name))) (inl refl)

    still :
        (q : PinnedPackage)
        → In q.version (versions_at q.name a.allowed)
        → In q.version (versions_at q.name (with_package a p).allowed)
    still q i = elim (Bool-cases (str_eq p.name q.name)) [
      | inl e ↦
          let same : p.name ≡ q.name = (str_eq_iff p.name q.name).0 e in
          subst (In q.version) (sym (at_same q.name e))
            (inr (subst (λ x. In q.version (versions_at x a.allowed)) (sym same) i))
      | inr e ↦ subst (In q.version) (sym (at_other q.name e)) i
    ]

    sound :
        (n v : Str)
        → In v (versions_at n (with_package a p).allowed)
        → (str_eq p.name n ≡ true) ⊎ (str_eq p.name n ≡ false)
        → (e : PinnedPackage) × In e (a.kept ++ p ∷ []) × (e.name ≡ n) × (e.version ≡ v)
    sound n v i (inr e) =
        let (q, j, k, l) = g.sound n v (subst (In v) (at_other n e) i) in
        (q, In-append_left a.kept (p ∷ []) q j, k, l)
    sound n v i (inl e) =
        let same : p.name ≡ n = (str_eq_iff p.name n).0 e in
        let i' : In v (p.version ∷ versions_at p.name a.allowed) = subst (In v) (at_same n e) i in
        elim i' [
          | inl f ↦ (p, In-append_right a.kept (p ∷ []) p (inl refl), same, sym f)
          | inr j ↦
              let (q, k, l, m) = g.sound p.name v j in
              (q, In-append_left a.kept (p ∷ []) q k, l ∙ same, m)
        ]

module _ (r : PkgResolver) where
  add_own_package_cases :
      (name : Str) (p : PinnedPackage) (a : ArchPackages)
      → ((add_own_package r name p a ≡ a) × ¬ Counts r name (p ∷ []) p)
        ⊎ ((add_own_package r name p a ≡ with_package a p) × Counts r name (p ∷ []) p)
  unfolding add_own_package
  add_own_package_cases name p a = elim (Bool-cases (str_eq p.name name)) [
    | inr e ↦ inl (ground (arith, e), λ (i, n, k). ground (arith, str_eq_iff p.name name))
    | inl e ↦ elim (Bool-cases (is_kept r p.repository_package)) [
      | inr f ↦ inl (ground (arith, e, f), λ (i, n, k). ground (arith, f, k))
      | inl f ↦ inr (rw (e, f, add_own_package) refl, (inl refl, (str_eq_iff p.name name).0 e, f))
    ]
  ]

  -- What a pass adds to the packages that are kept.
  abbrev Adds : ArchPackages → ArchPackages → (PinnedPackage → Type 0) → Type 0
  Adds a a' P = Agrees a' × ((e : PinnedPackage) → In e a'.kept ↔ (In e a.kept ⊎ P e))

  Adds_trans :
      (a b c : ArchPackages) (P Q R : PinnedPackage → Type 0)
      → ((e : PinnedPackage) → (P e ⊎ Q e) ↔ R e)
      → Adds a b P
      → Adds b c Q
      → Adds a c R
  Adds_trans a b c P Q R both (_, h) (agree, k) = (
    agree,
    λ e. (
      (λ i. elim ((k e).0 i) [
        | inr q ↦ inr ((both e).0 (inr q))
        | inl j ↦ elim ((h e).0 j) [ inl l ↦ inl l | inr l ↦ inr ((both e).0 (inl l)) ]
      ]),
      λ i. elim i [
        | inl j ↦ (k e).1 (inl ((h e).1 (inl j)))
        | inr l ↦ elim ((both e).1 l) [
          | inl x ↦ (k e).1 (inl ((h e).1 (inr x)))
          | inr x ↦ (k e).1 (inr x)
        ]
      ],
    ),
  )

  Adds-nothing :
      (a : ArchPackages) (P : PinnedPackage → Type 0)
      → Agrees a
      → ((e : PinnedPackage) → ¬ P e)
      → Adds a a P
  Adds-nothing a P g no_more =
      (g, λ e. ((λ i. inl i), λ h. elim h [ inl i ↦ i | inr x ↦ absurd (no_more e x) ]))

  add_own_package-Adds :
      (name : Str) (p : PinnedPackage) (a : ArchPackages)
      → Agrees a
      → Adds a (add_own_package r name p a) (Counts r name (p ∷ []))
  add_own_package-Adds name p a g = elim (add_own_package_cases name p a) [
    | inl (same, not_counted) ↦
        subst (λ x. Adds a x (Counts r name (p ∷ []))) (sym same)
          (Adds-nothing a (Counts r name (p ∷ [])) g (λ e c. not_counted (at_head e c)))
    | inr (same, counted) ↦
        subst (λ x. Adds a x (Counts r name (p ∷ []))) (sym same)
          (
            with_package-Agrees p a g,
            λ e. (
              (λ i. elim (In-append a.kept (p ∷ []) e i) [
                | inl j ↦ inl j
                | inr (inl f) ↦ inr (subst (Counts r name (p ∷ [])) (sym f) counted)
                | inr (inr j) ↦ absurd j
              ]),
              λ i. elim i [
                | inl j ↦ In-append_left a.kept (p ∷ []) e j
                | inr (j, _, _) ↦ In-append_right a.kept (p ∷ []) e j
              ],
            ),
          )
  ]
    where
      at_head : (e : PinnedPackage) → Counts r name (p ∷ []) e → Counts r name (p ∷ []) p
      at_head e (inl f, n, k) = subst (Counts r name (p ∷ [])) f (inl f, n, k)
      at_head e (inr j, n, k) = absurd j

  add_own-Adds :
      (name : Str) (pkgs : List PinnedPackage) (a : ArchPackages)
      → Agrees a
      → Adds a (add_own r name pkgs a) (Counts r name pkgs)
  unfolding add_own
  add_own-Adds name [] a g = Adds-nothing a (Counts r name []) g (λ e (i, _, _). i)
  add_own-Adds name (p ∷ pkgs) a g =
      let first = add_own_package-Adds name p a g in
      Adds_trans a (add_own_package r name p a) (add_own r name (p ∷ pkgs) a)
        (Counts r name (p ∷ [])) (Counts r name pkgs) (Counts r name (p ∷ pkgs)) both first
        (add_own-Adds name pkgs (add_own_package r name p a) first.0)
    where
      both :
          (e : PinnedPackage)
          → (Counts r name (p ∷ []) e ⊎ Counts r name pkgs e) ↔ Counts r name (p ∷ pkgs) e
      both e = (
        (λ h. elim h [
          | inl (inl f, n, k) ↦ (inl f, n, k)
          | inl (inr j, n, k) ↦ absurd j
          | inr (j, n, k) ↦ (inr j, n, k)
        ]),
        λ (i, n, k). elim i [ inl f ↦ inl (inl f, n, k) | inr j ↦ inr (j, n, k) ],
      )

  add_entries-Adds :
      (m : PackageMap) (a : ArchPackages) → Agrees a → Adds a (add_entries r m a) (OwnIn r m)
  unfolding add_entries
  add_entries-Adds [] a g = Adds-nothing a (OwnIn r []) g (λ e (_, _, i, _, _, _). i)
  add_entries-Adds ((name, pkgs) ∷ m) a g =
      let first = add_own-Adds name pkgs a g in
      Adds_trans a (add_own r name pkgs a) (add_entries r ((name, pkgs) ∷ m) a) (Counts r name pkgs)
        (OwnIn r m) (OwnIn r ((name, pkgs) ∷ m)) both first
        (add_entries-Adds m (add_own r name pkgs a) first.0)
    where
      both :
          (e : PinnedPackage) → (Counts r name pkgs e ⊎ OwnIn r m e) ↔ OwnIn r ((name, pkgs) ∷ m) e
      both e = (
        (λ h. elim h [
          | inl (i, n, k) ↦ (name, pkgs, inl refl, i, n, k)
          | inr (j, l, i, k, n, kept) ↦ (j, l, inr i, k, n, kept)
        ]),
        λ (j, l, i, k, n, kept). elim i [
          | inl f ↦ inl (subst (In e) (ap (λ x. x.1) f) k, n ∙ ap (λ x. x.0) f, kept)
          | inr i' ↦ inr (j, l, i', k, n, kept)
        ],
      )

  no_packages-Agrees : Agrees (record { kept = []; allowed = [] })
  unfolding versions_at get
  no_packages-Agrees = record { sound = λ n v i. absurd i; full = λ e i. absurd i }

  pub arch_packages-Owns :
      Agrees (arch_packages r) × ((e : PinnedPackage) → In e (arch_packages r).kept ↔ Owns r e)
  unfolding arch_packages
  arch_packages-Owns =
      let (agree, k) =
        add_entries-Adds r.name_map (record { kept = []; allowed = [] }) no_packages-Agrees in
      (agree, λ e. ((λ i. elim ((k e).0 i) [ inl j ↦ absurd j | inr o ↦ o ]), λ o. (k e).1 (inr o)))

  pub has_version_iff :
      (p : RepositoryPackage) → (has_version (arch_packages r) p ≡ true) ↔ Offers r p
  unfolding has_version
  has_version_iff p =
      let (agree, owns) = arch_packages-Owns in
      (
        (λ h.
            let (v, i, same) = any-In (str_eq p.version) _ h in
            let (e, j, n, w) = agree.sound p.name v i in
            (e, (owns e).0 j, n, w ∙ sym ((str_eq_iff p.version v).0 same))),
        λ (e, o, n, w).
            In-any (str_eq p.version) _ p.version
              (subst (λ x. In x (versions_at p.name (arch_packages r).allowed)) w
                (subst (λ x. In e.version (versions_at x (arch_packages r).allowed)) n
                  (agree.full e ((owns e).1 o))))
              (str_eq_refl p.version),
      )
