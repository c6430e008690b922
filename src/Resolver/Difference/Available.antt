-- ===== src/Resolver/Difference/Available.antt =====
-- What disqualifyResolverDifference of pkg/apk/apk/repo.go rules out.
use apko.Base.{
  ◌≡◌, refl, sym, ap, ◌∙◌, subst, ◌≢◌, ◌↔◌, ◌⊎◌, inl, inr, true, false, List, [], ◌∷◌, none, some,
  arith, leb, ◌==◌, Str, str_eq, str_eq_iff, length, In, StrMap, Bool-cases,
}
use apko.Package.{RepositoryPackage, PinnedPackage, Disqualified, is_disqualified, not_available}
use apko.Resolver.{PkgResolver}
use apko.Resolver.Select.Disqualify.{is_disqualified-disqualify}
use apko.Resolver.Difference.{
  arch_packages, per_arch, has_version, missing_from, disqualify_if_missing, disqualify_missing,
  disqualify_archs, disqualify_resolver_difference,
}
use apko.Resolver.Difference.Versions.{Owns, Offers, arch_packages-Owns, has_version_iff}

-- Another architecture has no package of this name and version.
abbrev pub Lacks : StrMap PkgResolver → Str → RepositoryPackage → Type 0
Lacks rs arch p =
    (other : Str) × (r : PkgResolver) × In (other, r) rs × (other ≢ arch) × ¬ Offers r p

module _ (arch : Str) (p : RepositoryPackage) where
  missing_from-cases :
      (rs : StrMap PkgResolver)
      → ((other : Str) × (missing_from arch p (per_arch rs) ≡ some other) × Lacks rs arch p)
        ⊎ ((missing_from arch p (per_arch rs) ≡ none) × ¬ Lacks rs arch p)
  unfolding missing_from per_arch
  missing_from-cases [] = inr (refl, λ (_, _, i, _, _). i)
  missing_from-cases ((other, r) ∷ rs) = elim (Bool-cases (str_eq other arch)) [
    | inl e ↦
        pass (missing_from-cases rs) (rw e refl)
          (λ different. absurd (different ((str_eq_iff other arch).0 e)))
    | inr e ↦ elim (Bool-cases (has_version (arch_packages r) p)) [
      | inl f ↦
          pass (missing_from-cases rs) (rw (e, f) refl)
            (λ _ lacks. lacks ((has_version_iff r p).0 f))
      | inr f ↦ inl (
        other,
        rw (e, f) refl,
        (
          other,
          r,
          inl refl,
          (λ same. ground (arith, e, str_eq_iff other arch, same)),
          λ offers. ground (arith, f, (has_version_iff r p).1 offers),
        ),
      )
    ]
  ]
    where
      pass :
          ((o : Str) × (missing_from arch p (per_arch rs) ≡ some o) × Lacks rs arch p)
            ⊎ ((missing_from arch p (per_arch rs) ≡ none) × ¬ Lacks rs arch p)
          → missing_from arch p (per_arch ((other, r) ∷ rs)) ≡ missing_from arch p (per_arch rs)
          → (other ≢ arch → ¬ Offers r p → ⊥)
          → ((o : Str) × (missing_from arch p (per_arch ((other, r) ∷ rs)) ≡ some o)
              × Lacks ((other, r) ∷ rs) arch p)
            ⊎ ((missing_from arch p (per_arch ((other, r) ∷ rs)) ≡ none)
                × ¬ Lacks ((other, r) ∷ rs) arch p)
      pass rest same none_here = elim rest [
        | inl (o, found, (o', r', i, different, lacks)) ↦
            inl (o, same ∙ found, (o', r', inr i, different, lacks))
        | inr (found, no_more) ↦ inr (
          same ∙ found,
          λ (o, r', i, different, lacks). elim i [
            | inl f ↦
                none_here (λ h. different (ap (λ x. x.0) f ∙ h))
                  (subst (λ x. ¬ Offers x p) (ap (λ x. x.1) f) lacks)
            | inr j ↦ no_more (o, r', j, different, lacks)
          ],
        )
      ]

-- A package of the list at this address, whose version another architecture lacks.
abbrev FoundAt : StrMap PkgResolver → Str → List PinnedPackage → RepositoryPackage → Type 0
FoundAt rs arch pkgs q =
    (e : PinnedPackage) × In e pkgs × (e.address ≡ q.address) × Lacks rs arch e.repository_package

disqualify_if_missing_iff :
    (rs : StrMap PkgResolver) (arch : Str) (p : RepositoryPackage) (dq : Disqualified)
    (q : RepositoryPackage)
    → (is_disqualified (disqualify_if_missing arch (per_arch rs) p dq) q ≡ true)
      ↔ ((is_disqualified dq q ≡ true) ⊎ ((p.address ≡ q.address) × Lacks rs arch p))
unfolding disqualify_if_missing
disqualify_if_missing_iff rs arch p dq q = elim (missing_from-cases arch p rs) [
  | inr (e, no_more) ↦
      rw (e, disqualify_if_missing)
        ((λ h. inl h), λ h. elim h [ inl i ↦ i | inr (_, l) ↦ absurd (no_more l) ])
  | inl (o, e, lacks) ↦
      rw (e, disqualify_if_missing)
        (
          (λ h. elim (Bool-cases (p.address == q.address)) [
            | inl f ↦ inr (ground arith, lacks)
            | inr f ↦
                inl (ground (arith, is_disqualified-disqualify dq p q (not_available o), f, h))
          ]),
          λ h. elim h [
            | inl i ↦ ground (arith, is_disqualified-disqualify dq p q (not_available o), i)
            | inr (f, _) ↦ ground (arith, is_disqualified-disqualify dq p q (not_available o), f)
          ],
        )
]

disqualify_missing_iff :
    (rs : StrMap PkgResolver) (arch : Str) (pkgs : List PinnedPackage) (dq : Disqualified)
    (q : RepositoryPackage)
    → (is_disqualified (disqualify_missing arch (per_arch rs) pkgs dq) q ≡ true)
      ↔ ((is_disqualified dq q ≡ true) ⊎ FoundAt rs arch pkgs q)
unfolding disqualify_missing
disqualify_missing_iff rs arch [] dq q =
    ((λ h. inl h), λ h. elim h [ inl i ↦ i | inr (_, i, _, _) ↦ absurd i ])
disqualify_missing_iff rs arch (e ∷ pkgs) dq q =
    let rest =
      disqualify_missing_iff rs arch pkgs
        (disqualify_if_missing arch (per_arch rs) e.repository_package dq) q in
    let first = disqualify_if_missing_iff rs arch e.repository_package dq q in
    (
      (λ h. elim (rest.0 h) [
        | inr (f, i, a, l) ↦ inr (f, inr i, a, l)
        | inl d ↦ elim (first.0 d) [ inl d' ↦ inl d' | inr (a, l) ↦ inr (e, inl refl, a, l) ]
      ]),
      λ h. elim h [
        | inl d ↦ rest.1 (inl (first.1 (inl d)))
        | inr (f, i, a, l) ↦ elim i [
          | inl same ↦ rest.1 (
              inl (
                first.1 (
                  inr (
                    subst
                      (λ (x : PinnedPackage).
                        (x.address ≡ q.address) × Lacks rs arch x.repository_package)
                      same (a, l)))))
          | inr j ↦ rest.1 (inr (f, j, a, l))
        ]
      ],
    )

-- An architecture of the list keeps a package at this address that another one lacks.
abbrev FoundIn : StrMap PkgResolver → StrMap PkgResolver → RepositoryPackage → Type 0
FoundIn rs archs q =
    (arch : Str) × (r : PkgResolver) × In (arch, r) archs × FoundAt rs arch (arch_packages r).kept q

disqualify_archs_iff :
    (rs archs : StrMap PkgResolver) (dq : Disqualified) (q : RepositoryPackage)
    → (is_disqualified (disqualify_archs (per_arch rs) (per_arch archs) dq) q ≡ true)
      ↔ ((is_disqualified dq q ≡ true) ⊎ FoundIn rs archs q)
unfolding disqualify_archs per_arch
disqualify_archs_iff rs [] dq q =
    ((λ h. inl h), λ h. elim h [ inl i ↦ i | inr (_, _, i, _) ↦ absurd i ])
disqualify_archs_iff rs ((arch, r) ∷ archs) dq q =
    let rest =
      disqualify_archs_iff rs archs
        (disqualify_missing arch (per_arch rs) (arch_packages r).kept dq) q in
    let first = disqualify_missing_iff rs arch (arch_packages r).kept dq q in
    (
      (λ h. elim (rest.0 h) [
        | inr (b, s, i, f) ↦ inr (b, s, inr i, f)
        | inl d ↦ elim (first.0 d) [ inl d' ↦ inl d' | inr f ↦ inr (arch, r, inl refl, f) ]
      ]),
      λ h. elim h [
        | inl d ↦ rest.1 (inl (first.1 (inl d)))
        | inr (b, s, i, f) ↦ elim i [
          | inl same ↦ rest.1 (
              inl (
                first.1 (
                  inr (
                    subst (λ (x : Str × PkgResolver). FoundAt rs x.0 (arch_packages x.1).kept q)
                      same f))))
          | inr j ↦ rest.1 (inr (b, s, j, f))
        ]
      ],
    )

nothing-ne-true : (q : RepositoryPackage) → is_disqualified [] q ≢ true
unfolding is_disqualified
nothing-ne-true q h = cc

-- A package is ruled out exactly when, at its address, an architecture has a package under its own
-- name that its filter keeps, and another architecture has none of this name and version that its
-- filter keeps.
pub disqualify_resolver_difference_iff :
    (by_arch : StrMap PkgResolver) (q : RepositoryPackage)
    → (is_disqualified (disqualify_resolver_difference by_arch) q ≡ true) ↔ (
        (arch : Str) × (r : PkgResolver) × (e : PinnedPackage) × In (arch, r) by_arch
        × Owns r e
        × (e.address ≡ q.address)
        × Lacks by_arch arch e.repository_package)
unfolding disqualify_resolver_difference
disqualify_resolver_difference_iff [] q =
    ((λ h. absurd (nothing-ne-true q h)), λ (_, _, _, i, _, _, _). absurd i)
disqualify_resolver_difference_iff (only ∷ []) q = (
  (λ h. absurd (nothing-ne-true q h)),
  λ (arch, r, e, i, _, _, (other, r', j, different, _)). elim i [
    | inr k ↦ absurd k
    | inl f ↦ elim j [ inr k ↦ absurd k | inl g ↦ absurd (different (ap (λ x. x.0) (g ∙ sym f))) ]
  ],
)
disqualify_resolver_difference_iff (a ∷ b ∷ rs) q =
    let all = disqualify_archs_iff (a ∷ b ∷ rs) (a ∷ b ∷ rs) [] q in
    (
      (λ h. elim (all.0 (rw (many a b rs) at h)) [
        | inl d ↦ absurd (nothing-ne-true q d)
        | inr (arch, r, i, (e, k, f, l)) ↦ (arch, r, e, i, ((arch_packages-Owns r).1 e).0 k, f, l)
      ]),
      λ (arch, r, e, i, o, f, l).
          rw (many a b rs) (all.1 (inr (arch, r, i, (e, ((arch_packages-Owns r).1 e).1 o, f, l)))),
    )
  where
    many : (x y : Str × PkgResolver) (xs : StrMap PkgResolver) → leb (length (x ∷ y ∷ xs)) 1 ≡ false
    many x y xs = ground arith
