-- ===== src/Resolver/Select/Disqualify.antt =====
-- disqualifyConflicts of pkg/apk/apk/repo.go never panics, and what it rules out.
use apko.Base.{
  ◌≡◌, refl, sym, ◌∙◌, subst, ◌≢◌, ◌⊎◌, inl, inr, Bool, true, false, not, List, [], ◌∷◌, some,
  arith, ◌==◌, if◌then◌else◌, Str, str_eq, str_eq_iff, In, Bool-cases, Option-cases,
}
use apko.Constraint.{ParsedConstraint, resolve_package_name_version_pin}
use apko.Package.{
  RepositoryPackage, PinnedPackage, Reason, already_provides, Disqualified, find_reason,
  is_disqualified, disqualify,
}
use apko.Resolver.{PkgResolver}
use apko.Resolver.Index.{Answers}
use apko.Resolver.Select.{
  named, provided_conflict, conflicting_version, disqualify_providing, or_nil, disqualify_provided,
  disqualify_conflicts,
}
use apko.Resolver.Select.Conflicts.{IsIndexed, In-named}

pub is_disqualified-disqualify :
    (dq : Disqualified) (p q : RepositoryPackage) (r : Reason)
    → is_disqualified (disqualify dq p r) q
      ≡ (if p.address == q.address then true else is_disqualified dq q)
unfolding is_disqualified disqualify find_reason
is_disqualified-disqualify dq p q r = ground arith

provided_conflict-some :
    (c : ParsedConstraint) (provs : List Str) (prov : Str)
    → In prov provs
    → (resolve_package_name_version_pin prov).name ≡ c.name
    → (b : Bool) × (provided_conflict c provs ≡ some b)
unfolding provided_conflict
provided_conflict-some c [] prov i n = absurd i
provided_conflict-some c (v ∷ provs) prov i n =
    let w = resolve_package_name_version_pin v in
    elim (Bool-cases (str_eq w.name c.name)) [
      | inl h ↦ (not (str_eq w.version c.version), ground arith)
      | inr h ↦ elim i [
        | inl e ↦
            absurd
              (no_match h (subst (λ x. (resolve_package_name_version_pin x).name ≡ c.name) e n))
        | inr j ↦ let (b, e) = provided_conflict-some c provs prov j n in (b, ground arith)
      ]
    ]
  where
    no_match : {s t : Str} → str_eq s t ≡ false → s ≡ t → ⊥
    no_match {s} {t} h e = ground (arith, str_eq_iff s t)

-- A package that a name finds can be asked for a conflict on that name.
conflicting_version-some :
    (c : ParsedConstraint) (e : PinnedPackage)
    → Answers e c.name
    → (b : Bool) × (conflicting_version c e ≡ some b) × (c.version ≢ [] → b ≡ true)
conflicting_version-some c e a = by_version c.version refl
  where
    by_version :
        (v : Str)
        → c.version ≡ v
        → (b : Bool) × (conflicting_version c e ≡ some b) × (c.version ≢ [] → b ≡ true)
    by_version (x ∷ v) h = unfold conflicting_version in (true, rw h refl, λ _. refl)
    by_version [] h =
        unfold conflicting_version in
        (elim (Bool-cases (str_eq e.name c.name)) [
          | inl s ↦ (not (str_eq e.version c.version), ground arith, λ k. absurd (k h))
          | inr s ↦ elim a [
            | inl n ↦ absurd (ground (arith, str_eq_iff e.name c.name))
            | inr (prov, i, n) ↦
                let (b, q) = provided_conflict-some c e.provides prov i n in
                (b, ground (arith, q), λ k. absurd (k h))
          ]
        ])

-- What ruling out providers for a package does: nothing is requalified, only providers with another
-- address are ruled out, and under a condition all of these are.
pub record Rules (pkg : RepositoryPackage) (providers : List PinnedPackage) (Strict : Type 0)
    (before after : Disqualified) : Type 0 where
  pub kept :
      (q : RepositoryPackage) → is_disqualified before q ≡ true → is_disqualified after q ≡ true
  pub only :
      (q : RepositoryPackage)
      → is_disqualified after q ≡ true
      → (is_disqualified before q ≡ true)
        ⊎ ((e : PinnedPackage) × In e providers
            × (e.address ≡ q.address)
            × (q.address ≢ pkg.address))
  pub all :
      Strict
      → (e : PinnedPackage) → In e providers
      → e.address ≢ pkg.address
      → is_disqualified after e.repository_package ≡ true

module _ (pkg : RepositoryPackage) (c : ParsedConstraint) where
  -- A round that leaves the map as it is.
  skip_round :
      (e : PinnedPackage) (es : List PinnedPackage) (dq dq' : Disqualified)
      → (c.version ≢ [] → e.address ≢ pkg.address → is_disqualified dq e.repository_package ≡ true)
      → Rules pkg es (c.version ≢ []) dq dq'
      → Rules pkg (e ∷ es) (c.version ≢ []) dq dq'
  skip_round e es dq dq' h r = record {
    kept = r.kept;
    only = λ q d. elim (r.only q d) [ inl o ↦ inl o | inr (f, i, a, n) ↦ inr (f, inr i, a, n) ];
    all = λ s f i n. elim i [
      | inl l ↦
          let n' : e.address ≢ pkg.address =
            subst (λ (x : PinnedPackage). x.address ≢ pkg.address) l n in
          subst (λ (x : PinnedPackage). is_disqualified dq' x.repository_package ≡ true) (sym l)
            (r.kept e.repository_package (h s n'))
      | inr j ↦ r.all s f j n
    ];
  }

  -- A round that rules its provider out.
  rule_round :
      (e : PinnedPackage) (es : List PinnedPackage) (dq dq' : Disqualified) (x : Reason)
      → e.address ≢ pkg.address
      → Rules pkg es (c.version ≢ []) (disqualify dq e.repository_package x) dq'
      → Rules pkg (e ∷ es) (c.version ≢ []) dq dq'
  rule_round e es dq dq' x h r = record {
    kept = λ q d. r.kept q (ground (arith, is_disqualified-disqualify dq e.repository_package q x));
    only = λ q d. elim (r.only q d) [
      | inl o ↦ elim (Bool-cases (e.address == q.address)) [
        | inl s ↦ inr (e, inl refl, ground arith, ground arith)
        | inr s ↦ inl (ground (arith, is_disqualified-disqualify dq e.repository_package q x))
      ]
      | inr (f, i, a, n) ↦ inr (f, inr i, a, n)
    ];
    all = λ s f i n. elim i [
      | inl l ↦
          subst (λ (y : PinnedPackage). is_disqualified dq' y.repository_package ≡ true) (sym l)
            (r.kept e.repository_package (
              ground
                (arith, is_disqualified-disqualify dq e.repository_package e.repository_package x)))
      | inr j ↦ r.all s f j n
    ];
  }

  disqualify_providing-some :
      (providers : List PinnedPackage) (dq : Disqualified)
      → ((e : PinnedPackage) → In e providers → Answers e c.name)
      → (dq' : Disqualified) × (disqualify_providing pkg c dq providers ≡ some dq')
        × Rules pkg providers (c.version ≢ []) dq dq'
  unfolding disqualify_providing
  disqualify_providing-some [] dq h =
      (dq, refl, record { kept = λ q d. d; only = λ q d. inl d; all = λ s e i n. absurd i })
  disqualify_providing-some (e ∷ es) dq h =
      let (b, v, strict) = conflicting_version-some c e (h e (inl refl)) in
      let rest = λ (f : PinnedPackage) (i : In f es). h f (inr i) in
      let (dq₁, e₁, r₁) = disqualify_providing-some es dq rest in
      let (dq₂, e₂, r₂) =
        disqualify_providing-some es
          (disqualify dq e.repository_package (already_provides pkg c.name)) rest in
      elim (Bool-cases (e.address == pkg.address)) [
        | inl s ↦
            (dq₁, ground (arith, e₁), skip_round e es dq dq₁ (λ _ n. absurd (ground arith)) r₁)
        | inr s ↦ elim (Bool-cases (is_disqualified dq e.repository_package)) [
          | inl d ↦ (dq₁, ground (arith, e₁), skip_round e es dq dq₁ (λ _ _. d) r₁)
          | inr d ↦ elim (Bool-cases b) [
            | inl t ↦ (dq₂, ground (arith, e₂, v, t), rule_round e es dq dq₂ _ (ground arith) r₂)
            | inr f ↦ (
              dq₁,
              ground (arith, e₁, v, f),
              skip_round e es dq dq₁ (λ k n. absurd (true≢false (sym (strict k) ∙ f))) r₁,
            )
          ]
        ]
      ]
    where
      true≢false : true ≡ false → ⊥
      true≢false k = cc

-- What disqualifying the conflicts of provides does: nothing is requalified; only packages with
-- another address are ruled out, and only those that are found under a provided name; and all that
-- are found under the name of a versioned provide are, whatever version they have.
pub record RulesOut (p : PkgResolver) (pkg : RepositoryPackage) (provs : List Str)
    (before after : Disqualified) : Type 0 where
  pub kept :
      (q : RepositoryPackage) → is_disqualified before q ≡ true → is_disqualified after q ≡ true
  pub only :
      (q : RepositoryPackage)
      → is_disqualified after q ≡ true
      → (is_disqualified before q ≡ true)
        ⊎ ((prov : Str) × In prov provs
            × ((e : PinnedPackage) × In e
                  (or_nil (named p (resolve_package_name_version_pin prov).name))
                × (e.address ≡ q.address)
                × (q.address ≢ pkg.address)))
  pub all :
      (prov : Str)
      → In prov provs
      → (resolve_package_name_version_pin prov).version ≢ []
      → (e : PinnedPackage) → In e (or_nil (named p (resolve_package_name_version_pin prov).name))
      → e.address ≢ pkg.address
      → is_disqualified after e.repository_package ≡ true

named-Answers :
    (p : PkgResolver) (name : Str) (e : PinnedPackage)
    → IsIndexed p
    → In e (or_nil (named p name))
    → Answers e name
named-Answers p name e indexed i = elim (Option-cases (named p name)) [
  | inl h ↦ absurd (subst (λ o. In e (or_nil o)) h i)
  | inr (l, h) ↦ indexed name e (In-named p name l e h (subst (λ o. In e (or_nil o)) h i))
]

disqualify_provided-some :
    (p : PkgResolver) (pkg : RepositoryPackage) (provs : List Str) (dq : Disqualified)
    → IsIndexed p
    → (dq' : Disqualified) × (disqualify_provided p pkg provs dq ≡ some dq')
      × RulesOut p pkg provs dq dq'
unfolding disqualify_provided
disqualify_provided-some p pkg [] dq indexed =
    (dq, refl, record { kept = λ q d. d; only = λ q d. inl d; all = λ v i. absurd i })
disqualify_provided-some p pkg (prov ∷ provs) dq indexed =
    let c = resolve_package_name_version_pin prov in
    let (dq₁, e₁, r₁) =
      disqualify_providing-some pkg c (or_nil (named p c.name)) dq
        (λ e i. named-Answers p c.name e indexed i) in
    let (dq₂, e₂, r₂) = disqualify_provided-some p pkg provs dq₁ indexed in
    (
      dq₂,
      ground (arith, e₁, e₂),
      record {
        kept = λ q d. r₂.kept q (r₁.kept q d);
        only = λ q d. elim (r₂.only q d) [
          | inl o ↦ elim (r₁.only q o) [ inl b ↦ inl b | inr x ↦ inr (prov, inl refl, x) ]
          | inr (v, i, x) ↦ inr (v, inr i, x)
        ];
        all = λ v i s e j n. elim i [
          | inl l ↦ r₂.kept e.repository_package (
              r₁.all (subst (λ x. (resolve_package_name_version_pin x).version ≢ []) l s) e
                (subst (λ x. In e (or_nil (named p (resolve_package_name_version_pin x).name))) l j)
                n)
          | inr i' ↦ r₂.all v i' s e j n
        ];
      },
    )

-- With a resolver whose names find only packages that have or provide them, the panic of
-- conflictingVersion is never met, and the packages that provide the same names are ruled out as
-- RulesOut says.
pub disqualify_conflicts_lem :
    (p : PkgResolver) (pkg : RepositoryPackage) (dq : Disqualified)
    → IsIndexed p
    → (dq' : Disqualified) × (disqualify_conflicts p pkg dq ≡ some dq')
      × RulesOut p pkg pkg.provides dq dq'
unfolding disqualify_conflicts
disqualify_conflicts_lem p pkg dq indexed = disqualify_provided-some p pkg pkg.provides dq indexed
