-- ===== src/Compare/Preferred.antt =====
-- bestPackage of pkg/apk/apk/repo.go: why the package that it picks is preferred to the others.
use apko.Base.{
  ◌≡◌, refl, ◌≢◌, ◌↔◌, ◌⊎◌, inl, inr, ◌≤◌, Bool, true, false, List, [], ◌∷◌, In, Option, none, some,
  arith, Str, str_eq, str_eq_iff, StrMap, get, is_empty, Option-cases,
}
use apko.Version.{Version, Comparison, equal, greater, compare_versions}
use apko.Version.Parse.{value, parse_version}
use apko.Package.{RepositoryPackage, PinnedPackage}
use apko.Compare.{
  prefer, newest_first, by_compared, is_existing, text_at, origin_matched, by_priority,
  compare_packages, best_package,
}
use apko.Compare.Best.{Orders, best_package-least}
use apko.Compare.Chain.{
  IsNamed, parsed-nonempty, by_key, first_steps, compare_packages-eq, compare_packages-Orders,
  compare_named-flip,
}

-- A merit that decides unless both have it or both lack it; then the rest does.
abbrev pub Decides : Type 0 → Type 0 → Type 0 → Type 0
Decides Mine Yours Rest = (Mine × (¬ Yours)) ⊎ ((Mine ↔ Yours) × Rest)

-- The repository and the origin of the package to compare with, if there is one.
abbrev pub SameRepository : Option RepositoryPackage → PinnedPackage → Type 0
SameRepository none p = Unit
SameRepository (some c) p = p.repository_uri ≡ c.repository_uri

abbrev pub SameOrigin : Option RepositoryPackage → PinnedPackage → Type 0
SameOrigin none p = Unit
SameOrigin (some c) p = p.origin ≡ c.origin

-- The package of that name that is there already has that version.
abbrev pub IsThere : StrMap RepositoryPackage → PinnedPackage → Type 0
IsThere existing p =
    (r : RepositoryPackage) × (get p.name existing ≡ some r) × (r.version ≡ p.version)

-- The origin was pulled in at that version.
abbrev pub OriginPulled : StrMap Str → PinnedPackage → Type 0
OriginPulled origins p = (p.origin ≢ []) × (get p.origin origins ≡ some p.version)

-- The newer version, and for equal ones the priority that is not lower.
abbrev pub NotOlder : PinnedPackage → PinnedPackage → Type 0
NotOlder p q =
    (v w : Version) × (parse_version p.version ≡ value v)
    × (parse_version q.version ≡ value w)
    × ((compare_versions v w ≡ greater)
        ⊎ ((compare_versions v w ≡ equal) × (q.provider_priority ≤ p.provider_priority)))

module _ (compare : Option RepositoryPackage) (existing : StrMap RepositoryPackage)
    (origins : StrMap Str) (pin : Str) where
  -- The merits of p over q, in the order in which they count.
  abbrev pub Preferred : PinnedPackage → PinnedPackage → Type 0
  Preferred p q = Decides (SameRepository compare p) (SameRepository compare q) (
      Decides (SameOrigin compare p) (SameOrigin compare q) (
        Decides (IsThere existing p) (IsThere existing q) (
          Decides (OriginPulled origins p) (OriginPulled origins q)
            (Decides (p.pinned_name ≡ pin) (q.pinned_name ≡ pin) (NotOlder p q)))))

prefer-Decides :
    {S T R : Type 0} (i j : Bool) (r : Comparison)
    → (i ≡ true) ↔ S
    → (j ≡ true) ↔ T
    → (r ≢ greater → R)
    → prefer i j r ≢ greater
    → Decides S T R
unfolding prefer
prefer-Decides true true r s t next h = inr ((λ _. t.0 refl, λ _. s.0 refl), next h)
prefer-Decides true false r s t next h = inl (s.0 refl, λ y. cc (t.1 y))
prefer-Decides false true r s t next h = absurd (h refl)
prefer-Decides false false r s t next h =
    inr ((λ x. absurd (cc (s.1 x)), λ y. absurd (cc (t.1 y))), next h)

is_existing_iff :
    (existing : StrMap RepositoryPackage) (p : PinnedPackage)
    → (is_existing existing p ≡ true) ↔ IsThere existing p
unfolding is_existing
is_existing_iff existing p = (
  λ h. elim (Option-cases (get p.name existing)) [
    | inl e ↦ ground (arith, e, h)
    | inr (r, e) ↦ (r, e, ground (arith, e, h, str_eq_iff r.version p.version))
  ],
  λ (r, e, k). ground (arith, e, str_eq_iff r.version p.version, k),
)

is_empty_iff : (s : Str) → (is_empty s ≡ true) ↔ (s ≡ [])
is_empty_iff [] = (λ h. refl, λ h. refl)
is_empty_iff (c ∷ s) = (λ h. cc, λ h. cc)

origin_matched_iff :
    (origins : StrMap Str) (p : PinnedPackage)
    → is_empty p.version ≡ false
    → (origin_matched origins p ≡ true) ↔ OriginPulled origins p
unfolding origin_matched text_at
origin_matched_iff origins p n = (
  λ h. elim (Option-cases (get p.origin origins)) [
    | inl e ↦ absurd (ground (arith, e, h, n, str_eq_iff [] p.version, is_empty_iff p.version))
    | inr (v, e) ↦ (
      λ k. ground (arith, h, is_empty_iff p.origin, k),
      ground (arith, e, h, str_eq_iff v p.version),
    )
  ],
  λ (k, e). ground (arith, e, is_empty_iff p.origin, k, str_eq_iff p.version p.version),
)

by_key-NotOlder :
    (v w : Version) (p q : PinnedPackage)
    → parse_version p.version ≡ value v
    → parse_version q.version ≡ value w
    → by_key v w p q ≢ greater
    → NotOlder p q
unfolding by_key newest_first by_priority
by_key-NotOlder v w p q e f h = (v, w, e, f, ground (arith, h))

module _ (compare : Option RepositoryPackage) (name : Str) (existing : StrMap RepositoryPackage)
    (origins : StrMap Str) (pin : Str) (p q : PinnedPackage) (np : IsNamed name p)
    (nq : IsNamed name q) where
  matched-Decides :
      {R : Type 0} (r : Comparison)
      → (r ≢ greater → R)
      → prefer (is_existing existing p) (is_existing existing q) (
          prefer
            (origin_matched origins p)
            (origin_matched origins q)
            (prefer (str_eq p.pinned_name pin) (str_eq q.pinned_name pin) r))
        ≢ greater
      → Decides (IsThere existing p) (IsThere existing q) (
          Decides
            (OriginPulled origins p)
            (OriginPulled origins q)
            (Decides (p.pinned_name ≡ pin) (q.pinned_name ≡ pin) R))
  matched-Decides r next =
      prefer-Decides _ _ _ (is_existing_iff existing p) (is_existing_iff existing q) (
        prefer-Decides _ _ _
          (origin_matched_iff origins p (parsed-nonempty p.version np.parsed np.parses))
          (origin_matched_iff origins q (parsed-nonempty q.version nq.parsed nq.parses))
          (prefer-Decides _ _ r (str_eq_iff p.pinned_name pin) (str_eq_iff q.pinned_name pin) next))

  first_steps-Preferred :
      (c : Option RepositoryPackage)
      → first_steps c name existing origins pin p q (by_key np.parsed nq.parsed p q) ≢ greater
      → Preferred c existing origins pin p q
  unfolding first_steps by_compared
  first_steps-Preferred none h = inr (
    (λ x. x, λ x. x),
    inr (
      (λ x. x, λ x. x),
      matched-Decides _ (by_key-NotOlder np.parsed nq.parsed p q np.parses nq.parses) h,
    ),
  )
  first_steps-Preferred (some c) h =
      prefer-Decides _ _ _ (str_eq_iff p.repository_uri c.repository_uri)
        (str_eq_iff q.repository_uri c.repository_uri)
        (prefer-Decides _ _ _ (str_eq_iff p.origin c.origin) (str_eq_iff q.origin c.origin)
          (matched-Decides _ (by_key-NotOlder np.parsed nq.parsed p q np.parses nq.parses)))
        h

Orders-within :
    {A : Type 0} (cmp : A → A → Comparison) (P Q : A → Type 0)
    → ((a : A) → Q a → P a)
    → Orders cmp P
    → Orders cmp Q
Orders-within cmp P Q f o = record {
  irreflexive = λ a x. o.irreflexive a (f a x);
  asymmetric = λ a b x y. o.asymmetric a b (f a x) (f b y);
  cotransitive = λ a b c x y z. o.cotransitive a b c (f a x) (f b y) (f c z);
}

-- Of some candidates, at least one, that all have the requested name and versions that can be
-- parsed, the best one is a candidate that is preferred to each of them: by the repository and then
-- the origin of the package to compare with, if there is one, by being there already, by an origin
-- that was pulled in at its version, by the pin, by the newer version, and by the priority.
pub best_package-Preferred :
    (compare : Option RepositoryPackage) (name : Str) (existing : StrMap RepositoryPackage)
    (origins : StrMap Str) (pin : Str) (pkgs : List PinnedPackage)
    → pkgs ≢ []
    → ((q : PinnedPackage) → In q pkgs → IsNamed name q)
    → (p : PinnedPackage) × (best_package compare name existing origins pin pkgs ≡ some p)
      × In p pkgs
      × ((q : PinnedPackage) → In q pkgs → Preferred compare existing origins pin p q)
best_package-Preferred compare name existing origins pin pkgs h n =
    let cmp = compare_packages compare name existing origins pin in
    let order = compare_packages-Orders compare name existing origins pin in
    let (p, e, i, least) =
      best_package-least compare name existing origins pin pkgs h
        (Orders-within cmp (IsNamed name) (λ q. In q pkgs) n order) in
    (
      p,
      e,
      i,
      λ q j. first_steps-Preferred compare name existing origins pin p q (n p i) (n q j) compare (
          ground (
            arith,
            least q j,
            compare_named-flip compare name existing origins pin q p (n q j) (n p i),
            compare_packages-eq compare name existing origins pin p q (n p i) (n q j),
          )),
    )
