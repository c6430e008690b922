-- ===== src/Compare/Chain.antt =====
-- comparePackages of pkg/apk/apk/repo.go orders the packages that have the requested name and a
-- version that can be parsed.
use apko.Base.{
  ◌≡◌, refl, sym, ap, ◌∙◌, inl, inr, Bool, true, false, Option, none, some, arith, Str, str_eq,
  str_eq_iff, StrMap, Bool-cases, if◌then◌else◌, take_while, drop_while, [], ◌∷◌, is_empty,
}
use apko.Version.{Version, Comparison, less, equal, greater, compare_versions}
use apko.Version.Order.{
  flip, Chains, compare_versions-flip, compare_versions-Chains, compare_versions_refl,
}
use apko.Version.Parse.{value, match_version, parse_version}
use apko.Package.{RepositoryPackage, PinnedPackage}
use apko.Compare.{
  get_dep_version_for_name, prefer, newest_first, by_version, by_compared, is_existing,
  origin_matched, by_requested_name, by_principal_name, by_priority, by_build, compare_packages,
  compare_text,
}
use apko.Compare.Swap.{compare_text-flip, compare_packages-flip}
use apko.Compare.Best.{Orders}

-- A package with the requested name and a version that can be parsed.
pub record IsNamed (name : Str) (p : PinnedPackage) : Type 0 where
  pub named : p.name ≡ name
  pub parsed : Version
  pub parses : parse_version p.version ≡ value parsed

prefer-Chains :
    (i j k : Bool) (p q r : Comparison)
    → Chains p q r
    → Chains (prefer i j p) (prefer j k q) (prefer i k r)
unfolding prefer
prefer-Chains i j k p q r h = ground arith

prefer-flip : (i j : Bool) (r r' : Comparison) → r' ≡ flip r → prefer j i r' ≡ flip (prefer i j r)
unfolding prefer
prefer-flip i j r r' h = ground arith

newest_first-Chains :
    (x y z p q r : Comparison)
    → Chains (flip y) (flip x) (flip z)
    → Chains p q r
    → Chains (newest_first x p) (newest_first y q) (newest_first z r)
unfolding newest_first
newest_first-Chains x y z p q r h k = ground arith

newest_first-flip :
    (x r r' : Comparison) → r' ≡ flip r → newest_first (flip x) r' ≡ flip (newest_first x r)
unfolding newest_first
newest_first-flip x r r' h = ground arith

-- A step on versions that is skipped for the same version.
versions-eq :
    (i j : Str) (v w : Version) (r : Comparison)
    → parse_version i ≡ value v
    → parse_version j ≡ value w
    → (if str_eq i j then r else by_version i j r) ≡ newest_first (compare_versions v w) r
unfolding by_version newest_first
versions-eq i j v w r e f = elim (Bool-cases (str_eq i j)) [
  | inl s ↦ ground (arith, s, str_eq_iff i j, e, f, compare_versions_refl v)
  | inr s ↦ ground (arith, s, e, f)
]

pub parsed-nonempty : (s : Str) (v : Version) → parse_version s ≡ value v → is_empty s ≡ false
unfolding parse_version match_version take_while drop_while
parsed-nonempty [] v h = cc
parsed-nonempty (c ∷ s) v h = refl

-- What the steps behind the pin come to.
unfoldable pub by_key : Version → Version → PinnedPackage → PinnedPackage → Comparison
by_key v w a b = newest_first (compare_versions v w) (by_priority a b equal)

dep_version :
    (name : Str) (p : PinnedPackage) → IsNamed name p → get_dep_version_for_name p name ≡ p.version
unfolding get_dep_version_for_name
dep_version name p h = ground (arith, (str_eq_iff name p.name).1 (sym h.named))

newest_first_again :
    (x : Comparison) (a b : PinnedPackage)
    → newest_first x (newest_first x (by_priority a b (newest_first x equal)))
      ≡ newest_first x (by_priority a b equal)
unfolding newest_first
newest_first_again equal a b = refl
newest_first_again less a b = refl
newest_first_again greater a b = refl

requested-eq :
    (i j : Str) (r : Comparison)
    → is_empty i ≡ false
    → is_empty j ≡ false
    → by_requested_name i j r ≡ (if str_eq i j then r else by_version i j r)
unfolding by_requested_name
requested-eq i j r h k = ground (arith, h, k)

compare_text_refl : (s : Str) → compare_text s s ≡ equal
compare_text_refl s = ground (arith, compare_text-flip s s)

module _ (name : Str) (a b : PinnedPackage) (pa : IsNamed name a) (pb : IsNamed name b) where
  same_names : str_eq a.name b.name ≡ true
  same_names = (str_eq_iff a.name b.name).1 (pa.named ∙ sym pb.named)

  principal-eq :
      (r : Comparison)
      → by_principal_name a b r
        ≡ (if str_eq a.version b.version then r else by_version a.version b.version r)
  unfolding by_principal_name
  principal-eq r = ground (arith, same_names)

  build-eq :
      by_build a b
      ≡ (if str_eq a.version b.version then equal else by_version a.version b.version equal)
  unfolding by_build
  build-eq =
      ap (λ c. if str_eq a.version b.version then c else by_version a.version b.version c)
        (ap (compare_text a.name) (pb.named ∙ sym pa.named) ∙ compare_text_refl a.name)

  -- The packages with one name are told apart by their versions, and then by their priorities.
  last_steps :
      by_requested_name
        (get_dep_version_for_name a name)
        (get_dep_version_for_name b name)
        (by_principal_name a b (by_priority a b (by_build a b)))
      ≡ by_key pa.parsed pb.parsed a b
  unfolding by_key
  last_steps =
      let x = compare_versions pa.parsed pb.parsed in
      let eq = λ (r : Comparison).
        versions-eq a.version b.version pa.parsed pb.parsed r pa.parses pb.parses in
      rw (dep_version name a pa, dep_version name b pb)
        (requested-eq a.version b.version _ (parsed-nonempty a.version pa.parsed pa.parses)
            (parsed-nonempty b.version pb.parsed pb.parses)
          ∙ eq _
          ∙ ap (newest_first x) (principal-eq _ ∙ eq _)
          ∙ ap (λ c. newest_first x (newest_first x (by_priority a b c))) (build-eq ∙ eq equal)
          ∙ newest_first_again x a b)

by_priority-Chains :
    (a b c : PinnedPackage)
    → Chains (by_priority a b equal) (by_priority b c equal) (by_priority a c equal)
unfolding by_priority
by_priority-Chains a b c = ground arith

by_key-Chains :
    (u v w : Version) (a b c : PinnedPackage)
    → Chains (by_key u v a b) (by_key v w b c) (by_key u w a c)
unfolding by_key
by_key-Chains u v w a b c =
    newest_first-Chains _ _ _ _ _ _
      (rw (← compare_versions-flip v w, ← compare_versions-flip u v, ← compare_versions-flip u w)
        (compare_versions-Chains w v u))
      (by_priority-Chains a b c)

by_compared-Chains :
    (o : Option RepositoryPackage) (a b c : PinnedPackage) (p q r : Comparison)
    → Chains p q r
    → Chains (by_compared o a b p) (by_compared o b c q) (by_compared o a c r)
unfolding by_compared
by_compared-Chains none a b c p q r h = h
by_compared-Chains (some k) a b c p q r h = prefer-Chains _ _ _ _ _ _ (prefer-Chains _ _ _ _ _ _ h)

module _ (compare : Option RepositoryPackage) (name : Str) (existing : StrMap RepositoryPackage)
    (origins : StrMap Str) (pin : Str) where
  -- The steps before the versions.
  unfoldable pub first_steps : PinnedPackage → PinnedPackage → Comparison → Comparison
  first_steps a b rest = by_compared compare a b (
      prefer (is_existing existing a) (is_existing existing b) (
        prefer (origin_matched origins a) (origin_matched origins b)
          (prefer (str_eq a.pinned_name pin) (str_eq b.pinned_name pin) rest)))

  pub compare_packages-eq :
      (a b : PinnedPackage) (pa : IsNamed name a) (pb : IsNamed name b)
      → compare_packages compare name existing origins pin a b
        ≡ first_steps a b (by_key pa.parsed pb.parsed a b)
  unfolding compare_packages first_steps
  compare_packages-eq a b pa pb = rw (last_steps name a b pa pb) refl

  compare_packages-Chains :
      (a b c : PinnedPackage)
      → IsNamed name a
      → IsNamed name b
      → IsNamed name c
      → Chains
          (compare_packages compare name existing origins pin a b)
          (compare_packages compare name existing origins pin b c)
          (compare_packages compare name existing origins pin a c)
  unfolding first_steps
  compare_packages-Chains a b c pa pb pc =
      rw
        (
          compare_packages-eq a b pa pb,
          compare_packages-eq b c pb pc,
          compare_packages-eq a c pa pc,
        )
        (by_compared-Chains compare a b c _ _ _ (
          prefer-Chains _ _ _ _ _ _ (
            prefer-Chains _ _ _ _ _ _
              (prefer-Chains _ _ _ _ _ _ (by_key-Chains pa.parsed pb.parsed pc.parsed a b c)))))

  pub compare_named-flip :
      (a b : PinnedPackage)
      → IsNamed name a
      → IsNamed name b
      → compare_packages compare name existing origins pin b a
        ≡ flip (compare_packages compare name existing origins pin a b)
  compare_named-flip a b pa pb =
      compare_packages-flip compare name existing origins pin a b (pa.parsed, pa.parses)
        (pb.parsed, pb.parses) (λ _. (pa.parsed, dep_parses a pa))
        (λ _. (pb.parsed, dep_parses b pb))
    where
      dep_parses :
          (p : PinnedPackage) (h : IsNamed name p)
          → parse_version (get_dep_version_for_name p name) ≡ value h.parsed
      dep_parses p h = ap parse_version (dep_version name p h) ∙ h.parses

  -- The packages with the requested name and versions that can be parsed are ordered.
  pub compare_packages-Orders :
      Orders (compare_packages compare name existing origins pin) (IsNamed name)
  compare_packages-Orders = record {
    irreflexive = λ a pa h. ground (arith, compare_named-flip a a pa pa, h);
    asymmetric = λ a b pa pb h k. ground (arith, compare_named-flip a b pa pb, h, k);
    cotransitive = λ a b c pa pb pc h. ground (
      arith,
      compare_named-flip a b pa pb,
      compare_named-flip b c pb pc,
      compare_named-flip a c pa pc,
      compare_packages-Chains c b a pc pb pa,
    );
  }
