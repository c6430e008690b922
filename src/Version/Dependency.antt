-- ===== src/Version/Dependency.antt =====
-- includesVersion and versionDependency.satisfies of pkg/apk/apk/version.go.
use apko.Base.{
  ℕ, ◌≡◌, refl, ◌↔◌, ◌⊎◌, inl, inr, Bool, true, false, not, ◌||◌, List, [], ◌∷◌, ◌++◌, arith,
  if◌then◌else◌,
}
use apko.Version.{
  Version, differs, includes_rest, includes_numbers, includes_version, version_equal,
  version_greater, version_less, version_greater_equal, version_less_equal, version_tilde,
  satisfies_comparison, satisfies,
}
use apko.Version.Order.{HasModifiers, compare_versions-flip, compare_versions-eq-equal_iff}

-- A field that the required version leaves at its zero value is not asked for.
abbrev Agrees : ℕ → ℕ → Type 0
Agrees required actual = (required ≡ 0) ⊎ (actual ≡ required)

-- What `~` asks for behind equal numbers.
pub record RestAgrees (actual required : Version) : Type 0 where
  pub letter : Agrees required.letter actual.letter
  pub pre_suffix : Agrees required.pre_suffix actual.pre_suffix
  pub pre_suffix_number : Agrees required.pre_suffix_number actual.pre_suffix_number
  pub post_suffix : Agrees required.post_suffix actual.post_suffix
  pub post_suffix_number : Agrees required.post_suffix_number actual.post_suffix_number
  pub revision : Agrees required.revision actual.revision

differs-Agrees : (required actual : ℕ) → (differs required actual ≡ false) ↔ Agrees required actual
unfolding differs
differs-Agrees required actual = ((λ h. ground arith), λ h. ground arith)

includes_rest→ :
    (actual required : Version) → includes_rest actual required ≡ true → RestAgrees actual required
unfolding includes_rest
includes_rest→ actual required h = record {
  letter = ground arith;
  pre_suffix = ground arith;
  pre_suffix_number = ground arith;
  post_suffix = ground arith;
  post_suffix_number = ground arith;
  revision = ground arith;
}

-- A chain of guards passes when each of its guards does.
guards : (a b c d e f : Bool) → Bool
guards a b c d e f =
    if a
    then false
    else if b
    then false
    else if c
    then false
    else if d
    then false
    else if e
    then false
    else if f
    then false
    else true

guards_pass :
    (a b c d e f : Bool)
    → a ≡ false
    → b ≡ false
    → c ≡ false
    → d ≡ false
    → e ≡ false
    → f ≡ false
    → guards a b c d e f ≡ true
unfolding guards
guards_pass a b c d e f p q r s t u = ground arith

→includes_rest :
    (actual required : Version) → RestAgrees actual required → includes_rest actual required ≡ true
unfolding includes_rest guards
→includes_rest actual required h =
    guards_pass (differs required.letter actual.letter)
      (differs required.pre_suffix actual.pre_suffix)
      (differs required.pre_suffix_number actual.pre_suffix_number)
      (differs required.post_suffix actual.post_suffix)
      (differs required.post_suffix_number actual.post_suffix_number)
      (differs required.revision actual.revision) ((differs-Agrees _ _).1 h.letter)
      ((differs-Agrees _ _).1 h.pre_suffix) ((differs-Agrees _ _).1 h.pre_suffix_number)
      ((differs-Agrees _ _).1 h.post_suffix) ((differs-Agrees _ _).1 h.post_suffix_number)
      ((differs-Agrees _ _).1 h.revision)

-- The list `ys` continues `xs` by at least one number.
abbrev Extends : List ℕ → List ℕ → Type 0
Extends xs ys = (z : ℕ) × (zs : List ℕ) × (xs ≡ ys ++ z ∷ zs)

includes_numbers→ :
    (xs ys : List ℕ) (rest : Bool)
    → includes_numbers xs ys rest ≡ true
    → Extends xs ys ⊎ ((xs ≡ ys) × (rest ≡ true))
unfolding includes_numbers
includes_numbers→ [] [] rest h = inr (refl, h)
includes_numbers→ (x ∷ xs) [] rest h = inl (x, xs, refl)
includes_numbers→ [] (y ∷ ys) rest h = cc
includes_numbers→ (x ∷ xs) (y ∷ ys) rest h = elim (includes_numbers→ xs ys rest (ground arith)) [
  | inl (z, zs, e) ↦ inl (z, zs, ground arith)
  | inr (e, r) ↦ inr (ground arith, r)
]

→includes_numbers :
    (xs ys : List ℕ) (rest : Bool)
    → Extends xs ys ⊎ ((xs ≡ ys) × (rest ≡ true))
    → includes_numbers xs ys rest ≡ true
unfolding includes_numbers
→includes_numbers [] [] rest (inl (z, zs, e)) = cc
→includes_numbers [] [] rest (inr (e, r)) = r
→includes_numbers (x ∷ xs) [] rest h = refl
→includes_numbers [] (y ∷ ys) rest (inl (z, zs, e)) = cc
→includes_numbers [] (y ∷ ys) rest (inr (e, r)) = cc
→includes_numbers (x ∷ xs) (y ∷ ys) rest (inl (z, zs, e)) =
    let tail : Extends xs ys = (z, zs, ground arith) in
    ground (arith, →includes_numbers xs ys rest (inl tail))
→includes_numbers (x ∷ xs) (y ∷ ys) rest (inr (e, r)) =
    let tail : xs ≡ ys = ground arith in
    ground (arith, →includes_numbers xs ys rest (inr (tail, r)))

-- `~` accepts exactly the versions that continue the required numbers, and those with the same
-- numbers that agree in each further field that the required version sets.
pub includes_version_iff :
    (actual required : Version)
    → (includes_version actual required ≡ true) ↔ (
        Extends actual.numbers required.numbers
        ⊎ ((actual.numbers ≡ required.numbers) × RestAgrees actual required))
unfolding includes_version
includes_version_iff actual required = (
  (λ h. elim (includes_numbers→ actual.numbers required.numbers _ h) [
    | inl e ↦ inl e
    | inr (e, r) ↦ inr (e, includes_rest→ actual required r)
  ]),
  λ h.
      →includes_numbers actual.numbers required.numbers _
        (elim h [ inl e ↦ inl e | inr (e, r) ↦ inr (e, →includes_rest actual required r) ]),
)

includes_numbers_trans :
    (xs ys zs : List ℕ) (p q r : Bool)
    → (p ≡ true → q ≡ true → r ≡ true)
    → includes_numbers xs ys p ≡ true
    → includes_numbers ys zs q ≡ true
    → includes_numbers xs zs r ≡ true
unfolding includes_numbers
includes_numbers_trans [] [] [] p q r t h k = t h k
includes_numbers_trans [] [] (z ∷ zs) p q r t h k = cc
includes_numbers_trans [] (y ∷ ys) zs p q r t h k = cc
includes_numbers_trans (x ∷ xs) ys [] p q r t h k = refl
includes_numbers_trans (x ∷ xs) [] (z ∷ zs) p q r t h k = cc
includes_numbers_trans (x ∷ xs) (y ∷ ys) (z ∷ zs) p q r t h k =
    ground (arith, includes_numbers_trans xs ys zs p q r t)

RestAgrees-trans : (a b c : Version) → RestAgrees a b → RestAgrees b c → RestAgrees a c
RestAgrees-trans a b c h k = record {
  letter = ground arith;
  pre_suffix = ground arith;
  pre_suffix_number = ground arith;
  post_suffix = ground arith;
  post_suffix_number = ground arith;
  revision = ground arith;
}

-- `~` is transitive: what lies within a version lies within every version that includes it.
pub includes_version_trans :
    (a b c : Version)
    → includes_version a b ≡ true
    → includes_version b c ≡ true
    → includes_version a c ≡ true
unfolding includes_version
includes_version_trans a b c = includes_numbers_trans a.numbers b.numbers c.numbers _ _ _ (λ p q.
    →includes_rest a c (RestAgrees-trans a b c (includes_rest→ a b p) (includes_rest→ b c q)))

pub includes_version_refl : (a : Version) → includes_version a a ≡ true
includes_version_refl a = (includes_version_iff a a).1 (
    inr (
      refl,
      record {
        letter = inr refl;
        pre_suffix = inr refl;
        pre_suffix_number = inr refl;
        post_suffix = inr refl;
        post_suffix_number = inr refl;
        revision = inr refl;
      },
    ))

-- Of `<`, `=` and `>` exactly one holds between two versions, `<=` and `>=` are the negations of
-- `>` and `<`, and swapping the versions swaps the operators.
pub satisfies_trichotomy :
    (a r : Version)
    → (satisfies version_less_equal a r ≡ not (satisfies version_greater a r))
      × (satisfies version_greater_equal a r ≡ not (satisfies version_less a r))
      × (satisfies version_less a r ≡ satisfies version_greater r a)
      × (satisfies version_equal a r ≡ satisfies version_equal r a)
      × ((satisfies version_less a r
            || satisfies version_equal a r
            || satisfies version_greater a r)
          ≡ true)
      × ¬ ((satisfies version_less a r ≡ true) × (satisfies version_greater a r ≡ true))
      × ¬ ((satisfies version_equal a r ≡ true) × (satisfies version_less_equal a r ≡ false))
unfolding satisfies satisfies_comparison
satisfies_trichotomy a r = (
  ground arith,
  ground arith,
  ground (arith, compare_versions-flip a r),
  ground (arith, compare_versions-flip a r),
  ground arith,
  ground arith,
  ground arith,
)

-- Between versions with ParseVersion's modifiers `=` accepts exactly the version that is asked
-- for, and then `~`, `<=` and `>=` accept it too.
pub satisfies_equal :
    (a r : Version)
    → HasModifiers a
    → HasModifiers r
    → ((satisfies version_equal a r ≡ true) ↔ (a ≡ r))
      × (satisfies version_equal a r ≡ true
          → (satisfies version_tilde a r ≡ true)
            × (satisfies version_less_equal a r ≡ true)
            × (satisfies version_greater_equal a r ≡ true))
unfolding satisfies satisfies_comparison
satisfies_equal a r ha hr =
    let iff = compare_versions-eq-equal_iff a r ha hr in
    let back = λ (h : satisfies version_equal a r ≡ true). iff.0 (ground arith) in
    (
      (back, λ e. ground (arith, iff.1 e)),
      λ h.
          let e = back h in
          (rw e (includes_version_refl r), ground (arith, iff.1 e), ground (arith, iff.1 e)),
    )
