-- ===== src/Version/Order.antt =====
-- CompareVersions of pkg/apk/apk/version.go is a linear order on the versions that ParseVersion
-- makes.
use apko.Base.{ℕ, ◌≤◌, ◌≡◌, refl, ◌≢◌, ◌↔◌, ◌⊎◌, List, [], ◌∷◌, arith}
use apko.Version.{
  Version, Comparison, less, equal, greater, compare_then, compare_numbers, compare_versions,
  pre_suffix_rank,
}

-- The comparison with its arguments swapped: `-1 *` of a Go comparison.
abbrev pub flip : Comparison → Comparison
flip less = greater
flip equal = equal
flip greater = less

-- The modifiers that ParseVersion stores: `packageVersionPreModifierMax` is not among them.
pub record HasModifiers (v : Version) : Type 0 where
  pub pre : v.pre_suffix ≤ 4
  pub post : v.post_suffix ≤ 5

-- Comparisons of a with b, b with c and a with c.
abbrev pub Chains : Comparison → Comparison → Comparison → Type 0
Chains greater _ _ = Unit
Chains _ greater _ = Unit
Chains equal equal q = q ≡ equal
Chains _ _ q = q ≡ less

compare_then-flip :
    (a b : ℕ) (r r' : Comparison) → r' ≡ flip r → compare_then b a r' ≡ flip (compare_then a b r)
unfolding compare_then
compare_then-flip a b r r' h = ground arith

compare_numbers-flip :
    (xs ys : List ℕ) (r r' : Comparison)
    → r' ≡ flip r
    → compare_numbers ys xs r' ≡ flip (compare_numbers xs ys r)
unfolding compare_numbers
compare_numbers-flip [] [] r r' h = h
compare_numbers-flip [] (y ∷ ys) r r' h = refl
compare_numbers-flip (x ∷ xs) [] r r' h = refl
compare_numbers-flip (x ∷ xs) (y ∷ ys) r r' h =
    compare_then-flip x y _ _ (compare_numbers-flip xs ys r r' h)

-- Comparing in the other order gives the opposite result, for all versions.
pub compare_versions-flip : (a b : Version) → compare_versions b a ≡ flip (compare_versions a b)
unfolding compare_versions
compare_versions-flip a b = compare_numbers-flip a.numbers b.numbers _ _ (
    compare_then-flip a.letter b.letter _ _ (
      compare_then-flip (pre_suffix_rank a.pre_suffix) (pre_suffix_rank b.pre_suffix) _ _ (
        compare_then-flip a.pre_suffix_number b.pre_suffix_number _ _ (
          compare_then-flip a.post_suffix b.post_suffix _ _ (
            compare_then-flip a.post_suffix_number b.post_suffix_number _ _
              (compare_then-flip a.revision b.revision _ _ refl))))))

pub compare_then-Chains :
    (a b c : ℕ) (p q r : Comparison)
    → Chains p q r
    → Chains (compare_then a b p) (compare_then b c q) (compare_then a c r)
unfolding compare_then
compare_then-Chains a b c p q r h = ground arith

compare_numbers-Chains :
    (xs ys zs : List ℕ) (p q r : Comparison)
    → Chains p q r
    → Chains (compare_numbers xs ys p) (compare_numbers ys zs q) (compare_numbers xs zs r)
unfolding compare_numbers
compare_numbers-Chains [] [] [] p q r h = h
compare_numbers-Chains [] [] (z ∷ zs) p q r h = ground arith
compare_numbers-Chains [] (y ∷ ys) [] p q r h = ground arith
compare_numbers-Chains [] (y ∷ ys) (z ∷ zs) p q r h = ground arith
compare_numbers-Chains (x ∷ xs) [] [] p q r h = ground arith
compare_numbers-Chains (x ∷ xs) [] (z ∷ zs) p q r h = ground arith
compare_numbers-Chains (x ∷ xs) (y ∷ ys) [] p q r h = ground arith
compare_numbers-Chains (x ∷ xs) (y ∷ ys) (z ∷ zs) p q r h =
    compare_then-Chains x y z _ _ _ (compare_numbers-Chains xs ys zs p q r h)

pub compare_versions-Chains :
    (a b c : Version) → Chains (compare_versions a b) (compare_versions b c) (compare_versions a c)
unfolding compare_versions
compare_versions-Chains a b c = compare_numbers-Chains a.numbers b.numbers c.numbers _ _ _ (
    compare_then-Chains a.letter b.letter c.letter _ _ _ (
      compare_then-Chains (pre_suffix_rank a.pre_suffix) (pre_suffix_rank b.pre_suffix)
        (pre_suffix_rank c.pre_suffix) _ _ _
        (compare_then-Chains a.pre_suffix_number b.pre_suffix_number c.pre_suffix_number _ _ _ (
          compare_then-Chains a.post_suffix b.post_suffix c.post_suffix _ _ _ (
            compare_then-Chains a.post_suffix_number b.post_suffix_number c.post_suffix_number _ _ _
              (compare_then-Chains a.revision b.revision c.revision _ _ _ refl))))))

-- The order is transitive, and a strict step makes the whole chain strict, for all versions.
pub compare_versions_trans :
    (a b c : Version)
    → compare_versions a b ≢ greater
    → compare_versions b c ≢ greater
    → (compare_versions a c ≢ greater)
      × (compare_versions a b ≡ less ⊎ compare_versions b c ≡ less → compare_versions a c ≡ less)
compare_versions_trans a b c h k = ground (arith, compare_versions-Chains a b c)

compare_then-equal : (a b : ℕ) (r : Comparison) → compare_then a b r ≡ equal → (a ≡ b) × (r ≡ equal)
unfolding compare_then
compare_then-equal a b r h = ground arith

compare_numbers-equal :
    (xs ys : List ℕ) (r : Comparison) → compare_numbers xs ys r ≡ equal → (xs ≡ ys) × (r ≡ equal)
unfolding compare_numbers
compare_numbers-equal [] [] r h = (refl, h)
compare_numbers-equal [] (y ∷ ys) r h = cc
compare_numbers-equal (x ∷ xs) [] r h = cc
compare_numbers-equal (x ∷ xs) (y ∷ ys) r h =
    let (e, h') = compare_then-equal x y _ h in ground (arith, e, compare_numbers-equal xs ys r h')

pre_suffix_rank_injective :
    (p q : ℕ) → p ≤ 4 → q ≤ 4 → pre_suffix_rank p ≡ pre_suffix_rank q → p ≡ q
unfolding pre_suffix_rank
pre_suffix_rank_injective p q hp hq h = ground arith

pub compare_versions_refl : (a : Version) → compare_versions a a ≡ equal
compare_versions_refl a = ground (arith, compare_versions-flip a a)

-- Versions with the modifiers that ParseVersion stores compare as equal exactly when they agree
-- in every field.
pub compare_versions-eq-equal_iff :
    (a b : Version) → HasModifiers a → HasModifiers b → (compare_versions a b ≡ equal) ↔ (a ≡ b)
unfolding compare_versions
compare_versions-eq-equal_iff a b ha hb = (
  (λ h.
      let (e₁, h₁) = compare_numbers-equal a.numbers b.numbers _ h in
      let (e₂, h₂) = compare_then-equal a.letter b.letter _ h₁ in
      let (e₃, h₃) = compare_then-equal _ _ _ h₂ in
      let (e₄, h₄) = compare_then-equal a.pre_suffix_number b.pre_suffix_number _ h₃ in
      let (e₅, h₅) = compare_then-equal a.post_suffix b.post_suffix _ h₄ in
      let (e₆, h₆) = compare_then-equal a.post_suffix_number b.post_suffix_number _ h₅ in
      let (e₇, h₇) = compare_then-equal a.revision b.revision _ h₆ in
      let e₈ = pre_suffix_rank_injective a.pre_suffix b.pre_suffix ha.pre hb.pre e₃ in
      ground arith),
  λ e. rw e (compare_versions_refl b),
)
