-- ===== src/Compare/Best.antt =====
-- bestPackage of pkg/apk/apk/repo.go: what slices.MinFunc picks.
use apko.Base.{
  ◌≡◌, refl, sym, ◌∙◌, subst, ◌≢◌, ◌⊎◌, inl, inr, List, [], ◌∷◌, Option, some, Str, StrMap, In, All,
}
use apko.Version.{Comparison, less, equal, greater}
use apko.Package.{RepositoryPackage, PinnedPackage}
use apko.Compare.{compare_packages, earlier, min_from, best_package}

-- The comparison is a weak order on the elements of a class: nothing comes before itself, of two
-- at most one comes before the other, and what lies between two ordered ones is ordered with one.
pub record Orders {A : Type 0} (cmp : A → A → Comparison) (P : A → Type 0) : Type 0 where
  pub irreflexive : (a : A) → P a → cmp a a ≢ less
  pub asymmetric : (a b : A) → P a → P b → cmp a b ≡ less → cmp b a ≢ less
  pub cotransitive :
      (a b c : A) → P a → P b → P c → cmp a c ≡ less → (cmp a b ≡ less) ⊎ (cmp b c ≡ less)

-- One round: the element that is kept, and that the other one does not come before it.
earlier-cases :
    {A : Type 0} (c : Comparison) (x m : A)
    → ((c ≡ less) × (earlier c x m ≡ x)) ⊎ ((c ≢ less) × (earlier c x m ≡ m))
unfolding earlier
earlier-cases less x m = inl (refl, refl)
earlier-cases equal x m = inr ((λ e. cc), refl)
earlier-cases greater x m = inr ((λ e. cc), refl)

module _ {A : Type 0} (cmp : A → A → Comparison) where
  min_from-In : (m : A) (xs : List A) → In (min_from cmp m xs) (m ∷ xs)
  unfolding min_from
  min_from-In m [] = inl refl
  min_from-In m (x ∷ xs) =
      let y = earlier (cmp x m) x m in
      elim (min_from-In y xs) [
        | inr i ↦ inr (inr i)
        | inl e ↦ elim (earlier-cases (cmp x m) x m) [
          | inl (c, k) ↦ inr (inl (e ∙ k))
          | inr (c, k) ↦ inl (e ∙ k)
        ]
      ]

  earlier-P : (P : A → Type 0) (c : Comparison) (x m : A) → P x → P m → P (earlier c x m)
  unfolding earlier
  earlier-P P less x m px pm = px
  earlier-P P equal x m px pm = pm
  earlier-P P greater x m px pm = pm

  min_from-P : (P : A → Type 0) (xs : List A) (m : A) → P m → All P xs → P (min_from cmp m xs)
  unfolding min_from
  min_from-P P [] m pm _ = pm
  min_from-P P (x ∷ xs) m pm (px, h) =
      min_from-P P xs (earlier (cmp x m) x m) (earlier-P P (cmp x m) x m px pm) h

  not_before :
      (P : A → Type 0) (a b c : A)
      → Orders cmp P
      → P a
      → P b
      → P c
      → cmp a b ≢ less
      → cmp b c ≢ less
      → cmp a c ≢ less
  not_before P a b c o pa pb pc h k l = elim (o.cotransitive a b c pa pb pc l) [
    | inl q ↦ h q
    | inr q ↦ k q
  ]

  -- In a weak order nothing comes before the minimum.
  min_from-least :
      (P : A → Type 0) (xs : List A) (m b : A)
      → Orders cmp P
      → P m
      → All P xs
      → In b (m ∷ xs)
      → cmp b (min_from cmp m xs) ≢ less
  unfolding min_from
  min_from-least P [] m b o pm _ (inl e) k = o.irreflexive m pm (rw e at k)
  min_from-least P [] m b o pm _ (inr i) k = elim i [ ]
  min_from-least P (x ∷ xs) m b o pm (px, h) i k =
      let y = earlier (cmp x m) x m in
      let py = earlier-P P (cmp x m) x m px pm in
      let pr = min_from-P P xs y py h in
      let rest = λ (z : A) (j : In z (y ∷ xs)). min_from-least P xs y z o py h j in
      let behind = λ (z : A) (pz : P z) (n : cmp z y ≢ less).
        not_before P z y (min_from cmp y xs) o pz py pr n (rest y (inl refl)) in
      elim (earlier-cases (cmp x m) x m) [
        | inl (c, e) ↦ elim i [
          | inl f ↦ behind b (subst P (sym f) pm) (rw (f, e) (o.asymmetric x m px pm c)) k
          | inr (inl f) ↦ rest b (inl (f ∙ sym e)) k
          | inr (inr j) ↦ rest b (inr j) k
        ]
        | inr (c, e) ↦ elim i [
          | inl f ↦ rest b (inl (f ∙ sym e)) k
          | inr (inl f) ↦ behind b (subst P (sym f) px) (rw (f, e) c) k
          | inr (inr j) ↦ rest b (inr j) k
        ]
      ]

All-self : {A : Type 0} (P : A → Type 0) (xs : List A) → ((a : A) → In a xs → P a) → All P xs
All-self P [] h = tt
All-self P (x ∷ xs) h = (h x (inl refl), All-self P xs (λ a i. h a (inr i)))

-- The best of some candidates that the comparison orders is a candidate that none comes before.
pub best_package-least :
    (compare : Option RepositoryPackage) (name : Str) (existing : StrMap RepositoryPackage)
    (origins : StrMap Str) (pin : Str) (pkgs : List PinnedPackage)
    → pkgs ≢ []
    → Orders (compare_packages compare name existing origins pin) (λ q. In q pkgs)
    → (p : PinnedPackage) × (best_package compare name existing origins pin pkgs ≡ some p)
      × In p pkgs
      × ((q : PinnedPackage)
          → In q pkgs
          → compare_packages compare name existing origins pin q p ≢ less)
unfolding best_package
best_package-least compare name existing origins pin [] h o = absurd (h refl)
best_package-least compare name existing origins pin (p ∷ pkgs) h o =
    let cmp = compare_packages compare name existing origins pin in
    (
      min_from cmp p pkgs,
      refl,
      min_from-In cmp p pkgs,
      λ q i.
          min_from-least cmp (λ z. In z (p ∷ pkgs)) pkgs p q o (inl refl)
            (All-self _ pkgs (λ a j. inr j)) i,
    )
