-- ===== src/Resolver/Install/Names.antt =====
-- The names of the packages that getPackagesWithDependencies of pkg/apk/apk/repo.go returns, and
-- the conflicts behind uniqify of pkg/apk/apk/util.go.
use apko.Base.{
  ℕ, ◌≡◌, refl, sym, ap, ◌∙◌, subst, ◌≢◌, ◌↔◌, ◌⊎◌, inl, inr, true, false, List, [], ◌∷◌, ◌++◌,
  none, arith, Str, str_eq, str_eq_iff, str_eq_refl, In, In-append, any, Bool-cases, Option-cases,
  get, put, get-put, length,
}
use apko.Package.{RepositoryPackage, Disqualified}
use apko.Resolver.{PkgResolver}
use apko.Resolver.Select.{done, constrain}
use apko.Resolver.Select.Outcomes.{done-injective, >>=-eq-done}
use apko.Resolver.Resolve.{uniqify_from, uniqify, wrap_constraint}
use apko.Resolver.Install.{
  Orders, Added, add_package, add_packages, PackageFound, get_package_with_dependencies,
  choose_rounds, Installing, install_found, wrap_initial, start_installing, install_all,
  get_packages_with_dependencies,
}

-- No two of the packages have the same name.
abbrev pub NamesDiffer : List RepositoryPackage → Type 0
NamesDiffer [] = Unit
NamesDiffer (p ∷ ps) = ((q : RepositoryPackage) → In q ps → p.name ≢ q.name) × NamesDiffer ps

abbrev pub Distinct : List Str → Type 0
Distinct [] = Unit
Distinct (s ∷ ss) = ¬ In s ss × Distinct ss

NamesDiffer-append :
    (ps : List RepositoryPackage) (p : RepositoryPackage)
    → NamesDiffer ps
    → ((q : RepositoryPackage) → In q ps → q.name ≢ p.name)
    → NamesDiffer (ps ++ p ∷ [])
NamesDiffer-append [] p d h = ((λ q i. absurd i), tt)
NamesDiffer-append (r ∷ ps) p (first, d) h = (
  (λ q i. elim (In-append ps (p ∷ []) q i) [
    | inl j ↦ first q j
    | inr (inl e) ↦ subst (λ (x : RepositoryPackage). r.name ≢ x.name) (sym e) (h r (inl refl))
    | inr (inr j) ↦ absurd j
  ]),
  NamesDiffer-append ps p d (λ q i. h q (inr i)),
)

-- The map by name holds the names of the packages in the list, which differ.
record Tracked (a : Added) : Type 0 where
  differ : NamesDiffer a.dependencies
  found : (q : RepositoryPackage) → In q a.dependencies → get q.name a.by_name ≢ none

add_package-Tracked : (a : Added) (p : RepositoryPackage) → Tracked a → Tracked (add_package a p)
unfolding add_package
add_package-Tracked a p t = elim (Option-cases (get p.name a.by_name)) [
  | inr (q, e) ↦ rw (e, add_package) t
  | inl e ↦
      rw (e, add_package)
        (record {
          differ =
              NamesDiffer-append a.dependencies p t.differ
                (λ q i s. t.found q i (subst (λ x. get x a.by_name ≡ none) (sym s) e));
          found = λ q i. still q (In-append a.dependencies (p ∷ []) q i);
        })
]
  where
    still :
        (q : RepositoryPackage)
        → In q a.dependencies ⊎ In q (p ∷ [])
        → get q.name (put p.name p a.by_name) ≢ none
    still q (inl i) h = ground (arith, get-put p.name q.name p a.by_name, t.found q i, h)
    still q (inr (inl e)) h = ground (
      arith,
      get-put p.name q.name p a.by_name,
      str_eq_iff p.name q.name,
      ap (λ (x : RepositoryPackage). x.name) e,
      h,
    )
    still q (inr (inr i)) h = absurd i

add_packages-Tracked :
    (ps : List RepositoryPackage) (a : Added) → Tracked a → Tracked (add_packages a ps)
unfolding add_packages
add_packages-Tracked [] a t = t
add_packages-Tracked (p ∷ ps) a t =
    add_packages-Tracked ps (add_package a p) (add_package-Tracked a p t)

nothing-Tracked : Tracked (record { dependencies = []; by_name = [] })
nothing-Tracked = record { differ = tt; found = λ q i. absurd i }

install_found-Tracked :
    (i : Installing) (f : PackageFound)
    → Tracked i.to_install
    → Tracked (install_found i f).to_install
unfolding install_found
install_found-Tracked i f t =
    add_package-Tracked _ f.found_package (add_packages-Tracked f.dependencies i.to_install t)

install_all-Tracked :
    (fuel : ℕ) (p : PkgResolver) (orders : Orders) (packages : List Str) (i j : Installing)
    → install_all fuel p orders packages i ≡ done j
    → Tracked i.to_install
    → Tracked j.to_install
unfolding install_all
install_all-Tracked fuel p orders [] i j h t =
    subst (λ (x : Installing). Tracked x.to_install) (done-injective h) t
install_all-Tracked fuel p orders (s ∷ ss) i j h t =
    let (found, h₁, h₂) =
      >>=-eq-done
        (wrap_constraint s
          (get_package_with_dependencies fuel p orders s i.dependencies_map i.dq i.selected))
        _ h in
    install_all-Tracked fuel p orders ss (install_found i found) j h₂
      (install_found-Tracked i found t)

-- What uniqify keeps behind the values that were seen.
record Kept (seen l kept : List Str) : Type 0 where
  distinct : Distinct kept
  unseen : (s : Str) → In s kept → any (str_eq s) seen ≡ false
  given : (s : Str) → In s kept → In s l
  all : (s : Str) → In s l → any (str_eq s) seen ≡ false → In s kept

uniqify_from-Kept : (l seen : List Str) → Kept seen l (uniqify_from seen l)
unfolding uniqify_from any
uniqify_from-Kept [] seen = record {
  distinct = tt;
  unseen = λ s i. absurd i;
  given = λ s i. i;
  all = λ s i h. i;
}
uniqify_from-Kept (v ∷ vs) seen = elim (Bool-cases (any (str_eq v) seen)) [
  | inl e ↦
      let r = uniqify_from-Kept vs seen in
      rw e (record {
        distinct = r.distinct;
        unseen = r.unseen;
        given = λ s i. inr (r.given s i);
        all = λ s i h. elim i [
          | inl f ↦ absurd (true≢false (sym e ∙ subst (λ x. any (str_eq x) seen ≡ false) f h))
          | inr j ↦ r.all s j h
        ];
      })
  | inr e ↦
      let r = uniqify_from-Kept vs (v ∷ seen) in
      rw e (record {
        distinct = ((λ i. ground (arith, r.unseen v i, str_eq_refl v)), r.distinct);
        unseen = λ s i. elim i [
          | inl f ↦ subst (λ x. any (str_eq x) seen ≡ false) (sym f) e
          | inr j ↦ ground (arith, r.unseen s j)
        ];
        given = λ s i. elim i [ inl f ↦ inl f | inr j ↦ inr (r.given s j) ];
        all = λ s i h. elim i [ inl f ↦ inl f | inr j ↦ later s r j h ];
      })
]
  where
    true≢false : true ≡ false → ⊥
    true≢false k = cc

    later :
        (s : Str)
        → Kept (v ∷ seen) vs (uniqify_from (v ∷ seen) vs)
        → In s vs
        → any (str_eq s) seen ≡ false
        → In s (v ∷ uniqify_from (v ∷ seen) vs)
    later s r j h = elim (Bool-cases (str_eq s v)) [
      | inl f ↦ inl ((str_eq_iff s v).0 f)
      | inr f ↦ inr (r.all s j (ground arith))
    ]

-- uniqify keeps the values of the slice, each of them once.
pub uniqify_lem : (l : List Str) → Distinct (uniqify l) × ((s : Str) → In s (uniqify l) ↔ In s l)
unfolding uniqify any
uniqify_lem l =
    let r = uniqify_from-Kept l [] in (r.distinct, λ s. (r.given s, λ i. r.all s i refl))

-- A resolution that succeeds returns packages of pairwise different names, and conflicts without
-- repetition.
pub get_packages_with_dependencies_lem :
    (fuel : ℕ) (p : PkgResolver) (orders : Orders) (packages : List Str) (dq : Disqualified)
    (to_install : List RepositoryPackage) (conflicts : List Str)
    → get_packages_with_dependencies fuel p orders packages dq ≡ done (to_install, conflicts)
    → NamesDiffer to_install × Distinct conflicts
unfolding get_packages_with_dependencies
get_packages_with_dependencies_lem fuel p orders packages dq to_install conflicts h =
    let (dq', h₁, h₂) = >>=-eq-done (wrap_initial (constrain p packages dq)) _ h in
    let (chosen, h₃, h₄) =
      >>=-eq-done (choose_rounds p (length packages) packages (record { chosen = []; dq = dq' })) _
        h₂ in
    let (i, h₅, h₆) =
      >>=-eq-done (install_all fuel p orders packages (start_installing p chosen)) _ h₄ in
    let same = done-injective h₆ in
    let tracked =
      install_all-Tracked fuel p orders packages (start_installing p chosen) i h₅ nothing-Tracked in
    (
      subst NamesDiffer (ap (λ x. x.0) same) tracked.differ,
      subst Distinct (ap (λ x. x.1) same) (uniqify_lem i.conflicts).0,
    )
