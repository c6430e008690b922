-- ===== src/Resolver/Resolve/NextPackage.antt =====
-- nextPackage of pkg/apk/apk/repo.go.
use apko.Base.{
  ◌≤◌, ◌≡◌, refl, sym, ap, ◌∙◌, subst, ◌≢◌, ◌⊎◌, inl, inr, true, false, List, [], ◌∷◌, arith, ltb,
  Str, is_empty, length, In, Bool-cases,
}
use apko.Package.{RepositoryPackage, Disqualified}
use apko.Resolver.{PkgResolver}
use apko.Resolver.Select.{Outcome, done, failed}
use apko.Resolver.Select.Outcomes.{done-injective, >>=-eq-done}
use apko.Resolver.Resolve.{
  resolve_packages, Next, wrap_constraint, take_fewer, next_loop, next_package,
}

is_empty→[] : (s : Str) → is_empty s ≡ true → s ≡ []
is_empty→[] [] h = refl
is_empty→[] (c ∷ s) h = cc

is_empty-ne : (s : Str) → is_empty s ≡ false → s ≢ []
is_empty-ne [] h k = cc
is_empty-ne (c ∷ s) h k = cc

module _ (p : PkgResolver) (dq : Disqualified) where
  -- The name carried is one for which so many packages were found.
  abbrev pub Counts : Next → Type 0
  Counts n =
      (pkgs : List RepositoryPackage) × (resolve_packages p n.next dq ≡ done pkgs)
      × (length pkgs ≡ n.least_deps)

  take_fewer-done :
      (n n' : Next) (s : Str) (pkgs : List RepositoryPackage)
      → take_fewer n s pkgs ≡ done n'
      → ((n' ≡ record { next = s; least_deps = length pkgs })
          × ((n.next ≡ []) ⊎ (length pkgs ≤ n.least_deps)))
        ⊎ ((n' ≡ n) × (n.least_deps ≤ length pkgs) × (n.next ≢ []))
  unfolding take_fewer
  take_fewer-done n n' s [] h = cc
  take_fewer-done n n' s (q ∷ pkgs) h = elim (Bool-cases (is_empty n.next)) [
    | inl e ↦ inl (sym (done-injective (rw e at h)), inl (is_empty→[] n.next e))
    | inr e ↦ elim (Bool-cases (ltb (length (q ∷ pkgs)) n.least_deps)) [
      | inl f ↦ inl (sym (done-injective (rw (e, f) at h)), inr (ground arith))
      | inr f ↦ inr (sym (done-injective (rw (e, f) at h)), ground arith, is_empty-ne n.next e)
    ]
  ]

  wrap_constraint-done :
      {A : Type 0} (s : Str) (o : Outcome A) (a : A) → wrap_constraint s o ≡ done a → o ≡ done a
  wrap_constraint-done s (done b) a h = h
  wrap_constraint-done s (failed e) a h = cc

  -- The result is no worse than what was carried, and no worse than any name that was visited.
  record Least (n : Next) (l : List Str) (m : Next) : Type 0 where
    named : (m.next ≡ n.next) ⊎ In m.next l
    counts : Counts m
    carried : m.least_deps ≤ n.least_deps
    each :
        (s : Str) (pkgs : List RepositoryPackage)
        → In s l
        → resolve_packages p s dq ≡ done pkgs
        → m.least_deps ≤ length pkgs

  next_loop-Least :
      (l : List Str) (n m : Next)
      → (n.next ≢ [])
      → ((s : Str) → In s l → s ≢ [])
      → Counts n
      → next_loop p dq n l ≡ done m
      → Least n l m
  unfolding next_loop
  next_loop-Least [] n m ne nes c h =
      let same : n ≡ m = done-injective h in
      subst (Least n []) same (record {
        named = inl refl;
        counts = c;
        carried = omega arith;
        each = λ s pkgs i. absurd i;
      })
  next_loop-Least (s ∷ l) n m ne nes c h =
      let (pkgs, h₁, h₂) = >>=-eq-done (wrap_constraint s (resolve_packages p s dq)) _ h in
      let (n', h₃, h₄) = >>=-eq-done (take_fewer n s pkgs) _ h₂ in
      let found : resolve_packages p s dq ≡ done pkgs = wrap_constraint-done s _ pkgs h₁ in
      let nes' : (t : Str) → In t l → t ≢ [] = λ t i. nes t (inr i) in
      elim (take_fewer-done n n' s pkgs h₃) [
        | inl (e, w) ↦
            let k : next_loop p dq (record { next = s; least_deps = length pkgs }) l ≡ done m =
              subst (λ x. next_loop p dq x l ≡ done m) e h₄ in
            let r =
              next_loop-Least l (record { next = s; least_deps = length pkgs }) m (nes s (inl refl))
                nes' (pkgs, found, refl) k in
            record {
              named = elim r.named [ inl f ↦ inr (inl f) | inr j ↦ inr (inr j) ];
              counts = r.counts;
              carried = elim w [ inl f ↦ absurd (ne f) | inr le ↦ omega (arith, r.carried, le) ];
              each = λ t qs i g. elim i [
                | inl f ↦ same_count t qs pkgs f found g r.carried
                | inr j ↦ r.each t qs j g
              ];
            }
        | inr (e, le, _) ↦
            let k : next_loop p dq n l ≡ done m = subst (λ x. next_loop p dq x l ≡ done m) e h₄ in
            let r = next_loop-Least l n m ne nes' c k in
            record {
              named = elim r.named [ inl f ↦ inl f | inr j ↦ inr (inr j) ];
              counts = r.counts;
              carried = r.carried;
              each = λ t qs i g. elim i [
                | inl f ↦
                    let fewer : m.least_deps ≤ length pkgs = omega (arith, r.carried, le) in
                    same_count t qs pkgs f found g fewer
                | inr j ↦ r.each t qs j g
              ];
            }
      ]
    where
      same_count :
          (t : Str) (qs pkgs : List RepositoryPackage)
          → t ≡ s
          → resolve_packages p s dq ≡ done pkgs
          → resolve_packages p t dq ≡ done qs
          → m.least_deps ≤ length pkgs
          → m.least_deps ≤ length qs
      same_count t qs pkgs f found g le =
          let same : pkgs ≡ qs =
            done-injective (sym found ∙ (ap (λ x. resolve_packages p x dq) (sym f) ∙ g)) in
          subst (λ x. m.least_deps ≤ length x) same le

  next_loop-In :
      (l : List Str) (n m : Next) → next_loop p dq n l ≡ done m → (m.next ≡ n.next) ⊎ In m.next l
  unfolding next_loop
  next_loop-In [] n m h = inl (ap (λ x. x.next) (sym (done-injective h)))
  next_loop-In (s ∷ l) n m h =
      let (pkgs, h₁, h₂) = >>=-eq-done (wrap_constraint s (resolve_packages p s dq)) _ h in
      let (n', h₃, h₄) = >>=-eq-done (take_fewer n s pkgs) _ h₂ in
      let rest = next_loop-In l n' m h₄ in
      elim rest [
        | inr j ↦ inr (inr j)
        | inl f ↦ elim (take_fewer-done n n' s pkgs h₃) [
          | inl (e, _) ↦ inr (inl (f ∙ ap (λ x. x.next) e))
          | inr (e, _, _) ↦ inl (f ∙ ap (λ x. x.next) e)
        ]
      ]

abbrev pub Chosen : PkgResolver → Disqualified → Str → List Str → Str → Type 0
Chosen p dq s l next =
    In next (s ∷ l)
    × ((pkgs : List RepositoryPackage) × (resolve_packages p next dq ≡ done pkgs)
        × ((t : Str) (others : List RepositoryPackage)
            → In t (s ∷ l)
            → resolve_packages p t dq ≡ done others
            → length pkgs ≤ length others))

-- nextPackage returns one of the constraints, none of which is empty, with packages for it, and no
-- constraint has fewer.
pub next_package_lem :
    (p : PkgResolver) (packages : List Str) (dq : Disqualified) (next : Str)
    → packages ≢ []
    → ((s : Str) → In s packages → s ≢ [])
    → next_package p packages dq ≡ done next
    → In next packages
      × ((pkgs : List RepositoryPackage) × (resolve_packages p next dq ≡ done pkgs)
          × ((s : Str) (others : List RepositoryPackage)
              → In s packages
              → resolve_packages p s dq ≡ done others
              → length pkgs ≤ length others))
unfolding next_package next_loop
next_package_lem p [] dq next some_packages nes h = absurd (some_packages refl)
next_package_lem p (s ∷ l) dq next some_packages nes h =
    let (m, h₀, h₁) =
      >>=-eq-done (next_loop p dq (record { next = []; least_deps = 0 }) (s ∷ l)) _ h in
    let (pkgs, h₂, h₃) = >>=-eq-done (wrap_constraint s (resolve_packages p s dq)) _ h₀ in
    let (n, h₄, h₅) = >>=-eq-done (take_fewer (record { next = []; least_deps = 0 }) s pkgs) _ h₃ in
    let found : resolve_packages p s dq ≡ done pkgs = wrap_constraint-done p dq s _ pkgs h₂ in
    elim (take_fewer-done p dq (record { next = []; least_deps = 0 }) n s pkgs h₄) [
      | inr (_, _, ne) ↦ absurd (ne refl)
      | inl (e, _) ↦
          let r =
            next_loop-Least p dq l (record { next = s; least_deps = length pkgs }) m
              (nes s (inl refl)) (λ t i. nes t (inr i)) (pkgs, found, refl)
              (subst (λ x. next_loop p dq x l ≡ done m) e h₅) in
          subst (Chosen p dq s l) (done-injective h₁) (chosen m pkgs found r)
    ]
  where
    chosen :
        (m : Next) (pkgs : List RepositoryPackage)
        → resolve_packages p s dq ≡ done pkgs
        → Least p dq (record { next = s; least_deps = length pkgs }) l m
        → Chosen p dq s l m.next
    chosen m pkgs found r =
        let (qs, g, count) = r.counts in
        (
          r.named,
          (
            qs,
            g,
            λ t others i k. elim i [
              | inl f ↦
                  let same : pkgs ≡ others =
                    done-injective (sym found ∙ (ap (λ x. resolve_packages p x dq) (sym f) ∙ k)) in
                  subst (λ x. length qs ≤ length x) same (omega (arith, count, r.carried))
              | inr j ↦ omega (arith, count, r.each t others j k)
            ],
          ),
        )

pub next_package-In :
    (p : PkgResolver) (s : Str) (l : List Str) (dq : Disqualified) (next : Str)
    → next_package p (s ∷ l) dq ≡ done next
    → In next (s ∷ l)
unfolding next_package next_loop
next_package-In p s l dq next h =
    let (m, h₀, h₁) =
      >>=-eq-done (next_loop p dq (record { next = []; least_deps = 0 }) (s ∷ l)) _ h in
    let (pkgs, h₂, h₃) = >>=-eq-done (wrap_constraint s (resolve_packages p s dq)) _ h₀ in
    let (n, h₄, h₅) = >>=-eq-done (take_fewer (record { next = []; least_deps = 0 }) s pkgs) _ h₃ in
    elim (take_fewer-done p dq (record { next = []; least_deps = 0 }) n s pkgs h₄) [
      | inr (_, _, ne) ↦ absurd (ne refl)
      | inl (e, _) ↦
          let visited : In m.next (s ∷ l) = elim (next_loop-In p dq l n m h₅) [
            | inl f ↦ inl (f ∙ ap (λ x. x.next) e)
            | inr j ↦ inr j
          ] in
          subst (λ x. In x (s ∷ l)) (done-injective h₁) visited
    ]
