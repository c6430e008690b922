-- ===== src/Resolver/Install/Rounds.antt =====
-- The loop of getPackagesWithDependencies of pkg/apk/apk/repo.go that chooses a package for every
-- constraint.
use apko.Base.{
  ℕ, zero, suc, ◌≤◌, ◌<◌, ◌≡◌, refl, ap, ◌≢◌, inl, inr, Bool, false, not, List, [], ◌∷◌, Option,
  none, some, arith, Str, str_eq, str_eq_refl, length, In, keep_if, put,
}
use apko.Package.{RepositoryPackage, Disqualified}
use apko.Resolver.{PkgResolver}
use apko.Resolver.Select.{
  ResolveError, panicked, out_of_fuel, Outcome, done, failed, ◌>>=◌, disqualify_conflicts,
}
use apko.Resolver.Resolve.{
  resolve_package, Next, wrap_constraint, take_fewer, next_loop, next_package,
}
use apko.Resolver.Dependencies.{or_failed, delete_text}
use apko.Resolver.Install.{Choosing, choose_rounds}
use apko.Resolver.Resolve.NextPackage.{next_package-In}

length-keep_if-le : (p : Str → Bool) (xs : List Str) → length (keep_if p xs) ≤ length xs
unfolding keep_if
length-keep_if-le p [] = omega arith
length-keep_if-le p (x ∷ xs) = ground (arith, length-keep_if-le p xs)

length-keep_if-lt :
    (p : Str → Bool) (xs : List Str) (a : Str)
    → In a xs
    → p a ≡ false
    → length (keep_if p xs) < length xs
unfolding keep_if
length-keep_if-lt p [] a i h = absurd i
length-keep_if-lt p (x ∷ xs) a (inl e) h = ground (arith, length-keep_if-le p xs)
length-keep_if-lt p (x ∷ xs) a (inr i) h = ground (arith, length-keep_if-lt p xs a i h)

length-delete_text-lt : (s : Str) (ss : List Str) → In s ss → length (delete_text s ss) < length ss
unfolding delete_text
length-delete_text-lt s ss i =
    length-keep_if-lt (λ x. not (str_eq x s)) ss s i (ground (arith, str_eq_refl s))

-- No step fails for want of rounds.
wrap_constraint-ne-out_of_fuel :
    {A : Type 0} (s : Str) (o : Outcome A) → wrap_constraint s o ≢ failed out_of_fuel
wrap_constraint-ne-out_of_fuel s (done a) h = cc
wrap_constraint-ne-out_of_fuel s (failed e) h = cc

abbrev Fails : (A : Type 0) → ResolveError → Outcome A
Fails A e = failed e

failed-injective : {A : Type 0} {e f : ResolveError} → Fails A e ≡ Fails A f → e ≡ f
failed-injective h = cc

>>=-ne-out_of_fuel :
    {A B : Type 0} (o : Outcome A) (f : A → Outcome B)
    → o ≢ failed out_of_fuel
    → ((a : A) → o ≡ done a → f a ≢ failed out_of_fuel)
    → (o >>= f) ≢ failed out_of_fuel
>>=-ne-out_of_fuel (done a) f h k = k a refl
>>=-ne-out_of_fuel (failed e) f h k = λ g. h (ap (λ x. failed x) (failed-injective g))

take_fewer-ne-out_of_fuel :
    (n : Next) (s : Str) (pkgs : List RepositoryPackage) → take_fewer n s pkgs ≢ failed out_of_fuel
unfolding take_fewer
take_fewer-ne-out_of_fuel n s [] h = cc
take_fewer-ne-out_of_fuel n s (q ∷ pkgs) h = ground arith

next_loop-ne-out_of_fuel :
    (p : PkgResolver) (dq : Disqualified) (n : Next) (l : List Str)
    → next_loop p dq n l ≢ failed out_of_fuel
unfolding next_loop
next_loop-ne-out_of_fuel p dq n [] h = cc
next_loop-ne-out_of_fuel p dq n (s ∷ l) h =
    >>=-ne-out_of_fuel _ _ (wrap_constraint-ne-out_of_fuel s _)
      (λ pkgs _.
        >>=-ne-out_of_fuel _ _ (take_fewer-ne-out_of_fuel n s pkgs)
          (λ n' _. next_loop-ne-out_of_fuel p dq n' l))
      h

next_package-ne-out_of_fuel :
    (p : PkgResolver) (l : List Str) (dq : Disqualified) → next_package p l dq ≢ failed out_of_fuel
unfolding next_package
next_package-ne-out_of_fuel p l dq =
    >>=-ne-out_of_fuel _ _ (next_loop-ne-out_of_fuel p dq _ l) (λ n _ h. cc)

or_panicked-ne-out_of_fuel : {A : Type 0} (o : Option A) → or_failed o panicked ≢ failed out_of_fuel
or_panicked-ne-out_of_fuel none h = cc
or_panicked-ne-out_of_fuel (some a) h = cc

-- With at least as many rounds as there are constraints the loop that chooses a package for every
-- constraint does not run out of rounds: every round deletes the constraint that it chose.
pub choose_rounds_lem :
    (p : PkgResolver) (rounds : ℕ) (ss : List Str) (c : Choosing)
    → length ss ≤ rounds
    → choose_rounds p rounds ss c ≢ failed out_of_fuel
unfolding choose_rounds
choose_rounds_lem p rounds [] c le = λ h. cc
choose_rounds_lem p zero (s ∷ ss) c le = absurd (omega (arith, le))
choose_rounds_lem p (suc rounds) (s ∷ ss) c le =
    >>=-ne-out_of_fuel (next_package p (s ∷ ss) c.dq) _
      (next_package-ne-out_of_fuel p (s ∷ ss) c.dq)
      (λ next chosen.
        >>=-ne-out_of_fuel (wrap_constraint next (resolve_package p next c.dq)) _
          (wrap_constraint-ne-out_of_fuel next _)
          (λ pkg _.
            >>=-ne-out_of_fuel (or_failed (disqualify_conflicts p pkg c.dq) panicked) _
              (or_panicked-ne-out_of_fuel _)
              (λ dq _.
                choose_rounds_lem p rounds (delete_text next (s ∷ ss))
                  (record { chosen = put pkg.name pkg c.chosen; dq = dq }) (shorter next chosen))))
  where
    shorter :
        (next : Str)
        → next_package p (s ∷ ss) c.dq ≡ done next
        → length (delete_text next (s ∷ ss)) ≤ rounds
    shorter next chosen =
        omega
          (arith, le, length-delete_text-lt next (s ∷ ss) (next_package-In p s ss c.dq next chosen))
