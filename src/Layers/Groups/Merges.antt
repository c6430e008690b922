-- ===== src/Layers/Groups/Merges.antt =====
-- The loop over Replaces in pkg/build/layers.go keeps the invariant and does not panic.
use apko.Base.{
  ℕ, ◌≡◌, refl, inl, inr, Bool, true, false, List, [], ◌∷◌, some, arith, ◌==◌, Str, In, any,
  Bool-cases, Option-cases, StrMap, get,
}
use apko.Version.Parse.{OrError, value, error}
use apko.Constraint.{resolve_package_name_version_pin}
use apko.Layers.Groups.{
  ImagePackage, checking, missing, Grouped, refused, grouped, ◌>>=◌, Grouping, merge_groups,
  merge_named, merge_replaced, merge_each, merge_all, merge, replaces_group,
}
use apko.Layers.Groups.Counting.{of_name, get-set_names}
use apko.Layers.Groups.Merging.{Holds, merged-Holds}

abbrev pub Known : Grouping → Str → Type 0
Known s n = (i : ℕ) × (get n s.by_package ≡ some i)

-- No panic, and what the maps hold is kept.
abbrev pub Kept : List ImagePackage → Grouping → Grouped Grouping → Type 0
Kept pkgs s (refused (checking n k e)) = Unit
Kept pkgs s (refused (missing n)) = ⊥
Kept pkgs s (grouped s') = Holds pkgs s' × ((n : Str) → Known s n → Known s' n)

module _ (pkgs : List ImagePackage) where
  Kept-onwards :
      (s s' : Grouping) (r : Grouped Grouping)
      → ((n : Str) → Known s n → Known s' n)
      → Kept pkgs s' r
      → Kept pkgs s r
  Kept-onwards s s' (refused (checking n k e)) known kept = tt
  Kept-onwards s s' (refused (missing n)) known kept = kept
  Kept-onwards s s' (grouped s'') known (inv, known') = (inv, λ n k. known' n (known n k))

  Kept-bind :
      (s : Grouping) (r : Grouped Grouping) (next : Grouping → Grouped Grouping)
      → Kept pkgs s r
      → ((s' : Grouping)
          → Holds pkgs s'
          → ((n : Str) → Known s n → Known s' n)
          → Kept pkgs s' (next s'))
      → Kept pkgs s (r >>= next)
  Kept-bind s (refused (checking n k e)) next kept step = tt
  Kept-bind s (refused (missing n)) next kept step = kept
  Kept-bind s (grouped s') next (inv, known) step =
      Kept-onwards s s' (next s') known (step s' inv known)

  merge_groups-Known : (s : Grouping) (g h : ℕ) (n : Str) → Known s n → Known (merge_groups s g h) n
  unfolding merge_groups
  merge_groups-Known s g h n (i, e) =
      let merged = merge (s.at g ∷ s.at h ∷ []) in
      let now = get-set_names s.next merged.pkgs s.by_package n in
      elim (Bool-cases (any (of_name n) merged.pkgs)) [
        | inl a ↦ (s.next, ground (arith, a, now))
        | inr a ↦ (i, ground (arith, a, now, e))
      ]

  merge_named-Kept :
      (s : Grouping) (n k : Str) (replacee : ℕ)
      → Holds pkgs s
      → Known s n
      → get k s.by_package ≡ some replacee
      → Kept pkgs s (merge_named s n replacee)
  unfolding merge_named
  merge_named-Kept s n k replacee inv (g, e) e' =
      rw (e, merge_named)
        (elim (Bool-cases (replacee == g)) [
          | inl same ↦ rw same (inv, λ m l. l)
          | inr other ↦
              let (p, _, _, live) = inv.named n g e in
              let (q, _, _, live') = inv.named k replacee e' in
              rw other (
                merged-Holds pkgs s inv g replacee (ground (arith, other)) p.origin q.origin live
                    live',
                merge_groups-Known s g replacee,
              )
        ])

  version_checked :
      (s : Grouping) (n k : Str) (replacee : ℕ)
      → Holds pkgs s
      → Known s n
      → get k s.by_package ≡ some replacee
      → (r : OrError Bool)
      → Kept pkgs s (elim r [
        | error e ↦ refused (checking n k e)
        | value false ↦ grouped s
        | value true ↦ merge_named s n replacee
      ])
  version_checked s n k replacee inv known e (error bad) = tt
  version_checked s n k replacee inv known e (value false) = (inv, λ m l. l)
  version_checked s n k replacee inv known e (value true) =
      merge_named-Kept s n k replacee inv known e

  merge_replaced-Kept :
      (s : Grouping) (n rep : Str) → Holds pkgs s → Known s n → Kept pkgs s (merge_replaced s n rep)
  unfolding merge_replaced
  merge_replaced-Kept s n rep inv known =
      let wanted = (resolve_package_name_version_pin rep).name in
      elim (Option-cases (get wanted s.by_package)) [
        | inl e ↦ rw (e, merge_replaced) (inv, λ m l. l)
        | inr (replacee, e) ↦
            rw (e, merge_replaced)
              (version_checked s n wanted replacee inv known e (replaces_group rep (s.at replacee)))
      ]

  merge_each-Kept :
      (s : Grouping) (n : Str) (reps : List Str)
      → Holds pkgs s
      → Known s n
      → Kept pkgs s (merge_each s n reps)
  unfolding merge_each
  merge_each-Kept s n [] inv known = (inv, λ m l. l)
  merge_each-Kept s n (rep ∷ reps) inv known =
      Kept-bind s (merge_replaced s n rep) (λ s'. merge_each s' n reps)
        (merge_replaced-Kept s n rep inv known)
        (λ s' inv' known'. merge_each-Kept s' n reps inv' (known' n known))

  pub merge_all-Kept :
      (s : Grouping) (entries : StrMap (List Str))
      → Holds pkgs s
      → ((n : Str) (reps : List Str) → In (n, reps) entries → Known s n)
      → Kept pkgs s (merge_all s entries)
  unfolding merge_all
  merge_all-Kept s [] inv known = (inv, λ m l. l)
  merge_all-Kept s ((n, reps) ∷ entries) inv known =
      Kept-bind s (merge_each s n reps) (λ s'. merge_all s' entries)
        (merge_each-Kept s n reps inv (known n reps (inl refl)))
        (λ s' inv' known'. merge_all-Kept s' entries inv' (λ m ms k. known' m (known m ms (inr k))))
