-- ===== src/Layers/Groups/Building.antt =====
-- The grouping by origin in pkg/build/layers.go: the maps before any groups are merged.
use apko.Base.{
  ℕ, suc, ◌≤◌, ◌≡◌, refl, sym, ap, subst, ◌↔◌, ◌≢◌, ◌⊎◌, inl, inr, Bool, true, false, ◌&&◌, List,
  [], ◌∷◌, ◌++◌, none, some, arith, Str, str_eq, str_eq_refl, str_eq_iff, In, In-append, any,
  any-In, In-any, Bool-cases, Option-cases, StrMap, get, put, get-put, append_assoc, append-nil,
}
use apko.Layers.Groups.{
  ImagePackage, Group, Grouping, update, no_groups, add_to_origin, group_by_origin, index_names,
  set_names, Visits, indexed, add_pkg, empty_group,
}
use apko.Layers.Groups.Counting.{
  count, count-append, count_same, count_none, of_origin, of_name, get-set_names,
}
use apko.Layers.Groups.Merging.{is_at, Holds, home, any-append}

module _ (given : List ImagePackage) (s : Grouping) (inv : Holds given s)
    (unnamed : s.by_package ≡ []) (pkg : ImagePackage) where
  no_names : (n : Str) (i : ℕ) → get n s.by_package ≢ some i
  unfolding get
  no_names n i h = cc (h, unnamed)

  -- A package joins the group of its origin.
  module _ (j : ℕ) (there : get pkg.origin s.by_origin ≡ some j) where
    abbrev joined : Grouping
    joined = record s { at = update s.at j (add_pkg (s.at j) pkg) }

    joined-Holds : Holds (given ++ pkg ∷ []) joined
    unfolding update
    joined-Holds = record {
      content = λ o i h f. ground (
        arith,
        inv.content o i h f,
        count-append f (s.at j).pkgs (pkg ∷ []),
        count-append (λ p. f p && is_at s.by_origin i p) given (pkg ∷ []),
        there,
      );
      named = λ n i h. absurd (no_names n i h);
      given = λ o i h. ground (arith, any-append (of_origin o) given (pkg ∷ []), inv.given o i h);
      fresh = inv.fresh;
      covered = λ p k. elim (In-append given (pkg ∷ []) p k) [
        | inl l ↦ inv.covered p l
        | inr (inl e) ↦ (j, subst (λ x. get x.origin s.by_origin ≡ some j) (sym e) there)
        | inr (inr k') ↦ elim k' [ ]
      ];
    }

  -- Or it begins a group.
  module _ (missing : get pkg.origin s.by_origin ≡ none) where
    abbrev begun : Grouping
    begun = record s {
      next = suc s.next;
      at = update s.at s.next (add_pkg empty_group pkg);
      by_origin = put pkg.origin s.next s.by_origin;
    }

    other : (q : ImagePackage) → In q given → str_eq pkg.origin q.origin ≡ false
    other q k = elim (Bool-cases (str_eq pkg.origin q.origin)) [
      | inr e ↦ e
      | inl e ↦
          let (i, there) = inv.covered q k in
          let same = (str_eq_iff pkg.origin q.origin).0 e in
          ground (arith, missing, there, subst (λ x. get x s.by_origin ≡ none) same missing)
    ]

    as_before :
        (q : ImagePackage)
        → In q given
        → (i : ℕ) → is_at begun.by_origin i q ≡ is_at s.by_origin i q
    as_before q k i = ground (arith, other q k, get-put pkg.origin q.origin s.next s.by_origin)

    elsewhere :
        (q : ImagePackage)
        → In q given
        → (i : ℕ) → s.next ≤ i
        → (f : ImagePackage → Bool) → f q && is_at begun.by_origin i q ≡ false
    elsewhere q k i l f =
        let (j, there) = inv.covered q k in
        ground (arith, as_before q k i, there, inv.fresh q.origin j there)

    any_one : (o : Str) → any (of_origin o) (pkg ∷ []) ≡ str_eq pkg.origin o
    unfolding any
    any_one o = ground arith

    content-begun :
        (o : Str) (i : ℕ)
        → get o begun.by_origin ≡ some i
        → (f : ImagePackage → Bool)
        → count f (begun.at i).pkgs
          ≡ count (λ p. f p && is_at begun.by_origin i p) (given ++ pkg ∷ [])
    unfolding update
    content-begun o i h f =
        let parts = count-append (λ p. f p && is_at begun.by_origin i p) given (pkg ∷ []) in
        let own = get-put pkg.origin pkg.origin s.next s.by_origin in
        elim (Bool-cases (str_eq pkg.origin o)) [
          | inl e ↦
              let new : i ≡ s.next =
                ground (arith, e, h, get-put pkg.origin o s.next s.by_origin) in
              let none_before =
                count_none (λ p. f p && is_at begun.by_origin i p) given
                  (λ q k. elsewhere q k i (omega (arith, new)) f) in
              ground (arith, parts, none_before, own, str_eq_refl pkg.origin, new)
          | inr e ↦
              let before : get o s.by_origin ≡ some i =
                ground (arith, e, h, get-put pkg.origin o s.next s.by_origin) in
              let same =
                count_same (λ p. f p && is_at begun.by_origin i p)
                  (λ p. f p && is_at s.by_origin i p) given
                  (λ q k. ap (λ x. f q && x) (as_before q k i)) in
              ground (
                arith,
                parts,
                same,
                own,
                str_eq_refl pkg.origin,
                inv.fresh o i before,
                inv.content o i before f,
              )
        ]

    begun-Holds : Holds (given ++ pkg ∷ []) begun
    begun-Holds = record {
      content = content-begun;
      named = λ n i h. absurd (no_names n i h);
      given = λ o i h. ground (
        arith,
        h,
        any-append (of_origin o) given (pkg ∷ []),
        get-put pkg.origin o s.next s.by_origin,
        inv.given o i,
        any_one o,
      );
      fresh = λ o i h. ground (arith, h, get-put pkg.origin o s.next s.by_origin, inv.fresh o i);
      covered = λ p k. elim (In-append given (pkg ∷ []) p k) [
        | inl l ↦
            let (i, there) = inv.covered p l in
            (i, ground (arith, there, other p l, get-put pkg.origin p.origin s.next s.by_origin))
        | inr (inl e) ↦
            let own = get-put pkg.origin pkg.origin s.next s.by_origin in
            (
              s.next,
              subst (λ x. get x.origin begun.by_origin ≡ some s.next) (sym e)
                  (ground (arith, own, str_eq_refl pkg.origin)),
            )
        | inr (inr k') ↦ elim k' [ ]
      ];
    }

  add_to_origin-Holds :
      Holds (given ++ pkg ∷ []) (add_to_origin s pkg) × ((add_to_origin s pkg).by_package ≡ [])
  unfolding add_to_origin
  add_to_origin-Holds = elim (Option-cases (get pkg.origin s.by_origin)) [
    | inl e ↦ rw (e, add_to_origin) (begun-Holds e, unnamed)
    | inr (j, e) ↦ rw (e, add_to_origin) (joined-Holds j e, unnamed)
  ]

group_by_origin_from :
    (given pkgs : List ImagePackage) (s : Grouping)
    → Holds given s
    → s.by_package ≡ []
    → Holds (given ++ pkgs) (group_by_origin s pkgs) × ((group_by_origin s pkgs).by_package ≡ [])
unfolding group_by_origin
group_by_origin_from given [] s inv unnamed =
    (subst (λ l. Holds l s) (sym (append-nil given)) inv, unnamed)
group_by_origin_from given (pkg ∷ pkgs) s inv unnamed =
    let (step, still) = add_to_origin-Holds given s inv unnamed pkg in
    subst
      (λ l.
        Holds l (group_by_origin (add_to_origin s pkg) pkgs)
        × ((group_by_origin (add_to_origin s pkg) pkgs).by_package ≡ []))
      (append_assoc given (pkg ∷ []) pkgs)
      (group_by_origin_from (given ++ pkg ∷ []) pkgs (add_to_origin s pkg) step still)

-- The order of `range` goes through exactly what the map of groups holds.
abbrev pub GoesThrough : Visits → Type 0
GoesThrough visits =
    (m : StrMap ℕ) (k : Str) (i : ℕ) → In (k, i) (visits.range_groups m) ↔ (get k m ≡ some i)

nothing_there : (n : Str) (i : ℕ) → get n [] ≢ some i
unfolding get
nothing_there n i h = cc h

no_groups-Holds : Holds [] no_groups
unfolding get
no_groups-Holds = record {
  content = λ o i h. absurd (nothing_there o i h);
  named = λ n i h. absurd (nothing_there n i h);
  given = λ o i h. absurd (nothing_there o i h);
  fresh = λ o i h. absurd (nothing_there o i h);
  covered = λ p k. elim k [ ];
}

index_names_cases :
    (at : ℕ → Group) (entries m : StrMap ℕ) (n : Str) (i : ℕ)
    → get n (index_names at entries m) ≡ some i
    → (get n m ≡ some i) ⊎ ((o : Str) × In (o, i) entries × (any (of_name n) (at i).pkgs ≡ true))
unfolding index_names
index_names_cases at [] m n i h = inl h
index_names_cases at ((o, j) ∷ entries) m n i h =
    elim (index_names_cases at entries (set_names j (at j).pkgs m) n i h) [
      | inl e ↦ elim (Bool-cases (any (of_name n) (at j).pkgs)) [
        | inl a ↦
            let same : i ≡ j = ground (arith, e, a, get-set_names j (at j).pkgs m n) in
            inr (
              o,
              inl (ap (λ x. (o, x)) same),
              subst (λ x. any (of_name n) (at x).pkgs ≡ true) (sym same) a,
            )
        | inr a ↦ inl (ground (arith, e, a, get-set_names j (at j).pkgs m n))
      ]
      | inr (o', k, a) ↦ inr (o', inr k, a)
    ]

module _ (visits : Visits) (visited : GoesThrough visits) (pkgs : List ImagePackage) where
  indexed-Holds : (s : Grouping) → Holds pkgs s → Holds pkgs (indexed visits s)
  indexed-Holds s inv = record {
    content = inv.content;
    named = λ n i h. elim (index_names_cases s.at (visits.range_groups s.by_origin) [] n i h) [
      | inl e ↦ absurd (nothing_there n i e)
      | inr (o, k, a) ↦
          let (p, j, same) = any-In (of_name n) (s.at i).pkgs a in
          let live = (visited s.by_origin o i).0 k in
          (
            p,
            j,
            (str_eq_iff p.name n).0 same,
            home pkgs s inv o i live p.origin
                (In-any (of_origin p.origin) (s.at i).pkgs p j (str_eq_refl p.origin)),
          )
    ];
    given = inv.given;
    fresh = inv.fresh;
    covered = inv.covered;
  }

  pub started-Holds : Holds pkgs (indexed visits (group_by_origin no_groups pkgs))
  started-Holds =
      indexed-Holds (group_by_origin no_groups pkgs)
        (group_by_origin_from [] pkgs no_groups no_groups-Holds refl).0
