-- ===== src/Layers/Groups/Partition.antt =====
-- groupByOriginAndSize of pkg/build/layers.go as a whole: what becomes of the packages it is given.
use apko.Base.{
  ℕ, ◌≤◌, ◌≡◌, refl, sym, ap, ◌∙◌, subst, ◌≢◌, ◌⊎◌, inl, inr, Bool, true, false, ◌&&◌, List, [],
  ◌∷◌, map, some, arith, Str, str_eq, str_eq_iff, In, any, Bool-cases, StrMap, get, put, get-put,
  length,
}
use apko.Layers.Groups.{
  ImagePackage, Group, checking, missing, Grouped, refused, grouped, ◌>>=◌, Grouping, no_groups,
  group_by_origin, index_names, set_names, add_replaces, replaces_of, replace_map, merge_all,
  distinct_ids, sized, compare_groups, sort, Visits, pick_groups, indexed, group_by_origin_and_size,
}
use apko.Layers.Groups.Counting.{count, count_all, count_same, of_origin, of_name, get-set_names}
use apko.Layers.Groups.Merging.{is_at, get→is_at, Holds, home}
use apko.Layers.Groups.Building.{GoesThrough, started-Holds}
use apko.Layers.Groups.Distinct.{Live, distinct_ids-Live, count_all-distinct_ids, sized_from_pkgs}
use apko.Layers.Groups.Merges.{Known, Kept, merge_all-Kept}
use apko.Layers.Groups.Picking.{count_all-picked, torn, torn-picked, length-picked}

-- The orders of `range` go through exactly what the maps hold.
abbrev pub Thorough : Visits → Type 0
Thorough visits =
    GoesThrough visits
    × ((m : StrMap (List Str)) (k : Str) (v : List Str)
        → In (k, v) (visits.range_replaces m)
        → get k m ≡ some v)

nothing : (k : Str) (v : List Str) → get k [] ≢ some v
unfolding get
nothing k v h = cc h

add_replaces_cases :
    (m : StrMap (List Str)) (p : ImagePackage) (rs : List Str) (k : Str) (v : List Str)
    → get k (elim rs [ [] ↦ m | r ∷ rs' ↦ put p.name (r ∷ rs') m ]) ≡ some v
    → (get k m ≡ some v) ⊎ (of_name k p ≡ true)
add_replaces_cases m p [] k v h = inl h
add_replaces_cases m p (r ∷ rs) k v h = elim (Bool-cases (str_eq p.name k)) [
  | inl e ↦ inr e
  | inr e ↦ inl (ground (arith, e, h, get-put p.name k (r ∷ rs) m))
]

replaces_of_cases :
    (l : List ImagePackage) (m : StrMap (List Str)) (k : Str) (v : List Str)
    → get k (replaces_of l m) ≡ some v
    → (get k m ≡ some v) ⊎ (any (of_name k) l ≡ true)
unfolding replaces_of any
replaces_of_cases [] m k v h = inl h
replaces_of_cases (p ∷ l) m k v h = elim (replaces_of_cases l (add_replaces m p) k v h) [
  | inl e ↦ elim (add_replaces_cases m p p.replaces k v e) [
    | inl f ↦ inl f
    | inr a ↦ inr (ground (arith, a))
  ]
  | inr a ↦ inr (ground (arith, a))
]

replace_map_cases :
    (at : ℕ → Group) (entries : StrMap ℕ) (m : StrMap (List Str)) (k : Str) (v : List Str)
    → get k (replace_map at entries m) ≡ some v
    → (get k m ≡ some v)
      ⊎ ((n : Str) × (i : ℕ) × In (n, i) entries × (any (of_name k) (at i).pkgs ≡ true))
unfolding replace_map
replace_map_cases at [] m k v h = inl h
replace_map_cases at ((n, i) ∷ entries) m k v h =
    elim (replace_map_cases at entries (replaces_of (at i).pkgs m) k v h) [
      | inl e ↦ elim (replaces_of_cases (at i).pkgs m k v e) [
        | inl f ↦ inl f
        | inr a ↦ inr (n, i, inl refl, a)
      ]
      | inr (n', j, l, a) ↦ inr (n', j, inr l, a)
    ]

index_names-kept :
    (at : ℕ → Group) (entries m : StrMap ℕ) (n : Str)
    → (i : ℕ) × (get n m ≡ some i)
    → (i : ℕ) × (get n (index_names at entries m) ≡ some i)
unfolding index_names
index_names-kept at [] m n known = known
index_names-kept at ((o, j) ∷ entries) m n (i, e) =
    let now = get-set_names j (at j).pkgs m n in
    index_names-kept at entries (set_names j (at j).pkgs m) n
      (elim (Bool-cases (any (of_name n) (at j).pkgs)) [
        | inl a ↦ (j, ground (arith, a, now))
        | inr a ↦ (i, ground (arith, a, now, e))
      ])

index_names-all :
    (at : ℕ → Group) (entries m : StrMap ℕ) (o n : Str) (i : ℕ)
    → In (o, i) entries
    → any (of_name n) (at i).pkgs ≡ true
    → (j : ℕ) × (get n (index_names at entries m) ≡ some j)
unfolding index_names
index_names-all at [] m o n i k a = elim k [ ]
index_names-all at ((o', j) ∷ entries) m o n i (inr k) a =
    index_names-all at entries (set_names j (at j).pkgs m) o n i k a
index_names-all at ((o', j) ∷ entries) m o n i (inl e) a =
    index_names-kept at entries (set_names j (at j).pkgs m) n (
      j,
      ground (
        arith,
        get-set_names j (at j).pkgs m n,
        subst (λ x. any (of_name n) (at x).pkgs ≡ true) (ap (λ x. x.1) e) a,
      ),
    )

none→count : (f : ImagePackage → Bool) (l : List ImagePackage) → any f l ≡ false → count f l ≡ 0
unfolding any
none→count f [] h = refl
none→count f (p ∷ l) h = ground (arith, none→count f l)

not_torn :
    (f : ImagePackage → Bool) (all : ℕ) (gs : List Group) (g : Group)
    → count (torn f all) gs ≡ 0
    → In g gs
    → (count f g.pkgs ≡ 0) ⊎ (count f g.pkgs ≡ all)
not_torn f all [] g none_torn k = elim k [ ]
not_torn f all (g' ∷ gs) g none_torn (inl e) =
    subst (λ x. (count f x.pkgs ≡ 0) ⊎ (count f x.pkgs ≡ all)) (sym e) (ground arith)
not_torn f all (g' ∷ gs) g none_torn (inr k) = not_torn f all gs g (omega arith) k

-- A group has all packages of an origin or none of them.
module _ (pkgs : List ImagePackage) (s : Grouping) (inv : Holds pkgs s) (o : Str) where
  led :
      (i : ℕ)
      → get o s.by_origin ≡ some i
      → (p : ImagePackage) → (str_eq p.origin o ≡ true → p.origin ≡ o)
      → of_origin o p && is_at s.by_origin i p ≡ of_origin o p
  led i there p same = elim (Bool-cases (str_eq p.origin o)) [
    | inr e ↦ ground (arith, e)
    | inl e ↦ ground (
      arith,
      e,
      get→is_at s.by_origin i p (subst (λ x. get x s.by_origin ≡ some i) (sym (same e)) there),
    )
  ]

  whole :
      (o' : Str) (i : ℕ)
      → get o' s.by_origin ≡ some i
      → (count (of_origin o) (s.at i).pkgs ≡ 0)
        ⊎ (count (of_origin o) (s.at i).pkgs ≡ count (of_origin o) pkgs)
  whole o' i live = elim (Bool-cases (any (of_origin o) (s.at i).pkgs)) [
    | inr e ↦ inl (none→count (of_origin o) (s.at i).pkgs e)
    | inl e ↦
        let there = home pkgs s inv o' i live o e in
        inr (
          inv.content o' i live (of_origin o)
          ∙ count_same (λ p. of_origin o p && is_at s.by_origin i p) (of_origin o) pkgs
              (λ p k. led i there p (str_eq_iff p.origin o).0))
  ]

  none_torn :
      (ids : List ℕ)
      → Live s.by_origin ids
      → count (torn (of_origin o) (count (of_origin o) pkgs)) (map (λ i. sized (s.at i)) ids) ≡ 0
  none_torn [] live = refl
  none_torn (i ∷ ids) live =
      let (o', there) = live i (inl refl) in
      ground (
        arith,
        whole o' i there,
        none_torn ids (λ j k. live j (inr k)),
        ap (λ l. count (of_origin o) l) (sized_from_pkgs (s.at i) (s.at i).pkgs),
      )

module _ (visits : Visits) (thorough : Thorough visits) (pkgs : List ImagePackage) where
  abbrev start : Grouping
  start = indexed visits (group_by_origin no_groups pkgs)

  abbrev replaces : StrMap (List Str)
  replaces = visits.range_replaces (replace_map start.at (visits.range_groups start.by_package) [])

  -- What has Replaces is in the map of names.
  replaces-Known : (n : Str) (reps : List Str) → In (n, reps) replaces → Known start n
  replaces-Known n reps k =
      let all = replace_map start.at (visits.range_groups start.by_package) [] in
      elim (replace_map_cases start.at (visits.range_groups start.by_package) [] n reps
        (thorough.1 all n reps k)) [
          | inl e ↦ absurd (nothing n reps e)
          | inr (m, i, l, a) ↦
              let inv = started-Holds visits thorough.0 pkgs in
              let (p, _, _, live) = inv.named m i ((thorough.0 start.by_package m i).0 l) in
              index_names-all start.at (visits.range_groups start.by_origin) [] p.origin n i
                ((thorough.0 start.by_origin p.origin i).1 live) a
        ]

  all-Kept : Kept pkgs start (merge_all start replaces)
  all-Kept =
      merge_all-Kept pkgs start replaces (started-Holds visits thorough.0 pkgs) replaces-Known

  pick_groups_lem :
      (budget : ℕ) (s : Grouping)
      → Holds pkgs s
      → ((f : ImagePackage → Bool) → count_all f (pick_groups visits budget s) ≡ count f pkgs)
        × ((o : Str)
            → count (torn (of_origin o) (count (of_origin o) pkgs)) (pick_groups visits budget s)
              ≡ 0)
        × ((length (pick_groups visits budget s) ≤ budget)
            ⊎ (length (pick_groups visits budget s) ≡ 1))
  unfolding pick_groups
  pick_groups_lem budget s inv =
      let entries = visits.range_groups s.by_origin in
      let gs = map (λ i. sized (s.at i)) (distinct_ids [] entries) in
      let through = thorough.0 s.by_origin in
      let total = count_all-distinct_ids pkgs s inv entries through in
      (
        (λ f. count_all-picked f budget gs ∙ total f),
        (λ o.
            torn-picked (of_origin o) (count (of_origin o) pkgs) budget gs
              (none_torn pkgs s inv o (distinct_ids [] entries)
                (distinct_ids-Live s.by_origin entries through))
              (omega (arith, total (of_origin o)))),
        length-picked budget (sort compare_groups gs),
      )

  -- What is returned is picked from groups that the invariant holds for.
  picked_from :
      (budget : ℕ) (gs : List Group) (r : Grouped Grouping)
      → Kept pkgs start r
      → (r >>= λ s. grouped (pick_groups visits budget s)) ≡ grouped gs
      → (s : Grouping) × Holds pkgs s × (pick_groups visits budget s ≡ gs)
  picked_from budget gs (refused e) kept h = cc h
  picked_from budget gs (grouped s) kept h = (s, kept.0, cc h)

  no_panic :
      (budget : ℕ) (n : Str) (r : Grouped Grouping)
      → Kept pkgs start r
      → (r >>= λ s. grouped (pick_groups visits budget s)) ≢ refused (missing n)
  no_panic budget n (refused (checking m k e)) kept h = cc h
  no_panic budget n (refused (missing m)) kept h = kept
  no_panic budget n (grouped s) kept h = cc h

  -- Where the orders of `range` go through exactly what the maps hold, the groups that are returned
  -- hold every package exactly as often as it is given, each group has all packages of an origin or
  -- none of them, and there are as many groups as the budget has at most, or one.
  pub group_by_origin_and_size_lem :
      (budget : ℕ) (gs : List Group)
      → group_by_origin_and_size visits pkgs budget ≡ grouped gs
      → ((f : ImagePackage → Bool) → count_all f gs ≡ count f pkgs)
        × ((o : Str) (g : Group)
            → In g gs
            → (count (of_origin o) g.pkgs ≡ 0)
              ⊎ (count (of_origin o) g.pkgs ≡ count (of_origin o) pkgs))
        × ((length gs ≤ budget) ⊎ (length gs ≡ 1))
  unfolding group_by_origin_and_size
  group_by_origin_and_size_lem budget gs h =
      let (s, inv, same) = picked_from budget gs (merge_all start replaces) all-Kept h in
      let (total, untorn, few) = pick_groups_lem budget s inv in
      (
        (λ f. subst (λ x. count_all f x ≡ count f pkgs) same (total f)),
        (λ o g k.
            not_torn (of_origin o) (count (of_origin o) pkgs) gs g
              (subst (λ x. count (torn (of_origin o) (count (of_origin o) pkgs)) x ≡ 0) same
                (untorn o))
              k),
        subst (λ x. (length x ≤ budget) ⊎ (length x ≡ 1)) same few,
      )

  -- Where the orders of `range` go through exactly what the maps hold, the grouping does not panic on
  -- a package that is missing from the map of names.
  pub group_by_origin_and_size_total :
      (budget : ℕ) (n : Str) → group_by_origin_and_size visits pkgs budget ≢ refused (missing n)
  unfolding group_by_origin_and_size
  group_by_origin_and_size_total budget n h =
      no_panic budget n (merge_all start replaces) all-Kept h
