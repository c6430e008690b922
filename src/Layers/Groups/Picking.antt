-- ===== src/Layers/Groups/Picking.antt =====
-- The end of groupByOriginAndSize in pkg/build/layers.go: the sorting and the budget.
use apko.Base.{
  ℕ, zero, suc, ◌+◌, ◌-◌, ◌≤◌, ◌≡◌, refl, sym, ap, ◌∙◌, ◌⊎◌, inl, Bool, not, ◌||◌, List, [], ◌∷◌,
  map, arith, ◌==◌, length, length-append,
}
use apko.Layers.Groups.{
  ImagePackage, Group, compare_names, compare_groups, sort, take, drop, merge, within_budget,
  sort_pkgs,
}
use apko.Layers.Groups.Counting.{
  count, count-append, count_all, count_all-append, count_all-sort, count-merge, count-sort,
  take-append-drop,
}

module _ (f : ImagePackage → Bool) where
  count_all-sort_pkgs : (gs : List Group) → count_all f (map sort_pkgs gs) ≡ count_all f gs
  count_all-sort_pkgs [] = refl
  count_all-sort_pkgs (g ∷ gs) =
      omega (arith, count-sort compare_names f g.pkgs, count_all-sort_pkgs gs)

  count_all-take-drop :
      (n : ℕ) (gs : List Group) → count_all f gs ≡ count_all f (take n gs) + count_all f (drop n gs)
  count_all-take-drop n gs =
      sym (ap (λ l. count_all f l) (take-append-drop n gs))
      ∙ count_all-append f (take n gs) (drop n gs)

  count_all-within_budget :
      (budget : ℕ) (gs : List Group) → count_all f (within_budget budget gs) ≡ count_all f gs
  unfolding within_budget
  count_all-within_budget budget gs =
      let rest = drop (budget - 1) gs in
      ground (
        arith,
        count_all-append f (take (budget - 1) gs) (merge rest ∷ []),
        count-merge f rest,
        count_all-take-drop (budget - 1) gs,
      )

  -- The steps behind the merging keep what the groups hold.
  pub count_all-picked :
      (budget : ℕ) (gs : List Group)
      → count_all f (map sort_pkgs (within_budget budget (sort compare_groups gs))) ≡ count_all f gs
  count_all-picked budget gs =
      count_all-sort_pkgs (within_budget budget (sort compare_groups gs))
      ∙ count_all-within_budget budget (sort compare_groups gs)
      ∙ count_all-sort compare_groups f gs

  -- Whether a group holds some of the packages and not all of them.
  module _ (all : ℕ) where
    abbrev pub torn : Group → Bool
    torn g = not ((count f g.pkgs == 0) || (count f g.pkgs == all))

    torn-sort_pkgs : (gs : List Group) → count torn (map sort_pkgs gs) ≡ count torn gs
    torn-sort_pkgs [] = refl
    torn-sort_pkgs (g ∷ gs) = ground (arith, count-sort compare_names f g.pkgs, torn-sort_pkgs gs)

    -- Groups that are not torn do not tear when they become one.
    merged_whole :
        (gs : List Group)
        → count torn gs ≡ 0
        → count_all f gs ≤ all
        → (count_all f gs ≡ 0) ⊎ (count_all f gs ≡ all)
    merged_whole [] whole few = inl refl
    merged_whole (g ∷ gs) whole few = ground (arith, merged_whole gs)

    torn-within_budget :
        (budget : ℕ) (gs : List Group)
        → count torn gs ≡ 0
        → count_all f gs ≤ all
        → count torn (within_budget budget gs) ≡ 0
    unfolding within_budget
    torn-within_budget budget gs whole few =
        let front = take (budget - 1) gs in
        let rest = drop (budget - 1) gs in
        let parts : count torn gs ≡ count torn front + count torn rest =
          sym (ap (λ l. count torn l) (take-append-drop (budget - 1) gs))
          ∙ count-append torn front rest in
        let sums = count_all-take-drop (budget - 1) gs in
        let rest_whole = merged_whole rest (omega (arith, parts)) (omega (arith, sums)) in
        ground
          (arith, parts, count-append torn front (merge rest ∷ []), count-merge f rest, rest_whole)

    pub torn-picked :
        (budget : ℕ) (gs : List Group)
        → count torn gs ≡ 0
        → count_all f gs ≤ all
        → count torn (map sort_pkgs (within_budget budget (sort compare_groups gs))) ≡ 0
    torn-picked budget gs whole few =
        torn-sort_pkgs (within_budget budget (sort compare_groups gs))
        ∙ torn-within_budget budget (sort compare_groups gs)
            (count-sort compare_groups torn gs ∙ whole)
            (omega (arith, count_all-sort compare_groups f gs))

length-map : (gs : List Group) → length (map sort_pkgs gs) ≡ length gs
length-map [] = refl
length-map (g ∷ gs) = ap (λ n. suc n) (length-map gs)

length-take : (n : ℕ) (gs : List Group) → length (take n gs) ≤ n
unfolding take
length-take zero gs = omega arith
length-take (suc n) [] = omega arith
length-take (suc n) (g ∷ gs) = omega (arith, length-take n gs)

-- There are as many groups as the budget has at most, or one.
pub length-picked :
    (budget : ℕ) (gs : List Group)
    → (length (map sort_pkgs (within_budget budget gs)) ≤ budget)
      ⊎ (length (map sort_pkgs (within_budget budget gs)) ≡ 1)
unfolding within_budget
length-picked budget gs =
    let front = take (budget - 1) gs in
    ground (
      arith,
      length-map (within_budget budget gs),
      length-take (budget - 1) gs,
      length-append front (merge (drop (budget - 1) gs) ∷ []),
    )
