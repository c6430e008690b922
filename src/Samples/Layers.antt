-- ===== src/Samples/Layers.antt =====
-- Layers of a small image: packages for pkg/build/layers.go, and a walk of its files.
use apko.Base.{
  ℕ, ◌≡◌, ◌≢◌, ◌≤◌, refl, sym, ap, ◌∙◌, ◌↔◌, ◌⊎◌, inl, inr, Bool, true, false, List, [], ◌∷◌, some,
  Str, codes, str_eq, str_eq_refl, str_eq_iff, In, length, StrMap, get, without, arith, Bool-cases,
}
use apko.Layers.Groups.{
  ImagePackage, Group, missing, grouped, refused, Visits, group_by_origin_and_size, replaces_pkgs,
  replaces_group, max_text, merge_from, merge, update, add_to_origin, group_by_origin, set_names,
  set_origins, index_names, replaces_of, replace_map, merge_groups, merge_named, merge_replaced,
  merge_each, merge_all, distinct_ids, sized_from, compare_groups, insert_behind, reverse_onto,
  sort_onto, sort, take, drop, within_budget, pick_groups,
}
use apko.Compare.{compare_text}
use apko.Samples.{program}
use apko.Layers.Groups.Counting.{count, count_all, of_origin}
use apko.Layers.Groups.Partition.{
  Thorough, group_by_origin_and_size_lem, group_by_origin_and_size_total,
}

apart : (j k : Str) → str_eq j k ≡ false → str_eq k j ≡ false
apart j k e = ground (arith, e, str_eq_iff j k, str_eq_iff k j)

-- The entries that a map holds, each key once.
module _ {V : Type 0} where
  unfoldable visit : StrMap V → StrMap V
  visit [] = []
  visit ((k, v) ∷ m) = (k, v) ∷ without k (visit m)

  In-without :
      (k j : Str) (v : V) (m : StrMap V)
      → In (j, v) (without k m) ↔ (In (j, v) m × (str_eq j k ≡ false))
  unfolding without
  In-without k j v [] = ((λ i. elim i [ ]), λ i. elim (i.0) [ ])
  In-without k j v ((i, w) ∷ m) = elim (Bool-cases (str_eq i k)) [
    | inl e ↦ rw e (
      (λ l. let (there, other) = (In-without k j v m).0 l in (inr there, other)),
      λ (l, other). elim l [
        | inl same ↦ absurd (cc (e, other, ap (λ x. x.0) same))
        | inr there ↦ (In-without k j v m).1 (there, other)
      ],
    )
    | inr e ↦ rw e (
      (λ l. elim l [
        | inl same ↦ (inl same, cc (e, ap (λ x. x.0) same))
        | inr there ↦ let (there', other) = (In-without k j v m).0 there in (inr there', other)
      ]),
      λ (l, other). elim l [
        | inl same ↦ inl same
        | inr there ↦ inr ((In-without k j v m).1 (there, other))
      ],
    )
  ]

  kept_apart : (k j : Str) (v : V) (m : StrMap V) → str_eq j k ≡ true → ¬ (In (k, v) (without j m))
  kept_apart k j v m e there =
      ground (arith, e, ((In-without j k v m).0 there).1, str_eq_iff j k, str_eq_iff k j)

  visit_iff : (m : StrMap V) (k : Str) (v : V) → In (k, v) (visit m) ↔ (get k m ≡ some v)
  unfolding visit get
  visit_iff [] k v = ((λ i. elim i [ ]), λ h. cc h)
  visit_iff ((j, w) ∷ m) k v = elim (Bool-cases (str_eq j k)) [
    | inl e ↦ rw e (
      (λ l. elim l [
        | inl same ↦ ap (λ x. some x.1) (sym same)
        | inr there ↦ absurd (kept_apart k j v (visit m) e there)
      ]),
      λ h. inl (ap (λ x. (x, v)) (sym ((str_eq_iff j k).0 e)) ∙ ap (λ x. (j, x)) (cc h)),
    )
    | inr e ↦ rw e (
      (λ l. elim l [
        | inl same ↦ absurd (cc (e, ap (λ x. x.0) same, str_eq_refl j))
        | inr there ↦ (visit_iff m k v).0 ((In-without j k v (visit m)).0 there).0
      ]),
      λ h. inr ((In-without j k v (visit m)).1 ((visit_iff m k v).1 h, apart j k e)),
    )
  ]

abbrev visits : Visits
visits = record { range_groups = λ m. visit m; range_replaces = λ m. visit m }

visits-Thorough : Thorough visits
visits-Thorough = ((λ m k i. visit_iff m k i), λ m k v i. (visit_iff m k v).0 i)

abbrev pub package_of : Str → Str → Str → List Str → ℕ → ImagePackage
package_of name version origin replaces size = record {
  name = name;
  version = version;
  origin = origin;
  replaces = replaces;
  installed_size = size;
}

-- A library and its tool share an origin, and a small package replaces the tool.
abbrev image_packages : List ImagePackage
image_packages =
    package_of (codes "lib") (codes "1.0") (codes "lib") [] 10
    ∷ package_of (codes "sh") (codes "2") (codes "sh") [] 30
    ∷ package_of (codes "tool") (codes "1.0") (codes "lib") [] 20
    ∷ package_of (codes "mini") (codes "1") (codes "mini") (codes "tool<2" ∷ []) 5
    ∷ package_of (codes "data") (codes "1") (codes "data") [] 1
    ∷ []

grouping : Unit {0}
unfolding program compare_text replaces_pkgs replaces_group max_text merge_from merge update
    add_to_origin group_by_origin set_names set_origins index_names replaces_of replace_map
    merge_groups merge_named merge_replaced merge_each merge_all distinct_ids sized_from
    compare_groups insert_behind reverse_onto sort_onto sort take drop within_budget pick_groups
    group_by_origin_and_size visit
grouping = tt

abbrev pub image_groups : List Group
image_groups =
    record {
      pkgs =
          package_of (codes "lib") (codes "1.0") (codes "lib") [] 10
          ∷ package_of (codes "mini") (codes "1") (codes "mini") (codes "tool<2" ∷ []) 5
          ∷ package_of (codes "tool") (codes "1.0") (codes "lib") [] 20
          ∷ [];
      size = 35;
      tiebreaker = codes "tool";
    }
    ∷ record {
      pkgs =
          package_of (codes "data") (codes "1") (codes "data") [] 1
          ∷ package_of (codes "sh") (codes "2") (codes "sh") [] 30
          ∷ [];
      size = 31;
      tiebreaker = codes "sh";
    }
    ∷ []

-- The replaced tool and its library join the package that replaces it, and the rest shares a layer.
groups-image : group_by_origin_and_size visits image_packages 2 ≡ grouped image_groups
unfolding grouping
groups-image = refl

group_by_origin_and_size_lem_example :
    ((f : ImagePackage → Bool) → count_all f image_groups ≡ count f image_packages)
    × ((o : Str) (g : Group)
        → In g image_groups
        → (count (of_origin o) g.pkgs ≡ 0)
          ⊎ (count (of_origin o) g.pkgs ≡ count (of_origin o) image_packages))
    × ((length image_groups ≤ 2) ⊎ (length image_groups ≡ 1))
group_by_origin_and_size_lem_example =
    group_by_origin_and_size_lem visits visits-Thorough image_packages 2 image_groups groups-image

group_by_origin_and_size_total_example :
    group_by_origin_and_size visits image_packages 2 ≢ refused (missing (codes "mini"))
group_by_origin_and_size_total_example =
    group_by_origin_and_size_total visits visits-Thorough image_packages 2 (codes "mini")
