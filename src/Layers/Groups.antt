-- ===== src/Layers/Groups.antt =====
-- groupByOriginAndSize, replacesGroup and merge of pkg/build/layers.go.
pub mod Counting
pub mod Merging
pub mod Building
pub mod Distinct
pub mod Merges
pub mod Picking
pub mod Partition
use apko.Base.{
  ℕ, zero, suc, ◌+◌, ◌-◌, ◌%◌, ◌^◌, Bool, true, false, not, List, [], ◌∷◌, ◌++◌, map, Option, none,
  some, ltb, ◌==◌, if◌then◌else◌, Str, str_eq, length, any, StrMap, get, put,
}
use apko.Version.{Comparison, less, greater}
use apko.Version.Parse.{VersionError, OrError, value, error, parse_version}
use apko.Constraint.{resolve_package_name_version_pin, satisfied_by}
use apko.Compare.{compare_text}

-- The fields of an installed package that the grouping reads.
pub record ImagePackage : Type 0 where
  pub name : Str
  pub version : Str
  pub origin : Str
  pub replaces : List Str
  pub installed_size : ℕ

pub record Group : Type 0 where
  pub pkgs : List ImagePackage
  pub size : ℕ
  pub tiebreaker : Str

-- An error of the grouping: a version that cannot be parsed, or the panic on a missing package.
pub data GroupError : Type 0 where
  checking : Str → Str → VersionError → GroupError
  missing : Str → GroupError

pub data Grouped (A : Type 0) : Type 0 where
  refused : GroupError → Grouped A
  grouped : A → Grouped A

infixl 5 ◌>>=◌
abbrev pub ◌>>=◌ : {A B : Type 0} → Grouped A → (A → Grouped B) → Grouped B
refused reason >>= next = refused reason
grouped made >>= next = next made

-- The loop of replacesGroup: the first package of the name that satisfies the constraint.
unfoldable pub replaces_pkgs : Str → List ImagePackage → OrError Bool
replaces_pkgs rep [] = value false
replaces_pkgs rep (pkg ∷ pkgs) =
    let constraint = resolve_package_name_version_pin rep in
    let rest = replaces_pkgs rep pkgs in
    if not (str_eq pkg.name constraint.name) then rest else (elim (parse_version pkg.version) [
      | error e ↦ error e
      | value ver ↦ elim (satisfied_by constraint ver) [
        | error e ↦ error e
        | value true ↦ value true
        | value false ↦ rest
      ]
    ])

-- replacesGroup
unfoldable pub replaces_group : Str → Group → OrError Bool
replaces_group rep g = replaces_pkgs rep g.pkgs

-- The larger of two texts.
unfoldable pub max_text : Str → Str → Str
max_text s t = elim (compare_text s t) [ less ↦ t | _ ↦ s ]

abbrev pub empty_group : Group
empty_group = record { pkgs = []; size = 0; tiebreaker = [] }

abbrev pub merge_into : Group → Group → Group
merge_into merged g = record {
  pkgs = merged.pkgs ++ g.pkgs;
  size = (merged.size + g.size) % 2 ^ 64;
  tiebreaker = max_text merged.tiebreaker g.tiebreaker;
}

unfoldable pub merge_from : Group → List Group → Group
merge_from merged [] = merged
merge_from merged (g ∷ gs) = merge_from (merge_into merged g) gs

-- merge
unfoldable pub merge : List Group → Group
merge gs = merge_from empty_group gs

-- The groups by their pointers, of which `next` is the first that is free, and the two maps.
pub record Grouping : Type 0 where
  pub next : ℕ
  pub at : ℕ → Group
  pub by_origin : StrMap ℕ
  pub by_package : StrMap ℕ

unfoldable pub update : (ℕ → Group) → ℕ → Group → ℕ → Group
update at i g j = if i == j then g else at j

abbrev pub no_groups : Grouping
no_groups = record { next = 0; at = λ i. empty_group; by_origin = []; by_package = [] }

abbrev pub add_pkg : Group → ImagePackage → Group
add_pkg g pkg = record g { pkgs = g.pkgs ++ pkg ∷ [] }

-- One package for its origin's group, which is made where it is missing.
unfoldable pub add_to_origin : Grouping → ImagePackage → Grouping
add_to_origin s pkg = elim (get pkg.origin s.by_origin) [
  | some i ↦ record s { at = update s.at i (add_pkg (s.at i) pkg) }
  | none ↦ record s {
    next = suc s.next;
    at = update s.at s.next (add_pkg empty_group pkg);
    by_origin = put pkg.origin s.next s.by_origin;
  }
]

-- The loop over the packages.
unfoldable pub group_by_origin : Grouping → List ImagePackage → Grouping
group_by_origin s [] = s
group_by_origin s (pkg ∷ pkgs) = group_by_origin (add_to_origin s pkg) pkgs

unfoldable pub set_names : ℕ → List ImagePackage → StrMap ℕ → StrMap ℕ
set_names i [] m = m
set_names i (pkg ∷ pkgs) m = set_names i pkgs (put pkg.name i m)

unfoldable pub set_origins : ℕ → List ImagePackage → StrMap ℕ → StrMap ℕ
set_origins i [] m = m
set_origins i (pkg ∷ pkgs) m = set_origins i pkgs (put pkg.origin i m)

-- `byPackage`, over the entries of `byOrigin` in the order of `range`.
unfoldable pub index_names : (ℕ → Group) → StrMap ℕ → StrMap ℕ → StrMap ℕ
index_names at [] m = m
index_names at ((o, i) ∷ entries) m = index_names at entries (set_names i (at i).pkgs m)

abbrev pub add_replaces : StrMap (List Str) → ImagePackage → StrMap (List Str)
add_replaces m pkg = elim pkg.replaces [ [] ↦ m | r ∷ rs ↦ put pkg.name (r ∷ rs) m ]

unfoldable pub replaces_of : List ImagePackage → StrMap (List Str) → StrMap (List Str)
replaces_of [] m = m
replaces_of (pkg ∷ pkgs) m = replaces_of pkgs (add_replaces m pkg)

-- `replaceMap`, over the entries of `byPackage`.
unfoldable pub replace_map : (ℕ → Group) → StrMap ℕ → StrMap (List Str) → StrMap (List Str)
replace_map at [] m = m
replace_map at ((n, i) ∷ entries) m = replace_map at entries (replaces_of (at i).pkgs m)

-- Two groups become one, and the maps lead to it.
unfoldable pub merge_groups : Grouping → ℕ → ℕ → Grouping
merge_groups s g replacee =
    let merged = merge (s.at g ∷ s.at replacee ∷ []) in
    record {
      next = suc s.next;
      at = update s.at s.next merged;
      by_origin = set_origins s.next merged.pkgs s.by_origin;
      by_package = set_names s.next merged.pkgs s.by_package;
    }

-- The round behind the check of the version.
unfoldable pub merge_named : Grouping → Str → ℕ → Grouped Grouping
merge_named s pkg replacee = elim (get pkg s.by_package) [
  | none ↦ refused (missing pkg)
  | some g ↦ if replacee == g then grouped s else grouped (merge_groups s g replacee)
]

-- One text of Replaces.
unfoldable pub merge_replaced : Grouping → Str → Str → Grouped Grouping
merge_replaced s pkg rep =
    let constraint = resolve_package_name_version_pin rep in
    elim (get constraint.name s.by_package) [
      | none ↦ grouped s
      | some replacee ↦ elim (replaces_group rep (s.at replacee)) [
        | error e ↦ refused (checking pkg constraint.name e)
        | value false ↦ grouped s
        | value true ↦ merge_named s pkg replacee
      ]
    ]

unfoldable pub merge_each : Grouping → Str → List Str → Grouped Grouping
merge_each s pkg [] = grouped s
merge_each s pkg (rep ∷ reps) = do s' ← merge_replaced s pkg rep; merge_each s' pkg reps

-- The loop over the entries of `replaceMap`, in the order of `range`.
unfoldable pub merge_all : Grouping → StrMap (List Str) → Grouped Grouping
merge_all s [] = grouped s
merge_all s ((pkg, reps) ∷ entries) = do s' ← merge_each s pkg reps; merge_all s' entries

-- The groups that `byOrigin` leads to, each once, in the order of `range`.
unfoldable pub distinct_ids : List ℕ → StrMap ℕ → List ℕ
distinct_ids seen [] = []
distinct_ids seen ((o, i) ∷ entries) =
    let old = distinct_ids seen entries in
    let new = i ∷ distinct_ids (i ∷ seen) entries in if any (◌==◌ i) seen then old else new

-- The loop that adds up the sizes of a group's packages.
unfoldable pub sized_from : Group → List ImagePackage → Group
sized_from g [] = g
sized_from g (pkg ∷ pkgs) =
    sized_from
      (record g {
        size = (g.size + pkg.installed_size) % 2 ^ 64;
        tiebreaker = max_text g.tiebreaker pkg.name;
      })
      pkgs

abbrev pub sized : Group → Group
sized g = sized_from g g.pkgs

-- Descending size, then the tiebreaker.
unfoldable pub compare_groups : Group → Group → Comparison
compare_groups a b =
    if ltb b.size a.size
    then less
    else if ltb a.size b.size
    then greater
    else compare_text a.tiebreaker b.tiebreaker

abbrev pub compare_names : ImagePackage → ImagePackage → Comparison
compare_names a b = compare_text a.name b.name

-- slices.SortFunc by insertion, as it works on slices of at most twelve elements.
module _ {A : Type 0} where
  unfoldable pub insert_behind : (A → A → Comparison) → A → List A → List A
  insert_behind cmp a [] = a ∷ []
  insert_behind cmp a (b ∷ bs) =
      let rest = insert_behind cmp a bs in elim (cmp a b) [ less ↦ b ∷ rest | _ ↦ a ∷ b ∷ bs ]

  unfoldable pub reverse_onto : List A → List A → List A
  reverse_onto [] onto = onto
  reverse_onto (a ∷ as') onto = reverse_onto as' (a ∷ onto)

  unfoldable pub sort_onto : (A → A → Comparison) → List A → List A → List A
  sort_onto cmp [] front = reverse_onto front []
  sort_onto cmp (a ∷ rest) front = sort_onto cmp rest (insert_behind cmp a front)

  unfoldable pub sort : (A → A → Comparison) → List A → List A
  sort cmp l = sort_onto cmp l []

unfoldable pub take : {A : Type 0} → ℕ → List A → List A
take zero l = []
take (suc n) [] = []
take (suc n) (a ∷ l) = a ∷ take n l

unfoldable pub drop : {A : Type 0} → ℕ → List A → List A
drop zero l = l
drop (suc n) [] = []
drop (suc n) (a ∷ l) = drop n l

-- The groups beyond the budget become one; there is one group at least.
unfoldable pub within_budget : ℕ → List Group → List Group
within_budget budget gs =
    if ltb budget (length gs) then take (budget - 1) gs ++ merge (drop (budget - 1) gs) ∷ [] else gs

abbrev pub sort_pkgs : Group → Group
sort_pkgs g = record g { pkgs = sort compare_names g.pkgs }

-- The orders in which `range` goes through the maps of groups and of Replaces.
pub record Visits : Type 0 where
  pub range_groups : StrMap ℕ → StrMap ℕ
  pub range_replaces : StrMap (List Str) → StrMap (List Str)

-- What is done behind the merging of groups.
unfoldable pub pick_groups : Visits → ℕ → Grouping → List Group
pick_groups visits budget s =
    let groups = map (λ i. sized (s.at i)) (distinct_ids [] (visits.range_groups s.by_origin)) in
    map sort_pkgs (within_budget budget (sort compare_groups groups))

abbrev pub indexed : Visits → Grouping → Grouping
indexed visits s = record s { by_package = index_names s.at (visits.range_groups s.by_origin) [] }

-- groupByOriginAndSize
unfoldable pub group_by_origin_and_size : Visits → List ImagePackage → ℕ → Grouped (List Group)
group_by_origin_and_size visits pkgs budget =
    let s = indexed visits (group_by_origin no_groups pkgs) in
    let replaces = replace_map s.at (visits.range_groups s.by_package) [] in
    do s' ← merge_all s (visits.range_replaces replaces); grouped (pick_groups visits budget s')
