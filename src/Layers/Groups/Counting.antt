-- ===== src/Layers/Groups/Counting.antt =====
-- How often elements of a kind stand in a list, through the steps of pkg/build/layers.go.
use apko.Base.{
  ℕ, zero, suc, ◌+◌, ◌<◌, ◌≡◌, refl, ap, inl, inr, Bool, true, false, ◌&&◌, ◌||◌, List, [], ◌∷◌,
  ◌++◌, arith, Str, str_eq, In, any, if◌then◌else◌, Bool-cases, StrMap, get, put, get-put, some,
}
use apko.Version.{Comparison}
use apko.Layers.Groups.{
  ImagePackage, Group, merge, merge_from, merge_into, empty_group, set_names, set_origins,
  insert_behind, reverse_onto, sort_onto, sort, take, drop,
}

module _ {A : Type 0} where
  abbrev pub count : (A → Bool) → List A → ℕ
  count f [] = 0
  count f (a ∷ l) = (if f a then 1 else 0) + count f l

  pub count-append : (f : A → Bool) (l m : List A) → count f (l ++ m) ≡ count f l + count f m
  count-append f [] m = omega arith
  count-append f (a ∷ l) m = omega (arith, count-append f l m)

  pub count_split :
      (f g h : A → Bool) (l : List A)
      → ((a : A) → In a l → (h a ≡ f a || g a) × (f a && g a ≡ false))
      → count h l ≡ count f l + count g l
  count_split f g h [] e = omega arith
  count_split f g h (a ∷ l) e =
      let (e₁, e₂) = e a (inl refl) in
      ground (arith, e₁, e₂, count_split f g h l (λ b i. e b (inr i)))

  pub count_same :
      (f g : A → Bool) (l : List A) → ((a : A) → In a l → f a ≡ g a) → count f l ≡ count g l
  count_same f g [] e = refl
  count_same f g (a ∷ l) e = ground (arith, e a (inl refl), count_same f g l (λ b i. e b (inr i)))

  pub count_none : (f : A → Bool) (l : List A) → ((a : A) → In a l → f a ≡ false) → count f l ≡ 0
  count_none f [] e = refl
  count_none f (a ∷ l) e = ground (arith, e a (inl refl), count_none f l (λ b i. e b (inr i)))

  pub any→count : (f : A → Bool) (l : List A) → any f l ≡ true → 0 < count f l
  unfolding any
  any→count f [] h = cc
  any→count f (a ∷ l) h = ground (arith, any→count f l)

  pub count→In : (f : A → Bool) (l : List A) → 0 < count f l → (a : A) × In a l × (f a ≡ true)
  count→In f [] h = absurd (omega arith)
  count→In f (a ∷ l) h = elim (Bool-cases (f a)) [
    | inl e ↦ (a, inl refl, e)
    | inr e ↦ let (b, i, g) = count→In f l (ground arith) in (b, inr i, g)
  ]

  count-insert_behind :
      (cmp : A → A → Comparison) (f : A → Bool) (a : A) (l : List A)
      → count f (insert_behind cmp a l) ≡ count f (a ∷ l)
  unfolding insert_behind
  count-insert_behind cmp f a [] = refl
  count-insert_behind cmp f a (b ∷ l) = ground (arith, count-insert_behind cmp f a l)

  count-reverse_onto :
      (f : A → Bool) (l m : List A) → count f (reverse_onto l m) ≡ count f l + count f m
  unfolding reverse_onto
  count-reverse_onto f [] m = omega arith
  count-reverse_onto f (a ∷ l) m = omega (arith, count-reverse_onto f l (a ∷ m))

  count-sort_onto :
      (cmp : A → A → Comparison) (f : A → Bool) (l front : List A)
      → count f (sort_onto cmp l front) ≡ count f l + count f front
  unfolding sort_onto
  count-sort_onto cmp f [] front = omega (arith, count-reverse_onto f front [])
  count-sort_onto cmp f (a ∷ l) front = omega (
    arith,
    count-sort_onto cmp f l (insert_behind cmp a front),
    count-insert_behind cmp f a front,
  )

  pub count-sort :
      (cmp : A → A → Comparison) (f : A → Bool) (l : List A) → count f (sort cmp l) ≡ count f l
  unfolding sort
  count-sort cmp f l = omega (arith, count-sort_onto cmp f l [])

  pub take-append-drop : (n : ℕ) (l : List A) → take n l ++ drop n l ≡ l
  unfolding take drop
  take-append-drop zero l = refl
  take-append-drop (suc n) [] = refl
  take-append-drop (suc n) (a ∷ l) = ap (◌∷◌ a) (take-append-drop n l)

-- The packages of all groups that count.
abbrev pub count_all : (ImagePackage → Bool) → List Group → ℕ
count_all f [] = 0
count_all f (g ∷ gs) = count f g.pkgs + count_all f gs

pub count_all-append :
    (f : ImagePackage → Bool) (gs hs : List Group)
    → count_all f (gs ++ hs) ≡ count_all f gs + count_all f hs
count_all-append f [] hs = omega arith
count_all-append f (g ∷ gs) hs = omega (arith, count_all-append f gs hs)

count-merge_from :
    (f : ImagePackage → Bool) (merged : Group) (gs : List Group)
    → count f (merge_from merged gs).pkgs ≡ count f merged.pkgs + count_all f gs
unfolding merge_from
count-merge_from f merged [] = omega arith
count-merge_from f merged (g ∷ gs) =
    omega (arith, count-merge_from f (merge_into merged g) gs, count-append f merged.pkgs g.pkgs)

pub count-merge :
    (f : ImagePackage → Bool) (gs : List Group) → count f (merge gs).pkgs ≡ count_all f gs
unfolding merge
count-merge f gs = omega (arith, count-merge_from f empty_group gs)

count_all-insert_behind :
    (cmp : Group → Group → Comparison) (f : ImagePackage → Bool) (g : Group) (gs : List Group)
    → count_all f (insert_behind cmp g gs) ≡ count_all f (g ∷ gs)
unfolding insert_behind
count_all-insert_behind cmp f g [] = refl
count_all-insert_behind cmp f g (h ∷ gs) = ground (arith, count_all-insert_behind cmp f g gs)

count_all-reverse_onto :
    (f : ImagePackage → Bool) (l m : List Group)
    → count_all f (reverse_onto l m) ≡ count_all f l + count_all f m
unfolding reverse_onto
count_all-reverse_onto f [] m = omega arith
count_all-reverse_onto f (a ∷ l) m = omega (arith, count_all-reverse_onto f l (a ∷ m))

count_all-sort_onto :
    (cmp : Group → Group → Comparison) (f : ImagePackage → Bool) (l front : List Group)
    → count_all f (sort_onto cmp l front) ≡ count_all f l + count_all f front
unfolding sort_onto
count_all-sort_onto cmp f [] front = omega (arith, count_all-reverse_onto f front [])
count_all-sort_onto cmp f (a ∷ l) front = omega (
  arith,
  count_all-sort_onto cmp f l (insert_behind cmp a front),
  count_all-insert_behind cmp f a front,
)

pub count_all-sort :
    (cmp : Group → Group → Comparison) (f : ImagePackage → Bool) (gs : List Group)
    → count_all f (sort cmp gs) ≡ count_all f gs
unfolding sort
count_all-sort cmp f gs = omega (arith, count_all-sort_onto cmp f gs [])

-- What the maps hold behind their updates.
abbrev pub of_origin : Str → ImagePackage → Bool
of_origin o p = str_eq p.origin o

abbrev pub of_name : Str → ImagePackage → Bool
of_name n p = str_eq p.name n

pub get-set_origins :
    (i : ℕ) (l : List ImagePackage) (m : StrMap ℕ) (k : Str)
    → get k (set_origins i l m) ≡ (if any (of_origin k) l then some i else get k m)
unfolding set_origins any
get-set_origins i [] m k = refl
get-set_origins i (p ∷ l) m k =
    ground (arith, get-set_origins i l (put p.origin i m) k, get-put p.origin k i m)

pub get-set_names :
    (i : ℕ) (l : List ImagePackage) (m : StrMap ℕ) (k : Str)
    → get k (set_names i l m) ≡ (if any (of_name k) l then some i else get k m)
unfolding set_names any
get-set_names i [] m k = refl
get-set_names i (p ∷ l) m k =
    ground (arith, get-set_names i l (put p.name i m) k, get-put p.name k i m)
