-- ===== src/Layers/Groups/Distinct.antt =====
-- The groups of pkg/build/layers.go that are left behind the merging, each of them once.
use apko.Base.{
  ℕ, ◌+◌, ◌%◌, ◌^◌, ◌≡◌, refl, sym, ap, ◌∙◌, ◌↔◌, subst, ◌≢◌, inl, inr, Bool, true, false, ◌&&◌,
  ◌||◌, List, [], ◌∷◌, map, some, arith, ◌==◌, Str, In, any, In-any, any-In, Bool-cases, StrMap,
  get,
}
use apko.Layers.Groups.{ImagePackage, Group, Grouping, distinct_ids, sized_from, sized, max_text}
use apko.Layers.Groups.Counting.{count, count_all, count_split, count_same, count_none}
use apko.Layers.Groups.Merging.{is_at, get→is_at, Holds}

abbrev pub Apart : List ℕ → Type 0
Apart [] = Unit
Apart (i ∷ ids) = (any (◌==◌ i) ids ≡ false) × Apart ids

abbrev pub Live : StrMap ℕ → List ℕ → Type 0
Live m ids = (i : ℕ) → In i ids → (o : Str) × (get o m ≡ some i)

any_tail : (i j : ℕ) (seen : List ℕ) → any (◌==◌ i) (j ∷ seen) ≡ false → any (◌==◌ i) seen ≡ false
unfolding any
any_tail i j seen h = ground arith

any_cons :
    (i j : ℕ) (seen : List ℕ)
    → (i == j) ≡ false
    → any (◌==◌ i) seen ≡ false
    → any (◌==◌ i) (j ∷ seen) ≡ false
unfolding any
any_cons i j seen e h = ground arith

not_old : (i j : ℕ) (seen : List ℕ) → i ≡ j → any (◌==◌ i) (j ∷ seen) ≢ false
unfolding any
not_old i j seen e h = ground arith

distinct_ids-In :
    (seen : List ℕ) (entries : StrMap ℕ) (i : ℕ)
    → In i (distinct_ids seen entries)
    → ((o : Str) × In (o, i) entries) × (any (◌==◌ i) seen ≡ false)
unfolding distinct_ids
distinct_ids-In seen [] i k = elim k [ ]
distinct_ids-In seen ((o, j) ∷ entries) i k = elim (Bool-cases (any (◌==◌ j) seen)) [
  | inl e ↦
      let ((o', l), fresh) = distinct_ids-In seen entries i (rw e at k) in ((o', inr l), fresh)
  | inr e ↦ elim (rw e at k) [
    | inl same ↦
        ((o, inl (ap (λ x. (o, x)) same)), subst (λ x. any (◌==◌ x) seen ≡ false) (sym same) e)
    | inr l ↦
        let ((o', l'), fresh) = distinct_ids-In (j ∷ seen) entries i l in
        ((o', inr l'), any_tail i j seen fresh)
  ]
]

pub In-distinct_ids :
    (seen : List ℕ) (entries : StrMap ℕ) (o : Str) (i : ℕ)
    → In (o, i) entries
    → any (◌==◌ i) seen ≡ false
    → In i (distinct_ids seen entries)
unfolding distinct_ids
In-distinct_ids seen [] o i k n = elim k [ ]
In-distinct_ids seen ((o', j) ∷ entries) o i k n = elim (Bool-cases (any (◌==◌ j) seen)) [
  | inl e ↦ rw e (elim k [
    | inl same ↦ absurd (cc (e, n, ap (λ x. x.1) same))
    | inr l ↦ In-distinct_ids seen entries o i l n
  ])
  | inr e ↦ rw e (elim k [
    | inl same ↦ inl (ap (λ x. x.1) same)
    | inr l ↦ elim (Bool-cases (i == j)) [
      | inl here ↦ inl (ground (arith, here))
      | inr there ↦ inr (In-distinct_ids (j ∷ seen) entries o i l (any_cons i j seen there n))
    ]
  ])
]

distinct_ids-Apart : (seen : List ℕ) (entries : StrMap ℕ) → Apart (distinct_ids seen entries)
unfolding distinct_ids
distinct_ids-Apart seen [] = tt
distinct_ids-Apart seen ((o, j) ∷ entries) = elim (Bool-cases (any (◌==◌ j) seen)) [
  | inl e ↦ rw e (distinct_ids-Apart seen entries)
  | inr e ↦ rw e (
    elim (Bool-cases (any (◌==◌ j) (distinct_ids (j ∷ seen) entries))) [
      | inr new ↦ new
      | inl old ↦
          let (i, k, same) = any-In (◌==◌ j) (distinct_ids (j ∷ seen) entries) old in
          absurd
            (not_old i j seen (ground (arith, same)) (distinct_ids-In (j ∷ seen) entries i k).1)
    ],
    distinct_ids-Apart (j ∷ seen) entries,
  )
]

pub sized_from_pkgs : (g : Group) (l : List ImagePackage) → (sized_from g l).pkgs ≡ g.pkgs
unfolding sized_from
sized_from_pkgs g [] = refl
sized_from_pkgs g (p ∷ l) =
    sized_from_pkgs
      (record g {
        size = (g.size + p.installed_size) % 2 ^ 64;
        tiebreaker = max_text g.tiebreaker p.name;
      })
      l

module _ (m : StrMap ℕ) (i : ℕ) (ids : List ℕ) (new : any (◌==◌ i) ids ≡ false)
    (p : ImagePackage) where
  nowhere_else : is_at m i p ≡ true → any (λ j. is_at m j p) ids ≡ false
  nowhere_else here = elim (Bool-cases (any (λ j. is_at m j p) ids)) [
    | inr e ↦ e
    | inl e ↦
        let (j, k, there) = any-In (λ x. is_at m x p) ids e in
        absurd (cc (new, In-any (◌==◌ i) ids j k (ground (arith, here, there))))
  ]

  one_of :
      (f : ImagePackage → Bool)
      → (f p && (is_at m i p || any (λ j. is_at m j p) ids)
          ≡ (f p && is_at m i p) || (f p && any (λ j. is_at m j p) ids))
        × ((f p && is_at m i p) && (f p && any (λ j. is_at m j p) ids) ≡ false)
  one_of f = (ground arith, ground (arith, nowhere_else))

-- The groups hold the packages whose origins lead to one of them.
count_all-Live :
    (pkgs : List ImagePackage) (s : Grouping)
    → Holds pkgs s
    → (ids : List ℕ) → Apart ids
    → Live s.by_origin ids
    → (f : ImagePackage → Bool)
    → count_all f (map (λ i. sized (s.at i)) ids)
      ≡ count (λ p. f p && any (λ i. is_at s.by_origin i p) ids) pkgs
unfolding any
count_all-Live pkgs s inv [] apart live f =
    sym (count_none (λ p. f p && any (λ i. is_at s.by_origin i p) []) pkgs (λ p _. ground arith))
count_all-Live pkgs s inv (i ∷ ids) (new, apart) live f =
    let (o, there) = live i (inl refl) in
    let rest = count_all-Live pkgs s inv ids apart (λ j k. live j (inr k)) f in
    let parted =
      count_split (λ p. f p && is_at s.by_origin i p)
        (λ p. f p && any (λ j. is_at s.by_origin j p) ids)
        (λ p. f p && (is_at s.by_origin i p || any (λ j. is_at s.by_origin j p) ids)) pkgs
        (λ p _. one_of s.by_origin i ids new p f) in
    omega (
      arith,
      parted,
      rest,
      inv.content o i there f,
      ap (λ l. count f l) (sized_from_pkgs (s.at i) (s.at i).pkgs),
    )

pub distinct_ids-Live :
    (m entries : StrMap ℕ)
    → ((k : Str) (i : ℕ) → In (k, i) entries ↔ (get k m ≡ some i))
    → Live m (distinct_ids [] entries)
distinct_ids-Live m entries through i k =
    let ((o, l), _) = distinct_ids-In [] entries i k in (o, (through o i).0 l)

-- Every order of `range` over the map leads to groups that hold each package as often as it is given.
pub count_all-distinct_ids :
    (pkgs : List ImagePackage) (s : Grouping)
    → Holds pkgs s
    → (entries : StrMap ℕ) → ((k : Str) (i : ℕ) → In (k, i) entries ↔ (get k s.by_origin ≡ some i))
    → (f : ImagePackage → Bool)
    → count_all f (map (λ i. sized (s.at i)) (distinct_ids [] entries)) ≡ count f pkgs
unfolding any
count_all-distinct_ids pkgs s inv entries through f =
    let ids = distinct_ids [] entries in
    let live = distinct_ids-Live s.by_origin entries through in
    let each : (p : ImagePackage) → In p pkgs → any (λ i. is_at s.by_origin i p) ids ≡ true = λ p k.
      let (i, there) = inv.covered p k in
      In-any (λ x. is_at s.by_origin x p) ids i
        (In-distinct_ids [] entries p.origin i ((through p.origin i).1 there) refl)
        (get→is_at s.by_origin i p there) in
    count_all-Live pkgs s inv ids (distinct_ids-Apart [] entries) live f
    ∙ count_same (λ p. f p && any (λ i. is_at s.by_origin i p) ids) f pkgs
        (λ p k. ground (arith, each p k))
