-- ===== src/Layers/Groups/Merging.antt =====
-- The invariant of the grouping in pkg/build/layers.go, through the merging of two groups.
use apko.Base.{
  ℕ, suc, ◌<◌, ◌≡◌, refl, sym, ap, ◌∙◌, subst, ◌≢◌, ◌⊎◌, inl, inr, Bool, true, false, ◌&&◌, ◌||◌,
  List, [], ◌∷◌, ◌++◌, none, some, arith, ◌==◌, Str, str_eq_refl, str_eq_iff, In, In-append_left,
  In-append_right, any, any-In, In-any, Bool-cases, Option-cases, StrMap, get,
}
use apko.Layers.Groups.{
  ImagePackage, Group, Grouping, merge, update, merge_from, merge_groups, set_names, set_origins,
}
use apko.Layers.Groups.Counting.{
  count, count_split, count-append, count_same, any→count, count→In, of_origin, of_name,
  get-set_origins, get-set_names,
}

-- Whether the package's origin leads to the group.
abbrev pub is_at : StrMap ℕ → ℕ → ImagePackage → Bool
is_at m i p = elim (get p.origin m) [ none ↦ false | some j ↦ j == i ]

-- Each group that an origin leads to holds exactly the packages whose origins lead to it, as often
-- as they are given; the map of names leads to such groups.
pub record Holds (pkgs : List ImagePackage) (s : Grouping) : Type 0 where
  pub content :
      (o : Str) (i : ℕ)
      → get o s.by_origin ≡ some i
      → (f : ImagePackage → Bool)
      → count f (s.at i).pkgs ≡ count (λ p. f p && is_at s.by_origin i p) pkgs
  pub named :
      (n : Str) (i : ℕ)
      → get n s.by_package ≡ some i
      → (p : ImagePackage) × In p (s.at i).pkgs × (p.name ≡ n) × (get p.origin s.by_origin ≡ some i)
  pub given : (o : Str) (i : ℕ) → get o s.by_origin ≡ some i → any (of_origin o) pkgs ≡ true
  pub fresh : (o : Str) (i : ℕ) → get o s.by_origin ≡ some i → i < s.next
  pub covered : (p : ImagePackage) → In p pkgs → (i : ℕ) × (get p.origin s.by_origin ≡ some i)

pub is_at→get :
    (m : StrMap ℕ) (i : ℕ) (p : ImagePackage) → is_at m i p ≡ true → get p.origin m ≡ some i
is_at→get m i p h = ground arith

pub get→is_at :
    (m : StrMap ℕ) (i : ℕ) (p : ImagePackage) → get p.origin m ≡ some i → is_at m i p ≡ true
get→is_at m i p h = ground arith

pub any-append :
    (f : ImagePackage → Bool) (l m : List ImagePackage) → any f (l ++ m) ≡ any f l || any f m
unfolding any
any-append f [] m = refl
any-append f (a ∷ l) m = ground (arith, any-append f l m)

module _ (pkgs : List ImagePackage) (s : Grouping) (inv : Holds pkgs s) where
  -- The origin of a package in a group leads to the group.
  pub home :
      (o : Str) (i : ℕ)
      → get o s.by_origin ≡ some i
      → (k : Str) → any (of_origin k) (s.at i).pkgs ≡ true
      → get k s.by_origin ≡ some i
  home o i h k a =
      let some_here = any→count (of_origin k) (s.at i).pkgs a in
      let (q, _, both) =
        count→In (λ p. of_origin k p && is_at s.by_origin i p) pkgs
          (subst (λ x. 0 < x) (inv.content o i h (of_origin k)) some_here) in
      let same : q.origin ≡ k = ground (arith, both, str_eq_iff q.origin k) in
      let there : is_at s.by_origin i q ≡ true = ground (arith, both) in
      subst (λ x. get x s.by_origin ≡ some i) same (is_at→get s.by_origin i q there)

  -- And a package whose origin leads to a group is in it.
  pub inside :
      (i : ℕ) (k : Str) → get k s.by_origin ≡ some i → any (of_origin k) (s.at i).pkgs ≡ true
  inside i k h =
      let (q, j, same) = any-In (of_origin k) pkgs (inv.given k i h) in
      let there : is_at s.by_origin i q ≡ true =
        get→is_at s.by_origin i q
          (subst (λ x. get x s.by_origin ≡ some i) (sym ((str_eq_iff q.origin k).0 same)) h) in
      let some_there =
        any→count (λ p. of_origin k p && is_at s.by_origin i p) pkgs
          (In-any (λ p. of_origin k p && is_at s.by_origin i p) pkgs q j
            (ground (arith, same, there))) in
      let (r, l, f) =
        count→In (of_origin k) (s.at i).pkgs
          (subst (λ x. 0 < x) (sym (inv.content k i h (of_origin k))) some_there) in
      In-any (of_origin k) (s.at i).pkgs r l f

  module _ (g h : ℕ) (different : g ≢ h) (o o' : Str) (live : get o s.by_origin ≡ some g)
      (live' : get o' s.by_origin ≡ some h) where
    abbrev both_pkgs : List ImagePackage
    both_pkgs = (s.at g).pkgs ++ (s.at h).pkgs

    moved :
        (k : Str)
        → any (of_origin k) both_pkgs ≡ true
        → (get k s.by_origin ≡ some g) ⊎ (get k s.by_origin ≡ some h)
    moved k a = elim (Bool-cases (any (of_origin k) (s.at g).pkgs)) [
      | inl e ↦ inl (home o g live k e)
      | inr e ↦
          inr (
            home o' h live' k
              (ground (arith, any-append (of_origin k) (s.at g).pkgs (s.at h).pkgs)))
    ]

    unmoved :
        (k : Str)
        → any (of_origin k) both_pkgs ≡ false
        → (get k s.by_origin ≢ some g) × (get k s.by_origin ≢ some h)
    unmoved k a = (
      (λ e. ground (arith, inside g k e, any-append (of_origin k) (s.at g).pkgs (s.at h).pkgs)),
      λ e. ground (arith, inside h k e, any-append (of_origin k) (s.at g).pkgs (s.at h).pkgs),
    )

    abbrev after : StrMap ℕ
    after = set_origins s.next both_pkgs s.by_origin

    -- What leads to the new group, and to a group that is left alone.
    is_at-after :
        (p : ImagePackage)
        → (is_at after s.next p ≡ is_at s.by_origin g p || is_at s.by_origin h p)
          × (is_at s.by_origin g p && is_at s.by_origin h p ≡ false)
    is_at-after p = elim (Bool-cases (any (of_origin p.origin) both_pkgs)) [
      | inl e ↦ elim (moved p.origin e) [
        | inl f ↦ ground (arith, get-set_origins s.next both_pkgs s.by_origin p.origin)
        | inr f ↦ ground (arith, get-set_origins s.next both_pkgs s.by_origin p.origin)
      ]
      | inr e ↦ elim (Option-cases (get p.origin s.by_origin)) [
        | inl none_there ↦
            ground (arith, e, get-set_origins s.next both_pkgs s.by_origin p.origin, none_there)
        | inr (j, there) ↦
            let (not_g, not_h) = unmoved p.origin e in
            ground (
              arith,
              e,
              get-set_origins s.next both_pkgs s.by_origin p.origin,
              there,
              inv.fresh p.origin j there,
              not_g,
              not_h,
            )
      ]
    ]

    is_at-left :
        (i : ℕ) (p : ImagePackage)
        → i ≢ g
        → i ≢ h
        → i ≢ s.next
        → is_at after i p ≡ is_at s.by_origin i p
    is_at-left i p ng nh nn = elim (Bool-cases (any (of_origin p.origin) both_pkgs)) [
      | inr e ↦ ground (arith, e, get-set_origins s.next both_pkgs s.by_origin p.origin)
      | inl e ↦ elim (moved p.origin e) [
        | inl f ↦ ground (arith, e, get-set_origins s.next both_pkgs s.by_origin p.origin, f)
        | inr f ↦ ground (arith, e, get-set_origins s.next both_pkgs s.by_origin p.origin, f)
      ]
    ]

    -- Where an origin leads behind the merging.
    after_cases :
        (k : Str) (i : ℕ)
        → get k after ≡ some i
        → ((i ≡ s.next) × (any (of_origin k) both_pkgs ≡ true))
          ⊎ ((get k s.by_origin ≡ some i) × (i ≢ s.next) × (i ≢ g) × (i ≢ h))
    after_cases k i e = elim (Bool-cases (any (of_origin k) both_pkgs)) [
      | inl a ↦ inl (ground (arith, a, e, get-set_origins s.next both_pkgs s.by_origin k), a)
      | inr a ↦
          let there : get k s.by_origin ≡ some i =
            ground (arith, a, e, get-set_origins s.next both_pkgs s.by_origin k) in
          let (not_g, not_h) = unmoved k a in
          inr (
            there,
            (λ f. omega (arith, f, inv.fresh k i there)),
            (λ f. not_g (there ∙ ap (λ x. some x) f)),
            λ f. not_h (there ∙ ap (λ x. some x) f),
          )
    ]

    abbrev at_after : ℕ → Group
    at_after = update s.at s.next (merge (s.at g ∷ s.at h ∷ []))

    at_new : (at_after s.next).pkgs ≡ both_pkgs
    unfolding update merge merge_from
    at_new = ground arith

    at_left : (i : ℕ) → i ≢ s.next → at_after i ≡ s.at i
    unfolding update
    at_left i n = ground arith

    content-new :
        (f : ImagePackage → Bool)
        → count f (at_after s.next).pkgs ≡ count (λ p. f p && is_at after s.next p) pkgs
    content-new f =
        let parted =
          count_split (λ p. f p && is_at s.by_origin g p) (λ p. f p && is_at s.by_origin h p)
            (λ p. f p && is_at after s.next p) pkgs
            (λ p _. let (now, apart) = is_at-after p in (ground arith, ground arith)) in
        let here : count f (at_after s.next).pkgs ≡ count f both_pkgs =
          ap (λ l. count f l) at_new in
        omega (
          arith,
          here,
          count-append f (s.at g).pkgs (s.at h).pkgs,
          inv.content o g live f,
          inv.content o' h live' f,
          parted,
        )

    content-after :
        (k : Str) (i : ℕ)
        → get k after ≡ some i
        → (f : ImagePackage → Bool)
        → count f (at_after i).pkgs ≡ count (λ p. f p && is_at after i p) pkgs
    content-after k i e f = elim (after_cases k i e) [
      | inl (new, _) ↦
          subst (λ x. count f (at_after x).pkgs ≡ count (λ p. f p && is_at after x p) pkgs)
            (sym new) (content-new f)
      | inr (there, nn, ng, nh) ↦
          let same =
            count_same (λ p. f p && is_at after i p) (λ p. f p && is_at s.by_origin i p) pkgs
              (λ p _. ap (λ x. f p && x) (is_at-left i p ng nh nn)) in
          ap (λ x. count f x.pkgs) (at_left i nn) ∙ inv.content k i there f ∙ sym same
    ]

    -- A package of either group has a name that the new group has.
    left_out :
        (n : Str)
        → any (of_name n) both_pkgs ≡ false
        → (i : ℕ) (p : ImagePackage) → In p (s.at i).pkgs
        → p.name ≡ n
        → ¬ ((i ≡ g) ⊎ (i ≡ h))
    left_out n a i p j same (inl f) =
        let inside' : In p both_pkgs =
          In-append_left (s.at g).pkgs (s.at h).pkgs p (subst (λ x. In p (s.at x).pkgs) f j) in
        cc (a, In-any (of_name n) both_pkgs p inside' ((str_eq_iff p.name n).1 same))
    left_out n a i p j same (inr f) =
        let inside' : In p both_pkgs =
          In-append_right (s.at g).pkgs (s.at h).pkgs p (subst (λ x. In p (s.at x).pkgs) f j) in
        cc (a, In-any (of_name n) both_pkgs p inside' ((str_eq_iff p.name n).1 same))

    named-after :
        (n : Str) (i : ℕ)
        → get n (set_names s.next both_pkgs s.by_package) ≡ some i
        → (p : ImagePackage) × In p (at_after i).pkgs × (p.name ≡ n) × (get p.origin after ≡ some i)
    named-after n i e = elim (Bool-cases (any (of_name n) both_pkgs)) [
      | inl a ↦
          let new : i ≡ s.next =
            ground (arith, a, e, get-set_names s.next both_pkgs s.by_package n) in
          let (p, j, same) = any-In (of_name n) both_pkgs a in
          let own = In-any (of_origin p.origin) both_pkgs p j (str_eq_refl p.origin) in
          subst
            (λ x.
              (p : ImagePackage) × In p (at_after x).pkgs
              × (p.name ≡ n)
              × (get p.origin after ≡ some x))
            (sym new)
            (
              p,
              subst (λ l. In p l) (sym at_new) j,
              (str_eq_iff p.name n).0 same,
              ground (arith, own, get-set_origins s.next both_pkgs s.by_origin p.origin),
            )
      | inr a ↦
          let before : get n s.by_package ≡ some i =
            ground (arith, a, e, get-set_names s.next both_pkgs s.by_package n) in
          let (p, j, same, there) = inv.named n i before in
          elim (Bool-cases (any (of_origin p.origin) both_pkgs)) [
            | inl b ↦ absurd (
                left_out n a i p j same (elim (moved p.origin b) [
                  | inl f ↦ inl (ground (arith, there, f))
                  | inr f ↦ inr (ground (arith, there, f))
                ]))
            | inr b ↦
                let nn : i ≢ s.next = λ f. omega (arith, f, inv.fresh p.origin i there) in
                (
                  p,
                  subst (λ x. In p x.pkgs) (sym (at_left i nn)) j,
                  same,
                  ground (arith, b, there, get-set_origins s.next both_pkgs s.by_origin p.origin),
                )
          ]
    ]

    given-after : (k : Str) (i : ℕ) → get k after ≡ some i → any (of_origin k) pkgs ≡ true
    given-after k i e = elim (after_cases k i e) [
      | inl (_, a) ↦ elim (moved k a) [ inl f ↦ inv.given k g f | inr f ↦ inv.given k h f ]
      | inr (there, _, _, _) ↦ inv.given k i there
    ]

    fresh-after : (k : Str) (i : ℕ) → get k after ≡ some i → i < suc s.next
    fresh-after k i e = elim (after_cases k i e) [
      | inl (new, _) ↦ omega (arith, new)
      | inr (there, _, _, _) ↦ omega (arith, inv.fresh k i there)
    ]

    covered-after : (p : ImagePackage) → In p pkgs → (i : ℕ) × (get p.origin after ≡ some i)
    covered-after p j = elim (Bool-cases (any (of_origin p.origin) both_pkgs)) [
      | inl e ↦ (s.next, ground (arith, e, get-set_origins s.next both_pkgs s.by_origin p.origin))
      | inr e ↦
          let (i, there) = inv.covered p j in
          (i, ground (arith, e, there, get-set_origins s.next both_pkgs s.by_origin p.origin))
    ]

    pub merged-Holds : Holds pkgs (merge_groups s g h)
    unfolding merge_groups merge merge_from
    merged-Holds = record {
      content = content-after;
      named = named-after;
      given = given-after;
      fresh = fresh-after;
      covered = covered-after;
    }
