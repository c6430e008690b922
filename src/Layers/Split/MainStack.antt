-- ===== src/Layers/Split/MainStack.antt =====
-- The main stack of partitionLayers in pkg/build/layers.go stays a chain of directories.
use apko.Base.{
  ℕ, ◌≡◌, ◌≢◌, refl, sym, ap, ◌∙◌, subst, ◌⊎◌, inl, inr, List, [], ◌∷◌, ◌++◌, Str, str_eq,
  str_eq_iff, In, In-append, In-append_left, Bool-cases, All,
}
use apko.Layers.Writer.{Header}
use apko.Layers.Split.{File, Headers, path_dir, pop_to, is_dir, main_stack}
use apko.Layers.Split.Chain.{root, Under, Under-mono, Chained, OnlyLast, Named}

-- The file lies in the root or in one of the directories.
abbrev pub Parent : List File → File → Type 0
Parent fs f = (path_dir f.path ≡ root) ⊎ ((g : File) × In g fs × (g.path ≡ path_dir f.path))

Chained-snoc :
    (before : List Str) (fs : List File) (f : File)
    → Chained before fs
    → Under before f.path ⊎ ((g : File) × In g fs × (g.path ≡ path_dir f.path))
    → Chained before (fs ++ f ∷ [])
Chained-snoc before [] f h (inl u) = (u, tt)
Chained-snoc before [] f h (inr (g, i, e)) = elim i [ ]
Chained-snoc before (x ∷ fs) f (u, h) (inl v) = (
  u,
  Chained-snoc (x.path ∷ before) fs f h
      (inl (Under-mono before (x.path ∷ before) f.path (λ p i. inr i) v)),
)
Chained-snoc before (x ∷ fs) f (u, h) (inr (g, inl e, same)) =
    (u, Chained-snoc (x.path ∷ before) fs f h (inl (inr (inl (sym same ∙ ap (λ y. y.path) e)))))
Chained-snoc before (x ∷ fs) f (u, h) (inr (g, inr i, same)) =
    (u, Chained-snoc (x.path ∷ before) fs f h (inr (g, i, same)))

OnlyLast-snoc :
    (fs : List File) (f : File)
    → ((g : File) → In g fs → g.address ≢ f.address)
    → OnlyLast f.address (fs ++ f ∷ [])
OnlyLast-snoc [] f h = tt
OnlyLast-snoc (x ∷ []) f h = (h x (inl refl), tt)
OnlyLast-snoc (x ∷ y ∷ fs) f h = (h x (inl refl), OnlyLast-snoc (y ∷ fs) f (λ g i. h g (inr i)))

OnlyLast-none : (fs : List File) (a : ℕ) → ((g : File) → In g fs → g.address ≢ a) → OnlyLast a fs
OnlyLast-none [] a h = tt
OnlyLast-none (x ∷ []) a h = tt
OnlyLast-none (x ∷ y ∷ fs) a h = (h x (inl refl), OnlyLast-none (y ∷ fs) a (λ g i. h g (inr i)))

pop_to_cases :
    (dir : Str) (v : File) (stack : List File)
    → ((pop_to dir (v ∷ stack) ≡ v ∷ pop_to dir stack) × ((pop_to dir stack ≢ []) ⊎ (v.path ≡ dir)))
      ⊎ ((pop_to dir (v ∷ stack) ≡ []) × (pop_to dir stack ≡ []) × (v.path ≢ dir))
unfolding pop_to
pop_to_cases dir v stack = by_kept (pop_to dir stack) refl
  where
    by_kept :
        (kept : List File)
        → pop_to dir stack ≡ kept
        → ((pop_to dir (v ∷ stack) ≡ v ∷ pop_to dir stack)
            × ((pop_to dir stack ≢ []) ⊎ (v.path ≡ dir)))
          ⊎ ((pop_to dir (v ∷ stack) ≡ []) × (pop_to dir stack ≡ []) × (v.path ≢ dir))
    by_kept [] e = elim (Bool-cases (str_eq v.path dir)) [
      | inl s ↦ inl (rw (e, s) refl, inr ((str_eq_iff v.path dir).0 s))
      | inr s ↦ inr (rw (e, s) refl, e, λ same. cc (s, (str_eq_iff v.path dir).1 same))
    ]
    by_kept (w ∷ ws) e = inl (rw e refl, inl (λ none_left. cc (e, none_left)))

pop_to-In : (dir : Str) (stack : List File) (g : File) → In g (pop_to dir stack) → In g stack
unfolding pop_to
pop_to-In dir [] g i = i
pop_to-In dir (v ∷ stack) g i = elim (pop_to_cases dir v stack) [
  | inl (e, _) ↦ elim (subst (λ l. In g l) e i) [
    | inl same ↦ inl same
    | inr j ↦ inr (pop_to-In dir stack g j)
  ]
  | inr (e, _, _) ↦ absurd (subst (λ l. In g l) e i)
]

In-pop_to :
    (dir : Str) (stack : List File) (g : File) → In g stack → g.path ≡ dir → In g (pop_to dir stack)
unfolding pop_to
In-pop_to dir [] g i same = i
In-pop_to dir (v ∷ stack) g (inl e) same = elim (pop_to_cases dir v stack) [
  | inl (kept, _) ↦ subst (λ l. In g l) (sym kept) (inl e)
  | inr (_, _, other) ↦ absurd (other (sym (ap (λ x. x.path) e) ∙ same))
]
In-pop_to dir (v ∷ stack) g (inr i) same = elim (pop_to_cases dir v stack) [
  | inl (kept, _) ↦ subst (λ l. In g l) (sym kept) (inr (In-pop_to dir stack g i same))
  | inr (_, nothing, _) ↦ absurd (subst (λ l. In g l) nothing (In-pop_to dir stack g i same))
]

pop_to-Chained :
    (dir : Str) (stack : List File) (before : List Str)
    → Chained before stack
    → Chained before (pop_to dir stack)
unfolding pop_to
pop_to-Chained dir [] before h = h
pop_to-Chained dir (v ∷ stack) before (u, h) = elim (pop_to_cases dir v stack) [
  | inl (kept, _) ↦
      subst (λ l. Chained before l) (sym kept) (u, pop_to-Chained dir stack (v.path ∷ before) h)
  | inr (e, _, _) ↦ subst (λ l. Chained before l) (sym e) tt
]

All-each : (P : File → Type 0) (fs : List File) → ((g : File) → In g fs → P g) → All P fs
All-each P [] h = tt
All-each P (f ∷ fs) h = (h f (inl refl), All-each P fs (λ g i. h g (inr i)))

-- The main stack behind a file that lies in one of its directories and is not on it yet.
module _ (headers : Headers) (stack : List File) (f : File) (hdr : Header)
    (chain : Chained [] stack) (names : (g : File) → In g stack → Named headers g)
    (name : Named headers f) (parent : Parent stack f)
    (fresh : (g : File) → In g stack → g.address ≢ f.address) where
  main_stack-In : (g : File) → In g (main_stack stack f hdr) → In g stack ⊎ (g ≡ f)
  unfolding main_stack
  main_stack-In g i = elim (Bool-cases (is_dir hdr)) [
    | inr e ↦ inl (rw e at i)
    | inl e ↦ elim (In-append (pop_to (path_dir f.path) stack) (f ∷ []) g (rw e at i)) [
      | inl j ↦ inl (pop_to-In (path_dir f.path) stack g j)
      | inr (inl same) ↦ inr same
      | inr (inr j) ↦ elim j [ ]
    ]
  ]

  pub main_stack-Chained : Chained [] (main_stack stack f hdr)
  unfolding main_stack
  main_stack-Chained = elim (Bool-cases (is_dir hdr)) [
    | inr e ↦ rw e chain
    | inl e ↦ rw e (
        Chained-snoc [] (pop_to (path_dir f.path) stack) f
          (pop_to-Chained (path_dir f.path) stack [] chain)
          (elim parent [
            | inl r ↦ inl (inl r)
            | inr (g, i, same) ↦ inr (g, In-pop_to (path_dir f.path) stack g i same, same)
          ]))
  ]

  pub main_stack-OnlyLast : OnlyLast f.address (main_stack stack f hdr)
  unfolding main_stack
  main_stack-OnlyLast = elim (Bool-cases (is_dir hdr)) [
    | inr e ↦ rw e (OnlyLast-none stack f.address fresh)
    | inl e ↦ rw e (
        OnlyLast-snoc (pop_to (path_dir f.path) stack) f
          (λ g i. fresh g (pop_to-In (path_dir f.path) stack g i)))
  ]

  pub main_stack-Parent :
      (path_dir f.path ≡ root)
      ⊎ ((g : File) × In g (main_stack stack f hdr)
          × (g.path ≡ path_dir f.path)
          × (g.address ≢ f.address))
  unfolding main_stack
  main_stack-Parent = elim parent [
    | inl r ↦ inl r
    | inr (g, i, same) ↦ elim (Bool-cases (is_dir hdr)) [
      | inr e ↦ inr (g, rw e i, same, fresh g i)
      | inl e ↦ inr (
        g,
        rw e (
            In-append_left (pop_to (path_dir f.path) stack) (f ∷ []) g
              (In-pop_to (path_dir f.path) stack g i same)),
        same,
        fresh g i,
      )
    ]
  ]

  pub main_stack-Named : All (Named headers) (main_stack stack f hdr)
  main_stack-Named = All-each (Named headers) (main_stack stack f hdr) (λ g i.
      elim (main_stack-In g i) [
        | inl j ↦ names g j
        | inr same ↦ subst (λ x. Named headers x) (sym same) name
      ])
