-- ===== src/Layers/Split/Parents/Aligning.antt =====
-- A layer that partitionLayers of pkg/build/layers.go brings up to date has the entries of the main
-- stack's directories, and takes the entry of the file that the walk is at.
use apko.Base.{
  ℕ, suc, ◌≡◌, refl, sym, ap, ◌∙◌, subst, ◌⊎◌, inl, inr, List, [], ◌∷◌, ◌==◌, Option, none, some,
  Str, In, arith, Bool-cases, All, All-In,
}
use apko.Layers.Groups.{ImagePackage, Group}
use apko.Layers.Writer.{Layered, stopped, laid, ◌>>=◌}
use apko.Layers.Split.{
  File, Headers, Partitioning, set_at, align_stacks, path_dir, align_layer, add_dirs, add_records,
  add_databases, add_file,
}
use apko.Layers.Split.Chain.{
  root, Under, Parented, Chained, Named, align_stacks-Chained, align_stacks-OnlyLast,
  align_stacks-All,
}
use apko.Layers.Split.Parents.{
  name_sinks, push_name, pushed, push_more, push_Parented, Ends, Ends-bind, Ends-mono, SameNames,
  Skips, Taken, Added, add_dirs_lem,
}

abbrev Untaken : Option ℕ → File → Type 0
Untaken none g = ⊥
Untaken (some a) g = g.address ≡ a

Taken-or-Untaken : (skip : Option ℕ) (g : File) → Taken skip g ⊎ Untaken skip g
Taken-or-Untaken none g = inl tt
Taken-or-Untaken (some a) g = elim (Bool-cases (g.address == a)) [
  | inl e ↦ inr (ground (arith, e))
  | inr e ↦ inl (ground (arith, e))
]

Skips-aligned :
    (skip : Option ℕ) (ws fs : List File) → Skips skip fs → Skips skip (align_stacks ws fs).1
Skips-aligned none ws fs h = tt
Skips-aligned (some a) ws fs h = align_stacks-OnlyLast a ws fs h

set_at_all :
    {A : Type 0} (P : A → Type 0) (m : ℕ → A) (i : ℕ) (a : A)
    → ((j : ℕ) → P (m j))
    → P a
    → (j : ℕ) → P (set_at m i a j)
unfolding set_at
set_at_all P m i a all one j = elim (Bool-cases (i == j)) [
  | inl e ↦ rw e one
  | inr e ↦ rw e (all j)
]

at_cases :
    (m : ℕ → List File) (i : ℕ) (l : List File) (j : ℕ) (g : File)
    → In g (set_at m i l j)
    → ((j ≡ i) × In g l) ⊎ In g (m j)
unfolding set_at
at_cases m i l j g k = elim (Bool-cases (i == j)) [
  | inl e ↦ inl (ground (arith, e), rw e at k)
  | inr e ↦ inr (rw e at k)
]

pub always : {A : Type 0} (x : Layered A) → Ends (λ a. Unit) x
always (stopped why) = tt
always (laid a) = tt

abbrev pub Names : Type 0
Names = Partitioning (ℕ → List Str)

module _ (first : Headers) where
  -- The invariant of the walk: what is on the stack of a layer has its entry.
  pub record Sound (s : Names) : Type 0 where
    pub same : SameNames first s.headers
    pub parented : (i : ℕ) → Parented (s.sinks i)
    pub chain : Chained [] s.stack
    pub names : All (Named first) s.stack
    pub layers : (i : ℕ) → All (Named first) (s.stacks i)
    pub seen : (i : ℕ) (g : File) → In g (s.stacks i) → In g.path (s.sinks i)

  -- The same for a layer that is brought up to date, but for the entry that is skipped.
  pub record Aligned (s : Names) (i : ℕ) (skip : Option ℕ) (s' : Names) : Type 0 where
    pub stack : s'.stack ≡ s.stack
    pub same : SameNames first s'.headers
    pub parented : (j : ℕ) → Parented (s'.sinks j)
    pub layers : (j : ℕ) → All (Named first) (s'.stacks j)
    pub covered : (g : File) → In g s.stack → Taken skip g → In g.path (s'.sinks i)
    pub seen :
        (j : ℕ) (g : File)
        → In g (s'.stacks j)
        → In g.path (s'.sinks j) ⊎ ((j ≡ i) × Untaken skip g)

  pub align_layer-Aligned :
      (s : Names) (i time : ℕ) (skip : Option ℕ)
      → Sound s
      → Skips skip s.stack
      → Ends (Aligned s i skip) (align_layer name_sinks s i time skip)
  align_layer-Aligned s i time skip sound skips =
      let aligned = align_stacks (s.stacks i) s.stack in
      let s₁ : Names = record s { stacks = set_at s.stacks i aligned.0 } in
      let (before, chain, known, over, inside, names) =
        align_stacks-Chained first (s.sinks i) (s.stacks i) s.stack [] (sound.layers i) sound.names
          sound.chain (sound.seen i) (λ p k. elim k [ ]) in
      Ends-mono (Added first s₁ i aligned.1 skip) (Aligned s i skip)
        (add_dirs name_sinks s₁ i aligned.1 time skip)
        (λ s' a. record {
          stack = a.stack;
          same = a.same;
          parented = a.parented;
          layers = λ j.
              subst (λ x. All (Named first) (x j)) (sym a.stacks)
                (set_at_all (All (Named first)) s.stacks i aligned.0 sound.layers names j);
          covered = λ g k t. elim (over g k) [
            | inl here ↦ a.more i g.path here
            | inr todo ↦ a.added g todo t
          ];
          seen = λ j g k.
              elim (at_cases s.stacks i aligned.0 j g (subst (λ x. In g (x j)) a.stacks k)) [
                | inr before' ↦ inl (a.more j g.path (sound.seen j g before'))
                | inl (e, here) ↦ elim (inside g here) [
                  | inl old ↦ inl (a.more j g.path (subst (λ x. In g.path (s.sinks x)) (sym e) old))
                  | inr todo ↦ elim (Taken-or-Untaken skip g) [
                    | inl t ↦ inl (subst (λ x. In g.path (s'.sinks x)) (sym e) (a.added g todo t))
                    | inr u ↦ inr (e, u)
                  ]
                ]
              ];
        })
        (add_dirs_lem first s₁ i aligned.1 time skip before sound.same sound.parented chain known
          (align_stacks-All (Named first) (s.stacks i) s.stack sound.names)
          (Skips-aligned skip (s.stacks i) s.stack skips))

  -- The file that the walk is at: on the main stack or under it.
  pub record Placed (stack : List File) (f : File) (skip : Option ℕ) : Type 0 where
    pub name : Named first f
    pub parent :
        (path_dir f.path ≡ root)
        ⊎ ((g : File) × In g stack × (g.path ≡ path_dir f.path) × Taken skip g)

  Placed-Under :
      (s s' : Names) (i : ℕ) (f : File) (skip : Option ℕ)
      → Placed s.stack f skip
      → Aligned s i skip s'
      → Under (s'.sinks i) f.path
  Placed-Under s s' i f skip placed a = elim (placed.parent) [
    | inl r ↦ inl r
    | inr (g, k, e, t) ↦ inr (subst (λ x. In x (s'.sinks i)) e (a.covered g k t))
  ]

  header_name :
      (s : Names) (f : File)
      → SameNames first s.headers
      → Named first f
      → (s.headers f.address).name ≡ f.path
  header_name s f same name = (same f.address).0 ∙ name

  -- An entry with the file's name, and the state it leaves.
  Named-Under :
      (s s' : Names) (i : ℕ) (f : File) (skip : Option ℕ)
      → Placed s.stack f skip
      → Aligned s i skip s'
      → Under (s'.sinks i) (s'.headers f.address).name
  Named-Under s s' i f skip placed a =
      subst (λ x. Under (s'.sinks i) x) (sym (header_name s' f a.same placed.name))
        (Placed-Under s s' i f skip placed a)

  pub add_file-Sound :
      (s s' : Names) (i : ℕ) (f : File)
      → Sound s
      → Placed s.stack f (some f.address)
      → Aligned s i (some f.address) s'
      → Ends (λ t. Sound t × (t.stack ≡ s.stack)) (add_file name_sinks i f s')
  unfolding add_file
  add_file-Sound s s' i f sound placed a =
      let name = (s'.headers f.address).name in
      (
        record {
          same = a.same;
          parented =
              push_Parented s'.sinks i name (Named-Under s s' i f (some f.address) placed a)
                a.parented;
          chain = subst (λ x. Chained [] x) (sym a.stack) sound.chain;
          names = subst (λ x. All (Named first) x) (sym a.stack) sound.names;
          layers = a.layers;
          seen = λ j g k. elim (a.seen j g k) [
            | inl here ↦ push_more s'.sinks i name j g.path here
            | inr (e, u) ↦
                let path : name ≡ g.path =
                  (a.same f.address).0
                  ∙ ap (λ x. (first x).name) (sym u)
                  ∙ All-In (Named first) (s'.stacks j) g (a.layers j) k in
                subst (λ x. In g.path (push_name s'.sinks i name x)) (sym e)
                  (subst (λ x. In x (push_name s'.sinks i name i)) path (pushed s'.sinks i name))
          ];
        },
        a.stack,
      )

  module _ (diffs : ImagePackage → List ℕ) where
    add_records-Sound :
        (s s' : Names) (gi : ℕ) (g : Group) (f : File)
        → Sound s
        → Placed s.stack f none
        → Aligned s gi none s'
        → Ends (λ t. Sound t × (t.stack ≡ s.stack)) (add_records name_sinks diffs gi g f s')
    unfolding add_records
    add_records-Sound s s' gi g f sound placed a =
        let name = (s'.headers f.address).name in
        (
          record {
            same = a.same;
            parented =
                push_Parented s'.sinks gi name (Named-Under s s' gi f none placed a) a.parented;
            chain = subst (λ x. Chained [] x) (sym a.stack) sound.chain;
            names = subst (λ x. All (Named first) x) (sym a.stack) sound.names;
            layers = a.layers;
            seen = λ j h k. elim (a.seen j h k) [
              | inl here ↦ push_more s'.sinks gi name j h.path here
              | inr (e, u) ↦ elim u [ ]
            ];
          },
          a.stack,
        )

    pub add_databases-Sound :
        (s : Names) (gi : ℕ) (gs : List Group) (f : File)
        → Sound s
        → Placed s.stack f none
        → Ends (λ t. Sound t × (t.stack ≡ s.stack)) (add_databases name_sinks diffs gi gs f s)
    unfolding add_databases
    add_databases-Sound s gi [] f sound placed = (sound, refl)
    add_databases-Sound s gi (g ∷ gs) f sound placed =
        let time = (s.headers f.address).mod_time in
        let Result : Names → Type 0 = λ t. Sound t × (t.stack ≡ s.stack) in
        Ends-bind (Aligned s gi none) Result (align_layer name_sinks s gi time none)
          (λ s₁.
            add_records name_sinks diffs gi g f s₁ >>= add_databases name_sinks diffs (suc gi) gs f)
          (align_layer-Aligned s gi time none sound tt)
          (λ s₁ a.
            Ends-bind Result Result (add_records name_sinks diffs gi g f s₁)
              (add_databases name_sinks diffs (suc gi) gs f)
              (add_records-Sound s s₁ gi g f sound placed a)
              (λ s₂ (sound₂, e).
                Ends-mono (λ t. Sound t × (t.stack ≡ s₂.stack)) Result
                  (add_databases name_sinks diffs (suc gi) gs f s₂) (λ t (q, e'). (q, e' ∙ e))
                  (add_databases-Sound s₂ (suc gi) gs f sound₂
                    (subst (λ x. Placed x f none) (sym e) placed))))
