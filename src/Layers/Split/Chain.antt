-- ===== src/Layers/Split/Chain.antt =====
-- The stacks of directories in pkg/build/layers.go: chains in which each directory follows its parent.
use apko.Base.{
  ℕ, ◌≡◌, ◌≢◌, refl, sym, ap, ◌∙◌, subst, ◌⊎◌, inl, inr, List, [], ◌∷◌, ◌==◌, Str, In, arith,
  Bool-cases, All,
}
use apko.Layers.Split.{File, Headers, align_stacks, path_dir}

abbrev pub root : Str
root = 46 ∷ []

-- The parent of the path is the root or one of the paths.
abbrev pub Under : List Str → Str → Type 0
Under paths path = (path_dir path ≡ root) ⊎ In (path_dir path) paths

-- Entries, newest first, each of which follows an entry for its parent.
abbrev pub Parented : List Str → Type 0
Parented [] = Unit
Parented (path ∷ earlier) = Under earlier path × Parented earlier

-- Files, each of which follows its parent or lies under the paths before.
abbrev pub Chained : List Str → List File → Type 0
Chained before [] = Unit
Chained before (f ∷ fs) = Under before f.path × Chained (f.path ∷ before) fs

-- At most the last file has the address.
abbrev pub OnlyLast : ℕ → List File → Type 0
OnlyLast a [] = Unit
OnlyLast a (f ∷ []) = Unit
OnlyLast a (f ∷ g ∷ fs) = (f.address ≢ a) × OnlyLast a (g ∷ fs)

abbrev pub Named : Headers → File → Type 0
Named headers f = (headers f.address).name ≡ f.path

pub Under-mono :
    (before after : List Str) (path : Str)
    → ((p : Str) → In p before → In p after)
    → Under before path
    → Under after path
Under-mono before after path more (inl e) = inl e
Under-mono before after path more (inr i) = inr (more (path_dir path) i)

pub OnlyLast-tail : (a : ℕ) (f : File) (fs : List File) → OnlyLast a (f ∷ fs) → OnlyLast a fs
OnlyLast-tail a f [] h = tt
OnlyLast-tail a f (g ∷ fs) (_, h) = h

-- What alignStacks returns is a chain behind what the layer has, and covers the main stack.
module _ (headers : Headers) (seen : List Str) where
  pub align_stacks-Chained :
      (ws fs : List File) (before : List Str)
      → All (Named headers) ws
      → All (Named headers) fs
      → Chained before fs
      → ((w : File) → In w ws → In w.path seen)
      → ((p : Str) → In p before → In p seen)
      → (before' : List Str) × Chained before' (align_stacks ws fs).1
        × ((p : Str) → In p before' → In p seen)
        × ((g : File) → In g fs → In g.path seen ⊎ In g (align_stacks ws fs).1)
        × ((g : File) → In g (align_stacks ws fs).0 → In g.path seen ⊎ In g (align_stacks ws fs).1)
        × All (Named headers) (align_stacks ws fs).0
  unfolding align_stacks
  align_stacks-Chained [] [] before nw nf chain has known =
      (before, tt, known, (λ g i. elim i [ ]), (λ g i. elim i [ ]), tt)
  align_stacks-Chained (w ∷ ws) [] before nw nf chain has known =
      (before, tt, known, (λ g i. elim i [ ]), (λ g i. elim i [ ]), tt)
  align_stacks-Chained [] (f ∷ fs) before nw nf chain has known =
      (before, chain, known, (λ g i. inr i), (λ g i. inr i), nf)
  align_stacks-Chained (w ∷ ws) (f ∷ fs) before (n, nw) (n', nf) chain has known =
      elim (Bool-cases (w.address == f.address)) [
        | inr e ↦ rw e (before, chain, known, (λ g i. inr i), (λ g i. inr i), (n', nf))
        | inl e ↦
            let address : w.address ≡ f.address = ground (arith, e) in
            let path : w.path ≡ f.path = sym n ∙ ap (λ a. (headers a).name) address ∙ n' in
            let here : In f.path seen = subst (λ p. In p seen) path (has w (inl refl)) in
            let (before', chain', known', over, inside, names) =
              align_stacks-Chained ws fs (f.path ∷ before) nw nf chain.1 (λ v i. has v (inr i))
                (λ p i. elim i [
                  | inl same ↦ subst (λ q. In q seen) (sym same) here
                  | inr j ↦ known p j
                ]) in
            rw e (
              before',
              chain',
              known',
              (λ g i. elim i [
                | inl same ↦ inl (subst (λ x. In x.path seen) (sym same) here)
                | inr j ↦ over g j
              ]),
              (λ g i. elim i [
                | inl same ↦ inl (subst (λ x. In x.path seen) (sym same) (has w (inl refl)))
                | inr j ↦ inside g j
              ]),
              (n, names),
            )
      ]

pub align_stacks-OnlyLast :
    (a : ℕ) (ws fs : List File) → OnlyLast a fs → OnlyLast a (align_stacks ws fs).1
unfolding align_stacks
align_stacks-OnlyLast a [] [] h = tt
align_stacks-OnlyLast a (w ∷ ws) [] h = tt
align_stacks-OnlyLast a [] (f ∷ fs) h = h
align_stacks-OnlyLast a (w ∷ ws) (f ∷ fs) h = elim (Bool-cases (w.address == f.address)) [
  | inr e ↦ rw e h
  | inl e ↦ rw e (align_stacks-OnlyLast a ws fs (OnlyLast-tail a f fs h))
]

pub align_stacks-All :
    (P : File → Type 0) (ws fs : List File) → All P fs → All P (align_stacks ws fs).1
unfolding align_stacks
align_stacks-All P [] [] h = tt
align_stacks-All P (w ∷ ws) [] h = tt
align_stacks-All P [] (f ∷ fs) h = h
align_stacks-All P (w ∷ ws) (f ∷ fs) (p, h) = elim (Bool-cases (w.address == f.address)) [
  | inr e ↦ rw e (p, h)
  | inl e ↦ rw e (align_stacks-All P ws fs h)
]
