-- ===== src/Layers/Split/Stacks.antt =====
-- dirStack.alignStacks of pkg/build/layers.go.
use apko.Base.{
  ◌≡◌, refl, sym, ap, ◌∙◌, ◌≢◌, inl, inr, List, [], ◌∷◌, ◌++◌, ◌==◌, In, arith, Bool-cases,
}
use apko.Layers.Split.{File, align_stacks}

-- Two lists that do not begin alike, where both begin.
abbrev pub Part : List File → List File → Type 0
Part [] fs = Unit
Part (w ∷ ws) [] = Unit
Part (w ∷ ws) (f ∷ fs) = w ≢ f

-- Where files with the same address are the same, the layer's stack becomes the main stack, and what
-- is returned are the directories of the main stack behind the longest part that both begin with.
pub align_stacks_lem :
    (ws fs : List File)
    → ((w f : File) → In w ws → In f fs → w.address ≡ f.address → w ≡ f)
    → ((align_stacks ws fs).0 ≡ fs)
      × ((shared : List File) × (rest : List File) × (ws ≡ shared ++ rest)
          × (fs ≡ shared ++ (align_stacks ws fs).1)
          × Part rest (align_stacks ws fs).1)
unfolding align_stacks
align_stacks_lem [] [] known = (refl, ([], [], refl, refl, tt))
align_stacks_lem (w ∷ ws) [] known = (refl, ([], w ∷ ws, refl, refl, tt))
align_stacks_lem [] (f ∷ fs) known = (refl, ([], [], refl, refl, tt))
align_stacks_lem (w ∷ ws) (f ∷ fs) known = elim (Bool-cases (w.address == f.address)) [
  | inr e ↦
      let other : w.address ≢ f.address = ground (arith, e) in
      rw e (refl, ([], w ∷ ws, refl, refl, λ same. other (ap (λ x. x.address) same)))
  | inl e ↦
      let same = known w f (inl refl) (inl refl) (ground (arith, e)) in
      let (whole, (shared, rest, left, right, part)) =
        align_stacks_lem ws fs (λ v g i j. known v g (inr i) (inr j)) in
      rw e (
        ap (λ l. w ∷ l) whole ∙ ap (λ x. x ∷ fs) same,
        (
          w ∷ shared,
          rest,
          ap (λ l. w ∷ l) left,
          ap (λ x. x ∷ fs) (sym same) ∙ ap (λ l. w ∷ l) right,
          part,
        ),
      )
]
