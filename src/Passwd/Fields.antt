-- ===== src/Passwd/Fields.antt =====
-- Fields that are joined and split again, and white space at the ends of a line.
use apko.Base.{
  ℕ, ◌≡◌, refl, ap, ◌∙◌, true, not, List, [], ◌∷◌, ◌++◌, append_assoc, reverse, reverse-cons,
  reverse-append, reverse-reverse, arith, ◌==◌, Str, all_in, split, add_head, All,
}
use apko.Passwd.{leading_space, trailing_space, trim_with, trim_space, join}

-- A text without a byte.
abbrev pub Lacks : ℕ → Str → Type 0
Lacks sep s = all_in (λ c. not (c == sep)) s ≡ true

pub split-append : (sep : ℕ) (s t : Str) → Lacks sep s → split sep (s ++ sep ∷ t) ≡ s ∷ split sep t
unfolding split add_head all_in
split-append sep [] t h = ground arith
split-append sep (c ∷ s) t h = ground (arith, split-append sep s t)

split_whole : (sep : ℕ) (s : Str) → Lacks sep s → split sep s ≡ s ∷ []
unfolding split add_head all_in
split_whole sep [] h = refl
split_whole sep (c ∷ s) h = ground (arith, split_whole sep s)

pub split-join :
    (sep : ℕ) (x : Str) (xs : List Str)
    → All (Lacks sep) (x ∷ xs)
    → split sep (join sep (x ∷ xs)) ≡ x ∷ xs
unfolding join
split-join sep x [] (h, _) = split_whole sep x h
split-join sep x (y ∷ xs) (h, hs) =
    split-append sep x (join sep (y ∷ xs)) h ∙ ap (◌∷◌ x) (split-join sep y xs hs)

trim_with_lem : (size : Str → ℕ) (s : Str) → size s ≡ 0 → trim_with size 0 s ≡ s
unfolding trim_with
trim_with_lem size [] h = refl
trim_with_lem size (c ∷ s) h = rw (trim_with, h) refl

pub trim_space_lem :
    (s : Str) → leading_space s ≡ 0 → trailing_space (reverse s) ≡ 0 → trim_space s ≡ s
unfolding trim_space
trim_space_lem s h k =
    rw (
      trim_with_lem leading_space s h,
      trim_with_lem trailing_space (reverse s) k,
      reverse-reverse s,
    )

-- A colon is no part of a white space character.
leading_space-append : (u v : Str) → leading_space (u ++ b':' ∷ v) ≡ leading_space u
unfolding leading_space
leading_space-append [] [] = refl
leading_space-append [] (c ∷ []) = refl
leading_space-append [] (c ∷ d ∷ v) = refl
leading_space-append (c ∷ []) [] = ground arith
leading_space-append (c ∷ []) (d ∷ v) = ground arith
leading_space-append (c ∷ d ∷ []) v = ground arith
leading_space-append (c ∷ d ∷ e ∷ u) v = refl

trailing_space-append : (u v : Str) → trailing_space (u ++ b':' ∷ v) ≡ trailing_space u
unfolding trailing_space
trailing_space-append [] [] = refl
trailing_space-append [] (c ∷ []) = ground arith
trailing_space-append [] (c ∷ d ∷ v) = ground arith
trailing_space-append (c ∷ []) [] = ground arith
trailing_space-append (c ∷ []) (d ∷ v) = ground arith
trailing_space-append (c ∷ d ∷ []) v = ground arith
trailing_space-append (c ∷ d ∷ e ∷ u) v = refl

-- The last field of a line.
abbrev pub last_field : Str → List Str → Str
last_field x [] = x
last_field x (y ∷ xs) = last_field y xs

pub leading_space-join :
    (x y : Str) (xs : List Str) → leading_space x ≡ 0 → leading_space (join b':' (x ∷ y ∷ xs)) ≡ 0
unfolding join
leading_space-join x y xs h = leading_space-append x (join b':' (y ∷ xs)) ∙ h

reverse-joined : (u v : Str) → reverse (u ++ b':' ∷ v) ≡ reverse v ++ b':' ∷ reverse u
reverse-joined u v =
    reverse-append u (b':' ∷ v)
    ∙ rw (reverse-cons b':' v) (append_assoc (reverse v) (b':' ∷ []) (reverse u))

pub trailing_space-join :
    (x : Str) (xs : List Str)
    → trailing_space (reverse (last_field x xs)) ≡ 0
    → trailing_space (reverse (join b':' (x ∷ xs))) ≡ 0
unfolding join
trailing_space-join x [] h = h
trailing_space-join x (y ∷ xs) h =
    ap trailing_space (reverse-joined x (join b':' (y ∷ xs)))
    ∙ trailing_space-append (reverse (join b':' (y ∷ xs))) (reverse x)
    ∙ trailing_space-join y xs h
