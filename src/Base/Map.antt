-- ===== src/Base/Map.antt =====
-- Go maps with string keys as association lists, newest entry first. A map that the program ranges
-- over comes with the order of its keys as an argument where that order matters.
use mathlib.Core.Path.{◌≡◌}
use mathlib.Core.Option.{Option, none, some}
use mathlib.Core.List.{List, [], ◌∷◌, map}
use native.Mathlib.Omega.{arith}
use apko.Base.Tests.{if◌then◌else◌}
use apko.Base.Text.{Str, str_eq, str_eq_iff}

abbrev pub StrMap : Type 0 → Type 0
StrMap V = List (Str × V)

module _ {V : Type 0} where
  unfoldable pub get : Str → StrMap V → Option V
  get k [] = none
  get k ((j, v) ∷ m) = let rest = get k m in if str_eq j k then some v else rest

  unfoldable pub without : Str → StrMap V → StrMap V
  without k [] = []
  without k ((j, v) ∷ m) = let rest = without k m in if str_eq j k then rest else (j, v) ∷ rest

  -- m[k] = v
  unfoldable pub put : Str → V → StrMap V → StrMap V
  put k v m = (k, v) ∷ without k m

  pub get-without :
      (k j : Str) (m : StrMap V) → get j (without k m) ≡ (if str_eq k j then none else get j m)
  unfolding get without
  get-without k j [] = ground arith
  get-without k j ((i, v) ∷ m) =
      ground (arith, get-without k j m, str_eq_iff i k, str_eq_iff i j, str_eq_iff k j)

  pub get-put :
      (k j : Str) (v : V) (m : StrMap V)
      → get j (put k v m) ≡ (if str_eq k j then some v else get j m)
  unfolding get put
  get-put k j v m = ground (arith, get-without k j m)

  abbrev pub keys : StrMap V → List Str
  keys m = map (λ e. e.0) m
