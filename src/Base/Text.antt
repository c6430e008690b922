-- ===== src/Base/Text.antt =====
-- Go strings as lists of bytes: equality, prefixes, runs of bytes, and splitting.
use Prim.Native.Nat.{ℕ}
use Prim.Native.Char.{code}
use Prim.Native.String.{String}
use mathlib.Core.Path.{◌≡◌, refl}
use mathlib.Core.Logic.{◌↔◌}
use mathlib.Core.Bool.{Bool, true, false, ◌&&◌}
use mathlib.Core.Option.{Option, none, some}
use mathlib.Core.List.{List, [], ◌∷◌, ◌++◌}
use native.Mathlib.Omega.{arith}
use apko.Base.Tests.{◌==◌, if◌then◌else◌, leb}

abbrev pub Str : Type 0
Str = List ℕ

-- The bytes of an ASCII literal.
abbrev pub codes : String → Str
codes String.[] = []
codes (String.◌∷◌ c s) = code c ∷ codes s

unfoldable pub str_eq : Str → Str → Bool
str_eq [] [] = true
str_eq [] (b ∷ t) = false
str_eq (a ∷ s) [] = false
str_eq (a ∷ s) (b ∷ t) = a == b && str_eq s t

pub str_eq→≡ : (s t : Str) → str_eq s t ≡ true → s ≡ t
unfolding str_eq
str_eq→≡ [] [] h = refl
str_eq→≡ [] (b ∷ t) h = cc
str_eq→≡ (a ∷ s) [] h = cc
str_eq→≡ (a ∷ s) (b ∷ t) h = ground (arith, str_eq→≡ s t)

pub str_eq_refl : (s : Str) → str_eq s s ≡ true
unfolding str_eq
str_eq_refl [] = refl
str_eq_refl (a ∷ s) = ground (arith, str_eq_refl s)

pub ≡→str_eq : (s t : Str) → s ≡ t → str_eq s t ≡ true
≡→str_eq s t e = rw e (str_eq_refl t)

pub str_eq_iff : (s t : Str) → (str_eq s t ≡ true) ↔ (s ≡ t)
str_eq_iff s t = (str_eq→≡ s t, ≡→str_eq s t)

abbrev pub is_empty : Str → Bool
is_empty [] = true
is_empty (c ∷ s) = false

-- strings.CutPrefix
unfoldable pub cut_prefix : Str → Str → Option Str
cut_prefix [] s = some s
cut_prefix (p ∷ ps) [] = none
cut_prefix (p ∷ ps) (c ∷ s) = let rest = cut_prefix ps s in if p == c then rest else none

pub cut_prefix-append : (p s : Str) → cut_prefix p (p ++ s) ≡ some s
unfolding cut_prefix
cut_prefix-append [] s = refl
cut_prefix-append (c ∷ p) s = ground (arith, cut_prefix-append p s)

pub cut_prefix-eq-some : (p s rest : Str) → cut_prefix p s ≡ some rest → s ≡ p ++ rest
unfolding cut_prefix
cut_prefix-eq-some [] s rest h = ground arith
cut_prefix-eq-some (c ∷ p) [] rest h = cc
cut_prefix-eq-some (c ∷ p) (d ∷ s) rest h = ground (arith, cut_prefix-eq-some p s rest)

-- The longest run of bytes of a class at the head, and what follows it.
unfoldable pub take_while : (ℕ → Bool) → Str → Str
take_while p [] = []
take_while p (c ∷ s) = let rest = take_while p s in if p c then c ∷ rest else []

unfoldable pub drop_while : (ℕ → Bool) → Str → Str
drop_while p [] = []
drop_while p (c ∷ s) = let rest = drop_while p s in if p c then rest else c ∷ s

pub take_while-append-drop_while : (p : ℕ → Bool) (s : Str) → take_while p s ++ drop_while p s ≡ s
unfolding take_while drop_while
take_while-append-drop_while p [] = refl
take_while-append-drop_while p (c ∷ s) = ground (arith, take_while-append-drop_while p s)

-- Whether a text begins with a byte of a class.
abbrev pub head_is : (ℕ → Bool) → Str → Bool
head_is p [] = false
head_is p (c ∷ s) = p c

unfoldable pub all_in : (ℕ → Bool) → Str → Bool
all_in p [] = true
all_in p (c ∷ s) = p c && all_in p s

pub all_in-take_while : (p : ℕ → Bool) (s : Str) → all_in p (take_while p s) ≡ true
unfolding all_in take_while
all_in-take_while p [] = refl
all_in-take_while p (c ∷ s) = ground (arith, all_in-take_while p s)

pub head_is-drop_while : (p : ℕ → Bool) (s : Str) → head_is p (drop_while p s) ≡ false
unfolding drop_while
head_is-drop_while p [] = refl
head_is-drop_while p (c ∷ s) = ground (arith, head_is-drop_while p s)

pub take_while-append :
    (p : ℕ → Bool) (s t : Str) → all_in p s ≡ true → head_is p t ≡ false → take_while p (s ++ t) ≡ s
unfolding all_in take_while
take_while-append p [] [] h k = refl
take_while-append p [] (c ∷ t) h k = ground arith
take_while-append p (c ∷ s) t h k = ground (arith, take_while-append p s t)

pub drop_while-append :
    (p : ℕ → Bool) (s t : Str) → all_in p s ≡ true → head_is p t ≡ false → drop_while p (s ++ t) ≡ t
unfolding all_in drop_while
drop_while-append p [] [] h k = refl
drop_while-append p [] (c ∷ t) h k = ground arith
drop_while-append p (c ∷ s) t h k = ground (arith, drop_while-append p s t)

pub all_in-append : (p : ℕ → Bool) (s t : Str) → all_in p (s ++ t) ≡ all_in p s && all_in p t
unfolding all_in
all_in-append p [] t = refl
all_in-append p (c ∷ s) t = ground (arith, all_in-append p s t)

-- strings.Split for a separator of one byte.
unfoldable pub add_head : ℕ → List Str → List Str
add_head c [] = (c ∷ []) ∷ []
add_head c (x ∷ xs) = (c ∷ x) ∷ xs

unfoldable pub split : ℕ → Str → List Str
unfolding add_head
split sep [] = [] ∷ []
split sep (c ∷ s) = let rest = split sep s in if c == sep then [] ∷ rest else add_head c rest

unfoldable pub is_digit : ℕ → Bool
is_digit c = leb b'0' c && leb c b'9'
