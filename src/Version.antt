-- ===== src/Version.antt =====
-- pkg/apk/apk/version.go: the version type, and its order.
pub mod Parse
pub mod Order
pub mod Dependency
use apko.Base.{ℕ, Bool, true, false, List, [], ◌∷◌, ltb, ◌==◌, if◌then◌else◌}

-- packageVersionPreModifier and packageVersionPostModifier are Go ints.
abbrev pub pre_modifier_none : ℕ
pre_modifier_none = 0

abbrev pub pre_modifier_alpha : ℕ
pre_modifier_alpha = 1

abbrev pub pre_modifier_beta : ℕ
pre_modifier_beta = 2

abbrev pub pre_modifier_pre : ℕ
pre_modifier_pre = 3

abbrev pub pre_modifier_rc : ℕ
pre_modifier_rc = 4

abbrev pub pre_modifier_max : ℕ
pre_modifier_max = 1000

abbrev pub post_modifier_none : ℕ
post_modifier_none = 0

abbrev pub post_modifier_cvs : ℕ
post_modifier_cvs = 1

abbrev pub post_modifier_svn : ℕ
post_modifier_svn = 2

abbrev pub post_modifier_git : ℕ
post_modifier_git = 3

abbrev pub post_modifier_hg : ℕ
post_modifier_hg = 4

abbrev pub post_modifier_p : ℕ
post_modifier_p = 5

-- The letter 0 is Go's zero rune: no letter.
pub record Version : Type 0 where
  pub numbers : List ℕ
  pub letter : ℕ
  pub pre_suffix : ℕ
  pub pre_suffix_number : ℕ
  pub post_suffix : ℕ
  pub post_suffix_number : ℕ
  pub revision : ℕ

-- The results -1, 0 and 1 of a Go comparison.
pub data Comparison : Type 0 where
  less equal greater : Comparison

-- `if a > b { return greater }; if a < b { return less }`, with what follows these tests.
unfoldable pub compare_then : ℕ → ℕ → Comparison → Comparison
compare_then a b rest = if ltb b a then greater else if ltb a b then less else rest

-- The loop over both lists of numbers, and the two tests of their lengths behind it.
unfoldable pub compare_numbers : List ℕ → List ℕ → Comparison → Comparison
unfolding compare_then
compare_numbers [] [] rest = rest
compare_numbers (x ∷ xs) [] rest = greater
compare_numbers [] (y ∷ ys) rest = less
compare_numbers (x ∷ xs) (y ∷ ys) rest = compare_then x y (compare_numbers xs ys rest)

-- No pre-suffix sorts behind every pre-suffix.
unfoldable pub pre_suffix_rank : ℕ → ℕ
pre_suffix_rank p = if p == pre_modifier_none then pre_modifier_max else p

unfoldable pub compare_versions : Version → Version → Comparison
compare_versions actual required = compare_numbers actual.numbers required.numbers (
    compare_then actual.letter required.letter (
      compare_then (pre_suffix_rank actual.pre_suffix) (pre_suffix_rank required.pre_suffix) (
        compare_then actual.pre_suffix_number required.pre_suffix_number (
          compare_then actual.post_suffix required.post_suffix (
            compare_then actual.post_suffix_number required.post_suffix_number
              (compare_then actual.revision required.revision equal))))))

-- `required != 0 && actual != required`
unfoldable pub differs : ℕ → ℕ → Bool
differs required actual =
    if required == 0 then false else if actual == required then false else true

unfoldable pub includes_rest : Version → Version → Bool
unfolding differs
includes_rest actual required =
    if differs required.letter actual.letter
    then false
    else if differs required.pre_suffix actual.pre_suffix
    then false
    else if differs required.pre_suffix_number actual.pre_suffix_number
    then false
    else if differs required.post_suffix actual.post_suffix
    then false
    else if differs required.post_suffix_number actual.post_suffix_number
    then false
    else if differs required.revision actual.revision
    then false
    else true

-- The numbers of `required` are read off those of `actual`; the last argument is what the code
-- tests when both lists have the same length.
unfoldable pub includes_numbers : List ℕ → List ℕ → Bool → Bool
includes_numbers [] [] rest = rest
includes_numbers (x ∷ xs) [] rest = true
includes_numbers [] (y ∷ ys) rest = false
includes_numbers (x ∷ xs) (y ∷ ys) rest =
    let tail = includes_numbers xs ys rest in if x == y then tail else false

unfoldable pub includes_version : Version → Version → Bool
includes_version actual required =
    includes_numbers actual.numbers required.numbers (includes_rest actual required)

pub data VersionDependency : Type 0 where
  version_any version_equal version_greater version_less version_greater_equal version_less_equal
        version_tilde :
      VersionDependency

unfoldable pub satisfies_comparison : VersionDependency → Comparison → Bool
satisfies_comparison version_any c = true
satisfies_comparison version_equal equal = true
satisfies_comparison version_greater greater = true
satisfies_comparison version_less less = true
satisfies_comparison version_greater_equal greater = true
satisfies_comparison version_greater_equal equal = true
satisfies_comparison version_less_equal less = true
satisfies_comparison version_less_equal equal = true
satisfies_comparison _ _ = false

unfoldable pub satisfies : VersionDependency → Version → Version → Bool
satisfies version_tilde actual required = includes_version actual required
satisfies version_any actual required =
    satisfies_comparison version_any (compare_versions actual required)
satisfies version_equal actual required =
    satisfies_comparison version_equal (compare_versions actual required)
satisfies version_greater actual required =
    satisfies_comparison version_greater (compare_versions actual required)
satisfies version_less actual required =
    satisfies_comparison version_less (compare_versions actual required)
satisfies version_greater_equal actual required =
    satisfies_comparison version_greater_equal (compare_versions actual required)
satisfies version_less_equal actual required =
    satisfies_comparison version_less_equal (compare_versions actual required)
