-- ===== src/Samples/Versions.antt =====
-- Samples for versions: parsing, the order and the operators.
use apko.Base.{
  ℕ, ◌≡◌, refl, ◌≢◌, ◌↔◌, ◌⊎◌, true, false, not, ◌||◌, List, [], ◌∷◌, ◌++◌, some, arith, codes,
}
use apko.Version.{
  Version, less, equal, greater, compare_versions, includes_version, version_less_equal,
  version_greater, version_greater_equal, version_less, version_equal, version_tilde, satisfies,
}
use apko.Version.Order.{HasModifiers, compare_versions_trans, compare_versions-eq-equal_iff}
use apko.Version.Dependency.{
  RestAgrees, includes_version_iff, satisfies_trichotomy, satisfies_equal,
}
use apko.Version.Parse.{value, Groups, match_version, parse_version}
use apko.Version.Parse.Match.{text_of, IsGroups}
use apko.Version.Parse.Grammar.{match_version_sound}
use apko.Version.Parse.Complete.{match_version_complete}
use apko.Version.Parse.RoundTrip.{IsParsed, render, parse_version-render}
use apko.Version.Parse.Image.{parse_version-IsParsed}
use apko.Samples.{release, candidate, program, parse_version-candidate}

candidate-release : compare_versions candidate release ≡ less
unfolding program
candidate-release = refl

abbrev newer : Version
newer = record release { revision = 1 }

release-newer : compare_versions release newer ≡ less
unfolding program
release-newer = refl

compare_versions_trans_example :
    (compare_versions candidate newer ≢ greater)
    × (compare_versions candidate release ≡ less ⊎ compare_versions release newer ≡ less
        → compare_versions candidate newer ≡ less)
compare_versions_trans_example =
    compare_versions_trans candidate release newer (λ h. ground (arith, candidate-release))
      (λ h. ground (arith, release-newer))

candidate-HasModifiers : HasModifiers candidate
candidate-HasModifiers = record { pre = omega arith; post = omega arith }

compare_versions-eq-equal_iff_example :
    (compare_versions candidate candidate ≡ equal) ↔ (candidate ≡ candidate)
compare_versions-eq-equal_iff_example =
    compare_versions-eq-equal_iff candidate candidate candidate-HasModifiers candidate-HasModifiers

includes_version_iff_example : (includes_version newer release ≡ true) ↔ (
    ((z : ℕ) × (zs : List ℕ) × (newer.numbers ≡ release.numbers ++ z ∷ zs))
    ⊎ ((newer.numbers ≡ release.numbers) × RestAgrees newer release))
includes_version_iff_example = includes_version_iff newer release

includes_version-newer : includes_version newer release ≡ true
unfolding program
includes_version-newer = refl

includes_version-release : includes_version release (record release { numbers = 1 ∷ [] }) ≡ true
unfolding program
includes_version-release = refl

satisfies_trichotomy_example :
    (satisfies version_less_equal candidate release
      ≡ not (satisfies version_greater candidate release))
    × (satisfies version_greater_equal candidate release
        ≡ not (satisfies version_less candidate release))
    × (satisfies version_less candidate release ≡ satisfies version_greater release candidate)
    × (satisfies version_equal candidate release ≡ satisfies version_equal release candidate)
    × ((satisfies version_less candidate release
          || satisfies version_equal candidate release
          || satisfies version_greater candidate release)
        ≡ true)
    × ¬ (
        (satisfies version_less candidate release ≡ true)
        × (satisfies version_greater candidate release ≡ true))
    × ¬ (
        (satisfies version_equal candidate release ≡ true)
        × (satisfies version_less_equal candidate release ≡ false))
satisfies_trichotomy_example = satisfies_trichotomy candidate release

satisfies_equal_example :
    ((satisfies version_equal candidate candidate ≡ true) ↔ (candidate ≡ candidate))
    × (satisfies version_equal candidate candidate ≡ true
        → (satisfies version_tilde candidate candidate ≡ true)
          × (satisfies version_less_equal candidate candidate ≡ true)
          × (satisfies version_greater_equal candidate candidate ≡ true))
satisfies_equal_example =
    satisfies_equal candidate candidate candidate-HasModifiers candidate-HasModifiers

abbrev groups : Groups
groups = record {
  first = codes "1";
  others = codes ".2";
  letter = [];
  pre = codes "_rc";
  pre_number = codes "2";
  post = [];
  post_number = [];
  revision = codes "3";
}

match_version-candidate : match_version (codes "1.2_rc2-r3") ≡ some groups
unfolding program
match_version-candidate = refl

match_version_sound_example : (text_of groups ≡ codes "1.2_rc2-r3") × IsGroups groups
match_version_sound_example =
    match_version_sound (codes "1.2_rc2-r3") groups match_version-candidate

groups-IsGroups : IsGroups groups
groups-IsGroups = (match_version_sound (codes "1.2_rc2-r3") groups match_version-candidate).1

match_version_complete_example : match_version (text_of groups) ≡ some groups
match_version_complete_example = match_version_complete groups groups-IsGroups

parse_version-IsParsed_example : IsParsed candidate
parse_version-IsParsed_example =
    parse_version-IsParsed (codes "1.2_rc2-r3") candidate parse_version-candidate

candidate-IsParsed : IsParsed candidate
candidate-IsParsed = parse_version-IsParsed (codes "1.2_rc2-r3") candidate parse_version-candidate

parse_version-render_example : parse_version (render candidate) ≡ value candidate
parse_version-render_example = parse_version-render candidate candidate-IsParsed
