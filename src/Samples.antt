-- ===== src/Samples.antt =====
-- Versions, packages and indexes for the samples in Samples/: a library in two versions, of which
-- the older one is pinned, a package that needs it, and one that takes its name.
pub mod Versions
pub mod Accounts
pub mod Layers
pub mod Images
pub mod Constraints
pub mod Packages
pub mod Resolutions
use apko.Base.{
  ℕ, ◌≡◌, refl, Bool, true, false, List, [], ◌∷◌, Option, none, some, Str, codes, str_eq,
  cut_prefix, take_while, drop_while, head_is, all_in, is_digit, split, add_head, leb, ltb, ◌==◌,
  get, without, put, keep_if, any,
}
use apko.Version.{
  Version, compare_then, compare_numbers, pre_suffix_rank, compare_versions, differs, includes_rest,
  includes_numbers, includes_version, satisfies_comparison, satisfies,
}
use apko.Version.Parse.{
  OrError, value, error, is_lower, take_parts, drop_parts, match_suffix, match_letter, drop_letter,
  revision_digits, match_revision, groups_with, last_text, match_version, digits_value, atoi,
  parse_parts, parse_others, parse_number, first_rune, pre_modifier, post_modifier, version_of,
  parse_version,
}
use apko.Constraint.{
  ParsedConstraint, is_operator, is_version_byte, is_name_byte, is_pin_byte, ends_with_release,
  split_last, match_requirement, match_pin, match_package_name, dependency_of, is_before_equals,
  adjust_so, normalize_name, constraint_of, resolve_package_name_version_pin, satisfied_by,
}
use apko.Package.{
  RepositoryPackage, PinnedPackage, Disqualified, find_reason, is_disqualified, disqualify,
}
use apko.Resolver.{
  NamedIndex, PkgResolver, list_at, append_to, add_triggers, pinned, listed, add_names,
  add_install_if, add_provides, add_all_provides, collect, map_packages, new_pkg_resolver,
}
use apko.Resolver.Lookup.{arrange, candidates_in, candidates}
use apko.Resolver.Select.{
  Outcome, done, named, exclude, disqualify_providers, provided_conflict, conflicting_version,
  disqualify_providing, disqualify_provided, disqualify_conflicts, pick_provides, pick,
  version_fault, disqualify_if, constrain_provides, constrain_provider, constrain_providers,
  constrain_one, constrain_step, constrain,
}

abbrev pub release : Version
release = record {
  numbers = 1 ∷ 2 ∷ [];
  letter = 0;
  pre_suffix = 0;
  pre_suffix_number = 0;
  post_suffix = 0;
  post_suffix_number = 0;
  revision = 0;
}

abbrev pub candidate : Version
candidate = record release { pre_suffix = 4; pre_suffix_number = 2; revision = 3 }

abbrev pub package_at : ℕ → Str → Str → List Str → List Str → RepositoryPackage
package_at address name version dependencies provides = record {
  address = address;
  name = name;
  version = version;
  origin = [];
  dependencies = dependencies;
  provides = provides;
  install_if = [];
  provider_priority = 0;
  repository_uri = codes "https://example.org";
}

abbrev pub old_library : RepositoryPackage
old_library = package_at 1 (codes "lib") (codes "1.0") [] []

abbrev pub new_library : RepositoryPackage
new_library = package_at 2 (codes "lib") (codes "2.0") [] (codes "so:lib=2" ∷ [])

abbrev pub program_package : RepositoryPackage
program_package =
    package_at 3 (codes "app") (codes "1.2_rc2-r3") (codes "lib>1" ∷ []) (codes "cmd:app=1" ∷ [])

abbrev pub taker : RepositoryPackage
taker = package_at 4 (codes "fork") (codes "3") [] (codes "cmd:app=3" ∷ [])

abbrev pub narcissist : RepositoryPackage
narcissist = package_at 5 (codes "own") (codes "1") [] (codes "own=1" ∷ [])

abbrev pub at_index : Str → RepositoryPackage → PinnedPackage
at_index n p = record { repository_package = p; pinned_name = n }

abbrev pub sample_indexes : List NamedIndex
sample_indexes =
    record { index_name = []; packages = new_library ∷ program_package ∷ taker ∷ [] }
    ∷ record { index_name = codes "edge"; packages = old_library ∷ [] }
    ∷ []

abbrev pub in_order : List Str → List Str
in_order ks = ks

abbrev pub resolver : PkgResolver
resolver = new_pkg_resolver in_order sample_indexes

-- What the samples compute with.
pub program : Unit {0}
unfolding str_eq cut_prefix take_while drop_while all_in is_digit split add_head get without put
    keep_if any compare_then compare_numbers pre_suffix_rank compare_versions differs includes_rest
    includes_numbers includes_version satisfies_comparison satisfies is_lower take_parts drop_parts
    match_suffix match_letter drop_letter revision_digits match_revision groups_with last_text
    match_version digits_value atoi parse_parts parse_others parse_number first_rune pre_modifier
    post_modifier version_of parse_version is_operator is_version_byte is_name_byte is_pin_byte
    ends_with_release split_last match_requirement match_pin match_package_name dependency_of
    is_before_equals adjust_so normalize_name constraint_of resolve_package_name_version_pin
    satisfied_by find_reason is_disqualified disqualify list_at append_to add_triggers pinned listed
    add_names add_install_if add_provides add_all_provides collect map_packages new_pkg_resolver
    arrange candidates_in candidates named exclude disqualify_providers provided_conflict
    conflicting_version disqualify_providing disqualify_provided disqualify_conflicts pick_provides
    pick version_fault disqualify_if constrain_provides constrain_provider constrain_providers
    constrain_one constrain_step constrain
program = tt

parse_version-candidate : parse_version (codes "1.2_rc2-r3") ≡ value candidate
unfolding program
parse_version-candidate = refl

resolve-pinned : (resolve_package_name_version_pin (codes "lib~1.2@edge")).pin ≡ codes "edge"
unfolding program
resolve-pinned = refl
