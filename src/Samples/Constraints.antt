-- ===== src/Samples/Constraints.antt =====
-- Samples for constraints: their formats, the shared libraries and the caches.
use apko.Base.{◌≡◌, refl, [], ◌∷◌, none, arith, codes, cut_prefix, StrMap, get, str_eq_iff}
use apko.Version.{Version, version_tilde}
use apko.Version.Parse.{parse_version}
use apko.Constraint.{ParsedConstraint, resolve_package_name_version_pin}
use apko.Constraint.Format.{IsWritten, format, resolve_package_name_version_pin-format}
use apko.Constraint.SharedLibrary.{so_constraint, ReadsSo, resolve_package_name_version_pin-so}
use apko.Constraint.Cache.{
  AreParsed, AreResolved, cached_parse_version, cached_resolve_package_name_version_pin,
  cached_parse_version_lem, cached_resolve_package_name_version_pin_lem,
}
use apko.Samples.{candidate, program, parse_version-candidate}

abbrev lib_constraint : ParsedConstraint
lib_constraint = record {
  name = codes "lib";
  version = codes "1.2-r3";
  dep = version_tilde;
  pin = codes "edge";
}

lib_constraint-IsWritten : IsWritten lib_constraint
unfolding program
lib_constraint-IsWritten = record {
  name = refl;
  name_some = λ h. cc;
  version = refl;
  version_head = refl;
  version_none = λ h. cc;
  version_some = λ h k. cc;
  pin = refl;
}

lib_constraint-plain : cut_prefix (codes "so:") (format lib_constraint) ≡ none
unfolding program format
lib_constraint-plain = refl

resolve_package_name_version_pin-format_example :
    resolve_package_name_version_pin (format lib_constraint) ≡ lib_constraint
resolve_package_name_version_pin-format_example =
    resolve_package_name_version_pin-format lib_constraint lib_constraint-IsWritten
      lib_constraint-plain

pinned_so-IsWritten : IsWritten (so_constraint (codes "libc.so.6") (codes "6-r1") (codes "edge"))
unfolding program
pinned_so-IsWritten = record {
  name = refl;
  name_some = λ h. cc;
  version = refl;
  version_head = refl;
  version_none = λ h. cc;
  version_some = λ h k. cc;
  pin = refl;
}

pinned_so :
    resolve_package_name_version_pin (codes "so:libc.so.6=6-r1@edge")
    ≡ so_constraint (codes "libc.so.6") (codes "0.6-r1") (codes "edge")
unfolding program format
pinned_so = refl

resolve_package_name_version_pin-so_example :
    ReadsSo (codes "libc.so.6") (codes "6-r1") (codes "edge")
resolve_package_name_version_pin-so_example =
    resolve_package_name_version_pin-so (codes "libc.so.6") (codes "6-r1") (codes "edge")
      pinned_so-IsWritten

abbrev version_cache : StrMap Version
version_cache = (codes "1.2_rc2-r3", candidate) ∷ []

version_cache-AreParsed : AreParsed version_cache
unfolding get
version_cache-AreParsed k v h =
    ground (arith, parse_version-candidate, str_eq_iff (codes "1.2_rc2-r3") k, h)

cached_parse_version_lem_example :
    ((cached_parse_version version_cache (codes "2.0")).0 ≡ parse_version (codes "2.0"))
    × AreParsed (cached_parse_version version_cache (codes "2.0")).1
cached_parse_version_lem_example =
    cached_parse_version_lem version_cache (codes "2.0") version_cache-AreParsed

abbrev constraint_cache : StrMap ParsedConstraint
constraint_cache = []

constraint_cache-AreResolved : AreResolved constraint_cache
unfolding get
constraint_cache-AreResolved k c h = cc

cached_resolve_package_name_version_pin_lem_example :
    ((cached_resolve_package_name_version_pin constraint_cache (codes "lib>1")).0
      ≡ resolve_package_name_version_pin (codes "lib>1"))
    × AreResolved (cached_resolve_package_name_version_pin constraint_cache (codes "lib>1")).1
cached_resolve_package_name_version_pin_lem_example =
    cached_resolve_package_name_version_pin_lem constraint_cache (codes "lib>1")
      constraint_cache-AreResolved
