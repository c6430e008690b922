-- ===== src/Constraint.antt =====
-- pkg/apk/apk/version.go and repo.go: package names with version constraints and pins, and the
-- caches of parsed texts.
pub mod Format
pub mod Release
pub mod SharedLibrary
pub mod Cache
use apko.Base.{
  ℕ, ◌+◌, Bool, true, false, not, ◌&&◌, ◌||◌, List, [], ◌∷◌, ◌++◌, Option, none, some, leb, ◌==◌,
  if◌then◌else◌, Str, codes, str_eq, is_empty, cut_prefix, take_while, drop_while, head_is, all_in,
  is_digit,
}
use apko.Version.{
  Version, VersionDependency, version_any, version_equal, version_greater, version_less,
  version_greater_equal, version_less_equal, version_tilde, satisfies,
}
use apko.Version.Parse.{is_lower, parse_version, OrError, value, error, ◌>>=◌}

pub record ParsedConstraint : Type 0 where
  pub name : Str
  pub version : Str
  pub dep : VersionDependency
  pub pin : Str

-- `[=><~]`
unfoldable pub is_operator : ℕ → Bool
is_operator c = c == b'=' || c == b'>' || c == b'<' || c == b'~'

-- `[^@]`
unfoldable pub is_version_byte : ℕ → Bool
is_version_byte c = not (c == b'@')

-- `[^@=><~]`
unfoldable pub is_name_byte : ℕ → Bool
unfolding is_operator
is_name_byte c = not (c == b'@' || is_operator c)

-- `[a-zA-Z0-9]`
unfoldable pub is_pin_byte : ℕ → Bool
unfolding is_lower is_digit
is_pin_byte c = is_lower c || (leb b'A' c && leb c b'Z') || is_digit c

-- `-r\d+$`, at some place of the text.
unfoldable pub ends_with_release : Str → Bool
ends_with_release [] = false
ends_with_release (c ∷ s) =
    (elim (cut_prefix (codes "-r") (c ∷ s)) [
      | none ↦ false
      | some digits ↦ not (is_empty digits) && all_in is_digit digits
    ])
    || ends_with_release s

-- A text without its last byte, and that byte.
unfoldable pub split_last : Str → Str × Str
split_last [] = ([], [])
split_last (c ∷ []) = ([], c ∷ [])
split_last (c ∷ d ∷ s) = let rest = split_last (d ∷ s) in (c ∷ rest.0, rest.1)

-- `(([=><~]+)([^@]+))?`: the operator, the version and the rest. The operator is as long as it can
-- be; with no version behind it, it gives its last byte to the version.
unfoldable pub match_requirement : Str → Str × Str × Str
match_requirement s =
    let op = take_while is_operator s in
    let r = drop_while is_operator s in
    if is_empty op
    then ([], [], s)
    else if is_empty (take_while is_version_byte r)
    then (if is_empty (split_last op).0
        then ([], [], s)
        else ((split_last op).0, (split_last op).1, r))
    else (op, take_while is_version_byte r, drop_while is_version_byte r)

-- `(@([a-zA-Z0-9]+))?$`
unfoldable pub match_pin : Str → Option Str
match_pin [] = some []
match_pin (c ∷ s) = if c == b'@' && not (is_empty s) && all_in is_pin_byte s then some s else none

-- The groups 1, 3, 4 and 6 of `packageNameRegex`.
pub record NameGroups : Type 0 where
  pub name : Str
  pub matcher : Str
  pub version : Str
  pub pin : Str

-- `packageNameRegex.FindAllStringSubmatch`
unfoldable pub match_package_name : Str → Option NameGroups
match_package_name s =
    let name = take_while is_name_byte s in
    let (matcher, version, rest) = match_requirement (drop_while is_name_byte s) in
    if is_empty name then none else (elim (match_pin rest) [
      | none ↦ none
      | some pin ↦ some (record { name = name; matcher = matcher; version = version; pin = pin })
    ])

-- The switch on the operator; without an operator the constraint is versionAny too.
unfoldable pub dependency_of : Str → VersionDependency
dependency_of matcher =
    if str_eq matcher (codes "=")
    then version_equal
    else if str_eq matcher (codes ">")
    then version_greater
    else if str_eq matcher (codes "<")
    then version_less
    else if str_eq matcher (codes ">=")
    then version_greater_equal
    else if str_eq matcher (codes "<=")
    then version_less_equal
    else if str_eq matcher (codes "~")
    then version_tilde
    else if str_eq matcher (codes "=~")
    then version_tilde
    else version_any

-- What strings.Cut passes over.
unfoldable pub is_before_equals : ℕ → Bool
is_before_equals c = not (c == b'=')

-- strings.Cut at the first "=", and the rewriting of a shared library without a release.
unfoldable pub adjust_so : Str → Str
adjust_so s = elim (drop_while is_before_equals s) [
  | [] ↦ s
  | c ∷ version ↦
      if ends_with_release version
      then s
      else take_while is_before_equals s ++ (codes "=0." ++ version)
]

unfoldable pub normalize_name : Str → Str
normalize_name s = elim (cut_prefix (codes "so:") s) [ none ↦ s | some _ ↦ adjust_so s ]

unfoldable pub constraint_of : Str → Option NameGroups → ParsedConstraint
constraint_of s none = record { name = s; version = []; dep = version_any; pin = [] }
constraint_of s (some g) = record {
  name = g.name;
  version = g.version;
  dep = dependency_of g.matcher;
  pin = g.pin;
}

unfoldable pub resolve_package_name_version_pin : Str → ParsedConstraint
resolve_package_name_version_pin pkg_name =
    constraint_of (normalize_name pkg_name) (match_package_name (normalize_name pkg_name))

-- ParsedConstraint.SatisfiedBy
unfoldable pub satisfied_by : ParsedConstraint → Version → OrError Bool
satisfied_by p v =
    if is_empty p.version
    then value true
    else (do pv ← parse_version p.version; value (satisfies p.dep v pv))
