-- ===== src/Constraint/SharedLibrary.antt =====
-- ResolvePackageNameVersionPin of pkg/apk/apk/version.go on shared libraries.
use apko.Base.{
  ◌≡◌, refl, ap, ◌∙◌, ◌≢◌, ◌⊎◌, append-nil, false, inl, inr, true, [], ◌∷◌, ◌++◌, arith,
  if◌then◌else◌, Str, codes, cut_prefix, take_while-append, drop_while-append, all_in, Bool-cases,
}
use apko.Version.{version_equal}
use apko.Constraint.{
  ParsedConstraint, is_operator, is_version_byte, is_name_byte, is_pin_byte, ends_with_release,
  is_before_equals, adjust_so, normalize_name, constraint_of, resolve_package_name_version_pin,
}
use apko.Constraint.Release.{HasRelease, ends_with_release_iff, ends_with_release-pinned}
use apko.Constraint.Format.{
  pin_text, format, IsWritten, match_package_name-format, dependency_of-operator_text,
}

-- `so:<library>=<version>@<pin>`, and the same with another version.
abbrev pub so_constraint : Str → Str → Str → ParsedConstraint
so_constraint library version pin = record {
  name = codes "so:" ++ library;
  version = version;
  dep = version_equal;
  pin = pin;
}

-- The version that adjust_so gives the constraint.
abbrev pub so_version : Str → Str → Str
so_version version pin =
    if ends_with_release (version ++ pin_text pin) then version else codes "0." ++ version

names-before_equals : (s : Str) → all_in is_name_byte s ≡ true → all_in is_before_equals s ≡ true
unfolding all_in is_name_byte is_before_equals
names-before_equals [] h = refl
names-before_equals (c ∷ s) h = ground (arith, names-before_equals s)

resolve-normal :
    (s : Str) (c : ParsedConstraint)
    → normalize_name s ≡ format c
    → IsWritten c
    → resolve_package_name_version_pin s ≡ c
unfolding resolve_package_name_version_pin constraint_of
resolve-normal s c e w = rw (e, match_package_name-format c w, dependency_of-operator_text c.dep)

adjust_so-eq :
    (name rest : Str)
    → all_in is_before_equals name ≡ true
    → adjust_so (name ++ b'=' ∷ rest)
      ≡ (if ends_with_release rest then name ++ b'=' ∷ rest else name ++ (codes "=0." ++ rest))
unfolding adjust_so is_before_equals
adjust_so-eq name rest h = rw (
  drop_while-append is_before_equals name (b'=' ∷ rest) h refl,
  take_while-append is_before_equals name (b'=' ∷ rest) h refl,
  adjust_so,
)

normalize_name-so :
    (library version pin : Str)
    → all_in is_name_byte library ≡ true
    → normalize_name (format (so_constraint library version pin))
      ≡ format (so_constraint library (so_version version pin) pin)
unfolding normalize_name cut_prefix format all_in is_before_equals
normalize_name-so library version pin h =
    let before =
      adjust_so-eq (codes "so:" ++ library) (version ++ pin_text pin)
        (names-before_equals library h) in
    elim (Bool-cases (ends_with_release (version ++ pin_text pin))) [
      | inl e ↦ before ∙ rw e
      | inr e ↦ before ∙ rw e
    ]

-- The version that the text is rewritten to is written like the one that was given.
so_version-IsWritten :
    (library version pin : Str)
    → IsWritten (so_constraint library version pin)
    → IsWritten (so_constraint library (so_version version pin) pin)
so_version-IsWritten library version pin w =
    elim (Bool-cases (ends_with_release (version ++ pin_text pin))) [
      | inl e ↦ rw e w
      | inr e ↦ rw e (record {
        name = w.name;
        name_some = w.name_some;
        version = unfold all_in is_version_byte in w.version;
        version_head = unfold is_operator in refl;
        version_none = λ k. cc;
        version_some = λ k j. cc;
        pin = w.pin;
      })
    ]

so_version-pin :
    (version pin : Str)
    → pin ≢ []
    → all_in is_pin_byte pin ≡ true
    → so_version version pin ≡ codes "0." ++ version
so_version-pin version [] h k = absurd (h refl)
so_version-pin version (c ∷ pin) h k = rw (ends_with_release-pinned version (c ∷ pin) k) refl

so_version-none :
    (version : Str)
    → ends_with_release version ≡ false
    → so_version version [] ≡ codes "0." ++ version
so_version-none version h = rw (append-nil version, h) refl

so_version-release : (version : Str) → HasRelease version → so_version version [] ≡ version
so_version-release version r = rw (append-nil version, (ends_with_release_iff version).1 r) refl

-- The version of a shared library is kept if there is no pin and the version ends in a release, and
-- gets "0." before it in every other case, so that a pin hides the release.
abbrev pub ReadsSo : Str → Str → Str → Type 0
ReadsSo library version pin =
    ((pin ≡ [])
      × HasRelease version
      × (resolve_package_name_version_pin (format (so_constraint library version pin))
          ≡ so_constraint library version pin))
    ⊎ (((pin ≢ []) ⊎ (¬ HasRelease version))
        × (resolve_package_name_version_pin (format (so_constraint library version pin))
            ≡ so_constraint library (codes "0." ++ version) pin))

module _ (library version pin : Str) (w : IsWritten (so_constraint library version pin)) where
  library-bytes : all_in is_name_byte library ≡ true
  unfolding all_in is_name_byte is_operator
  library-bytes = w.name

  resolve-so_version :
      resolve_package_name_version_pin (format (so_constraint library version pin))
      ≡ so_constraint library (so_version version pin) pin
  resolve-so_version =
      resolve-normal _ _ (normalize_name-so library version pin library-bytes)
        (so_version-IsWritten library version pin w)

  resolve-so_eq :
      (v : Str)
      → so_version version pin ≡ v
      → resolve_package_name_version_pin (format (so_constraint library version pin))
        ≡ so_constraint library v pin
  resolve-so_eq v e = resolve-so_version ∙ ap (λ x. so_constraint library x pin) e

-- A constraint `so:<library>=<version>@<pin>` keeps its version if there is no pin and the version
-- ends in "-r" and a number, and gets "0." before its version if there is a pin or the version does
-- not end so; where the library has no "@" and no operator byte, the version is not empty, has no
-- "@" and does not begin with an operator byte, and the pin has letters and digits only.
pub resolve_package_name_version_pin-so :
    (library version pin : Str)
    → IsWritten (so_constraint library version pin)
    → ReadsSo library version pin
resolve_package_name_version_pin-so library version [] w =
    elim (Bool-cases (ends_with_release version)) [
      | inl e ↦
          let r = (ends_with_release_iff version).0 e in
          inl (refl, r, resolve-so_eq library version [] w version (so_version-release version r))
      | inr e ↦ inr (
        inr (λ r. ground (arith, e, (ends_with_release_iff version).1 r)),
        resolve-so_eq library version [] w _ (so_version-none version e),
      )
    ]
resolve_package_name_version_pin-so library version (c ∷ pin) w = inr (
  inl (λ e. cc),
  resolve-so_eq library version (c ∷ pin) w _ (so_version-pin version (c ∷ pin) (λ e. cc) w.pin),
)
