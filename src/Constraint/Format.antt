-- ===== src/Constraint/Format.antt =====
-- ResolvePackageNameVersionPin of pkg/apk/apk/version.go reads back what a constraint is written as.
use apko.Base.{
  ℕ, ◌≡◌, refl, ◌≢◌, Bool, true, false, [], ◌∷◌, ◌++◌, none, some, Str, codes, str_eq, is_empty,
  cut_prefix, take_while, take_while-append, drop_while-append, head_is, all_in,
}
use apko.Version.{
  VersionDependency, version_any, version_equal, version_greater, version_less,
  version_greater_equal, version_less_equal, version_tilde,
}
use apko.Constraint.{
  ParsedConstraint, is_operator, is_version_byte, is_name_byte, is_pin_byte, match_requirement,
  match_pin, match_package_name, dependency_of, normalize_name, constraint_of,
  resolve_package_name_version_pin,
}

abbrev pub operator_text : VersionDependency → Str
operator_text version_any = []
operator_text version_equal = codes "="
operator_text version_greater = codes ">"
operator_text version_less = codes "<"
operator_text version_greater_equal = codes ">="
operator_text version_less_equal = codes "<="
operator_text version_tilde = codes "~"

abbrev pub pin_text : Str → Str
pin_text [] = []
pin_text (c ∷ s) = b'@' ∷ c ∷ s

-- A constraint as it is written in a package list.
unfoldable pub format : ParsedConstraint → Str
format c = c.name ++ (operator_text c.dep ++ (c.version ++ pin_text c.pin))

-- A name and a version that can be told apart, and a version exactly where an operator asks for one.
pub record IsWritten (c : ParsedConstraint) : Type 0 where
  pub name : all_in is_name_byte c.name ≡ true
  pub name_some : c.name ≢ []
  pub version : all_in is_version_byte c.version ≡ true
  pub version_head : head_is is_operator c.version ≡ false
  pub version_none : c.dep ≡ version_any → c.version ≡ []
  pub version_some : c.dep ≢ version_any → c.version ≢ []
  pub pin : all_in is_pin_byte c.pin ≡ true

match_pin-pin_text : (p : Str) → all_in is_pin_byte p ≡ true → match_pin (pin_text p) ≡ some p
unfolding match_pin
match_pin-pin_text [] h = refl
match_pin-pin_text (c ∷ p) h = rw h

pin_text-version_byte : (p : Str) → head_is is_version_byte (pin_text p) ≡ false
unfolding is_version_byte
pin_text-version_byte [] = refl
pin_text-version_byte (c ∷ p) = refl

match_requirement-none : (p : Str) → match_requirement (pin_text p) ≡ ([], [], pin_text p)
unfolding match_requirement take_while is_operator
match_requirement-none [] = refl
match_requirement-none (c ∷ p) = refl

head-append : (f : ℕ → Bool) (s t : Str) → s ≢ [] → head_is f s ≡ false → head_is f (s ++ t) ≡ false
head-append f [] t h k = absurd (h refl)
head-append f (c ∷ s) t h k = k

nonempty : (s : Str) → s ≢ [] → is_empty s ≡ false
nonempty [] h = absurd (h refl)
nonempty (c ∷ s) h = refl

match_requirement-some :
    (op v p : Str)
    → all_in is_operator op ≡ true
    → op ≢ []
    → all_in is_version_byte v ≡ true
    → head_is is_operator v ≡ false
    → v ≢ []
    → match_requirement (op ++ (v ++ pin_text p)) ≡ (op, v, pin_text p)
unfolding match_requirement
match_requirement-some op v p ho some_op hv hd nv =
    let stop = head-append is_operator v (pin_text p) nv hd in
    rw (
      take_while-append is_operator op (v ++ pin_text p) ho stop,
      drop_while-append is_operator op (v ++ pin_text p) ho stop,
      nonempty op some_op,
      take_while-append is_version_byte v (pin_text p) hv (pin_text-version_byte p),
      drop_while-append is_version_byte v (pin_text p) hv (pin_text-version_byte p),
      nonempty v nv,
    )

match_requirement-format :
    (c : ParsedConstraint)
    → IsWritten c
    → match_requirement (operator_text c.dep ++ (c.version ++ pin_text c.pin))
      ≡ (operator_text c.dep, c.version, pin_text c.pin)
match_requirement-format c w = by_dep c.dep refl
  where
    by_dep :
        (d : VersionDependency)
        → c.dep ≡ d
        → match_requirement (operator_text d ++ (c.version ++ pin_text c.pin))
          ≡ (operator_text d, c.version, pin_text c.pin)
    by_dep version_any e = rw (w.version_none e) (match_requirement-none c.pin)
    by_dep d e =
        match_requirement-some (operator_text d) c.version c.pin (unfold all_in is_operator in refl)
          (λ k. cc) w.version w.version_head (w.version_some (λ k. cc))

rest-stops :
    (c : ParsedConstraint)
    → IsWritten c
    → head_is is_name_byte (operator_text c.dep ++ (c.version ++ pin_text c.pin)) ≡ false
unfolding is_name_byte
rest-stops c w = by_dep c.dep refl
  where
    by_pin : (p : Str) → head_is is_name_byte (pin_text p) ≡ false
    by_pin [] = refl
    by_pin (d ∷ p) = refl

    by_dep :
        (d : VersionDependency)
        → c.dep ≡ d
        → head_is is_name_byte (operator_text d ++ (c.version ++ pin_text c.pin)) ≡ false
    by_dep version_any e = rw (w.version_none e) (by_pin c.pin)
    by_dep d e = refl

pub match_package_name-format :
    (c : ParsedConstraint)
    → IsWritten c
    → match_package_name (format c)
      ≡ some (record {
        name = c.name;
        matcher = operator_text c.dep;
        version = c.version;
        pin = c.pin;
      })
unfolding match_package_name format
match_package_name-format c w =
    let rest = operator_text c.dep ++ (c.version ++ pin_text c.pin) in
    let first = take_while-append is_name_byte c.name rest w.name (rest-stops c w) in
    let behind = drop_while-append is_name_byte c.name rest w.name (rest-stops c w) in
    let parts = match_requirement-format c w in
    rw (first, behind, parts, nonempty c.name w.name_some, match_pin-pin_text c.pin w.pin)
      (rw (first, behind, parts))

pub dependency_of-operator_text : (d : VersionDependency) → dependency_of (operator_text d) ≡ d
unfolding dependency_of str_eq
dependency_of-operator_text version_any = refl
dependency_of-operator_text _ = refl

-- A written constraint that does not begin with "so:" is resolved to its own parts.
pub resolve_package_name_version_pin-format :
    (c : ParsedConstraint)
    → IsWritten c
    → cut_prefix (codes "so:") (format c) ≡ none
    → resolve_package_name_version_pin (format c) ≡ c
unfolding resolve_package_name_version_pin normalize_name constraint_of
resolve_package_name_version_pin-format c w h =
    rw (h, normalize_name, match_package_name-format c w, dependency_of-operator_text c.dep)
