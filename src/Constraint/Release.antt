-- ===== src/Constraint/Release.antt =====
-- The regular expression `-r\d+$` of pkg/apk/apk/version.go.
use apko.Base.{
  ℕ, ◌≡◌, refl, ap, ◌≢◌, ◌↔◌, inl, inr, true, false, not, ◌&&◌, [], ◌∷◌, ◌++◌, arith, Str, codes,
  is_empty, cut_prefix, cut_prefix-append, cut_prefix-eq-some, all_in, is_digit, Option-cases,
  Bool-cases, subst, sym,
}
use apko.Version.Parse.{is_lower}
use apko.Constraint.{is_pin_byte, ends_with_release}

-- A text that ends in "-r" and a number.
pub record HasRelease (t : Str) : Type 0 where
  pub stem : Str
  pub digits : Str
  pub digits_some : digits ≢ []
  pub are_digits : all_in is_digit digits ≡ true
  pub spelled : t ≡ stem ++ (codes "-r" ++ digits)

HasRelease-cons : (c : ℕ) (t : Str) → HasRelease t → HasRelease (c ∷ t)
HasRelease-cons c t r = record {
  stem = c ∷ r.stem;
  digits = r.digits;
  digits_some = r.digits_some;
  are_digits = r.are_digits;
  spelled = ap (◌∷◌ c) r.spelled;
}

not_empty : (s : Str) → is_empty s ≡ false → s ≢ []
not_empty [] h = λ e. cc
not_empty (c ∷ s) h = λ e. cc

HasRelease-of : (t : Str) → ends_with_release t ≡ true → HasRelease t
unfolding ends_with_release
HasRelease-of [] h = cc
HasRelease-of (c ∷ s) h = elim (Option-cases (cut_prefix (codes "-r") (c ∷ s))) [
  | inl e ↦ HasRelease-cons c s (HasRelease-of s (rw (ends_with_release, e) at h))
  | inr (digits, e) ↦ elim (Bool-cases (not (is_empty digits) && all_in is_digit digits)) [
    | inl b ↦ record {
      stem = [];
      digits = digits;
      digits_some = not_empty digits (ground (arith, b));
      are_digits = ground (arith, b);
      spelled = cut_prefix-eq-some (codes "-r") (c ∷ s) digits e;
    }
    | inr b ↦ HasRelease-cons c s (HasRelease-of s (rw (ends_with_release, e, b) at h))
  ]
]

ends_with_release-append :
    (s digits : Str)
    → digits ≢ []
    → all_in is_digit digits ≡ true
    → ends_with_release (s ++ (codes "-r" ++ digits)) ≡ true
unfolding ends_with_release
ends_with_release-append [] [] h k = absurd (h refl)
ends_with_release-append [] (d ∷ ds) h k = rw (cut_prefix-append (codes "-r") (d ∷ ds), k) refl
ends_with_release-append (c ∷ s) digits h k = ground (arith, ends_with_release-append s digits h k)

-- The expression matches the texts that end in "-r" and a number.
pub ends_with_release_iff : (t : Str) → (ends_with_release t ≡ true) ↔ HasRelease t
ends_with_release_iff t = (
  HasRelease-of t,
  λ r.
      subst (λ s. ends_with_release s ≡ true) (sym r.spelled)
        (ends_with_release-append r.stem r.digits r.digits_some r.are_digits),
)

pins-ends_with_release : (s : Str) → all_in is_pin_byte s ≡ true → ends_with_release s ≡ false
unfolding ends_with_release all_in is_pin_byte is_lower is_digit cut_prefix
pins-ends_with_release [] h = refl
pins-ends_with_release (c ∷ s) h = ground (arith, pins-ends_with_release s)

-- Digits do not go on over the "@" of a pin.
no_digits : (s pin : Str) → all_in is_digit (s ++ b'@' ∷ pin) ≡ false
unfolding all_in is_digit
no_digits [] pin = refl
no_digits (c ∷ s) pin = ground (arith, no_digits s pin)

-- A text with a pin behind it does not end in a release.
pub ends_with_release-pinned :
    (s pin : Str) → all_in is_pin_byte pin ≡ true → ends_with_release (s ++ b'@' ∷ pin) ≡ false
unfolding ends_with_release cut_prefix
ends_with_release-pinned [] pin h = pins-ends_with_release pin h
ends_with_release-pinned (c ∷ []) pin h = ground (arith, ends_with_release-pinned [] pin h)
ends_with_release-pinned (c ∷ d ∷ s) pin h =
    ground (arith, no_digits s pin, ends_with_release-pinned (d ∷ s) pin h)
