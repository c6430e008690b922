-- ===== src/Version/Parse/RoundTrip.antt =====
-- ParseVersion of pkg/apk/apk/version.go: which versions it makes, and from which texts.
use apko.Base.{
  ℕ, zero, suc, ◌≤◌, ◌≡◌, refl, subst, ◌≢◌, ◌⊎◌, inl, inr, true, false, List, [], ◌∷◌, some, arith,
  Str, codes, str_eq, All, In, is_empty, all_in, is_digit,
}
use apko.Version.{Version}
use apko.Version.Parse.{
  max_int, Groups, pre_names, post_names, is_lower, match_version, parse_number, pre_modifier,
  post_modifier, first_rune, version_of, parse_version, VersionError, could_not_parse, value, ◌>>=◌,
  or_error,
}
use apko.Version.Parse.Match.{text_of, IsGroups}
use apko.Version.Parse.Complete.{match_version_complete}
use apko.Version.Parse.Decimal.{
  decimal, decimal-digits, decimal-ne-nil, atoi-decimal, dotted, dotted-Parts, parse_others-dotted,
}

-- The versions that ParseVersion makes: at least one number, ints of 64 bits, a lower case letter
-- or none, modifiers from the two lists, and no suffix number without its suffix.
pub record IsParsed (v : Version) : Type 0 where
  pub numbers : v.numbers ≢ []
  pub fit : All (λ n. n ≤ max_int) v.numbers
  pub letter : (v.letter ≡ 0) ⊎ (is_lower v.letter ≡ true)
  pub pre : v.pre_suffix ≤ 4
  pub pre_number : v.pre_suffix_number ≤ max_int
  pub pre_none : v.pre_suffix ≡ 0 → v.pre_suffix_number ≡ 0
  pub post : v.post_suffix ≤ 5
  pub post_number : v.post_suffix_number ≤ max_int
  pub post_none : v.post_suffix ≡ 0 → v.post_suffix_number ≡ 0
  pub revision : v.revision ≤ max_int

pre_name : ℕ → Str
pre_name zero = []
pre_name (suc zero) = codes "_alpha"
pre_name (suc (suc zero)) = codes "_beta"
pre_name (suc (suc (suc zero))) = codes "_pre"
pre_name (suc (suc (suc (suc n)))) = codes "_rc"

post_name : ℕ → Str
post_name zero = []
post_name (suc zero) = codes "_cvs"
post_name (suc (suc zero)) = codes "_svn"
post_name (suc (suc (suc zero))) = codes "_git"
post_name (suc (suc (suc (suc zero)))) = codes "_hg"
post_name (suc (suc (suc (suc (suc n))))) = codes "_p"

-- Zero is left out, as a missing number is read as zero.
number_text : ℕ → Str
number_text zero = []
number_text (suc n) = decimal (suc n)

letter_text : ℕ → Str
letter_text zero = []
letter_text (suc c) = suc c ∷ []

groups_of : ℕ → List ℕ → Version → Groups
groups_of n ns v = record {
  first = decimal n;
  others = dotted ns;
  letter = letter_text v.letter;
  pre = pre_name v.pre_suffix;
  pre_number = number_text v.pre_suffix_number;
  post = post_name v.post_suffix;
  post_number = number_text v.post_suffix_number;
  revision = number_text v.revision;
}

render_numbers : List ℕ → Version → Str
render_numbers [] v = []
render_numbers (n ∷ ns) v = text_of (groups_of n ns v)

-- The canonical text of a version.
pub render : Version → Str
render v = render_numbers v.numbers v

number_text-digits : (n : ℕ) → all_in is_digit (number_text n) ≡ true
unfolding number_text all_in
number_text-digits zero = refl
number_text-digits (suc n) = decimal-digits (suc n)

nonempty : (s : Str) → s ≢ [] → is_empty s ≡ false
nonempty [] h = absurd (h refl)
nonempty (c ∷ s) h = refl

parse_number-number_text :
    (n : ℕ) (e : VersionError) → n ≤ max_int → parse_number (number_text n) e ≡ value n
unfolding parse_number number_text
parse_number-number_text zero e h = refl
parse_number-number_text (suc n) e h =
    rw (nonempty (decimal (suc n)) (decimal-ne-nil (suc n)), atoi-decimal (suc n) h)

pre_name-listed : (n : ℕ) → In (pre_name n) ([] ∷ pre_names)
unfolding pre_name
pre_name-listed zero = inl refl
pre_name-listed (suc zero) = inr (inl refl)
pre_name-listed (suc (suc zero)) = inr (inr (inl refl))
pre_name-listed (suc (suc (suc zero))) = inr (inr (inr (inl refl)))
pre_name-listed (suc (suc (suc (suc n)))) = inr (inr (inr (inr (inl refl))))

post_name-listed : (n : ℕ) → In (post_name n) ([] ∷ post_names)
unfolding post_name
post_name-listed zero = inl refl
post_name-listed (suc zero) = inr (inl refl)
post_name-listed (suc (suc zero)) = inr (inr (inl refl))
post_name-listed (suc (suc (suc zero))) = inr (inr (inr (inl refl)))
post_name-listed (suc (suc (suc (suc zero)))) = inr (inr (inr (inr (inl refl))))
post_name-listed (suc (suc (suc (suc (suc n))))) = inr (inr (inr (inr (inr (inl refl)))))

pre_modifier-pre_name : (n : ℕ) → n ≤ 4 → pre_modifier (pre_name n) ≡ some n
unfolding pre_modifier pre_name str_eq
pre_modifier-pre_name zero h = refl
pre_modifier-pre_name (suc zero) h = refl
pre_modifier-pre_name (suc (suc zero)) h = refl
pre_modifier-pre_name (suc (suc (suc zero))) h = refl
pre_modifier-pre_name (suc (suc (suc (suc zero)))) h = refl
pre_modifier-pre_name (suc (suc (suc (suc (suc n))))) h = absurd (omega arith)

post_modifier-post_name : (n : ℕ) → n ≤ 5 → post_modifier (post_name n) ≡ some n
unfolding post_modifier post_name str_eq
post_modifier-post_name zero h = refl
post_modifier-post_name (suc zero) h = refl
post_modifier-post_name (suc (suc zero)) h = refl
post_modifier-post_name (suc (suc (suc zero))) h = refl
post_modifier-post_name (suc (suc (suc (suc zero)))) h = refl
post_modifier-post_name (suc (suc (suc (suc (suc zero))))) h = refl
post_modifier-post_name (suc (suc (suc (suc (suc (suc n)))))) h = absurd (omega arith)

pre_name-nil : (n m : ℕ) → (n ≡ 0 → m ≡ 0) → pre_name n ≡ [] → number_text m ≡ []
unfolding pre_name number_text
pre_name-nil zero m h e = rw (h refl)
pre_name-nil (suc zero) m h e = cc
pre_name-nil (suc (suc zero)) m h e = cc
pre_name-nil (suc (suc (suc zero))) m h e = cc
pre_name-nil (suc (suc (suc (suc n)))) m h e = cc

post_name-nil : (n m : ℕ) → (n ≡ 0 → m ≡ 0) → post_name n ≡ [] → number_text m ≡ []
unfolding post_name number_text
post_name-nil zero m h e = rw (h refl)
post_name-nil (suc zero) m h e = cc
post_name-nil (suc (suc zero)) m h e = cc
post_name-nil (suc (suc (suc zero))) m h e = cc
post_name-nil (suc (suc (suc (suc zero)))) m h e = cc
post_name-nil (suc (suc (suc (suc (suc n))))) m h e = cc

letter_text-shape :
    (c : ℕ)
    → (c ≡ 0) ⊎ (is_lower c ≡ true)
    → (letter_text c ≡ []) ⊎ ((d : ℕ) × (letter_text c ≡ d ∷ []) × (is_lower d ≡ true))
unfolding letter_text
letter_text-shape zero h = inl refl
letter_text-shape (suc c) (inl e) = absurd (omega arith)
letter_text-shape (suc c) (inr h) = inr (suc c, refl, h)

first_rune-letter_text : (c : ℕ) → first_rune (letter_text c) ≡ c
unfolding first_rune letter_text
first_rune-letter_text zero = refl
first_rune-letter_text (suc c) = refl

groups_of-IsGroups : (n : ℕ) (ns : List ℕ) (v : Version) → IsParsed v → IsGroups (groups_of n ns v)
unfolding groups_of
groups_of-IsGroups n ns v h = record {
  first = decimal-digits n;
  first_some = decimal-ne-nil n;
  others = dotted-Parts ns;
  letter = letter_text-shape v.letter h.letter;
  pre = pre_name-listed v.pre_suffix;
  pre_number = number_text-digits v.pre_suffix_number;
  pre_none = pre_name-nil v.pre_suffix v.pre_suffix_number h.pre_none;
  post = post_name-listed v.post_suffix;
  post_number = number_text-digits v.post_suffix_number;
  post_none = post_name-nil v.post_suffix v.post_suffix_number h.post_none;
  revision = number_text-digits v.revision;
}

version_of-groups_of :
    (n : ℕ) (ns : List ℕ) (v : Version)
    → v.numbers ≡ n ∷ ns
    → IsParsed v
    → version_of (groups_of n ns v) ≡ value v
unfolding version_of groups_of
version_of-groups_of n ns v e h =
    let (hn, hns) = subst (All (λ k. k ≤ max_int)) e h.fit in
    rw
      (
        atoi-decimal n hn,
        parse_others-dotted ns hns,
        pre_modifier-pre_name v.pre_suffix h.pre,
        parse_number-number_text v.pre_suffix_number _ h.pre_number,
        post_modifier-post_name v.post_suffix h.post,
        parse_number-number_text v.post_suffix_number _ h.post_number,
        parse_number-number_text v.revision _ h.revision,
        first_rune-letter_text,
      )
      (ground arith)

-- Every version of the kind that ParseVersion makes is read back from its canonical text.
pub parse_version-render : (v : Version) → IsParsed v → parse_version (render v) ≡ value v
unfolding parse_version render
parse_version-render v h = by_numbers v.numbers refl
  where
    by_numbers :
        (ns : List ℕ)
        → v.numbers ≡ ns
        → (or_error (match_version (render_numbers ns v)) could_not_parse >>= version_of) ≡ value v
    by_numbers [] e = absurd (h.numbers e)
    by_numbers (n ∷ ns) e =
        unfold render_numbers in
        rw (match_version_complete (groups_of n ns v) (groups_of-IsGroups n ns v h))
          (version_of-groups_of n ns v e h)
