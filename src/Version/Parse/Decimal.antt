-- ===== src/Version/Parse/Decimal.antt =====
-- Decimal numbers and dotted lists of them, as ParseVersion of pkg/apk/apk/version.go reads them
-- with strconv.Atoi and strings.Split.
use apko.Base.{
  ℕ, zero, suc, ◌+◌, ◌/◌, ◌%◌, ◌≤◌, ◌≡◌, refl, ap, ◌∙◌, ◌≢◌, true, false, List, [], ◌∷◌, ◌++◌, map,
  add_head, append-nil, some, arith, ltb, if◌then◌else◌, Str, All, is_empty, all_in, all_in-append,
  is_digit, split,
}
use apko.Version.Parse.{max_int, digits_value, atoi, parse_parts, parse_others, value}
use apko.Version.Parse.Match.{Parts}

-- The decimal digits of a number, with fuel for the digits before the last.
unfoldable pub decimal_from : ℕ → ℕ → Str
decimal_from zero n = (b'0' + n % 10) ∷ []
decimal_from (suc fuel) n =
    let before = decimal_from fuel (n / 10) in
    if ltb n 10 then (b'0' + n) ∷ [] else before ++ (b'0' + n % 10) ∷ []

unfoldable pub decimal : ℕ → Str
decimal n = decimal_from n n

digits_value-append :
    (s t : Str) (n : ℕ) → digits_value n (s ++ t) ≡ digits_value (digits_value n s) t
unfolding digits_value
digits_value-append [] t n = refl
digits_value-append (c ∷ s) t n = digits_value-append s t _

digits_value-decimal_from : (fuel n : ℕ) → n ≤ fuel → digits_value 0 (decimal_from fuel n) ≡ n
unfolding digits_value decimal_from
digits_value-decimal_from zero n h = omega arith
digits_value-decimal_from (suc fuel) n h = ground (
  arith,
  digits_value-decimal_from fuel (n / 10),
  digits_value-append (decimal_from fuel (n / 10)) ((b'0' + n % 10) ∷ []) 0,
)

decimal_from-digits : (fuel n : ℕ) → all_in is_digit (decimal_from fuel n) ≡ true
unfolding all_in decimal_from is_digit
decimal_from-digits zero n = ground arith
decimal_from-digits (suc fuel) n = ground (
  arith,
  decimal_from-digits fuel (n / 10),
  all_in-append is_digit (decimal_from fuel (n / 10)) ((b'0' + n % 10) ∷ []),
)

append-ne-nil : (s : Str) (c : ℕ) → s ++ c ∷ [] ≢ []
append-ne-nil [] c = λ h. cc
append-ne-nil (d ∷ s) c = λ h. cc

decimal_from-ne-nil : (fuel n : ℕ) → decimal_from fuel n ≢ []
unfolding decimal_from
decimal_from-ne-nil zero n = λ h. cc
decimal_from-ne-nil (suc fuel) n =
    ground (arith, append-ne-nil (decimal_from fuel (n / 10)) (b'0' + n % 10))

pub decimal-digits : (n : ℕ) → all_in is_digit (decimal n) ≡ true
unfolding decimal
decimal-digits n = decimal_from-digits n n

pub decimal-ne-nil : (n : ℕ) → decimal n ≢ []
unfolding decimal
decimal-ne-nil n = decimal_from-ne-nil n n

pub atoi-decimal : (n : ℕ) → n ≤ max_int → atoi (decimal n) ≡ some n
unfolding atoi decimal
atoi-decimal n h = ground (arith, digits_value-decimal_from n n)

-- `.1.2.3`
pub dotted : List ℕ → Str
dotted [] = []
dotted (n ∷ ns) = b'.' ∷ (decimal n ++ dotted ns)

pub dotted-Parts : (ns : List ℕ) → Parts (dotted ns)
unfolding dotted
dotted-Parts [] = Parts.done [] refl
dotted-Parts (n ∷ ns) =
    Parts.part _ (decimal n) (dotted ns) (decimal-digits n) (decimal-ne-nil n) (dotted-Parts ns)
      refl

split_digits :
    (d t x : Str) (xs : List Str)
    → all_in is_digit d ≡ true
    → split b'.' t ≡ x ∷ xs
    → split b'.' (d ++ t) ≡ (d ++ x) ∷ xs
unfolding split add_head all_in is_digit
split_digits [] t x xs h e = e
split_digits (c ∷ d) t x xs h e = ground (arith, split_digits d t x xs)

split-dotted : (ns : List ℕ) → split b'.' (dotted ns) ≡ [] ∷ map decimal ns
unfolding split dotted
split-dotted [] = refl
split-dotted (n ∷ ns) = ap (◌∷◌ []) (
    split_digits (decimal n) (dotted ns) [] (map decimal ns) (decimal-digits n) (split-dotted ns)
    ∙ rw append-nil)

nonempty : (s : Str) → s ≢ [] → is_empty s ≡ false
nonempty [] h = absurd (h refl)
nonempty (c ∷ s) h = refl

parse_parts-map :
    (i : ℕ) (ns : List ℕ) → All (λ n. n ≤ max_int) ns → parse_parts i (map decimal ns) ≡ value ns
unfolding parse_parts
parse_parts-map i [] h = refl
parse_parts-map i (n ∷ ns) (hn, h) =
    rw (nonempty (decimal n) (decimal-ne-nil n), atoi-decimal n hn, parse_parts-map (i + 1) ns h)

parse_parts-dotted :
    (ns : List ℕ) → All (λ n. n ≤ max_int) ns → parse_parts 0 (split b'.' (dotted ns)) ≡ value ns
unfolding parse_parts
parse_parts-dotted ns h = rw split-dotted (parse_parts-map 1 ns h)

pub parse_others-dotted :
    (ns : List ℕ) → All (λ n. n ≤ max_int) ns → parse_others (dotted ns) ≡ value ns
unfolding parse_others
parse_others-dotted [] h = unfold dotted in refl
parse_others-dotted (n ∷ ns) h = rw (dotted_some) (parse_parts-dotted (n ∷ ns) h)
  where
    dotted_some : is_empty (dotted (n ∷ ns)) ≡ false
    dotted_some = unfold dotted in refl

pub digits_value-decimal : (n : ℕ) → digits_value 0 (decimal n) ≡ n
unfolding decimal
digits_value-decimal n = digits_value-decimal_from n n (omega arith)
