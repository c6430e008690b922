-- ===== src/Version/Parse/Image.antt =====
-- ParseVersion of pkg/apk/apk/version.go: what holds of every version that it returns.
use apko.Base.{
  ℕ, ◌+◌, ◌≤◌, ◌≡◌, refl, subst, ◌⊎◌, inl, inr, true, List, [], ◌∷◌, Option, none, some, arith, Str,
  All, is_empty, Bool-cases, split,
}
use apko.Version.{Version}
use apko.Version.Order.{HasModifiers}
use apko.Version.Parse.{
  max_int, Groups, is_lower, match_version, atoi, parse_parts, parse_others, parse_number,
  pre_modifier, post_modifier, first_rune, version_of, parse_version, VersionError, could_not_parse,
  first_part, bad_pre_suffix, bad_post_suffix, pre_suffix_number, post_suffix_number,
  revision_number, part, OrError, value, error, ◌>>=◌, or_error,
}
use apko.Version.Parse.Match.{IsGroups}
use apko.Version.Parse.Grammar.{match_version_sound}
use apko.Version.Parse.RoundTrip.{IsParsed}

>>=-eq-value :
    {A B : Type 0} (m : OrError A) (f : A → OrError B) {b : B}
    → (m >>= f) ≡ value b
    → (a : A) × (m ≡ value a) × (f a ≡ value b)
>>=-eq-value (value a) f h = (a, refl, h)
>>=-eq-value (error e) f h = cc

or_error-eq-value :
    {A : Type 0} (o : Option A) (e : VersionError) {a : A} → or_error o e ≡ value a → o ≡ some a
or_error-eq-value none e h = cc
or_error-eq-value (some a) e h = cc

atoi-le : (s : Str) (n : ℕ) → atoi s ≡ some n → n ≤ max_int
unfolding atoi
atoi-le s n h = ground arith

parse_parts-le :
    (i : ℕ) (ss : List Str) (ns : List ℕ) → parse_parts i ss ≡ value ns → All (λ n. n ≤ max_int) ns
unfolding parse_parts
parse_parts-le i [] ns h = ground arith
parse_parts-le i (s ∷ ss) ns h = elim (Bool-cases (is_empty s)) [
  | inl e ↦ parse_parts-le (i + 1) ss ns (rw (e, parse_parts) at h)
  | inr e ↦
      let (n, hn, h₁) = >>=-eq-value (or_error (atoi s) (part i)) _ (rw (e, parse_parts) at h) in
      let (ms, hms, h₂) = >>=-eq-value (parse_parts (i + 1) ss) _ h₁ in
      let le = atoi-le s n (or_error-eq-value (atoi s) _ hn) in
      let les = parse_parts-le (i + 1) ss ms hms in ground arith
]

parse_others-le : (s : Str) (ns : List ℕ) → parse_others s ≡ value ns → All (λ n. n ≤ max_int) ns
unfolding parse_others
parse_others-le s ns h = ground (arith, parse_parts-le 0 (split b'.' s) ns)

parse_number-le :
    (s : Str) (e : VersionError) (n : ℕ)
    → parse_number s e ≡ value n
    → (n ≤ max_int) × (s ≡ [] → n ≡ 0)
unfolding parse_number
parse_number-le [] e n h = (ground arith, λ k. ground arith)
parse_number-le (c ∷ s) e n h = (atoi-le (c ∷ s) n (or_error-eq-value _ e h), λ k. cc)

is_empty→nil : (s : Str) → is_empty s ≡ true → s ≡ []
is_empty→nil [] h = refl
is_empty→nil (c ∷ s) h = cc

pre_modifier-le : (s : Str) (n : ℕ) → pre_modifier s ≡ some n → (n ≤ 4) × (n ≡ 0 → s ≡ [])
unfolding pre_modifier
pre_modifier-le s n h = (ground arith, λ k. is_empty→nil s (ground arith))

post_modifier-le : (s : Str) (n : ℕ) → post_modifier s ≡ some n → (n ≤ 5) × (n ≡ 0 → s ≡ [])
unfolding post_modifier
post_modifier-le s n h = (ground arith, λ k. is_empty→nil s (ground arith))

first_rune-shape :
    (s : Str)
    → (s ≡ []) ⊎ ((c : ℕ) × (s ≡ c ∷ []) × (is_lower c ≡ true))
    → (first_rune s ≡ 0) ⊎ (is_lower (first_rune s) ≡ true)
unfolding first_rune
first_rune-shape s (inl e) = inl (rw e)
first_rune-shape s (inr (c, e, h)) = inr (rw e h)

version_of-IsParsed : (g : Groups) (v : Version) → IsGroups g → version_of g ≡ value v → IsParsed v
unfolding version_of
version_of-IsParsed g v w h =
    let (n, hn, h₁) = >>=-eq-value (or_error (atoi g.first) first_part) _ h in
    let (ns, hns, h₂) = >>=-eq-value (parse_others g.others) _ h₁ in
    let (pre, hpre, h₃) = >>=-eq-value (or_error (pre_modifier g.pre) bad_pre_suffix) _ h₂ in
    let (pn, hpn, h₄) = >>=-eq-value (parse_number g.pre_number pre_suffix_number) _ h₃ in
    let (post, hpost, h₅) = >>=-eq-value (or_error (post_modifier g.post) bad_post_suffix) _ h₄ in
    let (qn, hqn, h₆) = >>=-eq-value (parse_number g.post_number post_suffix_number) _ h₅ in
    let (rev, hrev, h₇) = >>=-eq-value (parse_number g.revision revision_number) _ h₆ in
    let first = atoi-le g.first n (or_error-eq-value (atoi g.first) _ hn) in
    let (pre_le, pre_nil) = pre_modifier-le g.pre pre (or_error-eq-value _ _ hpre) in
    let (post_le, post_nil) = post_modifier-le g.post post (or_error-eq-value _ _ hpost) in
    let (pn_le, pn_nil) = parse_number-le g.pre_number _ pn hpn in
    let (qn_le, qn_nil) = parse_number-le g.post_number _ qn hqn in
    let made : IsParsed (record {
      numbers = n ∷ ns;
      letter = first_rune g.letter;
      pre_suffix = pre;
      pre_suffix_number = pn;
      post_suffix = post;
      post_suffix_number = qn;
      revision = rev;
    }) =
      record {
        numbers = λ k. cc;
        fit = (first, parse_others-le g.others ns hns);
        letter = first_rune-shape g.letter w.letter;
        pre = pre_le;
        pre_number = pn_le;
        pre_none = λ k. pn_nil (w.pre_none (pre_nil k));
        post = post_le;
        post_number = qn_le;
        post_none = λ k. qn_nil (w.post_none (post_nil k));
        revision = (parse_number-le g.revision _ rev hrev).0;
      } in
    subst IsParsed (value_injective _ v h₇) made
  where
    value_injective : (a b : Version) → value a ≡ value b → a ≡ b
    value_injective a b e = cc

-- Every version that ParseVersion returns is of the kind that it makes.
pub parse_version-IsParsed : (s : Str) (v : Version) → parse_version s ≡ value v → IsParsed v
unfolding parse_version
parse_version-IsParsed s v h =
    let (g, hg, h₁) = >>=-eq-value (or_error (match_version s) could_not_parse) _ h in
    version_of-IsParsed g v (match_version_sound s g (or_error-eq-value _ _ hg)).1 h₁

pub IsParsed-HasModifiers : (v : Version) → IsParsed v → HasModifiers v
IsParsed-HasModifiers v h = record { pre = h.pre; post = h.post }
