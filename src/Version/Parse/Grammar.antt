-- ===== src/Version/Parse/Grammar.antt =====
-- `versionRegex` of pkg/apk/apk/version.go: the groups that are found spell the text, and every
-- text of the grammar is matched with the groups that it was made of.
use apko.Base.{
  ℕ, ◌≡◌, refl, sym, ◌∙◌, ◌≢◌, ◌⊎◌, inl, inr, true, false, List, [], ◌∷◌, ◌++◌, none, some, arith,
  Str, codes, In, All, is_empty, cut_prefix, cut_prefix-eq-some, take_while, drop_while, all_in,
  is_digit, all_in-take_while, head_is-drop_while, take_while-append-drop_while, Bool-cases,
  Option-cases,
}
use apko.Version.Parse.{
  Groups, pre_names, post_names, is_lower, drop_parts, match_suffix, match_letter, drop_letter,
  revision_digits, match_revision, groups_with, last_text, match_version,
}
use apko.Version.Parse.Match.{
  revision_text, text_of, IsGroups, take_parts-append-drop_parts, take_parts-Parts,
}

-- What a suffix match returns: the text again, a listed name, digits, and no number without a name.
record IsSuffix (names : List Str) (s : Str) (r : Str × Str × Str) : Type 0 where
  spells : r.0 ++ (r.1 ++ r.2) ≡ s
  listed : In r.0 ([] ∷ names)
  digits : all_in is_digit r.1 ≡ true
  unnamed : r.0 ≡ [] → r.1 ≡ []

match_suffix-IsSuffix :
    (names : List Str) (s : Str) → All (λ n. n ≢ []) names → IsSuffix names s (match_suffix names s)
unfolding match_suffix all_in
match_suffix-IsSuffix [] s h = record {
  spells = refl;
  listed = inl refl;
  digits = refl;
  unnamed = λ h. refl;
}
match_suffix-IsSuffix (n ∷ ns) s (hn, h) = elim (Option-cases (cut_prefix n s)) [
  | inl e ↦
      let r = match_suffix-IsSuffix ns s h in
      rw (e, match_suffix)
        (record {
          spells = r.spells;
          listed = elim r.listed [ inl i ↦ inl i | inr i ↦ inr (inr i) ];
          digits = r.digits;
          unnamed = r.unnamed;
        })
  | inr (rest, e) ↦
      rw (e, match_suffix)
        (record {
          spells = rw take_while-append-drop_while (sym (cut_prefix-eq-some n s rest e));
          listed = inr (inl refl);
          digits = all_in-take_while is_digit rest;
          unnamed = λ k. absurd (hn k);
        })
]

revision_text-eq : (s : Str) → s ≢ [] → revision_text s ≡ codes "-r" ++ s
revision_text-eq [] h = absurd (h refl)
revision_text-eq (c ∷ s) h = refl

is_empty→nil : (s : Str) → is_empty s ≡ true → s ≡ []
is_empty→nil [] h = refl
is_empty→nil (c ∷ s) h = cc

-- With nothing left behind its digits a text is digits.
all_digits : (s : Str) → drop_while is_digit s ≡ [] → all_in is_digit s ≡ true
unfolding drop_while all_in
all_digits [] h = refl
all_digits (c ∷ s) h = ground (arith, all_digits s)

pub drop_all_digits : (s : Str) → all_in is_digit s ≡ true → drop_while is_digit s ≡ []
unfolding drop_while all_in
drop_all_digits [] h = refl
drop_all_digits (c ∷ s) h = ground (arith, drop_all_digits s)

revision_digits-eq-some :
    (d r : Str) → revision_digits d ≡ some r → (r ≡ d) × (d ≢ []) × (all_in is_digit d ≡ true)
unfolding revision_digits
revision_digits-eq-some [] r h = cc
revision_digits-eq-some (c ∷ d) r h =
    let e : is_empty (drop_while is_digit (c ∷ d)) ≡ true = ground arith in
    (ground arith, λ k. cc, all_digits (c ∷ d) (is_empty→nil _ e))

match_revision-eq-some :
    (s r : Str) → match_revision s ≡ some r → (revision_text r ≡ s) × (all_in is_digit r ≡ true)
unfolding match_revision all_in
match_revision-eq-some [] r h = ground arith
match_revision-eq-some (c ∷ s) r h = elim (Option-cases (cut_prefix (codes "-r") (c ∷ s))) [
  | inl e ↦ absurd (none≢some (rw (e, match_revision) at h))
  | inr (d, e) ↦
      let (er, nd, hd) = revision_digits-eq-some d r (rw (e, match_revision) at h) in
      (rw er (revision_text-eq d nd ∙ sym (cut_prefix-eq-some (codes "-r") (c ∷ s) d e)), rw er hd)
]
  where
    none≢some : none ≡ some r → ⊥
    none≢some k = cc

match_letter-append-drop_letter : (s : Str) → match_letter s ++ drop_letter s ≡ s
unfolding match_letter drop_letter
match_letter-append-drop_letter [] = refl
match_letter-append-drop_letter (c ∷ s) = ground arith

match_letter-shape :
    (s : Str) → (match_letter s ≡ []) ⊎ ((c : ℕ) × (match_letter s ≡ c ∷ []) × (is_lower c ≡ true))
unfolding match_letter
match_letter-shape [] = inl refl
match_letter-shape (c ∷ s) = elim (Bool-cases (is_lower c)) [
  | inl e ↦ inr (c, ground arith, e)
  | inr e ↦ inl (ground arith)
]

pub match_version-eq :
    (s r : Str)
    → take_while is_digit s ≢ []
    → match_revision (last_text s) ≡ some r
    → match_version s ≡ some (groups_with s r)
unfolding match_version
match_version-eq s r h e = ground (arith, nil_of (take_while is_digit s))
  where
    nil_of : (t : Str) → is_empty t ≡ true → t ≡ []
    nil_of t k = is_empty→nil t k

match_version-eq-some :
    (s : Str) (g : Groups)
    → match_version s ≡ some g
    → (take_while is_digit s ≢ [])
      × (r : Str) × (match_revision (last_text s) ≡ some r)
      × (g ≡ groups_with s r)
unfolding match_version
match_version-eq-some s g h = elim (Bool-cases (is_empty (take_while is_digit s))) [
  | inl e ↦ absurd (none≢some (rw (e, match_version) at h))
  | inr e ↦ elim (Option-cases (match_revision (last_text s))) [
    | inl k ↦ absurd (none≢some (rw (e, k, match_version) at h))
    | inr (r, k) ↦ (λ n. true≢false (rw (n) at e), r, k, ground arith)
  ]
]
  where
    none≢some : none ≡ some g → ⊥
    none≢some k = cc

    true≢false : true ≡ false → ⊥
    true≢false k = cc

pre_names-some : All (λ n. n ≢ []) pre_names
pre_names-some = ground arith

post_names-some : All (λ n. n ≢ []) post_names
post_names-some = ground arith

-- The groups spell the text up to the last group, and have the grammar's shape.
text_of-groups_with : (s r : Str) → revision_text r ≡ last_text s → text_of (groups_with s r) ≡ s
unfolding groups_with last_text
text_of-groups_with s r e =
    let s₁ = drop_while is_digit s in
    let t₁ = drop_letter (drop_parts s₁) in
    let pre = match_suffix-IsSuffix pre_names t₁ pre_names-some in
    let post = match_suffix-IsSuffix post_names (match_suffix pre_names t₁).2 post_names-some in
    rw (e, post.spells, pre.spells, match_letter-append-drop_letter, take_parts-append-drop_parts)
      (take_while-append-drop_while is_digit s)

groups_with-IsGroups :
    (s r : Str) → take_while is_digit s ≢ [] → all_in is_digit r ≡ true → IsGroups (groups_with s r)
unfolding groups_with
groups_with-IsGroups s r h d =
    let s₁ = drop_while is_digit s in
    let t₁ = drop_letter (drop_parts s₁) in
    let pre = match_suffix-IsSuffix pre_names t₁ pre_names-some in
    let post = match_suffix-IsSuffix post_names (match_suffix pre_names t₁).2 post_names-some in
    record {
      first = all_in-take_while is_digit s;
      first_some = h;
      others = take_parts-Parts s₁ (head_is-drop_while is_digit s);
      letter = match_letter-shape (drop_parts s₁);
      pre = pre.listed;
      pre_number = pre.digits;
      pre_none = pre.unnamed;
      post = post.listed;
      post_number = post.digits;
      post_none = post.unnamed;
      revision = d;
    }

-- The groups of a match spell the whole text and have the shape that the expression gives them.
pub match_version_sound :
    (s : Str) (g : Groups) → match_version s ≡ some g → (text_of g ≡ s) × IsGroups g
match_version_sound s g h =
    let (some_digits, r, e, eg) = match_version-eq-some s g h in
    let (spelt, digits) = match_revision-eq-some _ r e in
    rw eg (text_of-groups_with s r spelt, groups_with-IsGroups s r some_digits digits)
