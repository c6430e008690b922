-- ===== src/Version/Parse/Complete.antt =====
-- `versionRegex` of pkg/apk/apk/version.go matches every text of its grammar.
use apko.Base.{
  ℕ, ◌≡◌, refl, ◌∙◌, ◌≢◌, ◌⊎◌, inl, inr, true, false, [], ◌∷◌, ◌++◌, none, some, arith, Str, codes,
  In, is_empty, cut_prefix, take_while, drop_while, head_is, all_in, is_digit, take_while-append,
  drop_while-append,
}
use apko.Version.Parse.{
  Groups, pre_names, post_names, is_lower, match_suffix, match_letter, drop_letter, revision_digits,
  match_revision, groups_with, last_text, match_version,
}
use apko.Version.Parse.Match.{
  revision_text, text_of, Parts, IsGroups, Marked, is_part_byte, Marked→not_digit,
  take_parts-append, drop_parts-append,
}
use apko.Version.Parse.Grammar.{drop_all_digits, match_version-eq}

revision_text-Marked : (r : Str) → Marked (revision_text r)
revision_text-Marked [] = tt
revision_text-Marked (c ∷ r) = refl

match_revision_text :
    (r : Str) → all_in is_digit r ≡ true → match_revision (revision_text r) ≡ some r
unfolding match_revision cut_prefix revision_digits
match_revision_text [] h = refl
match_revision_text (c ∷ r) h = rw (drop_all_digits (c ∷ r) h)

-- The post-suffix with its number and what follows.
abbrev tail_text : Str → Str → Str → Str
tail_text name number rest = name ++ (number ++ rest)

-- The two runs behind a name, before a text that begins with no digit.
runs :
    (name number rest : Str)
    → all_in is_digit number ≡ true
    → Marked rest
    → ◌≡◌ {A = Str × Str × Str}
        (name, take_while is_digit (number ++ rest), drop_while is_digit (number ++ rest))
        (name, number, rest)
runs name number rest digits marked = rw (
  take_while-append is_digit number rest digits (Marked→not_digit rest marked),
  drop_while-append is_digit number rest digits (Marked→not_digit rest marked),
)

match_post-nil : (r : Str) → match_suffix post_names (revision_text r) ≡ ([], [], revision_text r)
unfolding match_suffix cut_prefix
match_post-nil [] = refl
match_post-nil (c ∷ r) = refl

match_post :
    (post number r : Str)
    → In post ([] ∷ post_names)
    → all_in is_digit number ≡ true
    → (post ≡ [] → number ≡ [])
    → match_suffix post_names (tail_text post number (revision_text r))
      ≡ (post, number, revision_text r)
unfolding match_suffix cut_prefix
match_post post number r (inl e) digits unnamed = rw (e, unnamed e) (match_post-nil r)
match_post post number r (inr (inl e)) digits unnamed =
    rw e (runs _ number _ digits (revision_text-Marked r))
match_post post number r (inr (inr (inl e))) digits unnamed =
    rw e (runs _ number _ digits (revision_text-Marked r))
match_post post number r (inr (inr (inr (inl e)))) digits unnamed =
    rw e (runs _ number _ digits (revision_text-Marked r))
match_post post number r (inr (inr (inr (inr (inl e))))) digits unnamed =
    rw e (runs _ number _ digits (revision_text-Marked r))
match_post post number r (inr (inr (inr (inr (inr (inl e)))))) digits unnamed =
    rw e (runs _ number _ digits (revision_text-Marked r))
match_post post number r (inr (inr (inr (inr (inr (inr i)))))) digits unnamed = elim i [ ]

-- "_p" with a number is not the beginning of "_pre".
not_pre :
    (number r : Str)
    → all_in is_digit number ≡ true
    → cut_prefix (codes "re") (number ++ revision_text r) ≡ none
unfolding cut_prefix all_in is_digit
not_pre [] [] h = refl
not_pre [] (c ∷ r) h = refl
not_pre (c ∷ number) r h = ground arith

match_pre-post :
    (post number r : Str)
    → In post ([] ∷ post_names)
    → all_in is_digit number ≡ true
    → (post ≡ [] → number ≡ [])
    → match_suffix pre_names (tail_text post number (revision_text r))
      ≡ ([], [], tail_text post number (revision_text r))
unfolding match_suffix cut_prefix
match_pre-post post number [] (inl e) digits unnamed = rw (e, unnamed e)
match_pre-post post number (c ∷ r) (inl e) digits unnamed = rw (e, unnamed e)
match_pre-post post number r (inr (inl e)) digits unnamed = rw e
match_pre-post post number r (inr (inr (inl e))) digits unnamed = rw e
match_pre-post post number r (inr (inr (inr (inl e)))) digits unnamed = rw e
match_pre-post post number r (inr (inr (inr (inr (inl e))))) digits unnamed = rw e
match_pre-post post number r (inr (inr (inr (inr (inr (inl e)))))) digits unnamed =
    rw e (ground (arith, not_pre number r digits))
match_pre-post post number r (inr (inr (inr (inr (inr (inr i)))))) digits unnamed = elim i [ ]

tail_text-Marked :
    (post number r : Str)
    → In post ([] ∷ post_names)
    → (post ≡ [] → number ≡ [])
    → Marked (tail_text post number (revision_text r))
tail_text-Marked post number r (inl e) unnamed = rw (e, unnamed e) (revision_text-Marked r)
tail_text-Marked post number r (inr (inl e)) unnamed = rw e refl
tail_text-Marked post number r (inr (inr (inl e))) unnamed = rw e refl
tail_text-Marked post number r (inr (inr (inr (inl e)))) unnamed = rw e refl
tail_text-Marked post number r (inr (inr (inr (inr (inl e))))) unnamed = rw e refl
tail_text-Marked post number r (inr (inr (inr (inr (inr (inl e)))))) unnamed = rw e refl
tail_text-Marked post number r (inr (inr (inr (inr (inr (inr i)))))) unnamed = elim i [ ]

match_pre :
    (pre number rest : Str)
    → In pre ([] ∷ pre_names)
    → all_in is_digit number ≡ true
    → (pre ≡ [] → number ≡ [])
    → Marked rest
    → match_suffix pre_names rest ≡ ([], [], rest)
    → match_suffix pre_names (tail_text pre number rest) ≡ (pre, number, rest)
unfolding match_suffix cut_prefix
match_pre pre number rest (inl e) digits unnamed marked skip = rw (e, unnamed e) skip
match_pre pre number rest (inr (inl e)) digits unnamed marked skip =
    rw e (runs _ number rest digits marked)
match_pre pre number rest (inr (inr (inl e))) digits unnamed marked skip =
    rw e (runs _ number rest digits marked)
match_pre pre number rest (inr (inr (inr (inl e)))) digits unnamed marked skip =
    rw e (runs _ number rest digits marked)
match_pre pre number rest (inr (inr (inr (inr (inl e))))) digits unnamed marked skip =
    rw e (runs _ number rest digits marked)
match_pre pre number rest (inr (inr (inr (inr (inr i))))) digits unnamed marked skip = elim i [ ]

pre_text-Marked :
    (pre number rest : Str)
    → In pre ([] ∷ pre_names)
    → (pre ≡ [] → number ≡ [])
    → Marked rest
    → Marked (tail_text pre number rest)
pre_text-Marked pre number rest (inl e) unnamed marked = rw (e, unnamed e) marked
pre_text-Marked pre number rest (inr (inl e)) unnamed marked = rw e refl
pre_text-Marked pre number rest (inr (inr (inl e))) unnamed marked = rw e refl
pre_text-Marked pre number rest (inr (inr (inr (inl e)))) unnamed marked = rw e refl
pre_text-Marked pre number rest (inr (inr (inr (inr (inl e))))) unnamed marked = rw e refl
pre_text-Marked pre number rest (inr (inr (inr (inr (inr i))))) unnamed marked = elim i [ ]

abbrev IsLetter : Str → Type 0
IsLetter l = (l ≡ []) ⊎ ((c : ℕ) × (l ≡ c ∷ []) × (is_lower c ≡ true))

match_letter-append :
    (l t : Str)
    → IsLetter l
    → Marked t
    → (match_letter (l ++ t) ≡ l)
      × (drop_letter (l ++ t) ≡ t)
      × (head_is is_part_byte (l ++ t) ≡ false)
unfolding match_letter drop_letter is_lower is_digit
match_letter-append l [] (inl e) h = rw e (refl, refl, refl)
match_letter-append l (c ∷ t) (inl e) h = rw e (ground arith, ground arith, ground arith)
match_letter-append l t (inr (c, e, k)) h = rw e (ground arith, ground arith, ground arith)

Parts-head :
    (s t : Str) → Parts s → head_is is_part_byte t ≡ false → head_is is_digit (s ++ t) ≡ false
unfolding is_digit
Parts-head s [] (Parts.done _ e) h = rw e refl
Parts-head s (c ∷ t) (Parts.done _ e) h = rw e (ground arith)
Parts-head s t (Parts.part _ d r hd nd p e) h = rw e refl

nonempty-append : (s t : Str) → s ≢ [] → is_empty (s ++ t) ≡ false
nonempty-append [] t h = absurd (h refl)
nonempty-append (c ∷ s) t h = refl

-- A text that groups of the grammar spell is matched with these groups.
pub match_version_complete : (g : Groups) → IsGroups g → match_version (text_of g) ≡ some g
unfolding groups_with last_text
match_version_complete g h =
    let t₄ = revision_text g.revision in
    let t₃ = tail_text g.post g.post_number t₄ in
    let t₂ = tail_text g.pre g.pre_number t₃ in
    let m₃ = tail_text-Marked g.post g.post_number g.revision h.post h.post_none in
    let m₂ = pre_text-Marked g.pre g.pre_number t₃ h.pre h.pre_none m₃ in
    let (letter, after, stop) = match_letter-append g.letter t₂ h.letter m₂ in
    let stop₁ = Parts-head g.others (g.letter ++ t₂) h.others stop in
    let first = take_while-append is_digit g.first (g.others ++ (g.letter ++ t₂)) h.first stop₁ in
    let rest = drop_while-append is_digit g.first (g.others ++ (g.letter ++ t₂)) h.first stop₁ in
    let others = take_parts-append g.others (g.letter ++ t₂) h.others stop in
    let behind = drop_parts-append g.others (g.letter ++ t₂) h.others stop in
    let skip = match_pre-post g.post g.post_number g.revision h.post h.post_number h.post_none in
    let pre = match_pre g.pre g.pre_number t₃ h.pre h.pre_number h.pre_none m₃ skip in
    let post = match_post g.post g.post_number g.revision h.post h.post_number h.post_none in
    match_version-eq (text_of g) g.revision (rw first h.first_some)
      (rw (rest, behind, after, pre, post, last_text) (match_revision_text g.revision h.revision))
    ∙ rw (first, rest, others, behind, letter, after, pre, post, groups_with)
