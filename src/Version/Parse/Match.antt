-- ===== src/Version/Parse/Match.antt =====
-- The match of `versionRegex` in pkg/apk/apk/version.go against the grammar of the expression.
use apko.Base.{
  ℕ, ◌≡◌, refl, ◌≢◌, ◌⊎◌, inl, inr, Bool, true, false, ◌&&◌, ◌||◌, [], ◌∷◌, ◌++◌, append_assoc,
  arith, ◌==◌, Str, codes, In, head_is, all_in, is_digit, Bool-cases,
}
use apko.Version.Parse.{Groups, pre_names, post_names, is_lower, take_parts, drop_parts}

-- `((-r)([0-9]+))?` with the number of the third group.
abbrev pub revision_text : Str → Str
revision_text [] = []
revision_text (c ∷ s) = codes "-r" ++ (c ∷ s)

-- The text that the groups spell.
abbrev pub text_of : Groups → Str
text_of g =
    g.first
    ++ (g.others
        ++ (g.letter
            ++ (g.pre
                ++ (g.pre_number ++ (g.post ++ (g.post_number ++ revision_text g.revision))))))

-- `(\.[0-9]+)*`: a run of parts, each a dot and one or more digits.
pub data Parts : Str → Type 0 where
  done : (s : Str) → s ≡ [] → Parts s
  part :
      (s digits rest : Str)
      → all_in is_digit digits ≡ true
      → digits ≢ []
      → Parts rest
      → s ≡ b'.' ∷ (digits ++ rest)
      → Parts s

-- The groups that the expression can make.
pub record IsGroups (g : Groups) : Type 0 where
  pub first : all_in is_digit g.first ≡ true
  pub first_some : g.first ≢ []
  pub others : Parts g.others
  pub letter : (g.letter ≡ []) ⊎ ((c : ℕ) × (g.letter ≡ c ∷ []) × (is_lower c ≡ true))
  pub pre : In g.pre ([] ∷ pre_names)
  pub pre_number : all_in is_digit g.pre_number ≡ true
  pub pre_none : g.pre ≡ [] → g.pre_number ≡ []
  pub post : In g.post ([] ∷ post_names)
  pub post_number : all_in is_digit g.post_number ≡ true
  pub post_none : g.post ≡ [] → g.post_number ≡ []
  pub revision : all_in is_digit g.revision ≡ true

-- The bytes that a text may go on with behind a number.
abbrev pub is_mark : ℕ → Bool
is_mark c = c == b'_' || c == b'-'

abbrev pub Marked : Str → Type 0
Marked [] = Unit
Marked (c ∷ s) = is_mark c ≡ true

pub Marked→not_digit : (t : Str) → Marked t → head_is is_digit t ≡ false
unfolding is_digit
Marked→not_digit [] h = refl
Marked→not_digit (c ∷ t) h = ground arith

take_parts_digits : (d t : Str) → all_in is_digit d ≡ true → take_parts (d ++ t) ≡ d ++ take_parts t
unfolding take_parts all_in
take_parts_digits [] t h = refl
take_parts_digits (c ∷ d) t h = ground (arith, take_parts_digits d t)

drop_parts_digits : (d t : Str) → all_in is_digit d ≡ true → drop_parts (d ++ t) ≡ drop_parts t
unfolding drop_parts all_in
drop_parts_digits [] t h = refl
drop_parts_digits (c ∷ d) t h = ground (arith, drop_parts_digits d t)

-- A text that goes on with neither a digit nor a dot.
abbrev pub is_part_byte : ℕ → Bool
is_part_byte c = is_digit c || c == b'.'

take_parts_end : (t : Str) → head_is is_part_byte t ≡ false → take_parts t ≡ []
unfolding take_parts
take_parts_end [] h = refl
take_parts_end (c ∷ t) h = ground arith

drop_parts_end : (t : Str) → head_is is_part_byte t ≡ false → drop_parts t ≡ t
unfolding drop_parts
drop_parts_end [] h = refl
drop_parts_end (c ∷ t) h = ground arith

take_parts_dot :
    (d t : Str)
    → all_in is_digit d ≡ true
    → d ≢ []
    → take_parts (b'.' ∷ (d ++ t)) ≡ b'.' ∷ take_parts (d ++ t)
unfolding take_parts all_in
take_parts_dot [] t h k = absurd (k refl)
take_parts_dot (c ∷ d) t h k = ground arith

drop_parts_dot :
    (d t : Str)
    → all_in is_digit d ≡ true
    → d ≢ []
    → drop_parts (b'.' ∷ (d ++ t)) ≡ drop_parts (d ++ t)
unfolding drop_parts all_in
drop_parts_dot [] t h k = absurd (k refl)
drop_parts_dot (c ∷ d) t h k = ground arith

pub take_parts-append :
    (s t : Str) → Parts s → head_is is_part_byte t ≡ false → take_parts (s ++ t) ≡ s
take_parts-append s t (done _ e) h = rw e (take_parts_end t h)
take_parts-append s t (part _ d r hd nd p e) h =
    rw (e, append_assoc, take_parts_dot d _ hd nd, take_parts_digits d _ hd)
      (rw (take_parts-append r t p h))

pub drop_parts-append :
    (s t : Str) → Parts s → head_is is_part_byte t ≡ false → drop_parts (s ++ t) ≡ t
drop_parts-append s t (done _ e) h = rw e (drop_parts_end t h)
drop_parts-append s t (part _ d r hd nd p e) h =
    rw (e, append_assoc, drop_parts_dot d _ hd nd, drop_parts_digits d _ hd)
      (drop_parts-append r t p h)

pub take_parts-append-drop_parts : (s : Str) → take_parts s ++ drop_parts s ≡ s
unfolding take_parts drop_parts
take_parts-append-drop_parts [] = refl
take_parts-append-drop_parts (c ∷ s) = ground (arith, take_parts-append-drop_parts s)

-- What `take_parts` reads inside a part: the rest of its digits, and further parts.
record Reads (s : Str) : Type 0 where
  digits : Str
  rest : Str
  are_digits : all_in is_digit digits ≡ true
  more : Parts rest
  spells : take_parts s ≡ digits ++ rest
  starts : head_is is_digit s ≡ true → digits ≢ []
  stops : head_is is_digit s ≡ false → digits ≡ []

take_parts-Reads : (s : Str) → Reads s
unfolding take_parts all_in
take_parts-Reads [] = record {
  digits = [];
  rest = [];
  are_digits = refl;
  more = done [] refl;
  spells = refl;
  starts = λ h. cc;
  stops = λ h. refl;
}
take_parts-Reads (c ∷ s) =
    let r = take_parts-Reads s in
    elim (Bool-cases (is_digit c)) [
      | inl e ↦ record {
        digits = c ∷ r.digits;
        rest = r.rest;
        are_digits = ground (arith, r.are_digits);
        more = r.more;
        spells = ground (arith, r.spells);
        starts = λ h k. cc;
        stops = λ h. cc;
      }
      | inr e ↦ elim (Bool-cases (c == b'.' && head_is is_digit s)) [
        | inl f ↦ record {
          digits = [];
          rest = b'.' ∷ (r.digits ++ r.rest);
          are_digits = refl;
          more = part _ r.digits r.rest r.are_digits (r.starts (ground arith)) r.more refl;
          spells = ground (arith, r.spells);
          starts = λ h. cc;
          stops = λ h. refl;
        }
        | inr f ↦ record {
          digits = [];
          rest = [];
          are_digits = refl;
          more = done [] refl;
          spells = ground arith;
          starts = λ h. cc;
          stops = λ h. refl;
        }
      ]
    ]

pub take_parts-Parts : (s : Str) → head_is is_digit s ≡ false → Parts (take_parts s)
take_parts-Parts s h = let r = take_parts-Reads s in rw (r.spells, r.stops h) r.more
