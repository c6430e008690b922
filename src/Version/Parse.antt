-- ===== src/Version/Parse.antt =====
-- pkg/apk/apk/version.go: ParseVersion. `versionRegex` is a grammar with at most one way to read
-- a text, since each part ends where the next one has to begin, so reading each part as far as it
-- goes is the match of the regular expression.
pub mod Match
pub mod Grammar
pub mod Complete
pub mod Decimal
pub mod RoundTrip
pub mod Image
use apko.Base.{
  ℕ, zero, suc, ◌+◌, ◌-◌, ◌*◌, ◌^◌, Bool, true, false, ◌&&◌, ◌||◌, List, [], ◌∷◌, ◌++◌, Option,
  none, some, leb, ◌==◌, if◌then◌else◌, Str, codes, str_eq, is_empty, cut_prefix, take_while,
  drop_while, head_is, split, is_digit,
}
use apko.Version.{
  Version, pre_modifier_none, pre_modifier_alpha, pre_modifier_beta, pre_modifier_pre,
  pre_modifier_rc, post_modifier_none, post_modifier_cvs, post_modifier_svn, post_modifier_git,
  post_modifier_hg, post_modifier_p,
}

abbrev pub max_int : ℕ
max_int = 2 ^ 63 - 1

-- The groups 1, 2, 4, 6, 7, 9, 10 and 13 of `versionRegex`; a group that takes no part is empty.
pub record Groups : Type 0 where
  pub first : Str
  pub others : Str
  pub letter : Str
  pub pre : Str
  pub pre_number : Str
  pub post : Str
  pub post_number : Str
  pub revision : Str

abbrev pub pre_names : List Str
pre_names = codes "_alpha" ∷ codes "_beta" ∷ codes "_pre" ∷ codes "_rc" ∷ []

abbrev pub post_names : List Str
post_names = codes "_cvs" ∷ codes "_svn" ∷ codes "_git" ∷ codes "_hg" ∷ codes "_p" ∷ []

unfoldable pub is_lower : ℕ → Bool
is_lower c = leb b'a' c && leb c b'z'

-- `(\.[0-9]+)*`: a dot is read only before a digit.
unfoldable pub take_parts : Str → Str
take_parts [] = []
take_parts (c ∷ s) =
    let rest = take_parts s in
    if is_digit c || (c == b'.' && head_is is_digit s) then c ∷ rest else []

unfoldable pub drop_parts : Str → Str
drop_parts [] = []
drop_parts (c ∷ s) =
    let rest = drop_parts s in
    if is_digit c || (c == b'.' && head_is is_digit s) then rest else c ∷ s

-- `(n1|n2|...)([0-9]*)` made optional: the name, the number and the rest of the text.
unfoldable pub match_suffix : List Str → Str → Str × Str × Str
match_suffix [] s = ([], [], s)
match_suffix (n ∷ ns) s =
    let others = match_suffix ns s in
    elim (cut_prefix n s) [
      | some rest ↦ (n, take_while is_digit rest, drop_while is_digit rest)
      | none ↦ others
    ]

unfoldable pub match_letter : Str → Str
match_letter [] = []
match_letter (c ∷ s) = if is_lower c then c ∷ [] else []

unfoldable pub drop_letter : Str → Str
drop_letter [] = []
drop_letter (c ∷ s) = if is_lower c then s else c ∷ s

-- `[0-9]+$`
unfoldable pub revision_digits : Str → Option Str
revision_digits digits =
    if is_empty digits
    then none
    else if is_empty (drop_while is_digit digits)
    then some digits
    else none

-- `((-r)([0-9]+))?$`: the number, if the text ends behind it.
unfoldable pub match_revision : Str → Option Str
match_revision [] = some []
match_revision (c ∷ s) = elim (cut_prefix (codes "-r") (c ∷ s)) [
  | none ↦ none
  | some digits ↦ revision_digits digits
]

-- The groups of a text, given the last one.
unfoldable pub groups_with : Str → Str → Groups
groups_with s revision =
    let s₁ = drop_while is_digit s in
    let s₂ = drop_parts s₁ in
    let (pre, pre_number, s₃) = match_suffix pre_names (drop_letter s₂) in
    let (post, post_number, s₄) = match_suffix post_names s₃ in
    record {
      first = take_while is_digit s;
      others = take_parts s₁;
      letter = match_letter s₂;
      pre = pre;
      pre_number = pre_number;
      post = post;
      post_number = post_number;
      revision = revision;
    }

-- What is left of a text for the last group.
unfoldable pub last_text : Str → Str
last_text s =
    (match_suffix post_names
      (match_suffix pre_names (drop_letter (drop_parts (drop_while is_digit s)))).2).2

-- `versionRegex.FindAllStringSubmatch`
unfoldable pub match_version : Str → Option Groups
match_version s =
    if is_empty (take_while is_digit s) then none else (elim (match_revision (last_text s)) [
      | none ↦ none
      | some revision ↦ some (groups_with s revision)
    ])

-- strconv.Atoi on digits: the value, if it fits an int of 64 bits.
unfoldable pub digits_value : ℕ → Str → ℕ
digits_value n [] = n
digits_value n (c ∷ s) = digits_value (n * 10 + (c - b'0')) s

unfoldable pub atoi : Str → Option ℕ
unfolding digits_value
atoi s = if leb (digits_value 0 s) max_int then some (digits_value 0 s) else none

pub data VersionError : Type 0 where
  could_not_parse first_part bad_pre_suffix bad_post_suffix pre_suffix_number post_suffix_number
        revision_number :
      VersionError
  part : ℕ → VersionError

pub data OrError (A : Type 0) : Type 0 where
  error : VersionError → OrError A
  value : A → OrError A

infixl 5 ◌>>=◌
abbrev pub ◌>>=◌ : {A B : Type 0} → OrError A → (A → OrError B) → OrError B
error reason >>= next = error reason
value parsed >>= next = next parsed

abbrev pub or_error : {A : Type 0} → Option A → VersionError → OrError A
or_error none e = error e
or_error (some a) e = value a

-- The loop over the other numbers: `i` counts the parts, and empty parts are passed over.
unfoldable pub parse_parts : ℕ → List Str → OrError (List ℕ)
parse_parts i [] = value []
parse_parts i (s ∷ ss) =
    let rest = parse_parts (i + 1) ss in
    if is_empty s
    then rest
    else (do num ← or_error (atoi s) (part i); nums ← rest; value (num ∷ nums))

unfoldable pub parse_others : Str → OrError (List ℕ)
parse_others s = if is_empty s then value [] else parse_parts 0 (split b'.' s)

-- `if actuals[k] != "" { Atoi }`, with 0 for a group that took no part.
unfoldable pub parse_number : Str → VersionError → OrError ℕ
parse_number s e = if is_empty s then value 0 else or_error (atoi s) e

unfoldable pub first_rune : Str → ℕ
first_rune [] = 0
first_rune (c ∷ s) = c

-- The two switches. Their default branches answer for names that the expression cannot match.
unfoldable pub pre_modifier : Str → Option ℕ
pre_modifier s =
    if str_eq s (codes "_alpha")
    then some pre_modifier_alpha
    else if str_eq s (codes "_beta")
    then some pre_modifier_beta
    else if str_eq s (codes "_pre")
    then some pre_modifier_pre
    else if str_eq s (codes "_rc")
    then some pre_modifier_rc
    else if is_empty s
    then some pre_modifier_none
    else none

unfoldable pub post_modifier : Str → Option ℕ
post_modifier s =
    if str_eq s (codes "_cvs")
    then some post_modifier_cvs
    else if str_eq s (codes "_svn")
    then some post_modifier_svn
    else if str_eq s (codes "_git")
    then some post_modifier_git
    else if str_eq s (codes "_hg")
    then some post_modifier_hg
    else if str_eq s (codes "_p")
    then some post_modifier_p
    else if is_empty s
    then some post_modifier_none
    else none

-- The rest of ParseVersion, on the groups of the match.
unfoldable pub version_of : Groups → OrError Version
version_of g = do
  num ← or_error (atoi g.first) first_part
  nums ← parse_others g.others
  pre ← or_error (pre_modifier g.pre) bad_pre_suffix
  pre_num ← parse_number g.pre_number pre_suffix_number
  post ← or_error (post_modifier g.post) bad_post_suffix
  post_num ← parse_number g.post_number post_suffix_number
  rev ← parse_number g.revision revision_number
  value (record {
    numbers = num ∷ nums;
    letter = first_rune g.letter;
    pre_suffix = pre;
    pre_suffix_number = pre_num;
    post_suffix = post;
    post_suffix_number = post_num;
    revision = rev;
  })

unfoldable pub parse_version : Str → OrError Version
parse_version s = or_error (match_version s) could_not_parse >>= version_of
