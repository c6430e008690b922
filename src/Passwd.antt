-- ===== src/Passwd.antt =====
-- pkg/passwd: the entries of /etc/passwd, /etc/group and /etc/shadow, read from text and written
-- back. Texts are lists of bytes, in which characters are encoded in UTF-8.
pub mod White
pub mod Fields
pub mod Lines
pub mod RoundTrip
use apko.Base.{
  ℕ, zero, suc, ◌+◌, ◌*◌, ◌-◌, ◌^◌, Bool, true, false, ◌&&◌, ◌||◌, List, [], ◌∷◌, ◌++◌, ltb, leb,
  ◌==◌, if◌then◌else◌, Str, is_empty, all_in, is_digit, split, length, reverse,
}
use apko.Version.Parse.{digits_value}
use apko.Version.Parse.Decimal.{decimal}

pub data PasswdError : Type 0 where
  malformed : ℕ → PasswdError
  bad_id : Str → PasswdError
  line_too_long : PasswdError

pub data Reading (A : Type 0) : Type 0 where
  fault : PasswdError → Reading A
  entry : A → Reading A

infixl 5 ◌>>=◌
abbrev pub ◌>>=◌ : {A B : Type 0} → Reading A → (A → Reading B) → Reading B
fault reason >>= next = fault reason
entry parsed >>= next = next parsed

pub record UserEntry : Type 0 where
  pub user_name : Str
  pub password : Str
  pub uid : ℕ
  pub gid : ℕ
  pub info : Str
  pub home_dir : Str
  pub shell : Str

pub record GroupEntry : Type 0 where
  pub group_name : Str
  pub password : Str
  pub gid : ℕ
  pub members : List Str

pub record ShadowEntry : Type 0 where
  pub user_name : Str
  pub password : Str
  pub last_chg : Str
  pub min : Str
  pub max : Str
  pub warn : Str
  pub inact : Str
  pub expire : Str
  pub flag : Str

-- The white space of unicode.IsSpace by the number of bytes that encode it in UTF-8: one byte (tab to
-- carriage return, and the blank), two (U+0085 and U+00A0) and three (U+1680, U+2000 to U+200A,
-- U+2028, U+2029, U+202F, U+205F and U+3000).
abbrev pub is_space : ℕ → Bool
is_space c = (leb 9 c && leb c 13) || c == 32

abbrev pub is_space_pair : ℕ → ℕ → Bool
is_space_pair c d = c == 194 && (d == 133 || d == 160)

abbrev pub is_space_triple : ℕ → ℕ → ℕ → Bool
is_space_triple c d e =
    (c == 225 && d == 154 && e == 128)
    || (c == 226 && d == 128 && ((leb 128 e && leb e 138) || e == 168 || e == 169 || e == 175))
    || (c == 226 && d == 129 && e == 159)
    || (c == 227 && d == 128 && e == 128)

-- The length of the white space character that a text begins with, 0 without one.
unfoldable pub leading_space : Str → ℕ
leading_space [] = 0
leading_space (c ∷ []) = if is_space c then 1 else 0
leading_space (c ∷ d ∷ []) = if is_space c then 1 else if is_space_pair c d then 2 else 0
leading_space (c ∷ d ∷ e ∷ s) =
    if is_space c
    then 1
    else if is_space_pair c d
    then 2
    else if is_space_triple c d e
    then 3
    else 0

-- The length of the white space character that a text ends with; its bytes are given backwards.
unfoldable pub trailing_space : Str → ℕ
trailing_space [] = 0
trailing_space (c ∷ []) = if is_space c then 1 else 0
trailing_space (c ∷ d ∷ []) = if is_space c then 1 else if is_space_pair d c then 2 else 0
trailing_space (c ∷ d ∷ e ∷ s) =
    if is_space c
    then 1
    else if is_space_pair d c
    then 2
    else if is_space_triple e d c
    then 3
    else 0

-- A text without the first bytes, of the given number, and without the white space behind them.
unfoldable pub trim_with : (Str → ℕ) → ℕ → Str → Str
trim_with size n [] = []
trim_with size (suc n) (c ∷ s) = trim_with size n s
trim_with size zero (c ∷ s) = elim (size (c ∷ s)) [ zero ↦ c ∷ s | suc n ↦ trim_with size n s ]

-- strings.TrimSpace
unfoldable pub trim_space : Str → Str
trim_space s = reverse (trim_with trailing_space 0 (reverse (trim_with leading_space 0 s)))

-- strings.Join for a separator of one byte.
unfoldable pub join : ℕ → List Str → Str
join sep [] = []
join sep (x ∷ []) = x
join sep (x ∷ y ∷ xs) = x ++ sep ∷ join sep (y ∷ xs)

-- parseID, with strconv.ParseUint of 32 bits in base 10.
unfoldable pub parse_id : Str → Reading ℕ
unfolding digits_value
parse_id s =
    if is_empty s
    then fault (bad_id s)
    else if all_in is_digit s && ltb (digits_value 0 s) (2 ^ 32)
    then entry (digits_value 0 s)
    else fault (bad_id s)

abbrev pub user_of : List Str → Reading UserEntry
user_of (name ∷ password ∷ uid_text ∷ gid_text ∷ info ∷ home ∷ shell ∷ []) = do
  uid ← parse_id uid_text
  gid ← parse_id gid_text
  entry (record {
    user_name = name;
    password = password;
    uid = uid;
    gid = gid;
    info = info;
    home_dir = home;
    shell = shell;
  })
user_of parts = fault (malformed (length parts))

-- UserEntry.Parse
unfoldable pub parse_user : Str → Reading UserEntry
parse_user line = user_of (split b':' (trim_space line))

abbrev pub group_of : List Str → Reading GroupEntry
group_of (name ∷ password ∷ gid_text ∷ members ∷ []) = do
  gid ← parse_id gid_text
  entry (record { group_name = name; password = password; gid = gid; members = split b',' members })
group_of parts = fault (malformed (length parts))

-- GroupEntry.Parse
unfoldable pub parse_group : Str → Reading GroupEntry
parse_group line = group_of (split b':' (trim_space line))

-- The third part, the day of the last change, is not stored.
abbrev pub shadow_of : List Str → Reading ShadowEntry
shadow_of (name ∷ password ∷ changed ∷ min ∷ max ∷ warn ∷ inact ∷ expire ∷ flag ∷ []) =
    entry (record {
      user_name = name;
      password = password;
      last_chg = [];
      min = min;
      max = max;
      warn = warn;
      inact = inact;
      expire = expire;
      flag = flag;
    })
shadow_of parts = fault (malformed (length parts))

-- ShadowEntry.Parse
unfoldable pub parse_shadow : Str → Reading ShadowEntry
parse_shadow line = shadow_of (split b':' (trim_space line))

-- The lines of the Write methods, without the line feed.
abbrev pub user_line : UserEntry → Str
user_line e =
    join b':' (
      e.user_name ∷ e.password ∷ decimal e.uid ∷ decimal e.gid ∷ e.info ∷ e.home_dir ∷ e.shell ∷ [])

abbrev pub group_line : GroupEntry → Str
group_line e = join b':' (e.group_name ∷ e.password ∷ decimal e.gid ∷ join b',' e.members ∷ [])

abbrev pub shadow_line : ShadowEntry → Str
shadow_line e = join b':' (
    e.user_name ∷ e.password ∷ e.last_chg ∷ e.min ∷ e.max ∷ e.warn ∷ e.inact ∷ e.expire ∷ e.flag
    ∷ [])

-- bufio.ScanLines: the lines, of which the last is left out if it is empty.
unfoldable pub drop_last_empty : List Str → List Str
drop_last_empty [] = []
drop_last_empty (x ∷ []) = if is_empty x then [] else x ∷ []
drop_last_empty (x ∷ y ∷ xs) = x ∷ drop_last_empty (y ∷ xs)

unfoldable pub lines_of : Str → List Str
lines_of s = drop_last_empty (split 10 s)

-- A carriage return at the end of a line is dropped.
unfoldable pub drop_cr : Str → Str
drop_cr [] = []
drop_cr (c ∷ []) = if c == 13 then [] else c ∷ []
drop_cr (c ∷ d ∷ s) = c ∷ drop_cr (d ∷ s)

-- The length at which a bufio.Scanner gives up on a line.
abbrev pub max_token : ℕ
max_token = 65536

module _ {A : Type 0} where
  -- The loop of the Load methods over the lines.
  unfoldable pub load_lines : (Str → Reading A) → List Str → Reading (List A)
  load_lines parse [] = entry []
  load_lines parse (line ∷ lines) =
      if ltb (length line) max_token
      then (do e ← parse (drop_cr line); es ← load_lines parse lines; entry (e ∷ es))
      else fault line_too_long

  -- The loop of the Write methods.
  unfoldable pub write_lines : (A → Str) → List A → Str
  write_lines line [] = []
  write_lines line (e ∷ es) = line e ++ 10 ∷ write_lines line es

-- UserFile.Load and UserFile.Write
unfoldable pub load_users : Str → Reading (List UserEntry)
load_users s = load_lines parse_user (lines_of s)

unfoldable pub write_users : List UserEntry → Str
write_users es = write_lines user_line es

-- GroupFile.Load and GroupFile.Write
unfoldable pub load_groups : Str → Reading (List GroupEntry)
load_groups s = load_lines parse_group (lines_of s)

unfoldable pub write_groups : List GroupEntry → Str
write_groups es = write_lines group_line es

-- ShadowFile.Load and ShadowFile.Write
unfoldable pub load_shadow : Str → Reading (List ShadowEntry)
load_shadow s = load_lines parse_shadow (lines_of s)

unfoldable pub write_shadow : List ShadowEntry → Str
write_shadow es = write_lines shadow_line es
