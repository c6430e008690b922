-- ===== src/Passwd/RoundTrip.antt =====
-- What pkg/passwd reads back from the files that it writes.
use apko.Base.{
  ℕ, ◌≡◌, refl, ap, ◌∙◌, ◌≢◌, ◌<◌, ◌^◌, true, false, List, [], ◌∷◌, map, arith, Str, is_empty,
  all_in, is_digit, split, All, length, reverse,
}
use apko.Version.Parse.Decimal.{decimal, decimal-digits, decimal-ne-nil, digits_value-decimal}
use apko.Passwd.{
  UserEntry, GroupEntry, ShadowEntry, entry, leading_space, trailing_space, trim_space, join,
  parse_id, user_of, parse_user, group_of, parse_group, shadow_of, parse_shadow, user_line,
  group_line, shadow_line, max_token, load_users, write_users, load_groups, write_groups,
  load_shadow, write_shadow,
}
use apko.Passwd.White.{BeginsWhite, EndsWhite, leading_space-none, trailing_space-none}
use apko.Passwd.Fields.{
  Lacks, split-join, trim_space_lem, last_field, leading_space-join, trailing_space-join,
}
use apko.Passwd.Lines.{Lacks-join, IsLine, load_lines-write_lines}

parse_id-decimal : (n : ℕ) → n < 2 ^ 32 → parse_id (decimal n) ≡ entry n
unfolding parse_id
parse_id-decimal n h =
    rw (nonempty (decimal n) (decimal-ne-nil n), decimal-digits n, digits_value-decimal n)
      (ground arith)
  where
    nonempty : (s : Str) → s ≢ [] → is_empty s ≡ false
    nonempty [] k = absurd (k refl)
    nonempty (c ∷ s) k = refl

digits-Lacks : (c : ℕ) (s : Str) → is_digit c ≡ false → all_in is_digit s ≡ true → Lacks c s
unfolding all_in is_digit
digits-Lacks c [] h k = refl
digits-Lacks c (d ∷ s) h k = ground (arith, digits-Lacks c s h)

decimal-Lacks : (c n : ℕ) → is_digit c ≡ false → Lacks c (decimal n)
decimal-Lacks c n h = digits-Lacks c (decimal n) h (decimal-digits n)

-- A field is free of colons and line feeds.
abbrev pub IsField : Str → Type 0
IsField s = Lacks b':' s × Lacks 10 s

decimal-IsField : (n : ℕ) → IsField (decimal n)
unfolding is_digit
decimal-IsField n = (decimal-Lacks b':' n refl, decimal-Lacks 10 n refl)

All-left : (xs : List Str) → All IsField xs → All (Lacks b':') xs
All-left [] h = tt
All-left (x ∷ xs) ((a, b), h) = (a, All-left xs h)

All-right : (xs : List Str) → All IsField xs → All (Lacks 10) xs
All-right [] h = tt
All-right (x ∷ xs) ((a, b), h) = (b, All-right xs h)

-- A line of fields: at least two, without white space at the ends.
record IsRecord (x y : Str) (xs : List Str) : Type 0 where
  fields : All IsField (x ∷ y ∷ xs)
  head : leading_space x ≡ 0
  last : trailing_space (reverse (last_field y xs)) ≡ 0

module _ (x y : Str) (xs : List Str) (r : IsRecord x y xs) where
  split-line : split b':' (trim_space (join b':' (x ∷ y ∷ xs))) ≡ x ∷ y ∷ xs
  split-line =
      ap (split b':') (
        trim_space_lem _ (leading_space-join x y xs r.head) (trailing_space-join x (y ∷ xs) r.last))
      ∙ split-join b':' x (y ∷ xs) (All-left (x ∷ y ∷ xs) r.fields)

  one_line : Lacks 10 (join b':' (x ∷ y ∷ xs))
  one_line = Lacks-join b':' 10 (x ∷ y ∷ xs) refl (All-right (x ∷ y ∷ xs) r.fields)

  ending : trailing_space (reverse (join b':' (x ∷ y ∷ xs))) ≡ 0
  ending = trailing_space-join x (y ∷ xs) r.last

-- A user as it can be written: fields without colons and line feeds, no white space where a line
-- begins or ends, ids of 32 bits, and a line that the scanner takes.
pub record IsUser (e : UserEntry) : Type 0 where
  pub texts : All IsField (e.user_name ∷ e.password ∷ e.info ∷ e.home_dir ∷ e.shell ∷ [])
  pub head : ¬ BeginsWhite e.user_name
  pub last : ¬ EndsWhite e.shell
  pub uid : e.uid < 2 ^ 32
  pub gid : e.gid < 2 ^ 32
  pub fits : length (user_line e) < max_token

user-IsLine : (e : UserEntry) → IsUser e → IsLine parse_user user_line (λ x. x) e
unfolding parse_user
user-IsLine e u =
    let (n, (p, (i, (h, (s, _))))) = u.texts in
    let r : IsRecord e.user_name e.password
        (decimal e.uid ∷ decimal e.gid ∷ e.info ∷ e.home_dir ∷ e.shell ∷ []) =
      record {
        fields = (n, (p, (decimal-IsField e.uid, (decimal-IsField e.gid, (i, (h, (s, tt)))))));
        head = leading_space-none e.user_name u.head;
        last = trailing_space-none e.shell u.last;
      } in
    record {
      parsed =
          ap user_of (split-line _ _ _ r)
          ∙ rw (parse_id-decimal e.uid u.uid, parse_id-decimal e.gid u.gid) refl;
      one_line = one_line _ _ _ r;
      ending = ending _ _ _ r;
      fits = u.fits;
    }

map_same : {A : Type 0} (l : List A) → map (λ x. x) l ≡ l
map_same [] = refl
map_same (x ∷ l) = ap (◌∷◌ x) (map_same l)

All-map : {A : Type 0} (P Q : A → Type 0) (f : (a : A) → P a → Q a) (l : List A) → All P l → All Q l
All-map P Q f [] h = tt
All-map P Q f (x ∷ l) (h, hs) = (f x h, All-map P Q f l hs)

-- The users that are written to /etc/passwd are the users that are read back, if each of them has
-- fields without colons and line feeds, a name that does not begin with white space, a shell that
-- does not end with it, ids below 2 ^ 32, and a line of less than 65,536 bytes.
pub load_users-write_users :
    (es : List UserEntry) → All IsUser es → load_users (write_users es) ≡ entry es
unfolding load_users write_users
load_users-write_users es h =
    load_lines-write_lines parse_user user_line (λ x. x) es
      (All-map IsUser (IsLine parse_user user_line (λ x. x)) user-IsLine es h)
    ∙ ap entry (map_same es)

-- A group as it can be written: at least one member (a group without members is read back with one
-- whose name is empty), and no commas in the names of the members.
pub record IsGroup (e : GroupEntry) : Type 0 where
  pub name : IsField e.group_name
  pub password : IsField e.password
  pub members : All (Lacks b',') e.members
  pub member_fields : All IsField e.members
  pub some_member : e.members ≢ []
  pub head : ¬ BeginsWhite e.group_name
  pub last : ¬ EndsWhite (join b',' e.members)
  pub gid : e.gid < 2 ^ 32
  pub fits : length (group_line e) < max_token

split-members : (ms : List Str) → ms ≢ [] → All (Lacks b',') ms → split b',' (join b',' ms) ≡ ms
split-members [] h a = absurd (h refl)
split-members (m ∷ ms) h a = split-join b',' m ms a

group-IsLine : (e : GroupEntry) → IsGroup e → IsLine parse_group group_line (λ x. x) e
unfolding parse_group
group-IsLine e u =
    let members : IsField (join b',' e.members) = (
      Lacks-join b',' b':' e.members refl (All-left e.members u.member_fields),
      Lacks-join b',' 10 e.members refl (All-right e.members u.member_fields),
    ) in
    let r : IsRecord e.group_name e.password (decimal e.gid ∷ join b',' e.members ∷ []) = record {
      fields = (u.name, (u.password, (decimal-IsField e.gid, (members, tt))));
      head = leading_space-none e.group_name u.head;
      last = trailing_space-none (join b',' e.members) u.last;
    } in
    record {
      parsed =
          ap group_of (split-line _ _ _ r)
          ∙ rw (parse_id-decimal e.gid u.gid, split-members e.members u.some_member u.members) refl;
      one_line = one_line _ _ _ r;
      ending = ending _ _ _ r;
      fits = u.fits;
    }

-- The groups that are written to /etc/group are the groups that are read back, if each of them has
-- at least one member, fields and members without colons and line feeds, members without commas, a
-- name that does not begin with white space, a list of members that does not end with it, an id
-- below 2 ^ 32, and a line of less than 65,536 bytes.
pub load_groups-write_groups :
    (es : List GroupEntry) → All IsGroup es → load_groups (write_groups es) ≡ entry es
unfolding load_groups write_groups
load_groups-write_groups es h =
    load_lines-write_lines parse_group group_line (λ x. x) es
      (All-map IsGroup (IsLine parse_group group_line (λ x. x)) group-IsLine es h)
    ∙ ap entry (map_same es)

-- An entry of /etc/shadow as it can be written.
pub record IsShadow (e : ShadowEntry) : Type 0 where
  pub texts : All IsField (
      e.user_name ∷ e.password ∷ e.last_chg ∷ e.min ∷ e.max ∷ e.warn ∷ e.inact ∷ e.expire ∷ e.flag
      ∷ [])
  pub head : ¬ BeginsWhite e.user_name
  pub last : ¬ EndsWhite e.flag
  pub fits : length (shadow_line e) < max_token

abbrev pub without_last_chg : ShadowEntry → ShadowEntry
without_last_chg e = record e { last_chg = [] }

shadow-IsLine : (e : ShadowEntry) → IsShadow e → IsLine parse_shadow shadow_line without_last_chg e
unfolding parse_shadow
shadow-IsLine e u =
    let r : IsRecord e.user_name e.password
        (e.last_chg ∷ e.min ∷ e.max ∷ e.warn ∷ e.inact ∷ e.expire ∷ e.flag ∷ []) =
      record {
        fields = u.texts;
        head = leading_space-none e.user_name u.head;
        last = trailing_space-none e.flag u.last;
      } in
    record {
      parsed = ap shadow_of (split-line _ _ _ r);
      one_line = one_line _ _ _ r;
      ending = ending _ _ _ r;
      fits = u.fits;
    }

-- The entries that are written to /etc/shadow are read back without their days of last change, and
-- with all else that they hold, if each of them has fields without colons and line feeds, a name
-- that does not begin with white space, a last field that does not end with it, and a line of less
-- than 65,536 bytes.
pub load_shadow-write_shadow :
    (es : List ShadowEntry)
    → All IsShadow es
    → load_shadow (write_shadow es) ≡ entry (map without_last_chg es)
unfolding load_shadow write_shadow
load_shadow-write_shadow es h =
    load_lines-write_lines parse_shadow shadow_line without_last_chg es
      (All-map IsShadow (IsLine parse_shadow shadow_line without_last_chg) shadow-IsLine es h)
