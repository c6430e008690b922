-- ===== src/Samples/Accounts.antt =====
-- Users, groups and shadow entries as pkg/build/accounts.go adds them.
use apko.Version.Parse.Decimal.{decimal, decimal_from}
use apko.Base.{all_in, ◌≡◌, refl, [], ◌∷◌, ◌++◌, map, codes, arith}
use apko.Passwd.{
  UserEntry, GroupEntry, ShadowEntry, entry, load_users, write_users, load_groups, write_groups,
  load_shadow, write_shadow, join, leading_space, trailing_space, trim_with, trim_space,
}
use apko.Passwd.White.{leading_space-BeginsWhite, trailing_space-EndsWhite}
use apko.Passwd.RoundTrip.{
  IsUser, IsGroup, IsShadow, without_last_chg, load_users-write_users, load_groups-write_groups,
  load_shadow-write_shadow,
}

abbrev news : UserEntry
news = record {
  user_name = codes "news";
  password = codes "x";
  uid = 13;
  gid = 14;
  info = codes "news";
  home_dir = codes "/usr/lib/news";
  shell = codes "/sbin/nologin";
}

news-IsUser : IsUser news
unfolding join decimal decimal_from all_in leading_space trailing_space
news-IsUser = record {
  texts = ((refl, refl), ((refl, refl), ((refl, refl), ((refl, refl), ((refl, refl), tt)))));
  head = leading_space-BeginsWhite news.user_name refl;
  last = trailing_space-EndsWhite news.shell refl;
  uid = omega arith;
  gid = omega arith;
  fits = omega arith;
}

abbrev wheel : GroupEntry
wheel = record {
  group_name = codes "wheel";
  password = codes "x";
  gid = 10;
  members = codes "root" ∷ codes "nobody" ∷ [];
}

wheel-IsGroup : IsGroup wheel
unfolding join decimal decimal_from all_in leading_space trailing_space
wheel-IsGroup = record {
  name = (refl, refl);
  password = (refl, refl);
  members = (refl, (refl, tt));
  member_fields = ((refl, refl), ((refl, refl), tt));
  some_member = λ h. cc h;
  head = leading_space-BeginsWhite wheel.group_name refl;
  last = trailing_space-EndsWhite (join b',' wheel.members) refl;
  gid = omega arith;
  fits = omega arith;
}

abbrev locked : ShadowEntry
locked = record {
  user_name = codes "news";
  password = codes "!";
  last_chg = codes "19000";
  min = codes "0";
  max = codes "99999";
  warn = codes "7";
  inact = [];
  expire = [];
  flag = [];
}

locked-IsShadow : IsShadow locked
unfolding join decimal decimal_from all_in leading_space trailing_space
locked-IsShadow = record {
  texts = (
    (refl, refl),
    (
      (refl, refl),
      (
        (refl, refl),
        (
          (refl, refl),
          ((refl, refl), ((refl, refl), ((refl, refl), ((refl, refl), ((refl, refl), tt))))),
        ),
      ),
    ),
  );
  head = leading_space-BeginsWhite locked.user_name refl;
  last = trailing_space-EndsWhite locked.flag refl;
  fits = omega arith;
}

load_users-write_users_example :
    load_users (write_users (news ∷ news ∷ [])) ≡ entry (news ∷ news ∷ [])
load_users-write_users_example =
    load_users-write_users (news ∷ news ∷ []) (news-IsUser, (news-IsUser, tt))

load_groups-write_groups_example : load_groups (write_groups (wheel ∷ [])) ≡ entry (wheel ∷ [])
load_groups-write_groups_example = load_groups-write_groups (wheel ∷ []) (wheel-IsGroup, tt)

load_shadow-write_shadow_example :
    load_shadow (write_shadow (locked ∷ [])) ≡ entry (map without_last_chg (locked ∷ []))
load_shadow-write_shadow_example = load_shadow-write_shadow (locked ∷ []) (locked-IsShadow, tt)

-- A blank before a letter, and a no-break space and a thin space behind it.
no_break : trim_space (codes " a" ++ 194 ∷ 160 ∷ 226 ∷ 128 ∷ 137 ∷ []) ≡ codes "a"
unfolding trim_space trim_with leading_space trailing_space
no_break = refl
