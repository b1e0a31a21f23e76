-- ===== src/Runs/Accounts.antt =====
-- The user database of srvuserdb.c and the comparison of lib/stricmp.c at concrete inputs.
use frelay.Common.{
  ◌+◌, ◌<◌, ◌≤◌, ◌≡◌, ◌↔◌, refl, arith, [], ◌∷◌, true, codes, none, some, if◌then◌else◌, is_zero,
}
use frelay.Strings.{str_eq, stricmp}
use frelay.Strings.Compare.{lowered, stricmp_iff}
use frelay.UserDb.{
  User, UserDb, Disk, udb_load, udb_init, udb_save, udb_lookupname_, udb_addentry_, udb_dropentry_,
  udb_gettempid, is_name_char, all_name_chars, line_matches, some_line_matches, udb_nameisvalid,
}
use frelay.UserDb.Invariant.{IsValid, IdsBelow, max_id, udb_addentry_-IsValid}
use frelay.UserDb.Lookup.{is_some, looked_up, udb_lookupname_-drop, udb_lookupname_-add}
use frelay.UserDb.Lines.{IsPlain}
use frelay.UserDb.Saved.{udb_init-udb_save}
use frelay.UserDb.Load.{IsKeyed, udb_load-IsKeyed, udb_gettempid-fresh}

stricmp_iff_example :
    (is_zero (stricmp (codes "Bob") (codes "bOB")) ≡ true)
    ↔ (lowered (codes "Bob") ≡ lowered (codes "bOB"))
stricmp_iff_example =
    stricmp_iff (codes "Bob") (codes "bOB") (omega arith, (omega arith, (omega arith, tt)))
      (omega arith, (omega arith, (omega arith, tt)))

abbrev alice : User
alice = record { id = 2; name = codes "alice"; key = codes "plain-text one" }

abbrev bob : User
bob = record { id = 1; name = codes "bob"; key = codes "plain-text two" }

abbrev no_file : Disk
no_file = record { content = none; writable = true }

abbrev two_users : UserDb
two_users = record { userdb = alice ∷ bob ∷ []; next_id = 3; disk = no_file }

two_users-IsValid : IsValid two_users
unfolding is_name_char all_name_chars line_matches some_line_matches udb_nameisvalid
two_users-IsValid = record {
  distinct = (((λ e. cc), tt), (tt, tt));
  named = (refl, (refl, tt));
  below = ((omega arith, omega arith), ((omega arith, omega arith), tt));
  started = omega arith;
}

udb_addentry_-IsValid_example :
    IsValid (udb_addentry_ two_users 0 (some (codes "carol")) (some (codes "plain-text x"))).0
udb_addentry_-IsValid_example =
    udb_addentry_-IsValid two_users 0 (codes "carol") (codes "plain-text x") two_users-IsValid
      (omega arith) (omega arith)

udb_lookupname_-drop_example :
    (udb_lookupname_ (udb_dropentry_ two_users (codes "bob")).0 (codes "alice") ≡ (
      if str_eq (codes "alice") (codes "bob")
      then none
      else udb_lookupname_ two_users (codes "alice")))
    × ((udb_dropentry_ two_users (codes "bob")).1
        ≡ is_some (udb_lookupname_ two_users (codes "bob")))
udb_lookupname_-drop_example =
    udb_lookupname_-drop two_users (codes "bob") (codes "alice") two_users-IsValid.distinct

udb_lookupname_-add_example :
    udb_lookupname_
      (udb_addentry_ two_users 7 (some (codes "carol")) (some (codes "k"))).0
      (codes "carol")
    ≡ looked_up two_users 7 (codes "carol") (codes "k") (codes "carol")
udb_lookupname_-add_example =
    udb_lookupname_-add two_users 7 (codes "carol") (codes "k") (codes "carol")

-- A file with one account, one line twice, and one that is no account.
abbrev file : Disk
file = record {
  content =
      some (
        codes "0000000000000001|bob|plain-text two\n0000000000000002|bob|plain-text x\nnonsense\n");
  writable = true;
}

abbrev from_file : UserDb
from_file = record { userdb = []; next_id = 1; disk = file }

udb_load-IsKeyed_example : IsKeyed (udb_load from_file)
udb_load-IsKeyed_example = udb_load-IsKeyed from_file (record { distinct = tt; named = tt })

two_users-loaded : IsValid (udb_load two_users)
unfolding udb_load
two_users-loaded = two_users-IsValid

two_users-room : (udb_load two_users).next_id < max_id
unfolding udb_load
two_users-room = omega arith

udb_gettempid-fresh_example :
    IdsBelow (udb_gettempid two_users).1 (udb_gettempid two_users).0.userdb
    × (0 < (udb_gettempid two_users).1)
    × ((udb_gettempid two_users).0.userdb ≡ (udb_load two_users).userdb)
    × IsValid (udb_gettempid two_users).0
    × ((udb_gettempid (udb_gettempid two_users).0).1 ≡ (udb_gettempid two_users).1 + 1)
udb_gettempid-fresh_example = udb_gettempid-fresh two_users two_users-loaded two_users-room

-- A database with one account, whose key is short.
abbrev carol : User
carol = record { id = 2; name = codes "abc"; key = codes "k" }

abbrev one_user : UserDb
one_user = record { userdb = carol ∷ []; next_id = 3; disk = no_file }

one_user-IsValid : IsValid one_user
unfolding is_name_char all_name_chars line_matches some_line_matches udb_nameisvalid
one_user-IsValid = record {
  distinct = (tt, tt);
  named = (refl, tt);
  below = ((omega arith, omega arith), tt);
  started = omega arith;
}

carol-IsPlain : IsPlain carol
carol-IsPlain = record {
  positive = omega arith;
  small = omega arith;
  valid = one_user-IsValid.named.0;
  single = (
    (λ e. absurd (omega (arith, e))),
    ((λ e. absurd (omega (arith, e))), ((λ e. absurd (omega (arith, e))), tt)),
  );
  no_terminator = ((λ e. absurd (omega (arith, e))), tt);
  no_feed = ((λ e. absurd (omega (arith, e))), tt);
  no_return = ((λ e. absurd (omega (arith, e))), tt);
  short = omega arith;
}

udb_init-udb_save_example :
    (udb_lookupname_ (udb_init (udb_save one_user).disk) (codes "abc")
      ≡ udb_lookupname_ one_user (codes "abc"))
    × IsValid (udb_init (udb_save one_user).disk)
    × ((udb_init (udb_save one_user).disk).next_id ≤ 3)
udb_init-udb_save_example =
    udb_init-udb_save one_user (codes "abc") one_user-IsValid (carol-IsPlain, tt) (omega arith) refl
