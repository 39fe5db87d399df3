-- ===== src/Users/Memory.antt =====
-- A table of users in memory, with an index on their names. It meets the interface.
use guard_me.Prelude.{◌≡◌, refl, true, Option, none, some, List, arith, if◌then◌else◌}
use guard_me.Database.Memory.{memory}
use guard_me.Users.{User, UserTable, CreateError, known_request, is_taken}

abbrev pub insert : User → List User → Option CreateError
insert u table = if is_taken u.username table then some (known_request "P2002") else none

pub insert_taken :
    (u : User) (table : List User)
    → is_taken u.username table ≡ true
    → insert u table ≡ some (known_request "P2002")
insert_taken u table h = rw (h) refl

pub insert_free :
    (u : User) (table : List User)
    → insert u table ≡ some (known_request "P2002")
    → is_taken u.username table ≡ true
insert_free u table h = ground arith

abbrev pub user_table : UserTable
user_table = record {
  rows = memory;
  insert = insert;
  insert_taken = insert_taken;
  insert_free = insert_free;
}
