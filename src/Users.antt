-- ===== src/Users.antt =====
-- Users: apps/gateway-backend/src/modules/users/users.service.ts and common/utils/password.util.ts.
-- The clock, new identifiers, random salts and argon2 are arguments.
pub mod Registered
pub mod Memory
use guard_me.Prelude.{
  ℕ, Bool, true, false, ◌≡◌, Option, none, some, List, String, Result, ok, err, http, Exception,
  failure, any, str_eq, if◌then◌else◌,
}
use guard_me.Database.{Prisma}

pub record User : Type 0 where
  pub id : String
  pub username : String
  pub password_hash : String
  pub kdf_salt : String
  pub last_auth_at : Option ℕ
  pub created_at : ℕ

pub record CreateUserInput : Type 0 where
  pub username : String
  pub password : String

pub record PublicUserProfile : Type 0 where
  pub id : String
  pub username : String
  pub created_at : ℕ
  pub last_auth_at : Option ℕ

-- What `prisma.user.create` throws: an error with a code, or another one.
pub data CreateError : Type 0 where
  known_request : (code : String) → CreateError
  unknown : String → CreateError

abbrev pub is_taken : String → List User → Bool
is_taken username table = any (λ u. str_eq u.username username) table

-- The table of the users, where `insert` may fail. What is relied on: the unique index on user
-- names refuses a name that is there with the code P2002, and refuses no other row with that code.
pub record UserTable : Type 0 where
  pub rows : Prisma User
  pub insert : User → List User → Option CreateError
  pub insert_taken :
      (u : User) (table : List User)
      → is_taken u.username table ≡ true
      → insert u table ≡ some (known_request "P2002")
  pub insert_free :
      (u : User) (table : List User)
      → insert u table ≡ some (known_request "P2002")
      → is_taken u.username table ≡ true

module _ (users : Prisma User) where
  unfoldable pub find_by_id : String → List User → Option User
  find_by_id id table = users.find_first (λ u. str_eq u.id id) table

  unfoldable pub find_by_username : String → List User → Option User
  find_by_username username table = users.find_first (λ u. str_eq u.username username) table

  abbrev pub set_last_auth_at : ℕ → User → User
  set_last_auth_at now u = record u { last_auth_at = some now }

  unfoldable pub update_last_auth_at : String → ℕ → List User → List User
  update_last_auth_at user_id now table =
      users.update_many (λ u. str_eq u.id user_id) (set_last_auth_at now) table

unfoldable pub to_public_profile : User → PublicUserProfile
to_public_profile user = record {
  id = user.id;
  username = user.username;
  created_at = user.created_at;
  last_auth_at = user.last_auth_at;
}

-- The exception for an error of the database.
unfoldable pub create_failed : CreateError → Exception
create_failed (known_request code) =
    if str_eq code "P2002" then http 409 "Username is already taken" else failure code
create_failed (unknown message) = failure message

-- `hash` is argon2 with its random salt, and `kdf_salt` the base64 of 32 random bytes.
module _ (users : UserTable) (hash : String → String) where
  abbrev new_user : CreateUserInput → (new_id kdf_salt : String) → ℕ → User
  new_user input new_id kdf_salt now = record {
    id = new_id;
    username = input.username;
    password_hash = hash input.password;
    kdf_salt = kdf_salt;
    last_auth_at = none;
    created_at = now;
  }

  unfoldable pub create :
      CreateUserInput → (new_id kdf_salt : String) → ℕ → List User → Result User × List User
  unfolding create_failed
  create input new_id kdf_salt now table =
      let user = new_user input new_id kdf_salt now in
      elim (users.insert user table) [
        | some e ↦ (err (create_failed e), table)
        | none ↦ (ok user, users.rows.create user table)
      ]

-- `password_matches` is `argon2.verify` on a hash. A user that is not there, or has no hash, gets
-- the answer false, after a verification against a hash that is no one's.
module _ (password_matches : String → String → Bool) where
  unfoldable pub verify_password_hash : (password password_hash : String) → Bool
  verify_password_hash password password_hash = password_matches password_hash password

  unfoldable pub verify_password_timing_safe : (password : String) → Option String → Bool
  unfolding verify_password_hash
  verify_password_timing_safe password none = false
  verify_password_timing_safe password (some password_hash) =
      if str_eq password_hash "" then false else verify_password_hash password password_hash
