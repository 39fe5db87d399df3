-- ===== src/Vault.antt =====
-- The vault of passwords: apps/gateway-backend/src/modules/vault. Its data, and the keys in memory.
pub mod Crypto
pub mod Service
pub mod Secrets
mod Examples
use guard_me.Prelude.{
  ℕ, Bool, true, false, not, ◌&&◌, ◌≡◌, Option, none, some, List, [], ◌∷◌, ◌++◌, String, Result, ok,
  err, http, ◌>>=◌, Map, string_eq, set, delete, ltb, nat_beq, map, str_eq, if◌then◌else◌,
}
use guard_me.Text.{Text, ◌==◌, trim}
use guard_me.Users.{User}
use guard_me.Siem.{
  SiemEventType, MetaValue, string, walked, SecurityEventInput, vault_unlock_failure,
  vault_unlocked, vault_decrypt_failure,
}
use guard_me.Sessions.{Fingerprint}

pub record Encrypted : Type 0 where
  pub ciphertext : String
  pub iv : String
  pub auth_tag : String

pub record VaultCredential : Type 0 where
  pub id : String
  pub user_id : String
  pub service_name : Text
  pub username : Text
  pub encrypted : Encrypted
  pub created_at : ℕ
  pub updated_at : ℕ

pub record SummaryPayload : Type 0 where
  pub id : String
  pub service_name : Text
  pub username : Text
  pub created_at : ℕ
  pub updated_at : ℕ

pub record CreateVaultCredentialDto : Type 0 where
  pub service_name : Text
  pub username : Text
  pub password : String

pub record UpdateVaultCredentialDto : Type 0 where
  pub service_name : Option Text
  pub username : Option Text
  pub password : Option String

unfoldable pub to_summary_payload : VaultCredential → SummaryPayload
to_summary_payload row = record {
  id = row.id;
  service_name = row.service_name;
  username = row.username;
  created_at = row.created_at;
  updated_at = row.updated_at;
}

-- vault-key-cache.service.ts. Filling a key with zeros before it is dropped is not observable here.
module _ {Buffer : Type 0} where
  unfoldable pub is_unlocked : String → Map String Buffer → Bool
  is_unlocked user_id keys = elim (keys user_id) [ none ↦ false | some _ ↦ true ]

  -- `locked` of the status that is answered.
  unfoldable pub get_status : String → Map String Buffer → Bool
  unfolding is_unlocked
  get_status user_id keys = not (is_unlocked user_id keys)

  unfoldable pub clear_key : String → Map String Buffer → Map String Buffer
  clear_key user_id keys = delete keys user_id

  unfoldable pub set_key : String → Buffer → Map String Buffer → Map String Buffer
  unfolding clear_key
  set_key user_id key keys = set (clear_key user_id keys) user_id key

  unfoldable pub require_vault_key : String → Map String Buffer → Result Buffer
  require_vault_key user_id keys = elim (keys user_id) [
    | none ↦ err (http 401 "Vault is locked")
    | some key ↦ ok key
  ]

-- The keys, the tables of the users and of the credentials, and the security events that were logged.
pub record VaultState (Buffer : Type 0) : Type 0 where
  pub keys : Map String Buffer
  pub users : List User
  pub credentials : List VaultCredential
  pub events : List SecurityEventInput
