-- ===== src/Vault/Service.antt =====
-- vault.service.ts of apps/gateway-backend/src/modules/vault. The iv of an encryption, new
-- identifiers and the time are arguments.
use guard_me.Prelude.{
  ℕ, Bool, ◌&&◌, Option, none, some, List, [], ◌∷◌, ◌++◌, String, Result, ok, err, http, ◌>>=◌,
  string_eq, map, str_eq, if◌then◌else◌,
}
use guard_me.Text.{Text, trim}
use guard_me.Database.{Prisma}
use guard_me.Siem.{
  SiemEventType, MetaValue, string, walked, SecurityEventInput, vault_unlock_failure,
  vault_unlocked, vault_decrypt_failure,
}
use guard_me.Users.{User, find_by_id, update_last_auth_at, verify_password_hash}
use guard_me.Sessions.{Fingerprint}
use guard_me.Vault.{
  VaultCredential, SummaryPayload, CreateVaultCredentialDto, UpdateVaultCredentialDto,
  to_summary_payload, clear_key, set_key, require_vault_key, VaultState,
}
use guard_me.Vault.Crypto.{NodeCrypto, encrypt, decrypt, derive_vault_key}

abbrev user_event :
    SiemEventType → String → Option String → List (String × MetaValue) → SecurityEventInput
user_event type message user_id metadata = record {
  type = type;
  message = message;
  severity = none;
  user_id = user_id;
  metadata = metadata;
}

module _ {Buffer : Type 0} (crypto : NodeCrypto Buffer) (users : Prisma User) where
  unfoldable pub unlocked :
      String → String → String → ℕ → User → VaultState Buffer → VaultState Buffer
  unfolding set_key update_last_auth_at
  unlocked user_id username password now user s = record s {
    keys = set_key user_id (derive_vault_key crypto password user.kdf_salt) s.keys;
    users = update_last_auth_at users user_id now s.users;
    events =
        s.events
        ++ user_event vault_unlocked "Vault unlocked" none
            (("userId", string user_id) ∷ ("username", string username) ∷ [])
          ∷ [];
  }

  unfoldable pub unlock_refused :
      String → String → Fingerprint → VaultState Buffer → VaultState Buffer
  unlock_refused user_id username client s = record s {
    events =
        s.events
        ++ user_event vault_unlock_failure "Vault unlock failed" none (
            ("userId", string user_id)
            ∷ ("username", string username)
            ∷ ("clientIp", walked client.client_ip)
            ∷ ("userAgent", walked client.user_agent)
            ∷ [])
          ∷ [];
  }

  unfoldable pub unlock :
      (user_id username : String)
      → Fingerprint
      → (password_matches : String → String → Bool) → (password : String) → ℕ
      → VaultState Buffer
      → Result Unit × VaultState Buffer
  unfolding unlocked unlock_refused
  unlock user_id username client password_matches password now s =
      elim (find_by_id users user_id s.users) [
        | none ↦ (err (http 401 "Invalid password"), s)
        | some user ↦
            if verify_password_hash password_matches password user.password_hash
            then (ok tt, unlocked user_id username password now user s)
            else (err (http 401 "Invalid password"), unlock_refused user_id username client s)
      ]

module _ {Buffer : Type 0} where
  unfoldable pub lock : String → VaultState Buffer → VaultState Buffer
  unfolding clear_key
  lock user_id s = record s { keys = clear_key user_id s.keys }

module _ {Buffer : Type 0} (crypto : NodeCrypto Buffer) (db : Prisma VaultCredential) where
  unfoldable pub find_owned_credential :
      String → String → List VaultCredential → Result VaultCredential
  find_owned_credential user_id credential_id table =
      elim (db.find_first (λ r. str_eq r.id credential_id && str_eq r.user_id user_id) table) [
        | none ↦ err (http 404 "Vault credential not found")
        | some row ↦ ok row
      ]

  -- `before` orders by the service's name, and then by the time of the update, the latest first.
  unfoldable pub list_credentials :
      (VaultCredential → VaultCredential → Bool) → String → VaultState Buffer → List SummaryPayload
  list_credentials before user_id s =
      map to_summary_payload (db.find_many (λ r. str_eq r.user_id user_id) before s.credentials)

  -- The password, or what is thrown and logged where it cannot be decrypted.
  unfoldable pub reveal :
      (user_id credential_id : String)
      → VaultCredential
      → Buffer
      → VaultState Buffer
      → Result (SummaryPayload × String) × VaultState Buffer
  unfolding to_summary_payload
  reveal user_id credential_id row key s = elim (decrypt crypto row.encrypted key) [
    | some password ↦ (ok (to_summary_payload row, password), s)
    | none ↦ (
      err (http 422 "Stored credential could not be decrypted"),
      record s {
        events =
            s.events
            ++ user_event vault_decrypt_failure "Vault credential failed to decrypt" (some user_id)
                (("userId", string user_id) ∷ ("credentialId", string credential_id) ∷ [])
              ∷ [];
      },
    )
  ]

  unfoldable pub get_credential :
      String → String → VaultState Buffer → Result (SummaryPayload × String) × VaultState Buffer
  get_credential user_id credential_id s =
      elim (find_owned_credential user_id credential_id s.credentials) [
        | err e ↦ (err e, s)
        | ok row ↦ elim (require_vault_key user_id s.keys) [
          | err e ↦ (err e, s)
          | ok key ↦ reveal user_id credential_id row key s
        ]
      ]

  -- The row, with the identifier and the time that the database gives it.
  abbrev pub new_row :
      String → CreateVaultCredentialDto → Buffer → String → ℕ → Buffer → VaultCredential
  new_row user_id dto iv new_id now key = record {
    id = new_id;
    user_id = user_id;
    service_name = trim dto.service_name;
    username = trim dto.username;
    encrypted = encrypt crypto iv dto.password key;
    created_at = now;
    updated_at = now;
  }

  unfoldable pub create_credential :
      String
      → CreateVaultCredentialDto
      → (iv : Buffer) → (new_id : String) → ℕ
      → VaultState Buffer
      → Result (SummaryPayload × VaultState Buffer)
  create_credential user_id dto iv new_id now s = do
    key ← require_vault_key user_id s.keys
    let row = new_row user_id dto iv new_id now key
    ok (to_summary_payload row, record s { credentials = db.create row s.credentials })

  abbrev or_else : Option Text → Text → Text
  or_else none t = t
  or_else (some u) t = trim u

  unfoldable pub patch_credential :
      UpdateVaultCredentialDto → Buffer → ℕ → Buffer → VaultCredential → VaultCredential
  patch_credential dto iv now key row = record row {
    service_name = or_else dto.service_name row.service_name;
    username = or_else dto.username row.username;
    encrypted = elim dto.password [ none ↦ row.encrypted | some p ↦ encrypt crypto iv p key ];
    updated_at = now;
  }

  unfoldable pub update_credential :
      String
      → String
      → UpdateVaultCredentialDto
      → (iv : Buffer) → ℕ
      → VaultState Buffer
      → Result (SummaryPayload × VaultState Buffer)
  update_credential user_id credential_id dto iv now s = do
    existing ← find_owned_credential user_id credential_id s.credentials
    key ← require_vault_key user_id s.keys
    ok (
      to_summary_payload (patch_credential dto iv now key existing),
      record s {
        credentials =
            db.update_many (λ r. str_eq r.id credential_id) (patch_credential dto iv now key)
              s.credentials;
      },
    )

  unfoldable pub delete_credential :
      String → String → VaultState Buffer → Result (VaultState Buffer)
  delete_credential user_id credential_id s = do
    found ← find_owned_credential user_id credential_id s.credentials
    ok (record s { credentials = db.delete_many (λ r. str_eq r.id credential_id) s.credentials })
