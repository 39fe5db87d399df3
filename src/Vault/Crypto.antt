-- ===== src/Vault/Crypto.antt =====
-- crypto.service.ts of apps/gateway-backend/src/modules/vault.
use guard_me.Prelude.{◌≡◌, Option, none, some, String, string_eq}
use guard_me.Vault.{Encrypted}

-- What crypto.service.ts takes from Node and argon2. `argon2_hash` has the costs of vault.config.ts,
-- `seal` is the AES-256-GCM cipher with its tag, and `unseal` fails where the tag does not fit. Relied
-- on: an encoding is decoded, and what was sealed under a key and iv is unsealed with them.
pub record NodeCrypto (Buffer : Type 0) : Type 0 where
  pub from_base64 : String → Buffer
  pub to_base64 : Buffer → String
  pub from_utf8 : String → Buffer
  pub to_utf8 : Buffer → String
  pub argon2_hash : (password : String) (salt : Buffer) → Buffer
  pub seal : (key iv plaintext : Buffer) → Buffer × Buffer
  pub unseal : (key iv auth_tag ciphertext : Buffer) → Option Buffer
  pub from_base64-to_base64 : (b : Buffer) → from_base64 (to_base64 b) ≡ b
  pub to_utf8-from_utf8 : (t : String) → to_utf8 (from_utf8 t) ≡ t
  pub unseal-seal :
      (key iv plaintext : Buffer)
      → unseal key iv (seal key iv plaintext).1 (seal key iv plaintext).0 ≡ some plaintext

-- crypto.service.ts. `iv` is what `randomBytes` gives.
module _ {Buffer : Type 0} (crypto : NodeCrypto Buffer) where
  unfoldable pub derive_vault_key : (password kdf_salt_base64 : String) → Buffer
  derive_vault_key password kdf_salt_base64 =
      crypto.argon2_hash password (crypto.from_base64 kdf_salt_base64)

  unfoldable pub encrypt : (iv : Buffer) → (plaintext : String) → (key : Buffer) → Encrypted
  encrypt iv plaintext key =
      let (encrypted, auth_tag) = crypto.seal key iv (crypto.from_utf8 plaintext) in
      record {
        ciphertext = crypto.to_base64 encrypted;
        iv = crypto.to_base64 iv;
        auth_tag = crypto.to_base64 auth_tag;
      }

  unfoldable pub decrypt : Encrypted → (key : Buffer) → Option String
  decrypt payload key =
      elim (crypto.unseal key (crypto.from_base64 payload.iv) (crypto.from_base64 payload.auth_tag)
        (crypto.from_base64 payload.ciphertext)) [
          | none ↦ none
          | some decrypted ↦ some (crypto.to_utf8 decrypted)
        ]
