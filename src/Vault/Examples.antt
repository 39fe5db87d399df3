-- ===== src/Vault/Examples.antt =====
-- The vault's theorems at work: a cipher that hides nothing, one user and one stored credential.
use guard_me.Prelude.{
  Bool, ◌≡◌, ◌≢◌, refl, inl, inr, some, [], ◌∷◌, In, arith, str_eq_iff, find, filter, String, ok,
  string_eq, ℕ,
}
use guard_me.Database.Memory.{memory}
use guard_me.Vault.{
  VaultCredential, VaultState, SummaryPayload, CreateVaultCredentialDto, UpdateVaultCredentialDto,
  require_vault_key, to_summary_payload,
}
use guard_me.Vault.Crypto.{NodeCrypto, decrypt}
use guard_me.Vault.Service.{
  list_credentials, get_credential, create_credential, update_credential, find_owned_credential,
  reveal, lock,
}
use guard_me.Vault.Secrets.{
  get_credential_sound, get_credential-create_credential, get_credential-lock,
}

abbrev plain : NodeCrypto String
plain = record {
  from_base64 = λ t. t;
  to_base64 = λ t. t;
  from_utf8 = λ t. t;
  to_utf8 = λ t. t;
  argon2_hash = λ password salt. password;
  seal = λ key iv plaintext. (plaintext, key);
  unseal = λ key iv auth_tag ciphertext. some ciphertext;
  from_base64-to_base64 = λ b. refl;
  to_utf8-from_utf8 = λ t. refl;
  unseal-seal = λ key iv plaintext. refl;
}

abbrev mail : VaultCredential
mail = record {
  id = "c1";
  user_id = "ann";
  service_name = 1 ∷ [];
  username = 2 ∷ [];
  encrypted = record { ciphertext = "secret"; iv = "i"; auth_tag = "k" };
  created_at = 1;
  updated_at = 1;
}

abbrev unlocked_vault : VaultState String
unlocked_vault = record { keys = λ j. some "k"; users = []; credentials = mail ∷ []; events = [] }

abbrev shop : CreateVaultCredentialDto
shop = record { service_name = 32 ∷ 3 ∷ []; username = 4 ∷ []; password = "pass" }

shown_mail :
    (get_credential plain memory "ann" "c1" unlocked_vault).0
    ≡ ok (to_summary_payload mail, "secret")
unfolding get_credential find_owned_credential require_vault_key reveal decrypt memory find filter
shown_mail = refl

get_credential_sound_example :
    (row : VaultCredential) × (key : String) × In row (mail ∷ [])
    × (row.id ≡ "c1")
    × (row.user_id ≡ "ann")
    × (some "k" ≡ some key)
    × (decrypt plain row.encrypted key ≡ some "secret")
    × (to_summary_payload mail ≡ to_summary_payload row)
get_credential_sound_example =
    get_credential_sound plain memory "ann" "c1" unlocked_vault (to_summary_payload mail) "secret"
      shown_mail

other_ids : (r : VaultCredential) → In r (mail ∷ []) → r.id ≢ "c2"
other_ids r (inl e) q = ground (arith, str_eq_iff "c1" "c2")
other_ids r (inr m) q = elim m [ ]

get_credential-create_credential_example :
    (summary : SummaryPayload) × (after : VaultState String) × (create_credential plain memory "ann"
        shop "i" "c2" 5 unlocked_vault
      ≡ ok (summary, after))
    × ((get_credential plain memory "ann" "c2" after).0 ≡ ok (summary, "pass"))
get_credential-create_credential_example =
    get_credential-create_credential plain memory "ann" shop "i" "c2" 5 "k" unlocked_vault refl
      other_ids

get_credential-lock_example :
    ((shown : SummaryPayload × String)
      → (get_credential plain memory "ann" "c1" (lock "ann" unlocked_vault)).0 ≢ ok shown)
    × ((dto : CreateVaultCredentialDto) (iv : String) (new_id : String) (now : ℕ)
          (end : SummaryPayload × VaultState String)
        → create_credential plain memory "ann" dto iv new_id now (lock "ann" unlocked_vault)
          ≢ ok end)
    × ((dto : UpdateVaultCredentialDto) (iv : String) (now : ℕ)
          (end : SummaryPayload × VaultState String)
        → update_credential plain memory "ann" "c1" dto iv now (lock "ann" unlocked_vault) ≢ ok end)
    × ((before : VaultCredential → VaultCredential → Bool)
        → list_credentials plain memory before "ann" (lock "ann" unlocked_vault)
          ≡ list_credentials plain memory before "ann" unlocked_vault)
    × ((other : String) → other ≢ "ann" → (lock "ann" unlocked_vault).keys other ≡ some "k")
get_credential-lock_example = get_credential-lock plain memory "ann" "c1" unlocked_vault
