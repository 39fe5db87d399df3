-- ===== src/Vault/Secrets.antt =====
-- The secrets of the vault: vault.service.ts of apps/gateway-backend/src/modules/vault.
use guard_me.Prelude.{
  ℕ, ◌≡◌, ◌≢◌, sym, refl, ap, inl, inr, Bool, true, false, List, none, some, In, String, ok, ◌&&◌,
  str_eq, str_eq_iff, Option-cases, Result-cases, and_parts, and_true, str_ne, await-ok,
  if◌then◌else◌,
}
use guard_me.Database.{Prisma}
use guard_me.Vault.{
  VaultCredential, VaultState, SummaryPayload, CreateVaultCredentialDto, UpdateVaultCredentialDto,
  require_vault_key, to_summary_payload, clear_key,
}
use guard_me.Vault.Crypto.{NodeCrypto, encrypt, decrypt}
use guard_me.Vault.Service.{
  find_owned_credential, list_credentials, get_credential, create_credential, reveal, new_row, lock,
  update_credential,
}

abbrev owns : String → String → VaultCredential → Bool
owns user_id credential_id r = str_eq r.id credential_id && str_eq r.user_id user_id

module _ {Buffer : Type 0} (crypto : NodeCrypto Buffer) where
  decrypt-encrypt :
      (iv : Buffer) (password : String) (key : Buffer)
      → decrypt crypto (encrypt crypto iv password key) key ≡ some password
  unfolding decrypt encrypt
  decrypt-encrypt iv password key =
      let plain = crypto.from_utf8 password in
      rw
        (
          decrypt,
          encrypt,
          crypto.from_base64-to_base64 iv,
          crypto.from_base64-to_base64 (crypto.seal key iv plain).0,
          crypto.from_base64-to_base64 (crypto.seal key iv plain).1,
          crypto.unseal-seal key iv plain,
          crypto.to_utf8-from_utf8 password,
        )
        refl

module _ {Buffer : Type 0} (crypto : NodeCrypto Buffer) (db : Prisma VaultCredential) where
  -- What `find_owned_credential` answers is a row with that identifier and that owner.
  found_owned :
      (user_id credential_id : String) (table : List VaultCredential) (row : VaultCredential)
      → db.find_first (owns user_id credential_id) table ≡ some row
      → In row table × (row.id ≡ credential_id) × (row.user_id ≡ user_id)
  found_owned user_id credential_id table row e =
      let (test, m) = db.find_first_some _ table row e in
      let (a, b) = and_parts (str_eq row.id credential_id) (str_eq row.user_id user_id) test in
      (m, (str_eq_iff row.id credential_id).0 a, (str_eq_iff row.user_id user_id).0 b)

  find_owned_sound :
      (user_id credential_id : String) (table : List VaultCredential) (row : VaultCredential)
      → find_owned_credential crypto db user_id credential_id table ≡ ok row
      → In row table × (row.id ≡ credential_id) × (row.user_id ≡ user_id)
  unfolding find_owned_credential
  find_owned_sound user_id credential_id table row h =
      elim (Option-cases (db.find_first (owns user_id credential_id) table)) [
        | inl e ↦ absurd (cc)
        | inr (q, e) ↦
            let same : row ≡ q = cc in rw (same) (found_owned user_id credential_id table q e)
      ]

  reveal_sound :
      (user_id credential_id : String) (row : VaultCredential) (key : Buffer)
      (s : VaultState Buffer) (summary : SummaryPayload) (password : String)
      → (reveal crypto db user_id credential_id row key s).0 ≡ ok (summary, password)
      → (decrypt crypto row.encrypted key ≡ some password) × (summary ≡ to_summary_payload row)
  unfolding reveal
  reveal_sound user_id credential_id row key s summary password h =
      elim (Option-cases (decrypt crypto row.encrypted key)) [
        | inl e ↦ absurd (cc)
        | inr (p, e) ↦ (cc, cc)
      ]

  -- A credential is answered only to its owner with the vault unlocked, and what is answered is the
  -- decryption, under the key in memory, of a stored row.
  pub get_credential_sound :
      (user_id credential_id : String) (s : VaultState Buffer) (summary : SummaryPayload)
      (password : String)
      → (get_credential crypto db user_id credential_id s).0 ≡ ok (summary, password)
      → (row : VaultCredential) × (key : Buffer) × In row s.credentials
        × (row.id ≡ credential_id)
        × (row.user_id ≡ user_id)
        × (s.keys user_id ≡ some key)
        × (decrypt crypto row.encrypted key ≡ some password)
        × (summary ≡ to_summary_payload row)
  unfolding get_credential require_vault_key
  get_credential_sound user_id credential_id s summary password h =
      elim (Result-cases (find_owned_credential crypto db user_id credential_id s.credentials)) [
        | inr (e, p) ↦ absurd (cc)
        | inl (row, p) ↦ elim (Option-cases (s.keys user_id)) [
          | inl q ↦ absurd (cc)
          | inr (key, q) ↦
              let (m, i, u) = find_owned_sound user_id credential_id s.credentials row p in
              let shown : (reveal crypto db user_id credential_id row key s).0
                  ≡ ok (summary, password) =
                cc in
              let (d, f) = reveal_sound user_id credential_id row key s summary password shown in
              (row, key, m, i, u, q, d, f)
        ]
      ]

  -- A row just created, with an identifier that no other row has, is the one found.
  find_owned-created :
      (row : VaultCredential) (table : List VaultCredential)
      → ((r : VaultCredential) → In r table → r.id ≢ row.id)
      → find_owned_credential crypto db row.user_id row.id (db.create row table) ≡ ok row
  unfolding find_owned_credential
  find_owned-created row table fresh =
      elim (Option-cases (db.find_first (owns row.user_id row.id) (db.create row table))) [
        | inl e ↦
            let hit : owns row.user_id row.id row ≡ true =
              and_true (str_eq row.id row.id) (str_eq row.user_id row.user_id)
                ((str_eq_iff row.id row.id).1 refl) ((str_eq_iff row.user_id row.user_id).1 refl) in
            let miss : owns row.user_id row.id row ≡ false =
              db.find_first_none _ (db.create row table) row e (db.to_create_self row table) in
            absurd (cc)
        | inr (q, e) ↦
            let (m, i, u) = found_owned row.user_id row.id (db.create row table) q e in
            elim (db.of_create row table q m) [ inl same ↦ cc | inr old ↦ absurd (fresh q old i) ]
      ]

  get_credential-found :
      (user_id credential_id : String) (s : VaultState Buffer) (row : VaultCredential)
      (key : Buffer) (password : String)
      → find_owned_credential crypto db user_id credential_id s.credentials ≡ ok row
      → s.keys user_id ≡ some key
      → decrypt crypto row.encrypted key ≡ some password
      → (get_credential crypto db user_id credential_id s).0 ≡ ok (to_summary_payload row, password)
  unfolding get_credential require_vault_key reveal
  get_credential-found user_id credential_id s row key password p q d =
      let k : require_vault_key user_id s.keys ≡ ok key = rw (require_vault_key, q) refl in
      rw (get_credential, p, k, reveal, d) refl

  -- With the vault unlocked, a credential is created, and reading it back with that key answers the
  -- same summary and the password it was created with, where its new identifier is no other row's.
  pub get_credential-create_credential :
      (user_id : String) (dto : CreateVaultCredentialDto) (iv : Buffer) (new_id : String) (now : ℕ)
      (key : Buffer) (s : VaultState Buffer)
      → s.keys user_id ≡ some key
      → ((r : VaultCredential) → In r s.credentials → r.id ≢ new_id)
      → (summary : SummaryPayload) × (after : VaultState Buffer) × (create_credential crypto db
            user_id dto iv new_id now s
          ≡ ok (summary, after))
        × ((get_credential crypto db user_id new_id after).0 ≡ ok (summary, dto.password))
  unfolding create_credential require_vault_key
  get_credential-create_credential user_id dto iv new_id now key s q fresh =
      let row = new_row crypto db user_id dto iv new_id now key in
      let k : require_vault_key user_id s.keys ≡ ok key = rw (require_vault_key, q) refl in
      let after : VaultState Buffer = record s { credentials = db.create row s.credentials } in
      (
        to_summary_payload row,
        after,
        rw (create_credential, k) refl,
        get_credential-found user_id new_id after row key dto.password
            (find_owned-created row s.credentials fresh) q
            (decrypt-encrypt crypto iv dto.password key),
      )

  lock-own : (user_id : String) (s : VaultState Buffer) → (lock user_id s).keys user_id ≡ none
  unfolding lock clear_key
  lock-own user_id s = rw ((str_eq_iff user_id user_id).1 refl) refl

  lock-other :
      (user_id other : String) (s : VaultState Buffer)
      → other ≢ user_id
      → (lock user_id s).keys other ≡ s.keys other
  unfolding lock clear_key
  lock-other user_id other s ne =
      let miss : str_eq user_id other ≡ false = str_ne user_id other (λ e. ne (sym e)) in
      ap (λ b. if b then none else s.keys other) miss

  lock-refuses :
      (user_id : String) (s : VaultState Buffer) (key : Buffer)
      → require_vault_key user_id (lock user_id s).keys ≢ ok key
  unfolding require_vault_key
  lock-refuses user_id s key h = let gone = lock-own user_id s in cc

  -- Once a user has locked the vault, getCredential answers none of its credentials to that user, and
  -- createCredential and updateCredential are refused. The list of its summaries, which needs no key,
  -- is answered as before, and the keys of every other user are as they were.
  pub get_credential-lock :
      (user_id credential_id : String) (s : VaultState Buffer)
      → ((shown : SummaryPayload × String)
          → (get_credential crypto db user_id credential_id (lock user_id s)).0 ≢ ok shown)
        × ((dto : CreateVaultCredentialDto) (iv : Buffer) (new_id : String) (now : ℕ)
              (end : SummaryPayload × VaultState Buffer)
            → create_credential crypto db user_id dto iv new_id now (lock user_id s) ≢ ok end)
        × ((dto : UpdateVaultCredentialDto) (iv : Buffer) (now : ℕ)
              (end : SummaryPayload × VaultState Buffer)
            → update_credential crypto db user_id credential_id dto iv now (lock user_id s)
              ≢ ok end)
        × ((before : VaultCredential → VaultCredential → Bool)
            → list_credentials crypto db before user_id (lock user_id s)
              ≡ list_credentials crypto db before user_id s)
        × ((other : String) → other ≢ user_id → (lock user_id s).keys other ≡ s.keys other)
  unfolding create_credential update_credential find_owned_credential lock list_credentials
  get_credential-lock user_id credential_id s = (
    λ shown h.
        let (row, key, m, i, u, k, d, e) =
          get_credential_sound user_id credential_id (lock user_id s) shown.0 shown.1 h in
        absurd (cc (k, lock-own user_id s)),
    λ dto iv new_id now end h.
        let (key, k, n) = await-ok (require_vault_key user_id (lock user_id s).keys) _ h in
        lock-refuses user_id s key k,
    λ dto iv now end h.
        let (row, f, n) =
          await-ok (find_owned_credential crypto db user_id credential_id s.credentials) _ h in
        let (key, k, o) = await-ok (require_vault_key user_id (lock user_id s).keys) _ n in
        lock-refuses user_id s key k,
    λ before. refl,
    λ other ne. lock-other user_id other s ne,
  )
