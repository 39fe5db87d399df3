-- ===== src/Dashboard/VaultStore.antt =====
-- store/vault/vault.reducer.ts: what the client remembers of the vault. The entity adapter of the
-- store is an interface over the list of the credentials.
pub mod Locked
use guard_me.Prelude.{
  ℕ, ◌≡◌, Bool, true, false, Option, none, some, List, [], In, String, if◌then◌else◌,
}
use guard_me.Text.{Text}

pub record VaultCredentialSummary : Type 0 where
  pub id : String
  pub service_name : Text
  pub username : Text
  pub created_at : String
  pub updated_at : String

pub record VaultState : Type 0 where
  pub locked : Bool
  pub status_loaded : Bool
  pub credentials : List VaultCredentialSummary
  pub loading : Bool
  pub saving : Bool
  pub unlocking : Bool
  pub error : Option String
  pub unlock_error : Option String

unfoldable pub initial_vault_state : VaultState
initial_vault_state = record {
  locked = true;
  status_loaded = false;
  credentials = [];
  loading = false;
  saving = false;
  unlocking = false;
  error = none;
  unlock_error = none;
}

-- The actions that the reducer hears, with what it reads of them: those of store/vault, and `reset`
-- for the three of store/auth that end a session. Requests and answers of one kind share a name.
pub data VaultAction : Type 0 where
  load_status load_credentials unlock_vault lock_vault change_credential reveal_success clear_error
        clear_unlock_error reset :
      VaultAction
  load_status_success unlock_vault_success lock_vault_success : (locked : Bool) → VaultAction
  load_failure_of_status load_failure unlock_vault_failure lock_vault_failure change_failure :
      String → VaultAction
  load_credentials_success : List VaultCredentialSummary → VaultAction
  create_credential_success update_credential_success : VaultCredentialSummary → VaultAction
  delete_credential_success : String → VaultAction

-- @ngrx/entity. What is relied on: removing adds nothing.
pub record EntityAdapter : Type 0 where
  pub set_all :
      List VaultCredentialSummary → List VaultCredentialSummary → List VaultCredentialSummary
  pub add_one : VaultCredentialSummary → List VaultCredentialSummary → List VaultCredentialSummary
  pub upsert_one :
      VaultCredentialSummary → List VaultCredentialSummary → List VaultCredentialSummary
  pub remove_one : String → List VaultCredentialSummary → List VaultCredentialSummary
  pub of_remove_one :
      (id : String) (credentials : List VaultCredentialSummary) (c : VaultCredentialSummary)
      → In c (remove_one id credentials)
      → In c credentials

module _ (adapter : EntityAdapter) where
  unfoldable pub vault_reducer : VaultState → VaultAction → VaultState
  unfolding initial_vault_state
  vault_reducer state load_status = record state { loading = true; error = none }
  vault_reducer state (load_status_success locked) = record state {
    loading = false;
    status_loaded = true;
    locked = locked;
    credentials = if locked then [] else state.credentials;
  }
  vault_reducer state (load_failure_of_status error) = record state {
    loading = false;
    status_loaded = true;
    error = some error;
  }
  vault_reducer state unlock_vault = record state { unlocking = true; unlock_error = none }
  vault_reducer state (unlock_vault_success locked) = record state {
    unlocking = false;
    locked = locked;
    unlock_error = none;
  }
  vault_reducer state (unlock_vault_failure error) = record state {
    unlocking = false;
    unlock_error = some error;
  }
  vault_reducer state lock_vault = record state { saving = true; error = none }
  vault_reducer state (lock_vault_success locked) = record state {
    saving = false;
    locked = locked;
    credentials = [];
  }
  vault_reducer state (lock_vault_failure error) = record state {
    saving = false;
    error = some error;
  }
  vault_reducer state load_credentials = record state { loading = true; error = none }
  vault_reducer state (load_credentials_success credentials) = record state {
    loading = false;
    credentials = adapter.set_all credentials state.credentials;
  }
  vault_reducer state (load_failure error) = record state { loading = false; error = some error }
  vault_reducer state change_credential = record state { saving = true; error = none }
  vault_reducer state (create_credential_success c) = record state {
    saving = false;
    credentials = adapter.add_one c state.credentials;
  }
  vault_reducer state (update_credential_success c) = record state {
    saving = false;
    credentials = adapter.upsert_one c state.credentials;
  }
  vault_reducer state (delete_credential_success id) = record state {
    saving = false;
    credentials = adapter.remove_one id state.credentials;
  }
  vault_reducer state reveal_success = record state { saving = false }
  vault_reducer state (change_failure error) = record state { saving = false; error = some error }
  vault_reducer state clear_error = record state { error = none }
  vault_reducer state clear_unlock_error = record state { unlock_error = none }
  vault_reducer state reset = initial_vault_state
