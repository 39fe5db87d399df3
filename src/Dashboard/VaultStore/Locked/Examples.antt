-- ===== src/Dashboard/VaultStore/Locked/Examples.antt =====
-- An unlocking, a credential, and a locking.
use guard_me.Prelude.{refl, true, false, str_eq, not, filter, List, [], ◌∷◌}
use guard_me.Database.Memory.{of_filter}
use guard_me.Dashboard.VaultStore.{
  VaultCredentialSummary, VaultAction, EntityAdapter, initial_vault_state, vault_reducer,
}
use guard_me.Dashboard.VaultStore.Locked.{IsHidden, AllTimely, reduce, reduce-IsHidden}

abbrev adapter : EntityAdapter
adapter = record {
  set_all = λ cs old. cs;
  add_one = λ c cs. c ∷ cs;
  upsert_one = λ c cs. c ∷ cs;
  remove_one = λ id cs. filter (λ c. not (str_eq c.id id)) cs;
  of_remove_one = λ id cs c m. (of_filter (λ d. not (str_eq d.id id)) cs c m).1;
}

abbrev mail : VaultCredentialSummary
mail = record {
  id = "c1";
  service_name = [];
  username = [];
  created_at = "2026";
  updated_at = "2026";
}

abbrev actions : List VaultAction
actions =
    VaultAction.unlock_vault
    ∷ VaultAction.unlock_vault_success false
    ∷ VaultAction.create_credential_success mail
    ∷ VaultAction.lock_vault_success true
    ∷ []

timely : AllTimely adapter initial_vault_state actions
unfolding vault_reducer initial_vault_state
timely = (tt, (refl, (refl, (tt, tt))))

reduce-IsHidden_example : IsHidden (reduce adapter initial_vault_state actions)
reduce-IsHidden_example = reduce-IsHidden adapter actions timely
