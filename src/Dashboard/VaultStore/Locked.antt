-- ===== src/Dashboard/VaultStore/Locked.antt =====
-- What is on show while the vault is locked: store/vault/vault.reducer.ts.
mod Examples
use guard_me.Prelude.{◌≡◌, refl, Bool, true, false, List, [], ◌∷◌, In}
use guard_me.Dashboard.VaultStore.{
  VaultState, initial_vault_state, VaultCredentialSummary, VaultAction, EntityAdapter,
  vault_reducer,
}

-- While the vault is locked, the store holds no credential.
abbrev pub IsHidden : VaultState → Type 0
IsHidden state = state.locked ≡ true → (c : VaultCredentialSummary) → In c state.credentials → ⊥

-- An answer that comes in time: credentials only while the vault is open, and an unlocking that
-- opens it.
abbrev pub IsTimely : VaultState → VaultAction → Type 0
IsTimely state (VaultAction.load_credentials_success cs) = state.locked ≡ false
IsTimely state (VaultAction.create_credential_success c) = state.locked ≡ false
IsTimely state (VaultAction.update_credential_success c) = state.locked ≡ false
IsTimely state (VaultAction.unlock_vault_success locked) = locked ≡ false
IsTimely state _ = Unit

module _ (adapter : EntityAdapter) where
  -- Actions one after the other, each in time at the state that it meets.
  abbrev pub AllTimely : VaultState → List VaultAction → Type 0
  AllTimely state [] = Unit
  AllTimely state (a ∷ actions) =
      IsTimely state a × AllTimely (vault_reducer adapter state a) actions

  abbrev pub reduce : VaultState → List VaultAction → VaultState
  reduce state [] = state
  reduce state (a ∷ actions) = reduce (vault_reducer adapter state a) actions

  vault_reducer-IsHidden :
      (state : VaultState) (a : VaultAction)
      → IsTimely state a
      → IsHidden state
      → IsHidden (vault_reducer adapter state a)
  unfolding vault_reducer initial_vault_state
  vault_reducer-IsHidden state (VaultAction.load_status_success true) timely h = λ e c m. elim m [ ]
  vault_reducer-IsHidden state (VaultAction.load_status_success false) timely h =
      λ e c m. absurd (cc)
  vault_reducer-IsHidden state (VaultAction.unlock_vault_success locked) timely h =
      λ e c m. absurd (cc)
  vault_reducer-IsHidden state (VaultAction.lock_vault_success locked) timely h =
      λ e c m. elim m [ ]
  vault_reducer-IsHidden state (VaultAction.load_credentials_success cs) timely h =
      λ e c m. absurd (cc)
  vault_reducer-IsHidden state (VaultAction.create_credential_success d) timely h =
      λ e c m. absurd (cc)
  vault_reducer-IsHidden state (VaultAction.update_credential_success d) timely h =
      λ e c m. absurd (cc)
  vault_reducer-IsHidden state (VaultAction.delete_credential_success id) timely h =
      λ e c m. h e c (adapter.of_remove_one id state.credentials c m)
  vault_reducer-IsHidden state VaultAction.reset timely h = λ e c m. elim m [ ]
  vault_reducer-IsHidden state VaultAction.load_status timely h = h
  vault_reducer-IsHidden state VaultAction.load_credentials timely h = h
  vault_reducer-IsHidden state VaultAction.unlock_vault timely h = h
  vault_reducer-IsHidden state VaultAction.lock_vault timely h = h
  vault_reducer-IsHidden state VaultAction.change_credential timely h = h
  vault_reducer-IsHidden state VaultAction.reveal_success timely h = h
  vault_reducer-IsHidden state VaultAction.clear_error timely h = h
  vault_reducer-IsHidden state VaultAction.clear_unlock_error timely h = h
  vault_reducer-IsHidden state (VaultAction.load_failure_of_status x) timely h = h
  vault_reducer-IsHidden state (VaultAction.load_failure x) timely h = h
  vault_reducer-IsHidden state (VaultAction.unlock_vault_failure x) timely h = h
  vault_reducer-IsHidden state (VaultAction.lock_vault_failure x) timely h = h
  vault_reducer-IsHidden state (VaultAction.change_failure x) timely h = h

  reduce-keeps :
      (state : VaultState) (actions : List VaultAction)
      → AllTimely state actions
      → IsHidden state
      → IsHidden (reduce state actions)
  reduce-keeps state [] timely h = h
  reduce-keeps state (a ∷ actions) (timely, rest) h =
      reduce-keeps (vault_reducer adapter state a) actions rest
        (vault_reducer-IsHidden state a timely h)

  -- From the start on, the store holds no credential while the vault is locked, after any actions in
  -- which credentials are answered only while it is open, and an unlocking opens it.
  pub reduce-IsHidden :
      (actions : List VaultAction)
      → AllTimely initial_vault_state actions
      → IsHidden (reduce initial_vault_state actions)
  unfolding initial_vault_state
  reduce-IsHidden actions timely =
      reduce-keeps initial_vault_state actions timely (λ e c m. elim m [ ])
