-- ===== src/Builders.antt =====
-- programs/arena-lock-v2/src/instruction.rs: the functions with which a client builds the program's
-- instructions; and entrypoint.rs, where the runtime hands them to the program.
pub mod Submitted
pub mod Crank
use mathlib.Core.Option
use arena_contract_sol.Prelude.{ℕ, Bool, true, false, Option, none, some, List, [], ◌∷◌}
use arena_contract_sol.Result.{Result}
use arena_contract_sol.State.{Pubkey}
use arena_contract_sol.Policy.{ConfigParams}
use arena_contract_sol.Platform
use arena_contract_sol.Platform.{
  Platform, World, AccountInfo, AccountMeta, Instruction, ArenaInstruction,
}
use arena_contract_sol.Accounts.{config_pda, position_pda, vault_authority_pda}
use arena_contract_sol.Processor.{process_instruction}

-- `AccountMeta::new` and `AccountMeta::new_readonly`.
abbrev writable : Pubkey → Bool → AccountMeta
writable key signs = record { pubkey = key; is_signer = signs; is_writable = true }

abbrev readonly : Pubkey → Bool → AccountMeta
readonly key signs = record { pubkey = key; is_signer = signs; is_writable = false }

module _ (pf : Platform) where
  -- The instruction with its encoded data; none where `expect` panics.
  abbrev pub built : Pubkey → List AccountMeta → ArenaInstruction → Option Instruction
  built program_id accounts instruction =
      Option.map (λ bytes. record { program_id = program_id; accounts = accounts; bytes = bytes })
        (pf.serialize_instruction instruction)

  -- The eight parameters of the arena are one record.
  unfoldable pub initialize_config :
      (program_id authority : Pubkey) (params : ConfigParams)
      (mint vault_token_account reward_pool_token_account token_program : Pubkey)
      → Option Instruction
  initialize_config program_id authority params mint vault_token_account reward_pool_token_account
        token_program =
      let config = (config_pda pf program_id authority params.config_id).0 in
      let vault_authority = (vault_authority_pda pf program_id config).0 in
      built program_id
        (writable authority true
          ∷ writable config false
          ∷ readonly mint false
          ∷ readonly vault_token_account false
          ∷ readonly vault_authority false
          ∷ readonly reward_pool_token_account false
          ∷ readonly token_program false
          ∷ readonly pf.system_program_id false
          ∷ [])
        (arena_contract_sol.Platform.initialize_config params)

  unfoldable pub deposit :
      (program_id authority : Pubkey) (config_id : ℕ)
      (owner owner_token_account vault_token_account mint token_program : Pubkey) (amount : ℕ)
      → Option Instruction
  deposit program_id authority config_id owner owner_token_account vault_token_account mint
        token_program amount =
      let config = (config_pda pf program_id authority config_id).0 in
      let position = (position_pda pf program_id config owner).0 in
      let vault_authority = (vault_authority_pda pf program_id config).0 in
      built program_id
        (writable owner true
          ∷ writable owner_token_account false
          ∷ writable config false
          ∷ writable position false
          ∷ writable vault_token_account false
          ∷ readonly vault_authority false
          ∷ readonly mint false
          ∷ readonly token_program false
          ∷ readonly pf.system_program_id false
          ∷ [])
        (arena_contract_sol.Platform.deposit amount)

  unfoldable pub activate_position :
      (program_id authority : Pubkey) (config_id : ℕ)
      (owner reward_pool_token_account mint token_program : Pubkey)
      → Option Instruction
  activate_position program_id authority config_id owner reward_pool_token_account mint
        token_program =
      let config = (config_pda pf program_id authority config_id).0 in
      let position = (position_pda pf program_id config owner).0 in
      let vault_authority = (vault_authority_pda pf program_id config).0 in
      built program_id
        (writable owner true
          ∷ writable config false
          ∷ writable position false
          ∷ writable reward_pool_token_account false
          ∷ readonly vault_authority false
          ∷ writable mint false
          ∷ readonly token_program false
          ∷ [])
        arena_contract_sol.Platform.activate_position

  unfoldable pub fund_rewards :
      (program_id authority : Pubkey) (config_id : ℕ)
      (funder funder_token_account reward_pool_token_account mint token_program : Pubkey)
      (amount : ℕ)
      → Option Instruction
  fund_rewards program_id authority config_id funder funder_token_account reward_pool_token_account
        mint token_program amount =
      let config = (config_pda pf program_id authority config_id).0 in
      built program_id
        (writable funder true
          ∷ writable funder_token_account false
          ∷ writable config false
          ∷ writable reward_pool_token_account false
          ∷ readonly mint false
          ∷ readonly token_program false
          ∷ [])
        (arena_contract_sol.Platform.fund_rewards amount)

  unfoldable pub fund_rewards_checked :
      (program_id funder : Pubkey) (config_id : ℕ)
      (authority funder_token_account reward_pool_token_account mint token_program : Pubkey)
      (amount expected_eligible_locked max_current_epoch : ℕ)
      → Option Instruction
  fund_rewards_checked program_id funder config_id authority funder_token_account
        reward_pool_token_account mint token_program amount expected_eligible_locked
        max_current_epoch =
      let config = (config_pda pf program_id authority config_id).0 in
      built program_id
        (writable funder true
          ∷ writable funder_token_account false
          ∷ writable config false
          ∷ writable reward_pool_token_account false
          ∷ readonly mint false
          ∷ readonly token_program false
          ∷ [])
        (arena_contract_sol.Platform.fund_rewards_checked amount expected_eligible_locked
          max_current_epoch)

  unfoldable pub roll_epoch :
      (program_id authority : Pubkey) (config_id : ℕ)
      (reward_pool_token_account mint token_program : Pubkey)
      → Option Instruction
  roll_epoch program_id authority config_id reward_pool_token_account mint token_program =
      let config = (config_pda pf program_id authority config_id).0 in
      let vault_authority = (vault_authority_pda pf program_id config).0 in
      built program_id
        (writable config false
          ∷ writable reward_pool_token_account false
          ∷ readonly vault_authority false
          ∷ writable mint false
          ∷ readonly token_program false
          ∷ [])
        arena_contract_sol.Platform.roll_epoch

  unfoldable pub finalize_rewards :
      (program_id authority : Pubkey) (config_id : ℕ)
      (reward_pool_token_account mint token_program : Pubkey)
      → Option Instruction
  finalize_rewards program_id authority config_id reward_pool_token_account mint token_program =
      let config = (config_pda pf program_id authority config_id).0 in
      let vault_authority = (vault_authority_pda pf program_id config).0 in
      built program_id
        (writable config false
          ∷ writable reward_pool_token_account false
          ∷ readonly vault_authority false
          ∷ writable mint false
          ∷ readonly token_program false
          ∷ [])
        arena_contract_sol.Platform.finalize_rewards

  unfoldable pub claim_rewards :
      (program_id authority : Pubkey) (config_id : ℕ)
      (owner owner_token_account reward_pool_token_account mint token_program : Pubkey)
      → Option Instruction
  claim_rewards program_id authority config_id owner owner_token_account reward_pool_token_account
        mint token_program =
      let config = (config_pda pf program_id authority config_id).0 in
      let position = (position_pda pf program_id config owner).0 in
      let vault_authority = (vault_authority_pda pf program_id config).0 in
      built program_id
        (writable owner true
          ∷ writable owner_token_account false
          ∷ writable config false
          ∷ writable position false
          ∷ writable reward_pool_token_account false
          ∷ readonly vault_authority false
          ∷ readonly mint false
          ∷ readonly token_program false
          ∷ [])
        arena_contract_sol.Platform.claim_rewards

  unfoldable pub withdraw :
      (program_id authority : Pubkey) (config_id : ℕ)
      (owner owner_token_account vault_token_account reward_pool_token_account mint
        token_program : Pubkey)
      (amount : ℕ)
      → Option Instruction
  withdraw program_id authority config_id owner owner_token_account vault_token_account
        reward_pool_token_account mint token_program amount =
      let config = (config_pda pf program_id authority config_id).0 in
      let position = (position_pda pf program_id config owner).0 in
      let vault_authority = (vault_authority_pda pf program_id config).0 in
      built program_id
        (writable owner true
          ∷ writable owner_token_account false
          ∷ writable config false
          ∷ writable position false
          ∷ writable vault_token_account false
          ∷ readonly vault_authority false
          ∷ writable reward_pool_token_account false
          ∷ writable mint false
          ∷ readonly token_program false
          ∷ [])
        (arena_contract_sol.Platform.withdraw amount)

  unfoldable pub process_arena_lock_instruction :
      Pubkey → World → List AccountInfo → List ℕ → Result World
  process_arena_lock_instruction program_id w accounts instruction_data =
      process_instruction pf program_id w accounts instruction_data
