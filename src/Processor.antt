-- ===== src/Processor.antt =====
-- programs/arena-lock-v2/src/processor.rs: the handlers, each from its accounts to its stores, and
-- the dispatch on the instruction. A handler takes the world before it and returns the world after
-- it, or an error, on which the runtime keeps the world before.
pub mod Setup
pub mod Entry
pub mod Funding
pub mod Exit
pub mod Authority
pub mod Activation
use arena_contract_sol.Prelude.{ℕ, Option, none, some, List}
use arena_contract_sol.Result.{Result, ok_or, ◌>>=◌, invalid_instruction}
use arena_contract_sol.State.{Pubkey}
use arena_contract_sol.Platform.{
  Platform, World, AccountInfo, ArenaInstruction, initialize_config, deposit, activate_position,
  fund_rewards, roll_epoch, finalize_rewards, claim_rewards, withdraw, fund_rewards_checked,
}
use Setup.{process_initialize_config, process_roll_epoch, process_finalize_rewards}
use Entry.{process_deposit, process_activate_position}
use Funding.{process_fund_rewards}
use Exit.{process_claim_rewards, process_withdraw}

module _ (pf : Platform) (program_id : Pubkey) where
  unfoldable pub dispatch : World → List AccountInfo → ArenaInstruction → Result World
  dispatch w accounts (initialize_config a) = process_initialize_config pf program_id w accounts a
  dispatch w accounts (deposit amount) = process_deposit pf program_id w accounts amount
  dispatch w accounts activate_position = process_activate_position pf program_id w accounts
  dispatch w accounts (fund_rewards amount) =
      process_fund_rewards pf program_id w accounts amount none
  dispatch w accounts (fund_rewards_checked amount expected_eligible_locked max_current_epoch) =
      process_fund_rewards pf program_id w accounts amount
        (some (expected_eligible_locked, max_current_epoch))
  dispatch w accounts roll_epoch = process_roll_epoch pf program_id w accounts
  dispatch w accounts finalize_rewards = process_finalize_rewards pf program_id w accounts
  dispatch w accounts claim_rewards = process_claim_rewards pf program_id w accounts
  dispatch w accounts (withdraw amount) = process_withdraw pf program_id w accounts amount

  unfoldable pub process_instruction : World → List AccountInfo → List ℕ → Result World
  process_instruction w accounts instruction_data = do
    instruction ← ok_or (pf.deserialize_instruction instruction_data) invalid_instruction
    dispatch w accounts instruction
