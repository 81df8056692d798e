-- ===== src/Platform.antt =====
-- What the program takes from outside its repository: the Solana runtime with its accounts, the
-- token programs' state layouts, and the Borsh encoding. The types are those that the program reads;
-- the functions are the fields of `Platform`, which every definition that uses them takes.
use arena_contract_sol.Prelude.{ℕ, Bool, Option, List}
use arena_contract_sol.Prelude.Int.{ℤ}
use arena_contract_sol.Result.{Result}
use arena_contract_sol.State.{Pubkey, ArenaConfig, ArenaPosition}
use arena_contract_sol.Policy.{ConfigParams}

-- An account as the runtime keeps it. An account that does not exist has no data and the system
-- program for its owner.
pub record Cell : Type 0 where
  pub lamports : ℕ
  pub owner : Pubkey
  pub bytes : List ℕ

-- All accounts, by key, and the time of the clock. One key has one cell, however often a
-- transaction lists it.
pub record World : Type 0 where
  pub cell : Pubkey → Cell
  pub now : ℤ

-- An entry of the list that an instruction gets; what it names is in the world.
pub record AccountInfo : Type 0 where
  pub key : Pubkey
  pub is_signer : Bool
  pub is_writable : Bool

-- An account as a client names it in an instruction, with what the instruction may do to it.
pub record AccountMeta : Type 0 where
  pub pubkey : Pubkey
  pub is_signer : Bool
  pub is_writable : Bool

pub record Instruction : Type 0 where
  pub program_id : Pubkey
  pub accounts : List AccountMeta
  pub bytes : List ℕ

pub data Seed : Type 0 where
  config_seed position_seed vault_authority_seed : Seed
  key_seed : Pubkey → Seed
  u64_seed : ℕ → Seed
  bump_seed : ℕ → Seed

pub data AccountState : Type 0 where
  uninitialized initialized frozen : AccountState

-- The fields of a token account that the program reads.
pub record TokenAccount : Type 0 where
  pub mint : Pubkey
  pub owner : Pubkey
  pub amount : ℕ
  pub state : AccountState
  pub is_native : Option ℕ
  pub delegate : Option Pubkey
  pub delegated_amount : ℕ
  pub close_authority : Option Pubkey

pub record Mint : Type 0 where
  pub mint_authority : Option Pubkey
  pub freeze_authority : Option Pubkey
  pub decimals : ℕ

-- The extensions that the source names, and all others.
pub data ExtensionType : Type 0 where
  metadata_pointer token_metadata immutable_owner : ExtensionType
  transfer_fee_config transfer_hook permanent_delegate mint_close_authority : ExtensionType
  confidential_transfer_mint transfer_hook_account memo_transfer cpi_guard : ExtensionType
  confidential_transfer_account : ExtensionType
  other_extension : ℕ → ExtensionType

-- The instructions that the program sends to other programs, with the seeds that sign.
pub data Cpi : Type 0 where
  system_transfer : (source target : Pubkey) (lamports : ℕ) → Cpi
  allocate : (account : Pubkey) (space : ℕ) (seeds : List Seed) → Cpi
  assign : (account owner : Pubkey) (seeds : List Seed) → Cpi
  transfer_checked :
      (token_program source mint destination authority : Pubkey) (amount decimals : ℕ)
      (seeds : List Seed)
      → Cpi
  burn_checked :
      (token_program source mint authority : Pubkey) (amount decimals : ℕ) (seeds : List Seed) → Cpi

pub data ArenaInstruction : Type 0 where
  initialize_config : ConfigParams → ArenaInstruction
  deposit : (amount : ℕ) → ArenaInstruction
  activate_position : ArenaInstruction
  fund_rewards : (amount : ℕ) → ArenaInstruction
  roll_epoch : ArenaInstruction
  finalize_rewards : ArenaInstruction
  claim_rewards : ArenaInstruction
  withdraw : (amount : ℕ) → ArenaInstruction
  fund_rewards_checked : (amount expected_eligible_locked max_current_epoch : ℕ) → ArenaInstruction

pub record Platform : Type 0 where
  pub system_program_id : Pubkey
  pub spl_token_id : Pubkey
  pub spl_token_2022_id : Pubkey
  pub find_program_address : List Seed → Pubkey → Pubkey × ℕ
  pub minimum_balance : ℕ → ℕ
  pub invoke : Cpi → World → Result World
  pub unpack_account : List ℕ → Option TokenAccount
  pub unpack_account_2022 : List ℕ → Option TokenAccount
  pub account_extensions : List ℕ → Option (List ExtensionType)
  pub unpack_mint : List ℕ → Option Mint
  pub unpack_mint_2022 : List ℕ → Option Mint
  pub mint_extensions : List ℕ → Option (List ExtensionType)
  pub serialize_config : ArenaConfig → Option (List ℕ)
  pub deserialize_config : List ℕ → Option ArenaConfig
  pub serialize_position : ArenaPosition → Option (List ℕ)
  pub deserialize_position : List ℕ → Option ArenaPosition
  pub serialize_instruction : ArenaInstruction → Option (List ℕ)
  pub deserialize_instruction : List ℕ → Option ArenaInstruction
