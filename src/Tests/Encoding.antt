-- ===== src/Tests/Encoding.antt =====
-- A codec that reads back what it writes, one number for each field, and a platform that has it.
use arena_contract_sol.Prelude.{
  ℕ, zero, suc, ◌≡◌, Bool, true, false, Option, none, some, List, [], ◌∷◌, ◌++◌, refl, sym,
  replicate,
}
use mathlib.Core.Option.{some-injective}
use arena_contract_sol.Prelude.Int.{ℤ, pos, negsuc}
use arena_contract_sol.Result.{ok}
use arena_contract_sol.State.{ArenaConfig, ArenaPosition}
use arena_contract_sol.Platform.{Platform, World, AccountInfo}
use arena_contract_sol.Accounts.{
  data_of, write, store_bytes, store_config, store_position, load_config, load_position,
}
use arena_contract_sol.Accounts.RoundTrip.{
  ReadsBack, Stored, store_config-load_config, store_position-load_position,
}
use arena_contract_sol.Tests.{sample_config, alice}

unfoldable pub bool_byte : Bool → ℕ
bool_byte false = 0
bool_byte true = 1

unfoldable pub read_bool : ℕ → Bool
read_bool zero = false
read_bool (suc n) = true

unfoldable pub sign_byte : ℤ → ℕ
sign_byte (pos n) = 0
sign_byte (negsuc n) = 1

unfoldable pub size_byte : ℤ → ℕ
size_byte (pos n) = n
size_byte (negsuc n) = n

unfoldable pub read_ℤ : ℕ → ℕ → ℤ
read_ℤ zero n = pos n
read_ℤ (suc s) n = negsuc n

read_bool-bool_byte : (b : Bool) → read_bool (bool_byte b) ≡ b
unfolding read_bool bool_byte
read_bool-bool_byte false = refl
read_bool-bool_byte true = refl

pub read_ℤ-sign_byte : (x : ℤ) → read_ℤ (sign_byte x) (size_byte x) ≡ x
unfolding read_ℤ sign_byte size_byte
read_ℤ-sign_byte (pos n) = refl
read_ℤ-sign_byte (negsuc n) = refl

unfoldable pub encode_config : ArenaConfig → Option (List ℕ)
encode_config c = some (
    bool_byte c.is_initialized
    ∷ c.version
    ∷ c.config_id
    ∷ c.authority
    ∷ c.mint
    ∷ c.token_program
    ∷ c.vault_token_account
    ∷ c.reward_pool_token_account
    ∷ sign_byte c.min_lock_seconds
    ∷ size_byte c.min_lock_seconds
    ∷ sign_byte c.activation_delay_seconds
    ∷ size_byte c.activation_delay_seconds
    ∷ sign_byte c.epoch_seconds
    ∷ size_byte c.epoch_seconds
    ∷ c.min_deposit_amount
    ∷ c.early_exit_penalty_bps
    ∷ c.burn_penalty_bps
    ∷ c.decimals
    ∷ c.config_bump
    ∷ c.vault_authority_bump
    ∷ sign_byte c.created_ts
    ∷ size_byte c.created_ts
    ∷ sign_byte c.last_epoch_ts
    ∷ size_byte c.last_epoch_ts
    ∷ c.current_epoch
    ∷ c.total_locked
    ∷ c.eligible_locked
    ∷ c.pending_activation_locked
    ∷ c.pending_rewards
    ∷ c.total_rewards_funded
    ∷ c.total_rewards_distributed
    ∷ c.total_rewards_claimed
    ∷ c.total_penalties_collected
    ∷ c.total_burned
    ∷ c.reward_index
    ∷ c.reward_index_generation
    ∷ c.total_rewards_expired
    ∷ c.reward_dust
    ∷ c.warming_locked
    ∷ [])

unfoldable pub decode_config : List ℕ → Option ArenaConfig
decode_config
      (is_initialized ∷ version ∷ config_id ∷ authority ∷ mint ∷ token_program ∷ vault_token_account
        ∷ reward_pool_token_account ∷ min_lock_seconds_sign ∷ min_lock_seconds
        ∷ activation_delay_seconds_sign ∷ activation_delay_seconds ∷ epoch_seconds_sign
        ∷ epoch_seconds ∷ min_deposit_amount ∷ early_exit_penalty_bps ∷ burn_penalty_bps ∷ decimals
        ∷ config_bump ∷ vault_authority_bump ∷ created_ts_sign ∷ created_ts ∷ last_epoch_ts_sign
        ∷ last_epoch_ts ∷ current_epoch ∷ total_locked ∷ eligible_locked ∷ pending_activation_locked
        ∷ pending_rewards ∷ total_rewards_funded ∷ total_rewards_distributed ∷ total_rewards_claimed
        ∷ total_penalties_collected ∷ total_burned ∷ reward_index ∷ reward_index_generation
        ∷ total_rewards_expired ∷ reward_dust ∷ warming_locked ∷ rest) =
    some (record {
      is_initialized = read_bool is_initialized;
      version = version;
      config_id = config_id;
      authority = authority;
      mint = mint;
      token_program = token_program;
      vault_token_account = vault_token_account;
      reward_pool_token_account = reward_pool_token_account;
      min_lock_seconds = read_ℤ min_lock_seconds_sign min_lock_seconds;
      activation_delay_seconds = read_ℤ activation_delay_seconds_sign activation_delay_seconds;
      epoch_seconds = read_ℤ epoch_seconds_sign epoch_seconds;
      min_deposit_amount = min_deposit_amount;
      early_exit_penalty_bps = early_exit_penalty_bps;
      burn_penalty_bps = burn_penalty_bps;
      decimals = decimals;
      config_bump = config_bump;
      vault_authority_bump = vault_authority_bump;
      created_ts = read_ℤ created_ts_sign created_ts;
      last_epoch_ts = read_ℤ last_epoch_ts_sign last_epoch_ts;
      current_epoch = current_epoch;
      total_locked = total_locked;
      eligible_locked = eligible_locked;
      pending_activation_locked = pending_activation_locked;
      pending_rewards = pending_rewards;
      total_rewards_funded = total_rewards_funded;
      total_rewards_distributed = total_rewards_distributed;
      total_rewards_claimed = total_rewards_claimed;
      total_penalties_collected = total_penalties_collected;
      total_burned = total_burned;
      reward_index = reward_index;
      reward_index_generation = reward_index_generation;
      total_rewards_expired = total_rewards_expired;
      reward_dust = reward_dust;
      warming_locked = warming_locked;
    })
decode_config _ = none

pub encode_config-ReadsBack : ReadsBack encode_config decode_config
unfolding encode_config decode_config
encode_config-ReadsBack c bytes rest is = rw (sym (some-injective _ _ is)) (
    rw
      (
        read_bool-bool_byte c.is_initialized,
        read_ℤ-sign_byte c.min_lock_seconds,
        read_ℤ-sign_byte c.activation_delay_seconds,
        read_ℤ-sign_byte c.epoch_seconds,
        read_ℤ-sign_byte c.created_ts,
        read_ℤ-sign_byte c.last_epoch_ts,
      )
      refl)

unfoldable pub encode_position : ArenaPosition → Option (List ℕ)
encode_position p = some (
    bool_byte p.is_initialized
    ∷ p.version
    ∷ p.config
    ∷ p.owner
    ∷ p.locked_amount
    ∷ p.eligible_amount
    ∷ p.pending_activation_amount
    ∷ p.total_deposited
    ∷ p.total_withdrawn
    ∷ p.total_penalty_paid
    ∷ p.total_burned
    ∷ p.total_rewards_claimed
    ∷ p.pending_rewards
    ∷ sign_byte p.lock_start_ts
    ∷ size_byte p.lock_start_ts
    ∷ sign_byte p.unlock_ts
    ∷ size_byte p.unlock_ts
    ∷ sign_byte p.activation_ts
    ∷ size_byte p.activation_ts
    ∷ sign_byte p.last_activity_ts
    ∷ size_byte p.last_activity_ts
    ∷ p.reward_index_checkpoint
    ∷ p.reward_index_generation_checkpoint
    ∷ p.position_bump
    ∷ p.warming_amount
    ∷ p.warming_epoch
    ∷ p.penalty_remainder
    ∷ p.burn_remainder
    ∷ p.reward_accrual_remainder
    ∷ [])

unfoldable pub decode_position : List ℕ → Option ArenaPosition
decode_position
      (is_initialized ∷ version ∷ config ∷ owner ∷ locked_amount ∷ eligible_amount
        ∷ pending_activation_amount ∷ total_deposited ∷ total_withdrawn ∷ total_penalty_paid
        ∷ total_burned ∷ total_rewards_claimed ∷ pending_rewards ∷ lock_start_ts_sign
        ∷ lock_start_ts ∷ unlock_ts_sign ∷ unlock_ts ∷ activation_ts_sign ∷ activation_ts
        ∷ last_activity_ts_sign ∷ last_activity_ts ∷ reward_index_checkpoint
        ∷ reward_index_generation_checkpoint ∷ position_bump ∷ warming_amount ∷ warming_epoch
        ∷ penalty_remainder ∷ burn_remainder ∷ reward_accrual_remainder ∷ rest) =
    some (record {
      is_initialized = read_bool is_initialized;
      version = version;
      config = config;
      owner = owner;
      locked_amount = locked_amount;
      eligible_amount = eligible_amount;
      pending_activation_amount = pending_activation_amount;
      total_deposited = total_deposited;
      total_withdrawn = total_withdrawn;
      total_penalty_paid = total_penalty_paid;
      total_burned = total_burned;
      total_rewards_claimed = total_rewards_claimed;
      pending_rewards = pending_rewards;
      lock_start_ts = read_ℤ lock_start_ts_sign lock_start_ts;
      unlock_ts = read_ℤ unlock_ts_sign unlock_ts;
      activation_ts = read_ℤ activation_ts_sign activation_ts;
      last_activity_ts = read_ℤ last_activity_ts_sign last_activity_ts;
      reward_index_checkpoint = reward_index_checkpoint;
      reward_index_generation_checkpoint = reward_index_generation_checkpoint;
      position_bump = position_bump;
      warming_amount = warming_amount;
      warming_epoch = warming_epoch;
      penalty_remainder = penalty_remainder;
      burn_remainder = burn_remainder;
      reward_accrual_remainder = reward_accrual_remainder;
    })
decode_position _ = none

pub encode_position-ReadsBack : ReadsBack encode_position decode_position
unfolding encode_position decode_position
encode_position-ReadsBack p bytes rest is = rw (sym (some-injective _ _ is)) (
    rw
      (
        read_bool-bool_byte p.is_initialized,
        read_ℤ-sign_byte p.lock_start_ts,
        read_ℤ-sign_byte p.unlock_ts,
        read_ℤ-sign_byte p.activation_ts,
        read_ℤ-sign_byte p.last_activity_ts,
      )
      refl)

abbrev pub sample_platform : Platform
sample_platform = record {
  system_program_id = 1;
  spl_token_id = 2;
  spl_token_2022_id = 3;
  find_program_address = λ _ _. (4, 255);
  minimum_balance = λ size. size;
  invoke = λ _ w. ok w;
  unpack_account = λ _. none;
  unpack_account_2022 = λ _. none;
  account_extensions = λ _. none;
  unpack_mint = λ _. none;
  unpack_mint_2022 = λ _. none;
  mint_extensions = λ _. none;
  serialize_config = encode_config;
  deserialize_config = decode_config;
  serialize_position = encode_position;
  deserialize_position = decode_position;
  serialize_instruction = λ _. none;
  deserialize_instruction = λ _. none;
}

abbrev blank_world : World
blank_world = record {
  cell = λ _. record { lamports = 9; owner = 100; bytes = replicate 40 0 };
  now = pos 0;
}

abbrev state_account : AccountInfo
state_account = record { key = 21; is_signer = false; is_writable = true }

-- The world in which the account holds the given numbers and a tail of zeros.
abbrev world_with : List ℕ → ℕ → World
world_with bytes zeros = write blank_world state_account (bytes ++ replicate zeros 0)

abbrev pub encoded : Option (List ℕ) → List ℕ
encoded none = []
encoded (some bytes) = bytes

config_stored :
    store_config sample_platform blank_world state_account sample_config
    ≡ ok (world_with (encoded (encode_config sample_config)) 1)
unfolding store_config store_bytes encode_config bool_byte sign_byte size_byte
config_stored = refl

position_stored :
    store_position sample_platform blank_world state_account alice
    ≡ ok (world_with (encoded (encode_position alice)) 11)
unfolding store_position store_bytes encode_position bool_byte sign_byte size_byte
position_stored = refl

abbrev config_world : World
config_world = world_with (encoded (encode_config sample_config)) 1

abbrev position_world : World
position_world = world_with (encoded (encode_position alice)) 11

store_config-load_config_example :
    (load_config sample_platform (data_of config_world state_account) ≡ ok sample_config)
    × Stored blank_world state_account config_world
store_config-load_config_example =
    store_config-load_config sample_platform blank_world config_world state_account sample_config
      encode_config-ReadsBack refl refl config_stored

store_position-load_position_example :
    (load_position sample_platform (data_of position_world state_account) ≡ ok alice)
    × Stored blank_world state_account position_world
store_position-load_position_example =
    store_position-load_position sample_platform blank_world position_world state_account alice
      encode_position-ReadsBack refl refl position_stored
