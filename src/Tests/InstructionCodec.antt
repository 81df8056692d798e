-- ===== src/Tests/InstructionCodec.antt =====
-- A codec of the instructions, a number for the kind and one for each field.
use arena_contract_sol.Prelude.{ℕ, zero, suc, ◌≡◌, Option, none, some, List, [], ◌∷◌, refl, sym}
use mathlib.Core.Option.{some-injective}
use arena_contract_sol.Platform.{
  ArenaInstruction, initialize_config, deposit, activate_position, fund_rewards, roll_epoch,
  finalize_rewards, claim_rewards, withdraw, fund_rewards_checked,
}
use arena_contract_sol.Tests.Encoding.{sign_byte, size_byte, read_ℤ, read_ℤ-sign_byte}

unfoldable pub encode_instruction : ArenaInstruction → Option (List ℕ)
encode_instruction (initialize_config p) = some (
    0
    ∷ p.config_id
    ∷ sign_byte p.min_lock_seconds
    ∷ size_byte p.min_lock_seconds
    ∷ sign_byte p.activation_delay_seconds
    ∷ size_byte p.activation_delay_seconds
    ∷ sign_byte p.epoch_seconds
    ∷ size_byte p.epoch_seconds
    ∷ p.min_deposit_amount
    ∷ p.early_exit_penalty_bps
    ∷ p.burn_penalty_bps
    ∷ p.decimals
    ∷ [])
encode_instruction (deposit amount) = some (1 ∷ amount ∷ [])
encode_instruction activate_position = some (2 ∷ [])
encode_instruction (fund_rewards amount) = some (3 ∷ amount ∷ [])
encode_instruction roll_epoch = some (4 ∷ [])
encode_instruction finalize_rewards = some (5 ∷ [])
encode_instruction claim_rewards = some (6 ∷ [])
encode_instruction (withdraw amount) = some (7 ∷ amount ∷ [])
encode_instruction (fund_rewards_checked amount expected latest) =
    some (8 ∷ amount ∷ expected ∷ latest ∷ [])

unfoldable pub decode_instruction : List ℕ → Option ArenaInstruction
decode_instruction
      (zero ∷ config_id ∷ lock_sign ∷ lock ∷ delay_sign ∷ delay ∷ epoch_sign ∷ epoch
        ∷ deposit_amount ∷ rate ∷ burn_rate ∷ decimals ∷ []) =
    some (
      initialize_config (record {
        config_id = config_id;
        min_lock_seconds = read_ℤ lock_sign lock;
        activation_delay_seconds = read_ℤ delay_sign delay;
        epoch_seconds = read_ℤ epoch_sign epoch;
        min_deposit_amount = deposit_amount;
        early_exit_penalty_bps = rate;
        burn_penalty_bps = burn_rate;
        decimals = decimals;
      }))
decode_instruction (suc zero ∷ amount ∷ []) = some (deposit amount)
decode_instruction (suc (suc zero) ∷ []) = some activate_position
decode_instruction (suc (suc (suc zero)) ∷ amount ∷ []) = some (fund_rewards amount)
decode_instruction (suc (suc (suc (suc zero))) ∷ []) = some roll_epoch
decode_instruction (suc (suc (suc (suc (suc zero)))) ∷ []) = some finalize_rewards
decode_instruction (suc (suc (suc (suc (suc (suc zero))))) ∷ []) = some claim_rewards
decode_instruction (suc (suc (suc (suc (suc (suc (suc zero)))))) ∷ amount ∷ []) =
    some (withdraw amount)
decode_instruction
      (suc (suc (suc (suc (suc (suc (suc (suc zero))))))) ∷ amount ∷ expected ∷ latest ∷ []) =
    some (fund_rewards_checked amount expected latest)
decode_instruction _ = none

pub decode_instruction-encode_instruction :
    (x : ArenaInstruction) (bytes : List ℕ)
    → encode_instruction x ≡ some bytes
    → decode_instruction bytes ≡ some x
unfolding encode_instruction decode_instruction
decode_instruction-encode_instruction (initialize_config p) bytes e =
    rw (sym (some-injective _ _ e)) (
      rw
        (
          read_ℤ-sign_byte p.min_lock_seconds,
          read_ℤ-sign_byte p.activation_delay_seconds,
          read_ℤ-sign_byte p.epoch_seconds,
        )
        refl)
decode_instruction-encode_instruction (deposit amount) bytes e =
    rw (sym (some-injective _ _ e)) refl
decode_instruction-encode_instruction activate_position bytes e =
    rw (sym (some-injective _ _ e)) refl
decode_instruction-encode_instruction (fund_rewards amount) bytes e =
    rw (sym (some-injective _ _ e)) refl
decode_instruction-encode_instruction roll_epoch bytes e = rw (sym (some-injective _ _ e)) refl
decode_instruction-encode_instruction finalize_rewards bytes e =
    rw (sym (some-injective _ _ e)) refl
decode_instruction-encode_instruction claim_rewards bytes e = rw (sym (some-injective _ _ e)) refl
decode_instruction-encode_instruction (withdraw amount) bytes e =
    rw (sym (some-injective _ _ e)) refl
decode_instruction-encode_instruction (fund_rewards_checked amount expected latest) bytes e =
    rw (sym (some-injective _ _ e)) refl
