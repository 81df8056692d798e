-- ===== src/Tests/Submissions.antt =====
-- Built instructions, submitted to the sample arena.
use arena_contract_sol.Prelude.{◌≡◌, true, false, some, [], ◌∷◌, refl, arith}
use arena_contract_sol.Prelude.Int.{pos}
use arena_contract_sol.Platform.{Instruction}
use arena_contract_sol.Accounts.{config_pda, position_pda, vault_authority_pda}
use arena_contract_sol.Arena.{withdraw_at, claim_at, deposit_at, open_position}
use arena_contract_sol.Processor.{process_instruction, dispatch}
use arena_contract_sol.Builders
use arena_contract_sol.Builders.{process_arena_lock_instruction}
use arena_contract_sol.Builders.Submitted.{withdraw-Refined, claim_rewards-Refined, deposit-Refined}
use arena_contract_sol.Ledger.Loads.{Refined}
use arena_contract_sol.Ledger.Openings.{with_position}
use arena_contract_sol.Tests.{sample_config, alice, bob, sample_arena}
use arena_contract_sol.Tests.Chain.{chain, chain-IsTokenProgram, chain-IsSystemProgram}
use arena_contract_sol.Tests.Encoding.{encode_config-ReadsBack, encode_position-ReadsBack}
use arena_contract_sol.Tests.InstructionCodec.{
  encode_instruction, decode_instruction, decode_instruction-encode_instruction,
}
use arena_contract_sol.Tests.Accounts.{
  chain_layout, chain_layout-IsDistinct, chain_world-Represents, balances_fit, account, after,
  after-ok,
}
use arena_contract_sol.Tests.Runs.{
  at_time, withdraw_run, withdraw_run-is_ok, claim_run, claim_run-is_ok, open_run, open_run-is_ok,
}

abbrev withdraw_ix : Instruction
withdraw_ix = record {
  program_id = 100;
  accounts =
      record { pubkey = 22; is_signer = true; is_writable = true }
      ∷ record { pubkey = 40; is_signer = false; is_writable = true }
      ∷ record { pubkey = 21; is_signer = false; is_writable = true }
      ∷ record { pubkey = 30; is_signer = false; is_writable = true }
      ∷ record { pubkey = 14; is_signer = false; is_writable = true }
      ∷ record { pubkey = 16; is_signer = false; is_writable = false }
      ∷ record { pubkey = 15; is_signer = false; is_writable = true }
      ∷ record { pubkey = 12; is_signer = false; is_writable = true }
      ∷ record { pubkey = 13; is_signer = false; is_writable = false }
      ∷ [];
  bytes = 7 ∷ 200 ∷ [];
}

withdraw_ix-built :
    arena_contract_sol.Builders.withdraw chain 100 11 7 22 40 14 15 12 13 200 ≡ some withdraw_ix
unfolding arena_contract_sol.Builders.withdraw config_pda position_pda vault_authority_pda
    encode_instruction
withdraw_ix-built = refl

withdraw-Refined_example :
    Refined chain 100 chain_layout
      (after (at_time (pos 520)) withdraw_run)
      (withdraw_at (pos 520) 0 200 sample_arena)
unfolding process_arena_lock_instruction process_instruction dispatch decode_instruction config_pda
    position_pda
withdraw-Refined_example =
    withdraw-Refined chain decode_instruction-encode_instruction 100 chain-IsTokenProgram
      encode_config-ReadsBack encode_position-ReadsBack chain_layout chain_layout-IsDistinct
      (at_time (pos 520)) (after (at_time (pos 520)) withdraw_run) sample_arena
      (chain_world-Represents sample_config alice bob 1050 1200 (pos 520) refl refl refl refl) 11 7
      refl 22 40 14 15 12 13 0 200 withdraw_ix (account 22) (account 40) (account 21) (account 30)
      (account 14) (account 16) (account 15) (account 12) (account 13) refl refl withdraw_ix-built
      (ground arith) (after-ok (at_time (pos 520)) withdraw_run withdraw_run-is_ok)

abbrev claim_ix : Instruction
claim_ix = record {
  program_id = 100;
  accounts =
      record { pubkey = 22; is_signer = true; is_writable = true }
      ∷ record { pubkey = 40; is_signer = false; is_writable = true }
      ∷ record { pubkey = 21; is_signer = false; is_writable = true }
      ∷ record { pubkey = 30; is_signer = false; is_writable = true }
      ∷ record { pubkey = 15; is_signer = false; is_writable = true }
      ∷ record { pubkey = 16; is_signer = false; is_writable = false }
      ∷ record { pubkey = 12; is_signer = false; is_writable = false }
      ∷ record { pubkey = 13; is_signer = false; is_writable = false }
      ∷ [];
  bytes = 6 ∷ [];
}

claim_ix-built :
    arena_contract_sol.Builders.claim_rewards chain 100 11 7 22 40 15 12 13 ≡ some claim_ix
unfolding arena_contract_sol.Builders.claim_rewards config_pda position_pda vault_authority_pda
    encode_instruction
claim_ix-built = refl

claim_rewards-Refined_example :
    Refined chain 100 chain_layout
      (after (at_time (pos 520)) claim_run)
      (claim_at (pos 520) 0 sample_arena)
unfolding process_arena_lock_instruction process_instruction dispatch decode_instruction config_pda
    position_pda
claim_rewards-Refined_example =
    claim_rewards-Refined chain decode_instruction-encode_instruction 100 chain-IsTokenProgram
      encode_config-ReadsBack encode_position-ReadsBack chain_layout chain_layout-IsDistinct
      (at_time (pos 520)) (after (at_time (pos 520)) claim_run) sample_arena
      (chain_world-Represents sample_config alice bob 1050 1200 (pos 520) refl refl refl refl) 11 7
      refl 22 40 15 12 13 0 claim_ix (account 22) (account 40) (account 21) (account 30)
      (account 15) (account 16) (account 12) (account 13) refl refl claim_ix-built (ground arith)
      (after-ok (at_time (pos 520)) claim_run claim_run-is_ok)

abbrev open_ix : Instruction
open_ix = record {
  program_id = 100;
  accounts =
      record { pubkey = 24; is_signer = true; is_writable = true }
      ∷ record { pubkey = 41; is_signer = false; is_writable = true }
      ∷ record { pubkey = 21; is_signer = false; is_writable = true }
      ∷ record { pubkey = 32; is_signer = false; is_writable = true }
      ∷ record { pubkey = 14; is_signer = false; is_writable = true }
      ∷ record { pubkey = 16; is_signer = false; is_writable = false }
      ∷ record { pubkey = 12; is_signer = false; is_writable = false }
      ∷ record { pubkey = 13; is_signer = false; is_writable = false }
      ∷ record { pubkey = 1; is_signer = false; is_writable = false }
      ∷ [];
  bytes = 1 ∷ 300 ∷ [];
}

open_ix-built : arena_contract_sol.Builders.deposit chain 100 11 7 24 41 14 12 13 300 ≡ some open_ix
unfolding arena_contract_sol.Builders.deposit config_pda position_pda vault_authority_pda
    encode_instruction
open_ix-built = refl

deposit-Refined_example :
    Refined chain 100
      (with_position chain_layout 32)
      (after (at_time (pos 520)) open_run)
      (deposit_at (pos 520) 2 300 (open_position 21 24 (pos 520) 253 sample_arena))
unfolding process_arena_lock_instruction process_instruction dispatch decode_instruction config_pda
    position_pda
deposit-Refined_example =
    deposit-Refined chain decode_instruction-encode_instruction 100 chain-IsTokenProgram
      encode_config-ReadsBack encode_position-ReadsBack chain_layout chain_layout-IsDistinct
      (at_time (pos 520)) (after (at_time (pos 520)) open_run) sample_arena
      (chain_world-Represents sample_config alice bob 1050 1200 (pos 520) refl refl refl refl) 11 7
      refl chain-IsSystemProgram 24 41 14 12 13 300 open_ix (account 24) (account 41) (account 21)
      (account 32) (account 14) (account 16) (account 12) (account 13) (account 1) refl refl refl
      refl
      (balances_fit chain_layout (at_time (pos 520)) 41 24 24 500 1050 1200 [] refl refl refl
        (omega arith))
      open_ix-built (ground arith) (after-ok (at_time (pos 520)) open_run open_run-is_ok)
