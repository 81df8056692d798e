-- ===== src/Tests/Crank.antt =====
-- The epoch of the sample arena is rolled by an instruction that a client builds.
use arena_contract_sol.Prelude.{
  ℕ, ◌≡◌, true, false, Option, none, some, List, [], ◌∷◌, length, ltb, if◌then◌else◌, inl, refl,
  arith,
}
use arena_contract_sol.Prelude.Int.{pos, ◌+ℤ◌}
use arena_contract_sol.Result.{ok, Succeeds}
use arena_contract_sol.State.{ArenaConfig}
use arena_contract_sol.Platform.{Platform, Instruction}
use arena_contract_sol.Accounts.{data_of, load_config, config_pda, vault_authority_pda}
use arena_contract_sol.Tokens.Custody.{IsCustody}
use arena_contract_sol.Builders
use arena_contract_sol.Builders.{process_arena_lock_instruction}
use arena_contract_sol.Builders.Crank.{HasSize, IsOver, roll_epoch-Succeeds}
use arena_contract_sol.Tests.{sample_config}
use arena_contract_sol.Tests.Chain.{chain, sample_token}
use arena_contract_sol.Tests.Encoding.{
  encoded, encode_config, decode_config, bool_byte, read_bool, sign_byte, size_byte, read_ℤ,
}
use arena_contract_sol.Tests.InstructionCodec.{
  encode_instruction, decode_instruction-encode_instruction,
}
use arena_contract_sol.Tests.Accounts.{account}
use arena_contract_sol.Tests.Runs.{at_time}

abbrev read_config : List ℕ → Option ArenaConfig
read_config bytes = if ltb (length bytes) 39 then none else decode_config bytes

-- The platform that reads no config from fewer numbers than one has.
abbrev sized_chain : Platform
sized_chain = record chain { deserialize_config = read_config }

encode_config-HasSize : HasSize encode_config read_config 39
unfolding encode_config
encode_config-HasSize = record {
  writes = λ c. (encoded (encode_config c), refl, refl);
  reads = λ bytes c e. ground (arith, e);
}

abbrev roll_ix : Instruction
roll_ix = record {
  program_id = 100;
  accounts =
      record { pubkey = 21; is_signer = false; is_writable = true }
      ∷ record { pubkey = 15; is_signer = false; is_writable = true }
      ∷ record { pubkey = 16; is_signer = false; is_writable = false }
      ∷ record { pubkey = 12; is_signer = false; is_writable = true }
      ∷ record { pubkey = 13; is_signer = false; is_writable = false }
      ∷ [];
  bytes = 4 ∷ [];
}

roll_ix-built : arena_contract_sol.Builders.roll_epoch sized_chain 100 11 7 15 12 13 ≡ some roll_ix
unfolding arena_contract_sol.Builders.roll_epoch config_pda vault_authority_pda encode_instruction
roll_ix-built = refl

sample_config-loads :
    load_config sized_chain (data_of (at_time (pos 600)) (account 21)) ≡ ok sample_config
unfolding load_config encode_config decode_config bool_byte read_bool sign_byte size_byte read_ℤ
sample_config-loads = refl

sample_pool-IsCustody :
    IsCustody sized_chain
      (at_time (pos 600))
      (account 13)
      (account 15)
      12
      (vault_authority_pda sized_chain 100 21).0
unfolding vault_authority_pda
sample_pool-IsCustody = record {
  account = sample_token 16 1200;
  is_account = record { program = refl; decodes = inl (refl, refl) };
  of_mint = refl;
  of_owner = refl;
  state = refl;
  is_native = refl;
  delegate = refl;
  delegated_amount = refl;
  close_authority = refl;
}

sample_epoch-IsOver : IsOver (pos 600) sample_config
unfolding ◌+ℤ◌
sample_epoch-IsOver = record {
  end_ts = pos 600;
  computes = refl;
  passed = refl;
  count = omega arith;
}

roll_epoch-Succeeds_example : Succeeds (
    process_arena_lock_instruction sized_chain 100
      (at_time (pos 600))
      (account 21 ∷ account 15 ∷ account 16 ∷ account 12 ∷ account 13 ∷ [])
      (4 ∷ []))
roll_epoch-Succeeds_example =
    roll_epoch-Succeeds sized_chain decode_instruction-encode_instruction 100 39
      encode_config-HasSize (at_time (pos 600)) sample_config 11 15 12 13 7 roll_ix (account 21)
      (account 15) (account 16) (account 12) (account 13) refl refl refl refl refl
      sample_config-loads refl refl sample_pool-IsCustody sample_epoch-IsOver roll_ix-built
      (ground arith) refl
