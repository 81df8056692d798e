-- ===== src/Tests/Checks.antt =====
-- The accounts of the sample arena, as the checks see them.
use arena_contract_sol.Prelude.{◌≡◌, ◌↔◌, []}
use arena_contract_sol.Prelude.Int.{pos}
use arena_contract_sol.Result.{ok}
use arena_contract_sol.Tokens.{assert_custody_token_account, mint_decimals}
use arena_contract_sol.Tokens.Custody.{IsCustody, assert_custody_token_account-exact}
use arena_contract_sol.Tokens.Mints.{IsFixedSupply, mint_decimals-exact}
use arena_contract_sol.Tests.Chain.{chain}
use arena_contract_sol.Tests.Accounts.{account, after, after-ok}
use arena_contract_sol.Tests.Runs.{at_time, activate_run, activate_run-is_ok}
use arena_contract_sol.Processor.Authority.{Authorised}
use arena_contract_sol.Processor.Activation.{process_activate_position-Authorised}

assert_custody_token_account-exact_example :
    (assert_custody_token_account chain (at_time (pos 520)) (account 13) (account 14) 12 16 ≡ ok tt)
    ↔ IsCustody chain (at_time (pos 520)) (account 13) (account 14) 12 16
assert_custody_token_account-exact_example =
    assert_custody_token_account-exact chain (at_time (pos 520)) (account 13) (account 14) 12 16

mint_decimals-exact_example :
    (mint_decimals chain (at_time (pos 520)) (account 12) 13 ≡ ok 6)
    ↔ IsFixedSupply chain (at_time (pos 520)) 13 12 6
mint_decimals-exact_example = mint_decimals-exact chain (at_time (pos 520)) (account 12) 13 6

process_activate_position-Authorised_example :
    Authorised chain 100 (at_time (pos 520)) (account 22) (account 21) (account 30) (account 16)
process_activate_position-Authorised_example =
    process_activate_position-Authorised chain 100 (at_time (pos 520))
      (after (at_time (pos 520)) activate_run) (account 22) (account 21) (account 30) (account 15)
      (account 16) (account 12) (account 13) []
      (after-ok (at_time (pos 520)) activate_run activate_run-is_ok)
