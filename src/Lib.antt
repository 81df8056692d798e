-- ===== src/Lib.antt =====
-- A model of arena-lock-v2, the Solana program in programs/arena-lock-v2/src, with proofs.
--
-- The program keeps arenas. An arena is a config account (`ArenaConfig`), one position account for
-- each owner (`ArenaPosition`), and two token accounts under a program-derived authority: the vault
-- with the locked stake, and the reward pool. Stake is deposited as pending, becomes warming when
-- its owner activates it, and eligible when an epoch has passed. Rewards are added to an index per
-- eligible unit, a wrapping u128 with a generation counter, and a position is credited with the
-- growth of the index since its checkpoint. An early exit pays a penalty, a part of which is burned
-- and the rest of which is shared among the stake that stays.
--
-- Which file models which part:
--   Result        error.rs: `ArenaError`, its codes, and fallible code as a result.
--   Checked       the checked, saturating and wrapping operations of u64, u128 and i64 that the
--                 source calls, with their limits written out.
--   State         state.rs: the constants and the two records. Keys are numbers: the program only
--                 compares them.
--   Rewards       processor.rs: `reward_index_delta`, `add_reward_index`, the two commit functions,
--                 `reward_index_delta_since`, `accrue_rewards`, `mature_warming_if_ready`.
--   Penalty       processor.rs: `penalty_split`; the references that it writes through are fields of
--                 its result.
--   Stake         processor.rs: `reduce_position_stake`.
--   Policy        processor.rs: `assert_lock_policy` and the checks of `process_initialize_config`.
--   Operations    processor.rs: what each handler does between its loads and its stores, in the
--                 parts between which tokens move (Lock: deposits, activation, epochs; Earn: funding,
--                 claims, the final burn; Exit: withdrawals).
--   Platform      what comes from outside the repository: the runtime, the token programs and Borsh.
--                 The functions are the fields of the record `Platform`, a parameter of everything
--                 that uses them.
--   Accounts      processor.rs and state.rs: account checks, account creation, `load` and `store`.
--   Tokens        processor.rs: the unpacking and checking of mints and token accounts, and the
--                 calls that move and burn tokens.
--   Processor     processor.rs: the handlers over the world of accounts, and `process_instruction`.
--   Arena         the abstract view: a config, all of its positions and the two balances, with one
--                 action for each instruction, composed of the parts in Operations in the order of
--                 the handler. A movement of tokens is a change of the balances that fails when a
--                 balance is short or the supply would leave u64. Frame and History hold the
--                 invariant, Liveness the withdrawals, Cadence and Clock the epochs and delays.
--   Ledger        the accounts of one arena in the world, and what it means that they hold an arena
--                 (`Represents`): the config and the positions decode to its records, and the
--                 balances of the two custody accounts are its balances. Moves, Steps, Custody,
--                 Loads, Stores, Burning and Creation carry that through the movements of tokens and
--                 the stores; Epochs, Claims, Fundings, Finals, Exits, Deposits and Openings through the
--                 handlers; Initial, Reach, Safety and Lifetime through whole histories of
--                 transactions.
--   Builders      instruction.rs: the functions that build each instruction, and entrypoint.rs.
--   Tests         runs on concrete data, and the theorems applied to them, on a platform with
--                 token accounts, a system program and codecs written out (Chain).
--
-- Bounds: u64 and u128 values are natural numbers, and each operation of the source that can leave
-- the range has its test. A theorem that needs a value in range says so. There is no fuel: the
-- program has no loops but those over the lists of extensions and of bytes.
--
-- What the theorems of Ledger and Builders rely on outside the repository are hypotheses by name:
-- `IsTokenProgram` (transfers and burns move exactly the amount, and touch nothing else),
-- `IsSystemProgram` (transfers of lamports, allocation and assignment), `ReadsBack` and
-- `ReadsInstruction` (the Borsh codecs), `HasSize` (a record has a fixed size in Borsh),
-- `SupplyFits` (the supply of a token is a u64), and `Presents` (the program gets the accounts of an
-- instruction in its order). The derived authority signs no transaction, since it has no private
-- key, and the accounts of an arena have distinct keys.
--
-- Not modelled: the entrypoint macro, logs and error messages, and the account lists of cross-program
-- calls. A failed instruction is taken to change nothing, as the runtime discards its writes. A
-- position account that has data, all of it zero, is in no layout: the program writes the version in
-- the step that creates the account, so that it leaves none.
pub mod Prelude
pub mod Result
pub mod Checked
pub mod State
pub mod Rewards
pub mod Penalty
pub mod Policy
pub mod Stake
pub mod Operations
pub mod Platform
pub mod Accounts
pub mod Tokens
pub mod Processor
pub mod Arena
pub mod Ledger
pub mod Builders
pub mod Tests
