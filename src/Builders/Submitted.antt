-- ===== src/Builders/Submitted.antt =====
-- instruction.rs and processor.rs together: what an instruction that a client builds does to the
-- arena when it is submitted.
use arena_contract_sol.Prelude.{
  ℕ, ◌≡◌, false, true, Option, none, some, List, [], ◌∷◌, ◌==◌, get_elem?, length, refl, sym, ap,
  subst, ◌∙◌,
}
use mathlib.Core.Option
use mathlib.Core.Option.{some-injective}
use arena_contract_sol.Result.{ok}
use arena_contract_sol.State.{Pubkey}
use arena_contract_sol.Platform
use arena_contract_sol.Platform.{
  Platform, World, AccountInfo, AccountMeta, Instruction, ArenaInstruction,
}
use arena_contract_sol.Accounts.{config_pda, position_pda, data_is_empty}
use arena_contract_sol.Accounts.RoundTrip.{ReadsBack}
use arena_contract_sol.Processor.{process_instruction, dispatch}
use arena_contract_sol.Arena.{Arena, withdraw_at, claim_at, deposit_at, open_position}
use arena_contract_sol.Ledger.{
  Layout, IsDistinct, IsTokenProgram, IsSystemProgram, SupplyFits, Represents,
}
use arena_contract_sol.Ledger.Loads.{Refined}
use arena_contract_sol.Ledger.Exits.{process_withdraw-refines}
use arena_contract_sol.Ledger.Claims.{process_claim_rewards-refines}
use arena_contract_sol.Ledger.Openings.{with_position, process_deposit-opens}
use arena_contract_sol.Builders
use arena_contract_sol.Builders.{built, process_arena_lock_instruction}

-- The program gets the accounts of an instruction in its order, each under its key.
abbrev pub Presents : List AccountMeta → List AccountInfo → Type 0
Presents [] [] = Unit
Presents [] (a ∷ rest) = ⊥
Presents (m ∷ ms) [] = ⊥
Presents (m ∷ ms) (a ∷ rest) = (a.key ≡ m.pubkey) × Presents ms rest

-- What is written as an instruction is read as it.
abbrev pub ReadsInstruction : Platform → Type 0
ReadsInstruction pf =
    (x : ArenaInstruction) (bytes : List ℕ)
    → pf.serialize_instruction x ≡ some bytes
    → pf.deserialize_instruction bytes ≡ some x

encoded_as :
    (o : Option (List ℕ)) (f : List ℕ → Instruction) (ix : Instruction)
    → Option.map f o ≡ some ix
    → (bytes : List ℕ) × (o ≡ some bytes) × (f bytes ≡ ix)
encoded_as none f ix e = cc
encoded_as (some bytes) f ix e = (bytes, refl, some-injective _ _ e)

module _ (pf : Platform) (codec : ReadsInstruction pf) (program_id : Pubkey) where
  -- The program gets the accounts of a built instruction and does what it was built for.
  pub submitted :
      (metas : List AccountMeta) (x : ArenaInstruction) (ix : Instruction) (w : World)
      (infos : List AccountInfo)
      → built pf program_id metas x ≡ some ix
      → Presents ix.accounts infos
      → Presents metas infos
        × (dispatch pf program_id w infos x
            ≡ process_arena_lock_instruction pf program_id w infos ix.bytes)
  unfolding process_arena_lock_instruction process_instruction
  submitted metas x ix w infos e shows =
      let (bytes, wrote, made) =
        encoded_as (pf.serialize_instruction x)
          (λ b. record { program_id = program_id; accounts = metas; bytes = b }) ix e in
      (
        subst (λ ms. Presents ms infos) (ap (λ (y : Instruction). y.accounts) (sym made)) shows,
        rw (sym made, codec x bytes wrote) refl,
      )

module _ (pf : Platform) (codec : ReadsInstruction pf) (program_id : Pubkey)
    (laws : IsTokenProgram pf) (config_codec : ReadsBack pf.serialize_config pf.deserialize_config)
    (position_codec : ReadsBack pf.serialize_position pf.deserialize_position) (l : Layout)
    (distinct : IsDistinct program_id l) (w w' : World) (a : Arena)
    (h : Represents pf program_id l w a) (authority : Pubkey) (config_id : ℕ)
    (of_arena : (config_pda pf program_id authority config_id).0 ≡ l.config) where
  -- Given codecs of the records and of the instructions that read back what they write, a token
  -- program that moves exactly the amounts asked for, and a layout of distinct keys whose
  -- accounts hold an arena, whose config has the address derived from the authority and id given
  -- to the builder: when the built withdrawal is submitted with its accounts in order and
  -- succeeds, for an owner that is not the derived authority and whose derived position is the
  -- `i`-th, `withdraw_at` succeeds on that position with the same amount at the time of the
  -- clock, and the accounts of the layout hold the resulting arena afterwards.
  pub withdraw-Refined :
      (owner owner_tokens vault pool mint token_program : Pubkey) (i amount : ℕ) (ix : Instruction)
      (o ot c p v au po m tp : AccountInfo)
      → get_elem? l.positions i ≡ some (position_pda pf program_id l.config owner).0
      → (owner == l.authority) ≡ false
      → arena_contract_sol.Builders.withdraw pf program_id authority config_id owner owner_tokens
          vault pool mint token_program amount
        ≡ some ix
      → Presents ix.accounts (o ∷ ot ∷ c ∷ p ∷ v ∷ au ∷ po ∷ m ∷ tp ∷ [])
      → process_arena_lock_instruction pf program_id w
          (o ∷ ot ∷ c ∷ p ∷ v ∷ au ∷ po ∷ m ∷ tp ∷ [])
          ix.bytes
        ≡ ok w'
      → Refined pf program_id l w' (withdraw_at w.now i amount a)
  unfolding arena_contract_sol.Builders.withdraw dispatch
  withdraw-Refined owner owner_tokens vault pool mint token_program i amount ix o ot c p v au po m
        tp at other builds shows e =
      let (shown, same) =
        submitted pf codec program_id _ (arena_contract_sol.Platform.withdraw amount) ix w
          (o ∷ ot ∷ c ∷ p ∷ v ∷ au ∷ po ∷ m ∷ tp ∷ []) builds shows in
      let (is_owner, (_, (is_config, (is_position, _)))) = shown in
      process_withdraw-refines pf program_id laws config_codec position_codec l distinct w w' a h o
        ot c p v au po m tp [] i amount (is_config ∙ of_arena)
        (at
          ∙ ap (λ k. some ((position_pda pf program_id k owner).0)) (sym of_arena)
          ∙ ap some (sym is_position))
        (rw is_owner other) (same ∙ e)

  -- Given codecs of the records and of the instructions that read back what they write, a token
  -- program that moves exactly the amounts asked for, and a layout of distinct keys whose
  -- accounts hold an arena, whose config has the address derived from the authority and id given
  -- to the builder: when the built claim is submitted with its accounts in order and succeeds,
  -- for an owner that is not the derived authority and whose derived position is the `i`-th,
  -- `claim_at` succeeds on that position at the time of the clock, and the accounts of the layout
  -- hold the resulting arena afterwards.
  pub claim_rewards-Refined :
      (owner owner_tokens pool mint token_program : Pubkey) (i : ℕ) (ix : Instruction)
      (o ot c p po au m tp : AccountInfo)
      → get_elem? l.positions i ≡ some (position_pda pf program_id l.config owner).0
      → (owner == l.authority) ≡ false
      → arena_contract_sol.Builders.claim_rewards pf program_id authority config_id owner
          owner_tokens pool mint token_program
        ≡ some ix
      → Presents ix.accounts (o ∷ ot ∷ c ∷ p ∷ po ∷ au ∷ m ∷ tp ∷ [])
      → process_arena_lock_instruction pf program_id w
          (o ∷ ot ∷ c ∷ p ∷ po ∷ au ∷ m ∷ tp ∷ [])
          ix.bytes
        ≡ ok w'
      → Refined pf program_id l w' (claim_at w.now i a)
  unfolding arena_contract_sol.Builders.claim_rewards dispatch
  claim_rewards-Refined owner owner_tokens pool mint token_program i ix o ot c p po au m tp at other
        builds shows e =
      let (shown, same) =
        submitted pf codec program_id _ arena_contract_sol.Platform.claim_rewards ix w
          (o ∷ ot ∷ c ∷ p ∷ po ∷ au ∷ m ∷ tp ∷ []) builds shows in
      let (is_owner, (_, (is_config, (is_position, _)))) = shown in
      process_claim_rewards-refines pf program_id laws config_codec position_codec l distinct w w' a
        h o ot c p po au m tp [] i (is_config ∙ of_arena)
        (at
          ∙ ap (λ k. some ((position_pda pf program_id k owner).0)) (sym of_arena)
          ∙ ap some (sym is_position))
        (rw is_owner other) (same ∙ e)

  -- Given codecs of the records and of the instructions that read back what they write, a token
  -- program that moves exactly the amounts asked for, and a layout of distinct keys whose
  -- accounts hold an arena, whose config has the address derived from the authority and id given
  -- to the builder: given also a system program that creates accounts as documented and is
  -- neither the own program nor the token program, when the built deposit is submitted with its
  -- accounts in order and succeeds, for an owner that is not the derived authority, whose derived
  -- position account is without data, and whose balance and the two custody balances add up to
  -- less than 2 ^ 64, `deposit_at` succeeds with the same amount on a fresh position of that
  -- owner at the end of the list, and the accounts of the layout with the new position account
  -- hold the resulting arena afterwards.
  pub deposit-Refined :
      (system : IsSystemProgram pf) (owner owner_tokens vault mint token_program : Pubkey)
      (amount : ℕ) (ix : Instruction) (o ot c p v au m tp sp : AccountInfo)
      → data_is_empty (w.cell (position_pda pf program_id l.config owner).0).bytes ≡ true
      → (program_id == pf.system_program_id) ≡ false
      → (l.token_program == pf.system_program_id) ≡ false
      → (owner == l.authority) ≡ false
      → SupplyFits pf l w owner_tokens owner
      → arena_contract_sol.Builders.deposit pf program_id authority config_id owner owner_tokens
          vault mint token_program amount
        ≡ some ix
      → Presents ix.accounts (o ∷ ot ∷ c ∷ p ∷ v ∷ au ∷ m ∷ tp ∷ sp ∷ [])
      → process_arena_lock_instruction pf program_id w
          (o ∷ ot ∷ c ∷ p ∷ v ∷ au ∷ m ∷ tp ∷ sp ∷ [])
          ix.bytes
        ≡ ok w'
      → Refined pf program_id (with_position l p.key) w' (
          deposit_at w.now
            (length a.positions)
            amount
            (open_position l.config owner w.now (position_pda pf program_id l.config owner).1 a))
  unfolding arena_contract_sol.Builders.deposit dispatch
  deposit-Refined system owner owner_tokens vault mint token_program amount ix o ot c p v au m tp sp
        empty own_program own_tokens other supply builds shows e =
      let (shown, same) =
        submitted pf codec program_id _ (arena_contract_sol.Platform.deposit amount) ix w
          (o ∷ ot ∷ c ∷ p ∷ v ∷ au ∷ m ∷ tp ∷ sp ∷ []) builds shows in
      let (is_owner, (is_tokens, (is_config, (is_position, _)))) = shown in
      let at : p.key ≡ (position_pda pf program_id l.config owner).0 =
        is_position ∙ ap (λ k. (position_pda pf program_id k owner).0) of_arena in
      subst
        (λ k. Refined pf program_id (with_position l p.key) w' (
          deposit_at w.now (length a.positions) amount
            (open_position l.config k w.now (position_pda pf program_id l.config k).1 a)))
        is_owner
        (process_deposit-opens pf program_id laws system config_codec position_codec l distinct w w'
          a h o ot c p v au m tp sp [] amount (is_config ∙ of_arena) (rw at empty) own_program
          own_tokens (rw is_owner other) (rw (is_tokens, is_owner) supply) (same ∙ e))
