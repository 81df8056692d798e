-- ===== src/Ledger/Burning.antt =====
-- processor.rs: `burn_reward_pool_balance`, and the final burn of an arena.
use arena_contract_sol.Prelude.{
  ◌≡◌, ◌==◌, arith, sym, ap, subst, ◌∙◌, Bool-cases, inl, inr, if◌then◌else◌,
}
use arena_contract_sol.Result.{ok, >>=-elim, ok-injective}
use arena_contract_sol.State.{Pubkey, ArenaConfig}
use arena_contract_sol.Platform.{Platform, World, AccountInfo}
use arena_contract_sol.Tokens.{
  CustodyKeys, TokenAccountView, unpack_token_account, burn_from_vault, burn_reward_pool_balance,
}
use arena_contract_sol.Operations.Earn.{record_expired}
use arena_contract_sol.Arena.{Arena}
use arena_contract_sol.Ledger.{Layout, IsDistinct, IsTokenProgram, Represents, plain}
use arena_contract_sol.Ledger.Names.{SameKeys, record_expired-SameKeys}
use arena_contract_sol.Ledger.Custody.{burn_of_pool}

-- The arena after the burn of whatever is in the pool.
pub record Emptied (pf : Platform) (program_id : Pubkey) (l : Layout) (a : Arena)
    (t : World × ArenaConfig) : Type 0 where
  pub acted :
      (if a.pool == 0
        then ok a
        else ok (record a { config = record_expired a.config a.pool; pool = 0 }))
      ≡ ok (record a { config = t.1; pool = 0 })
  pub holds : Represents pf program_id l t.0 (record a { pool = 0 })
  pub keys : SameKeys a.config t.1

module _ (pf : Platform) (program_id : Pubkey) (laws : IsTokenProgram pf) (l : Layout)
    (distinct : IsDistinct program_id l) (w : World) (a : Arena)
    (h : Represents pf program_id l w a) (k : CustodyKeys)
    (program : k.token_program.key ≡ l.token_program) where
  pool_amount :
      (pool : AccountInfo) (v : TokenAccountView)
      → pool.key ≡ l.pool
      → unpack_token_account pf w k.token_program.key pool ≡ ok v
      → v.amount ≡ a.pool
  unfolding unpack_token_account
  pool_amount pool v at is =
      let (v', is', _, amount) = h.pool in
      let here : unpack_token_account pf w k.token_program.key (plain pool.key) ≡ ok v = is in
      let there : unpack_token_account pf w l.token_program (plain l.pool) ≡ ok v =
        ap (λ x. unpack_token_account pf w l.token_program (plain x)) (sym at)
        ∙ ap (λ x. unpack_token_account pf w x (plain pool.key)) (sym program)
        ∙ here in
      ap (λ x. x.amount) (ok-injective _ _ (sym there ∙ is')) ∙ amount

  pub burn_reward_pool_balance-Emptied :
      (pool : AccountInfo) (t : World × ArenaConfig)
      → pool.key ≡ l.pool
      → k.mint.key ≡ l.mint
      → burn_reward_pool_balance pf w k pool a.config ≡ ok t
      → Emptied pf program_id l a t
  unfolding burn_reward_pool_balance
  burn_reward_pool_balance-Emptied pool t at minted e =
      >>=-elim (unpack_token_account pf w k.token_program.key pool) _ e λ v unpacked e.
        let amount = pool_amount pool v at unpacked in
        elim (Bool-cases (v.amount == 0)) [
          | inl none ↦
              let zero_pool : a.pool ≡ 0 = ground (arith, amount, none) in
              subst (Emptied pf program_id l a) (ok-injective _ _ (rw none at e)) (record {
                acted = ground (arith, zero_pool);
                holds =
                    subst (λ n. Represents pf program_id l w (record a { pool = n })) zero_pool h;
                keys = ground arith;
              })
          | inr some ↦
              >>=-elim (burn_from_vault pf w k pool v.amount) _ (rw some at e) λ w₁ burned done.
                let out =
                  burn_of_pool pf program_id laws l distinct w w₁ a h k program v.amount pool at
                    minted burned in
                subst (Emptied pf program_id l a) (ok-injective _ _ done) (record {
                  acted = ground (arith, amount, some);
                  holds =
                      subst (λ n. Represents pf program_id l w₁ (record a { pool = n }))
                        (omega (arith, amount)) out.holds;
                  keys = record_expired-SameKeys a.config v.amount;
                })
        ]
