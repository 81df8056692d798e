-- ===== src/Ledger/Custody.antt =====
-- The movements of tokens out of custody, as changes of the two balances.
use arena_contract_sol.Prelude.{
  [], ℕ, ◌+◌, ◌-◌, ◌≡◌, ◌||◌, ◌⊎◌, inl, inr, false, ◌==◌, arith, refl, sym, ap, subst, ◌∙◌,
  Bool-cases, ==_iff,
}
use arena_contract_sol.Result.{ok, >>=-elim, ok-injective}
use arena_contract_sol.State.{Pubkey, ArenaConfig, ArenaPosition}
use arena_contract_sol.Platform.{Platform, World, AccountInfo, Cpi}
use arena_contract_sol.Tokens.{
  CustodyKeys, signer_seeds, transfer_checked_ix, burn_checked_ix,
  transfer_from_program_token_account, burn_from_vault, pay_pending_rewards,
}
use arena_contract_sol.Arena.{Arena, debit, pay_pending}
use arena_contract_sol.Ledger.{Layout, IsDistinct, Moved, Burned, IsTokenProgram, Represents}
use arena_contract_sol.Arena.Frame.{debit_total}
use arena_contract_sol.Ledger.Moves.{==_flip}
use arena_contract_sol.Ledger.Names.{SameKeys, record_claim-SameKeys}
use arena_contract_sol.Ledger.Steps.{
  IsOutside, from_vault-Represents, from_pool-Represents, vault_to_pool-Represents,
  burn_vault-Represents, burn_pool-Represents,
}

module _ (pf : Platform) (laws : IsTokenProgram pf) (w w' : World) (k : CustodyKeys) where
  sent-Moved :
      (source destination : AccountInfo) (n : ℕ)
      → (source.key == destination.key) ≡ false
      → transfer_from_program_token_account pf w k source destination n ≡ ok w'
      → ((n ≡ 0) × (w ≡ w')) ⊎ Moved pf k.token_program.key source.key destination.key n w w'
  unfolding transfer_from_program_token_account transfer_checked_ix
  sent-Moved source destination n apart e = elim (Bool-cases (n == 0)) [
    | inl none ↦ inl ((==_iff n 0).0 none, ok-injective _ _ (rw none at e))
    | inr some ↦
        elim (Bool-cases
          (k.token_program.key == pf.spl_token_id || k.token_program.key == pf.spl_token_2022_id)) [
            | inl program ↦ inr (
                laws.transfer k.token_program.key source.key k.mint.key destination.key
                  k.vault_authority.key n k.decimals (signer_seeds k) w w' apart
                  (rw (some, program) at e))
            | inr other ↦ cc (some, other, e)
          ]
  ]

  burnt-Burned :
      (account : AccountInfo) (n : ℕ)
      → (account.key == k.mint.key) ≡ false
      → burn_from_vault pf w k account n ≡ ok w'
      → ((n ≡ 0) × (w ≡ w')) ⊎ Burned pf k.token_program.key account.key k.mint.key n w w'
  unfolding burn_from_vault burn_checked_ix
  burnt-Burned account n apart e = elim (Bool-cases (n == 0)) [
    | inl none ↦ inl ((==_iff n 0).0 none, ok-injective _ _ (rw none at e))
    | inr some ↦
        elim (Bool-cases
          (k.token_program.key == pf.spl_token_id || k.token_program.key == pf.spl_token_2022_id)) [
            | inl program ↦ inr (
                laws.burn k.token_program.key account.key k.mint.key k.vault_authority.key n
                  k.decimals (signer_seeds k) w w' apart (rw (some, program) at e))
            | inr other ↦ cc (some, other, e)
          ]
  ]

-- A transfer that a user signs into an account of custody.
pub sent_in-Moved :
    (pf : Platform) (laws : IsTokenProgram pf) (l : Layout) (w w' : World)
    (token_program source mint destination signer : AccountInfo) (target : Pubkey) (n decimals : ℕ)
    {ix : Cpi}
    → token_program.key ≡ l.token_program
    → destination.key ≡ target
    → (target == source.key) ≡ false
    → transfer_checked_ix pf token_program.key source.key mint.key destination.key signer.key n
        decimals []
      ≡ ok ix
    → pf.invoke ix w ≡ ok w'
    → Moved pf l.token_program source.key target n w w'
unfolding transfer_checked_ix
sent_in-Moved pf laws l w w' token_program source mint destination signer target n decimals program
      at apart built e =
    elim (Bool-cases
      (token_program.key == pf.spl_token_id || token_program.key == pf.spl_token_2022_id)) [
        | inl known ↦
            let is = ok-injective _ _ (rw known at built) in
            rw (sym at, sym program)
              (laws.transfer token_program.key source.key mint.key destination.key signer.key n
                decimals [] w w' (rw at (==_flip target source.key apart))
                (ap (λ x. pf.invoke x w) is ∙ e))
        | inr other ↦ cc (other, built)
      ]

-- An arena whose balances have paid `n`, as the records hold it afterwards.
pub record PaidOut (pf : Platform) (program_id : Pubkey) (l : Layout) (w w' : World) (balance n : ℕ)
    (b : Arena) : Type 0 where
  pub paid : debit balance n ≡ ok (balance - n)
  pub holds : Represents pf program_id l w' b
  pub clock : w'.now ≡ w.now

module _ (pf : Platform) (program_id : Pubkey) (laws : IsTokenProgram pf) (l : Layout)
    (distinct : IsDistinct program_id l) (w w' : World) (a : Arena)
    (h : Represents pf program_id l w a) (k : CustodyKeys)
    (program : k.token_program.key ≡ l.token_program) (n : ℕ) where
  nothing_paid :
      (balance : ℕ) (f : ℕ → Arena)
      → f balance ≡ a
      → n ≡ 0
      → w ≡ w'
      → PaidOut pf program_id l w w' balance n (f (balance - n))
  nothing_paid balance f same none still =
      let left : balance - n ≡ balance = omega arith in
      record {
        paid = ground (arith, none);
        holds =
            subst (λ v. Represents pf program_id l v (f (balance - n))) still (rw (left, same) h);
        clock = ap (λ v. v.now) (sym still);
      }

  pub send_from_vault :
      (source destination : AccountInfo)
      → source.key ≡ l.vault
      → IsOutside l destination.key
      → transfer_from_program_token_account pf w k source destination n ≡ ok w'
      → PaidOut pf program_id l w w' a.vault n (record a { vault = a.vault - n })
  send_from_vault source destination at out e =
      elim (sent-Moved pf laws w w' k source destination n (rw at out.1.0) e) [
        | inl (none, still) ↦ nothing_paid a.vault (λ v. record a { vault = v }) refl none still
        | inr m ↦
            let m' : Moved pf l.token_program l.vault destination.key n w w' =
              rw (sym at, sym program) m in
            let (enough, holds) =
              from_vault-Represents pf program_id l distinct w w' a h destination.key n out m' in
            record { paid = debit_total a.vault n enough; holds = holds; clock = m'.clock }
      ]

  pub send_from_pool :
      (source destination : AccountInfo)
      → source.key ≡ l.pool
      → IsOutside l destination.key
      → transfer_from_program_token_account pf w k source destination n ≡ ok w'
      → PaidOut pf program_id l w w' a.pool n (record a { pool = a.pool - n })
  send_from_pool source destination at out e =
      elim (sent-Moved pf laws w w' k source destination n (rw at out.1.1.0) e) [
        | inl (none, still) ↦ nothing_paid a.pool (λ v. record a { pool = v }) refl none still
        | inr m ↦
            let m' : Moved pf l.token_program l.pool destination.key n w w' =
              rw (sym at, sym program) m in
            let (enough, holds) =
              from_pool-Represents pf program_id l distinct w w' a h destination.key n out m' in
            record { paid = debit_total a.pool n enough; holds = holds; clock = m'.clock }
      ]

  pub send_to_pool :
      (source destination : AccountInfo)
      → source.key ≡ l.vault
      → destination.key ≡ l.pool
      → transfer_from_program_token_account pf w k source destination n ≡ ok w'
      → PaidOut pf program_id l w w' a.vault n (record a { vault = a.vault - n; pool = a.pool + n })
  send_to_pool source destination at to e =
      elim (sent-Moved pf laws w w' k source destination n
        (rw (at, to) (==_flip l.pool l.vault distinct.keys.1.0.0)) e) [
          | inl (none, still) ↦
              subst
                (λ m.
                  PaidOut pf program_id l w w' a.vault n
                    (record a { vault = a.vault - n; pool = m }))
                (omega (arith, none))
                (nothing_paid a.vault (λ v. record a { vault = v }) refl none still)
          | inr m ↦
              let m' : Moved pf l.token_program l.vault l.pool n w w' =
                rw (sym at, sym to, sym program) m in
              let (enough, holds) =
                vault_to_pool-Represents pf program_id l distinct w w' a h n m' in
              record { paid = debit_total a.vault n enough; holds = holds; clock = m'.clock }
        ]

  pub burn_of_vault :
      (account : AccountInfo)
      → account.key ≡ l.vault
      → k.mint.key ≡ l.mint
      → burn_from_vault pf w k account n ≡ ok w'
      → PaidOut pf program_id l w w' a.vault n (record a { vault = a.vault - n })
  burn_of_vault account at minted e =
      elim (burnt-Burned pf laws w w' k account n (rw (at, minted) distinct.mint.1.0) e) [
        | inl (none, still) ↦ nothing_paid a.vault (λ v. record a { vault = v }) refl none still
        | inr m ↦
            let m' : Burned pf l.token_program l.vault l.mint n w w' =
              rw (sym at, sym minted, sym program) m in
            let (enough, holds) = burn_vault-Represents pf program_id l distinct w w' a h n m' in
            record { paid = debit_total a.vault n enough; holds = holds; clock = m'.clock }
      ]

  pub burn_of_pool :
      (account : AccountInfo)
      → account.key ≡ l.pool
      → k.mint.key ≡ l.mint
      → burn_from_vault pf w k account n ≡ ok w'
      → PaidOut pf program_id l w w' a.pool n (record a { pool = a.pool - n })
  burn_of_pool account at minted e =
      elim (burnt-Burned pf laws w w' k account n (rw (at, minted) distinct.mint.1.1.0) e) [
        | inl (none, still) ↦ nothing_paid a.pool (λ v. record a { pool = v }) refl none still
        | inr m ↦
            let m' : Burned pf l.token_program l.pool l.mint n w w' =
              rw (sym at, sym minted, sym program) m in
            let (enough, holds) = burn_pool-Represents pf program_id l distinct w w' a h n m' in
            record { paid = debit_total a.pool n enough; holds = holds; clock = m'.clock }
      ]

-- A payment of pending rewards is that of the arena, out of the pool.
pub record Payment (pf : Platform) (program_id : Pubkey) (l : Layout) (w w' : World) (a : Arena)
    (c : ArenaConfig) (p : ArenaPosition) (t : ArenaConfig × ArenaPosition) : Type 0 where
  pub left : ℕ
  pub paid : pay_pending a.pool c p ≡ ok (left, t.0, t.1)
  pub holds : Represents pf program_id l w' (record a { pool = left })
  pub clock : w'.now ≡ w.now
  pub keys : SameKeys c t.0

module _ (pf : Platform) (program_id : Pubkey) (laws : IsTokenProgram pf) (l : Layout)
    (distinct : IsDistinct program_id l) (w : World) (a : Arena)
    (h : Represents pf program_id l w a) (k : CustodyKeys)
    (program : k.token_program.key ≡ l.token_program) where
  pub pay_pending_rewards-Payment :
      (pool destination : AccountInfo) (c : ArenaConfig) (p : ArenaPosition)
      (t : World × ArenaConfig × ArenaPosition)
      → pool.key ≡ l.pool
      → IsOutside l destination.key
      → pay_pending_rewards pf w k pool destination c p ≡ ok t
      → Payment pf program_id l w t.0 a c p (t.1, t.2)
  unfolding pay_pending_rewards pay_pending
  pay_pending_rewards-Payment pool destination c p t at out e =
      elim (Bool-cases (p.pending_rewards == 0)) [
        | inl none ↦
            let same : (w, c, p) ≡ t = ok-injective _ _ (rw none at e) in
            subst (λ u. Payment pf program_id l w u.0 a c p (u.1, u.2)) same
              (record {
                left = a.pool;
                paid = rw none refl;
                holds = h;
                clock = refl;
                keys = ground arith;
              })
        | inr due ↦
            >>=-elim (transfer_from_program_token_account pf w k pool destination p.pending_rewards)
              _ (rw due at e)
              λ w₁ sent done.
                let out =
                  send_from_pool pf program_id laws l distinct w w₁ a h k program p.pending_rewards
                    pool destination at out sent in
                subst (λ u. Payment pf program_id l w u.0 a c p (u.1, u.2)) (ok-injective _ _ done)
                  (record {
                    left = a.pool - p.pending_rewards;
                    paid = rw (due, out.paid) refl;
                    holds = out.holds;
                    clock = out.clock;
                    keys = record_claim-SameKeys c p;
                  })
      ]
